-- ===== src/Log/Header.antt =====
-- log.c: what `read_head` and `write_head` do with the header block.
use cs461_mlfq_scheduler.Log.{Block, Store, Log, bread, read_words, write_words, write_head}
use cs461_mlfq_scheduler.Log.Loops.{bwrite_ne, bread-bwrite, disk-bwrite, disk-bwrite_off}
use cs461_mlfq_scheduler.Base.{
  ltb, leb, if◌then◌else◌, update, ℕ, zero, suc, ◌+◌, ◌-◌, ◌<◌, ◌≡◌, refl, sym, ap, ◌∙◌, ◌≢◌, ◌&&◌,
  arith,
}

-- `block[j]` behind the loop of `read_head`.
pub read_words_lem :
    (k i : ℕ) (x : Block) (block : ℕ → ℕ) (j : ℕ)
    → read_words k i x block j ≡ (if leb i j && ltb j (i + k) then x (j + 1) else block j)
unfolding read_words
read_words_lem zero i x block j = ground arith
read_words_lem (suc k) i x block j =
    read_words_lem k (i + 1) x (update block i (x (i + 1))) j ∙ ground arith

-- Word `w` of the header behind the loop of `write_head`.
pub write_words_lem :
    (k i : ℕ) (block : ℕ → ℕ) (x : Block) (w : ℕ)
    → write_words k i block x w ≡ (if ltb i w && ltb w (i + 1 + k) then block (w - 1) else x w)
unfolding write_words
write_words_lem zero i block x w = ground arith
write_words_lem (suc k) i block x w =
    write_words_lem k (i + 1) block (update x (i + 1) (block i)) w ∙ ground arith

-- The data of the header that `write_head` writes.
pub write_head_words :
    (log : Log) (st : Store)
    → (bread (write_head log st) log.start 0 ≡ log.n)
      × ((t : ℕ) → t < log.n → bread (write_head log st) log.start (t + 1) ≡ log.block t)
unfolding write_head
write_head_words log st =
    let x = update (bread st log.start) 0 log.n in
    let same = bread-bwrite log.start (write_words log.n 0 log.block x) st in
    (
      ap (λ y. y 0) same ∙ write_words_lem log.n 0 log.block x 0 ∙ ground arith,
      λ t h. ap (λ y. y (t + 1)) same ∙ write_words_lem log.n 0 log.block x (t + 1) ∙ ground arith,
    )

-- `write_head` writes the header alone.
pub write_head_elsewhere :
    (log : Log) (st : Store) (a : ℕ)
    → log.start ≢ a
    → ((write_head log st).disk a ≡ st.disk a) × ((write_head log st).cache a ≡ st.cache a)
unfolding write_head
write_head_elsewhere log st a ne =
    bwrite_ne log.start a (write_words log.n 0 log.block (update (bread st log.start) 0 log.n)) st
      ne

pub power-write_head : (log : Log) (st : Store) → (write_head log st).power ≡ st.power - 1
unfolding write_head
power-write_head log st = refl

-- With power the header on disk is the one in the cache; without, the disk stays as it is.
pub disk-write_head :
    (log : Log) (st : Store)
    → (0 < st.power → (write_head log st).disk log.start ≡ bread (write_head log st) log.start)
      × (st.power ≡ 0 → (write_head log st).disk ≡ st.disk)
unfolding write_head
disk-write_head log st =
    let x = write_words log.n 0 log.block (update (bread st log.start) 0 log.n) in
    (
      λ pow. disk-bwrite log.start x st pow ∙ sym (bread-bwrite log.start x st),
      λ off. disk-bwrite_off log.start x st off,
    )
