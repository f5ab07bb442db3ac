-- ===== src/Log.antt =====
-- log.c: the redo log, over a disk that loses power after some number of writes.
pub mod Header
pub mod Loops
pub mod Crash
pub mod Recovery
pub mod Commit
pub mod Space
pub mod Reserve
use cs461_mlfq_scheduler.Base.{
  ltb, leb, ◌==◌, if◌then◌else◌, Result, u32, update, ok, panic, ℕ, zero, suc, ◌+◌, ◌-◌, ◌*◌, ◌^◌,
  Bool, true, false, ◌||◌, Option, none, some,
}

abbrev pub maxopblocks : ℕ
maxopblocks = 10

abbrev pub logsize : ℕ
logsize = 30

-- A block as its words; the header's are `n` and then `block[]`.
abbrev pub Block : Type 0
Block = ℕ → ℕ

-- The buffer cache and the disk. Of the writes to come the first `power` reach the disk; behind
-- them the machine is off. `dirty` is B_DIRTY.
pub record Store : Type 0 where
  pub cache : ℕ → Option Block
  pub dirty : ℕ → Bool
  pub disk : ℕ → Block
  pub power : ℕ

-- `struct log` without its lock and device, with `struct logheader` opened.
pub record Log : Type 0 where
  pub start : ℕ
  pub size : ℕ
  pub outstanding : ℕ
  pub committing : Bool
  pub n : ℕ
  pub block : ℕ → ℕ

-- The data of the buffer that `bread` returns: the copy that `bget` finds, or what `iderw` reads.
abbrev pub bread : Store → ℕ → Block
bread st b = elim (st.cache b) [ none ↦ st.disk b | some x ↦ x ]

-- `bwrite` of a buffer that `bread` has locked, with the data `x`, which `iderw` writes.
abbrev pub bwrite : ℕ → Block → Store → Store
bwrite b x st = record st {
  cache = update st.cache b (some x);
  dirty = update st.dirty b false;
  disk = if st.power == 0 then st.disk else update st.disk b x;
  power = st.power - 1;
}

-- The loop of `install_trans` from `tail` on, for `k` rounds.
unfoldable pub install_loop : ℕ → ℕ → Log → Store → Store
install_loop zero tail log st = st
install_loop (suc k) tail log st =
    install_loop k (tail + 1) log (bwrite (log.block tail) (bread st (log.start + tail + 1)) st)

unfoldable pub install_trans : Log → Store → Store
unfolding install_loop
install_trans log st = install_loop log.n 0 log st

-- The loop of `read_head`, which fills `block[i]` from the header's words.
unfoldable pub read_words : ℕ → ℕ → Block → (ℕ → ℕ) → ℕ → ℕ
read_words zero i x block = block
read_words (suc k) i x block = read_words k (i + 1) x (update block i (x (i + 1)))

unfoldable pub read_head : Log → Store → Log
unfolding read_words
read_head log st =
    let x = bread st log.start in record log { n = x 0; block = read_words (x 0) 0 x log.block }

-- The loop of `write_head`, which fills the header's words from `block[i]`.
unfoldable pub write_words : ℕ → ℕ → (ℕ → ℕ) → Block → Block
write_words zero i block x = x
write_words (suc k) i block x = write_words k (i + 1) block (update x (i + 1) (block i))

unfoldable pub write_head : Log → Store → Store
unfolding write_words
write_head log st =
    bwrite log.start (write_words log.n 0 log.block (update (bread st log.start) 0 log.n)) st

unfoldable pub recover_from_log : Log → Store → Log × Store
unfolding read_head install_trans write_head
recover_from_log log st =
    let read = read_head log st in
    let empty = record read { n = 0 } in (empty, write_head empty (install_trans read st))

-- `initlog`, of a superblock with `logstart` and `nlog`, by a machine that has just been started.
unfoldable pub initlog : ℕ → ℕ → Store → Log × Store
unfolding recover_from_log
initlog logstart nlog st =
    recover_from_log
      (record {
        start = logstart;
        size = nlog;
        outstanding = 0;
        committing = false;
        n = 0;
        block = λ _. 0;
      })
      st

-- One round of `begin_op`: whether the operation is admitted; if not, it sleeps and tries again.
unfoldable pub begin_round : Log → Bool × Log
begin_round log =
    if log.committing
    then (false, log)
    else if ltb logsize (log.n + (log.outstanding + 1) * maxopblocks)
    then (false, log)
    else (true, record log { outstanding = log.outstanding + 1 })

-- `end_op` up to its first `release`: whether to commit. `outstanding` is an `int`.
unfoldable pub end_round : Log → Result (Bool × Log)
end_round log =
    let less = record log { outstanding = u32 (log.outstanding + 2 ^ 32 - 1) } in
    if log.committing
    then panic "log.committing"
    else if less.outstanding == 0
    then ok (true, record less { committing = true })
    else ok (false, less)

-- The loop of `write_log` from `tail` on, for `k` rounds.
unfoldable pub write_log_loop : ℕ → ℕ → Log → Store → Store
write_log_loop zero tail log st = st
write_log_loop (suc k) tail log st =
    write_log_loop k (tail + 1) log (bwrite (log.start + tail + 1) (bread st (log.block tail)) st)

unfoldable pub write_log : Log → Store → Store
unfolding write_log_loop
write_log log st = write_log_loop log.n 0 log st

unfoldable pub commit : Log → Store → Log × Store
unfolding write_log write_head install_trans
commit log st =
    let logged = write_head log (write_log log st) in
    let empty = record log { n = 0 } in
    if ltb 0 log.n then (empty, write_head empty (install_trans log logged)) else (log, st)

-- `end_op` behind the commit.
abbrev pub end_commit : Log → Log
end_commit log = record log { committing = false }

-- The search of `log_write` over `k` entries from `i` on: the first with the block's number.
unfoldable pub find_entry : ℕ → ℕ → (ℕ → ℕ) → ℕ → ℕ
find_entry zero i block b = i
find_entry (suc k) i block b =
    let next = find_entry k (i + 1) block b in if block i == b then i else next

-- `log_write`; its tests of the size and of `outstanding`, in front of `acquire`, are in the step.
unfoldable pub log_write : ℕ → Log → Store → Result (Log × Store)
unfolding find_entry
log_write b log st =
    if leb logsize log.n || leb (log.size - 1) log.n
    then panic "too big a transaction"
    else if ltb log.outstanding 1
    then panic "log_write outside of trans"
    else (let i = find_entry log.n 0 log.block b in
        ok (
          record log { block = update log.block i b; n = if i == log.n then log.n + 1 else log.n },
          record st { dirty = update st.dirty b true },
        ))
