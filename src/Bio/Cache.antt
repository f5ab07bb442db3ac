-- ===== src/Bio/Cache.antt =====
-- bio.c: the cache has a block at most once, and reuses what was used least recently.
use mathlib.Core.Path.{subst}
use native.Mathlib.Decide.{ℕ_discrete}
use cs461_mlfq_scheduler.Proc.{Chan, Proc}
use cs461_mlfq_scheduler.Sleeplock.{releasesleep}
use cs461_mlfq_scheduler.Bio.{
  Buf, Bcache, nbuf, binit, binit_loop, is_block, is_free, hold, recycle, find_cached, find_free,
  bget, unlink, brelse,
}
use cs461_mlfq_scheduler.Bio.Scan.{
  Has, NoneFree, find_cached-some, find_cached-none, find_free-some,
}
use cs461_mlfq_scheduler.Base.{
  ◌==◌, Bool-cases, Option-cases, update, ok, ℕ, zero, suc, ◌+◌, ◌<◌, ◌≡◌, refl, sym, ap, ◌∙◌, ◌⊎◌,
  inl, inr, true, false, List, [], ◌∷◌, ◌++◌, arith,
}

-- Two buffers of the list that have the same block are one, but for those that were never used.
abbrev pub IsCache : Bcache → Type 0
IsCache bc =
    (i j : ℕ)
    → Has bc.order i
    → Has bc.order j
    → 0 < (bc.buf i).dev
    → (bc.buf i).dev ≡ (bc.buf j).dev
    → (bc.buf i).blockno ≡ (bc.buf j).blockno
    → i ≡ j

-- What `bget` returns: the buffer that has the block already, with one more reference; or, if none
-- has it, the last of the list that is unused and clean.
pub data Gotten (dev blockno : ℕ) (bc : Bcache) (i : ℕ) (bc' : Bcache) : Type 0 where
  cached :
      is_block dev blockno (bc.buf i) ≡ true
      → bc' ≡ record bc { buf = update bc.buf i (hold (bc.buf i)) }
      → Gotten dev blockno bc i bc'
  recycled :
      (before after : List ℕ)
      → ((j : ℕ) → Has bc.order j → is_block dev blockno (bc.buf j) ≡ false)
      → bc.order ≡ before ++ i ∷ after
      → is_free (bc.buf i) ≡ true
      → NoneFree bc.buf after
      → bc' ≡ record bc { buf = update bc.buf i (recycle dev blockno (bc.buf i)) }
      → Gotten dev blockno bc i bc'

Has-middle : (before : List ℕ) (i : ℕ) (after : List ℕ) → Has (before ++ i ∷ after) i
Has-middle [] i after = (0, refl)
Has-middle (x ∷ before) i after = let (k, at) = Has-middle before i after in (suc k, at)

-- `bget`, if it comes back, returns a buffer of the list that has the block behind it: one
-- that had it before, with one reference more; or, if no buffer had it, the least recently used of
-- the buffers with no reference and no uncommitted data, which now has the block, no valid data and
-- one reference. No other buffer changes, and the order of the list stays.
pub bget_lem :
    (dev blockno : ℕ) (bc : Bcache) (i : ℕ) (bc' : Bcache)
    → bget dev blockno bc ≡ ok (i, bc')
    → Has bc.order i × Gotten dev blockno bc i bc'
unfolding bget
bget_lem dev blockno bc i bc' e = elim (Option-cases (find_cached dev blockno bc.buf bc.order)) [
  | inr (j, found) ↦
      let (has, here) = find_cached-some bc.buf dev blockno bc.order j found in
      let same : j ≡ i = ground arith in (rw (← same) has, cached (rw (← same) here) (ground arith))
  | inl none_ ↦ elim (Option-cases (find_free bc.buf bc.order)) [
    | inl full ↦ absurd (ground arith)
    | inr (j, found) ↦
        let (before, after, split, free, rest) = find_free-some bc.buf bc.order j found in
        let same : j ≡ i = ground arith in
        (
          subst (λ xs. Has xs i) (sym (split ∙ ap (λ x. before ++ x ∷ after) same))
              (Has-middle before i after),
          recycled before after (find_cached-none bc.buf dev blockno bc.order none_)
              (split ∙ ap (λ x. before ++ x ∷ after) same) (rw (← same) free) rest (ground arith),
        )
  ]
]

bget-IsCache :
    (dev blockno : ℕ) (bc : Bcache) (i : ℕ) (bc' : Bcache)
    → 0 < dev
    → IsCache bc
    → Gotten dev blockno bc i bc'
    → IsCache bc'
bget-IsCache dev blockno bc i bc' pos v (cached here same) =
    rw same (λ a b ha hb p d n. v a b ha hb (ground arith) (ground arith) (ground arith))
bget-IsCache dev blockno bc i bc' pos v (recycled before after absent split free rest same) =
    rw same (λ a b ha hb p d n. elim (ℕ_discrete i a) [
      | yes ia ↦ elim (ℕ_discrete i b) [
        | yes ib ↦ omega arith
        | no nb ↦ let gone = absent b hb in absurd (ground arith)
      ]
      | no na ↦ elim (ℕ_discrete i b) [
        | yes ib ↦ let gone = absent a ha in absurd (ground arith)
        | no nb ↦ v a b ha hb (ground arith) (ground arith) (ground arith)
      ]
    ])

-- Nothing comes into the list by taking a buffer out.
Has-unlink : (i j : ℕ) (is : List ℕ) → Has (unlink i is) j → Has is j
unfolding unlink
Has-unlink i j [] h = h
Has-unlink i j (x ∷ is) h = elim (Bool-cases (x == i)) [
  | inl here ↦ let (k, at) = rw (here, unlink) at h in (suc k, at)
  | inr off ↦ later (rw (off, unlink) at h) (λ h'. Has-unlink i j is h')
]
  where
    later : Has (x ∷ unlink i is) j → (Has (unlink i is) j → Has is j) → Has (x ∷ is) j
    later (zero, at) rec = (zero, at)
    later (suc k, at) rec = let (m, at') = rec (k, at) in (suc m, at')

-- A step that renames no buffer and lists no other one.
IsCache-kept :
    (bc bc' : Bcache)
    → ((j : ℕ) → Has bc'.order j → Has bc.order j)
    → ((j : ℕ) → ((bc'.buf j).dev ≡ (bc.buf j).dev) × ((bc'.buf j).blockno ≡ (bc.buf j).blockno))
    → IsCache bc
    → IsCache bc'
IsCache-kept bc bc' back same v a b ha hb p d n =
    let (da, na) = same a in
    let (db, nb) = same b in v a b (back a ha) (back b hb) (omega arith) (omega arith) (omega arith)

-- `brelse` renames no buffer, and moves the buffer to the front of the list if it was the last
-- reference.
brelse_cases :
    (chan : Chan) (i : ℕ) (bc bc' : Bcache) (procs procs' : List Proc)
    → brelse chan i bc procs ≡ ok (bc', procs')
    → ((j : ℕ) → ((bc'.buf j).dev ≡ (bc.buf j).dev) × ((bc'.buf j).blockno ≡ (bc.buf j).blockno))
      × ((bc'.order ≡ bc.order) ⊎ (bc'.order ≡ i ∷ unlink i bc.order))
unfolding brelse releasesleep
brelse_cases chan i bc bc' procs procs' e = (λ j. ground arith, ground arith)

brelse-IsCache :
    (chan : Chan) (i : ℕ) (bc bc' : Bcache) (procs procs' : List Proc)
    → Has bc.order i
    → IsCache bc
    → brelse chan i bc procs ≡ ok (bc', procs')
    → IsCache bc'
brelse-IsCache chan i bc bc' procs procs' mine v e =
    let (same, listed) = brelse_cases chan i bc bc' procs procs' e in
    IsCache-kept bc bc' (back listed) same v
  where
    moved : (j : ℕ) → Has (i ∷ unlink i bc.order) j → Has bc.order j
    moved j (zero, at) = let eq : i ≡ j = ground arith in subst (λ u. Has bc.order u) eq mine
    moved j (suc k, at) = Has-unlink i j bc.order (k, at)

    back :
        (bc'.order ≡ bc.order) ⊎ (bc'.order ≡ i ∷ unlink i bc.order)
        → (j : ℕ) → Has bc'.order j
        → Has bc.order j
    back (inl eq) j h = subst (λ xs. Has xs j) eq h
    back (inr eq) j h = moved j (subst (λ xs. Has xs j) eq h)

-- The caches of runs from `binit` with static buffers: what any processes get and release, in any
-- order, and what they, the disk driver and the sleeping locks change in a buffer but its block.
pub data Runs : Bcache → Type 0 where
  boot : {bc' : Bcache} (bc : Bcache) → ((i : ℕ) → (bc.buf i).dev ≡ 0) → binit bc ≡ bc' → Runs bc'
  gets :
      {bc bc' : Bcache} (dev blockno i : ℕ)
      → Runs bc
      → 0 < dev
      → bget dev blockno bc ≡ ok (i, bc')
      → Runs bc'
  releases :
      {bc bc' : Bcache} (chan : Chan) (i : ℕ) (procs procs' : List Proc)
      → Runs bc
      → Has bc.order i
      → brelse chan i bc procs ≡ ok (bc', procs')
      → Runs bc'
  changes :
      {bc : Bcache} (i : ℕ) (b : Buf)
      → Runs bc
      → b.dev ≡ (bc.buf i).dev
      → b.blockno ≡ (bc.buf i).blockno
      → Runs (record bc { buf = update bc.buf i b })

dev-binit_loop :
    (n k : ℕ) (bc : Bcache)
    → ((i : ℕ) → (bc.buf i).dev ≡ 0)
    → (i : ℕ) → ((binit_loop n k bc).buf i).dev ≡ 0
unfolding binit_loop
dev-binit_loop zero k bc h i = h i
dev-binit_loop (suc n) k bc h i = dev-binit_loop n (k + 1) _ (λ j. ground (arith, h j, h k)) i

dev-binit : (bc : Bcache) → ((i : ℕ) → (bc.buf i).dev ≡ 0) → (i : ℕ) → ((binit bc).buf i).dev ≡ 0
unfolding binit
dev-binit bc h i = dev-binit_loop nbuf 0 (record bc { order = [] }) h i

-- The buffer cache keeps one copy of each block: in every run, no two of its buffers have the same
-- block of a device other than 0, which only buffers that were never used have.
pub one_copy : (bc : Bcache) → Runs bc → IsCache bc
one_copy bc' (boot bc h e) = λ a b ha hb p d n.
    absurd
      (let z = dev-binit bc h a in let z' = ap (λ (c : Bcache). (c.buf a).dev) e in omega arith)
one_copy bc' (gets {bc} dev blockno i r pos e) =
    bget-IsCache dev blockno bc i bc' pos (one_copy bc r) (bget_lem dev blockno bc i bc' e).1
one_copy bc' (releases {bc} chan i procs procs' r mine e) =
    brelse-IsCache chan i bc bc' procs procs' mine (one_copy bc r) e
one_copy bc' (changes {bc} i b r d n) =
    IsCache-kept bc (record bc { buf = update bc.buf i b }) (λ j h. h) (λ j. ground arith)
      (one_copy bc r)
