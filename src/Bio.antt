-- ===== src/Bio.antt =====
-- bio.c: the buffer cache, between the disk and the file system. What runs under `bcache.lock` is
-- one step.
pub mod Scan
pub mod Cache
use cs461_mlfq_scheduler.Proc.{Chan, Proc}
use cs461_mlfq_scheduler.Sleeplock.{Sleeplock, initsleeplock, releasesleep, holdingsleep}
use cs461_mlfq_scheduler.Base.{
  ◌==◌, if◌then◌else◌, Result, u32, update, ok, panic, ℕ, zero, suc, ◌+◌, ◌-◌, ◌^◌, Bool, false,
  ◌&&◌, not, Option, none, some, List, [], ◌∷◌,
}

abbrev pub nbuf : ℕ
nbuf = 30

-- `struct buf` without its links; `valid` and `dirty` are B_VALID and B_DIRTY.
pub record Buf : Type 0 where
  pub valid : Bool
  pub dirty : Bool
  pub dev : ℕ
  pub blockno : ℕ
  pub lock : Sleeplock
  pub refcnt : ℕ
  pub bytes : ℕ → ℕ

-- `bcache`: the buffers by their index, and the list that `head.next` begins, most recently used
-- first.
pub record Bcache : Type 0 where
  pub buf : ℕ → Buf
  pub order : List ℕ

-- The loop of `binit`: buffers `i`, `i + 1`, … are put in front, one after the other.
unfoldable pub binit_loop : ℕ → ℕ → Bcache → Bcache
binit_loop zero i bc = bc
binit_loop (suc n) i bc = binit_loop n (i + 1) (record {
  buf = update bc.buf i (record (bc.buf i) { lock = initsleeplock });
  order = i ∷ bc.order;
})

unfoldable pub binit : Bcache → Bcache
unfolding binit_loop
binit bc = binit_loop nbuf 0 (record bc { order = [] })

abbrev pub is_block : ℕ → ℕ → Buf → Bool
is_block dev blockno b = b.dev == dev && b.blockno == blockno

-- The first loop of `bget`, along `next`.
unfoldable pub find_cached : ℕ → ℕ → (ℕ → Buf) → List ℕ → Option ℕ
find_cached dev blockno buf [] = none
find_cached dev blockno buf (i ∷ is) =
    if is_block dev blockno (buf i) then some i else find_cached dev blockno buf is

abbrev pub is_free : Buf → Bool
is_free b = b.refcnt == 0 && not b.dirty

-- The second loop, along `prev`: the buffers behind come first.
unfoldable pub find_free : (ℕ → Buf) → List ℕ → Option ℕ
find_free buf [] = none
find_free buf (i ∷ is) = elim (find_free buf is) [
  | some j ↦ some j
  | none ↦ if is_free (buf i) then some i else none
]

abbrev pub recycle : ℕ → ℕ → Buf → Buf
recycle dev blockno b = record b {
  dev = dev;
  blockno = blockno;
  valid = false;
  dirty = false;
  refcnt = 1;
}

abbrev pub hold : Buf → Buf
hold b = record b { refcnt = u32 (b.refcnt + 1) }

-- `bget` up to `acquiresleep`: the buffer.
unfoldable pub bget : ℕ → ℕ → Bcache → Result (ℕ × Bcache)
unfolding find_cached find_free
bget dev blockno bc = elim (find_cached dev blockno bc.buf bc.order) [
  | some i ↦ ok (i, record bc { buf = update bc.buf i (hold (bc.buf i)) })
  | none ↦ elim (find_free bc.buf bc.order) [
    | some i ↦ ok (i, record bc { buf = update bc.buf i (recycle dev blockno (bc.buf i)) })
    | none ↦ panic "bget: no buffers"
  ]
]

-- Taking a buffer out of the list.
unfoldable pub unlink : ℕ → List ℕ → List ℕ
unlink i [] = []
unlink i (j ∷ js) = let rest = unlink i js in if j == i then js else j ∷ rest

unfoldable pub brelse : Chan → ℕ → Bcache → List Proc → Result (Bcache × List Proc)
unfolding unlink releasesleep
brelse chan i bc procs =
    if not (holdingsleep (bc.buf i).lock)
    then panic "brelse"
    else (let (lock, woken) = releasesleep chan (bc.buf i).lock procs in
        let left = u32 ((bc.buf i).refcnt + 2 ^ 32 - 1) in
        let buf = update bc.buf i (record (bc.buf i) { lock = lock; refcnt = left }) in
        if left == 0
        then ok (record { buf = buf; order = i ∷ unlink i bc.order }, woken)
        else ok (record { buf = buf; order = bc.order }, woken))
