-- ===== src/Tests/Files.antt =====
-- Tests of bio.c, file.c, syscall.c, sysproc.c and the inode cache of fs.c.
use cs461_mlfq_scheduler.Bio.{Buf, Bcache, binit, bget, recycle}
use cs461_mlfq_scheduler.Bio.Cache.{IsCache, boot, gets, one_copy}
use cs461_mlfq_scheduler.File.{File, fd_none, fd_pipe, Close, keeps, filealloc, filedup, fileclose}
use cs461_mlfq_scheduler.File.Counts.{
  IsCounted, Uses, none_open, opens, dups, fills, IsClosed, counts_exact, close_held, count,
}
use cs461_mlfq_scheduler.Icache.{Inode, take_slot, iget}
use cs461_mlfq_scheduler.Icache.Unique.{
  IsUnique, one_inode, Runs as InodeRuns, boot as inode_boot, gets, gets as inode_gets,
}
use cs461_mlfq_scheduler.Syscall.{fetcharg, argptr}
use cs461_mlfq_scheduler.Syscall.Bounds.{argptr_iff, argptr_ignores_high}
use cs461_mlfq_scheduler.Base.{
  panic, update, ok, ℕ, ◌+◌, ◌*◌, ◌^◌, ◌≤◌, ◌<◌, ◌-◌, ◌≡◌, refl, ◌↔◌, true, false, some, [], ◌∷◌,
  arith,
}

abbrev blank : Buf
blank = record {
  valid = false;
  dirty = false;
  dev = 0;
  blockno = 0;
  lock = record { locked = false; pid = 0 };
  refcnt = 0;
  bytes = λ _. 0;
}

abbrev raw : Bcache
raw = record { buf = λ _. blank; order = [] }

-- Two buffers; the first has block 7, which somebody holds.
abbrev two : Bcache
two = record {
  buf = update (λ _. blank) 4 (record blank { dev = 1; blockno = 7; refcnt = 1; valid = true });
  order = 4 ∷ 9 ∷ [];
}

abbrev two_then : Bcache
two_then = record two { buf = update two.buf 9 (recycle 1 8 blank) }

gets_eight : bget 1 8 two ≡ ok (9, two_then)
unfolding bget
gets_eight = refl

raw_dev : (i : ℕ) → (raw.buf i).dev ≡ 0
raw_dev i = refl

abbrev got : ℕ × Bcache
got = elim (bget 1 8 (binit raw)) [ panic m ↦ (0, raw) | ok r ↦ r ]

gets_block : bget 1 8 (binit raw) ≡ ok got
unfolding bget binit
gets_block = refl

abbrev got_again : ℕ × Bcache
got_again = elim (bget 1 8 got.1) [ panic m ↦ (0, raw) | ok r ↦ r ]

gets_again : bget 1 8 got.1 ≡ ok got_again
unfolding bget binit
gets_again = refl

one_copy_example : IsCache got_again.1
one_copy_example = one_copy got_again.1 (
    gets 1 8 got_again.0 (gets 1 8 got.0 (boot raw raw_dev refl) (omega arith) gets_block)
      (omega arith) gets_again)

abbrev closed : File
closed = record { type = fd_none; ref = 0; readable = false; writable = false; off = 0 }

abbrev no_files : ℕ → File
no_files i = closed

abbrev one_file : ℕ → File
one_file = update no_files 0 (record closed { ref = 1 })

abbrev one_twice : ℕ → File
one_twice = update one_file 0 (record closed { ref = 2 })

allocates : filealloc no_files ≡ some (0, one_file)
unfolding filealloc
allocates = refl

duplicates : filedup 0 one_file ≡ ok one_twice
unfolding filedup
duplicates = refl

one_file-Uses : Uses one_file (0 ∷ [])
one_file-Uses = opens 0 (none_open {file = no_files} (λ i. refl)) (omega arith) allocates

one_twice-Uses : Uses one_twice (0 ∷ 0 ∷ [])
one_twice-Uses = dups [] [] 0 one_file-Uses (omega arith) duplicates

counts_exact_example : IsCounted one_twice (0 ∷ 0 ∷ [])
counts_exact_example = counts_exact one_twice (0 ∷ 0 ∷ []) one_twice-Uses

-- The only reference to a file of pipe 5, at the end that it writes.
abbrev piped : File
piped = record closed { ref = 1; type = fd_pipe 5; writable = true }

abbrev one_pipe : ℕ → File
one_pipe = update one_file 0 piped

one_pipe-Uses : Uses one_pipe (0 ∷ [])
one_pipe-Uses = fills 0 piped one_file-Uses refl

close_held_example :
    (c : Close) × (file' : ℕ → File) × (fileclose 0 one_pipe ≡ ok (c, file'))
    × (count 0 [] ≡ 0
        → IsClosed piped c × (file' ≡ update one_pipe 0 (record piped { ref = 0; type = fd_none })))
    × (0 < count 0 [] → (c ≡ keeps) × (file' ≡ update one_pipe 0 (record piped { ref = 1 - 1 })))
close_held_example = close_held one_pipe [] [] 0 one_pipe-Uses

-- No inode is in use.
abbrev pub no_inode : Inode
no_inode = record {
  dev = 0;
  inum = 0;
  ref = 0;
  lock = record { locked = false; pid = 0 };
  valid = false;
  type = 0;
  major = 0;
  minor = 0;
  nlink = 0;
  size = 0;
  addrs = λ _. 0;
}

abbrev root_only : ℕ → Inode
root_only = update (λ _. no_inode) 0 (take_slot 1 1 no_inode)

gets_root : iget 1 1 (λ _. no_inode) ≡ ok (0, root_only)
unfolding iget
gets_root = refl

root_only-Runs : InodeRuns root_only
root_only-Runs = inode_gets 1 1 0 (inode_boot {inode = λ _. no_inode} (λ i. refl)) gets_root

one_inode_example : IsUnique root_only
one_inode_example = one_inode root_only root_only-Runs

-- "hi" at 5000, in a process of 8192 bytes.
abbrev user : ℕ → ℕ
user = update (update (update (λ _. 1) 5000 104) 5001 105) 5002 0

abbrev frame : ℕ → ℕ
frame = update (λ _. 0) 5 5000

abbrev high_frame : ℕ → ℕ
high_frame = update (λ _. 0) 5 (5000 + (0 + 1) * 2 ^ 32)

pointer : fetcharg frame 1 ≡ ok 5000
unfolding fetcharg
pointer = refl

high_pointer : fetcharg high_frame 1 ≡ ok (5000 + (0 + 1) * 2 ^ 32)
unfolding fetcharg
high_pointer = refl

argptr_iff_example :
    (argptr 8192 frame 1 100 ≡ ok (some 5000)) ↔ ((5000 < 8192) × (5000 + 100 ≤ 8192))
argptr_iff_example =
    argptr_iff 8192 frame 1 100 5000 pointer (omega arith) (omega arith) (omega arith)

accepts : argptr 8192 frame 1 100 ≡ ok (some 5000)
unfolding argptr
accepts = refl

argptr_ignores_high_example :
    (argptr 8192 high_frame 1 100 ≡ ok (some (5000 + (0 + 1) * 2 ^ 32)))
    × (8192 ≤ 5000 + (0 + 1) * 2 ^ 32)
argptr_ignores_high_example =
    argptr_ignores_high 8192 frame high_frame 1 100 5000 0 pointer high_pointer (omega arith)
      accepts
