-- ===== src/File.antt =====
-- file.c: the table of open files and its reference counts. What runs under `ftable.lock` is one
-- step.
pub mod Counts
pub mod Transfer
pub mod Written
use cs461_mlfq_scheduler.Base.{
  leb, ◌==◌, if◌then◌else◌, Result, u32, update, ok, panic, ℕ, zero, suc, ◌+◌, ◌-◌, ◌^◌, Bool, ◌||◌,
  Option, none, some,
}

abbrev pub nfile : ℕ
nfile = 100

-- The `type` of `struct file`, with the pointer that it goes with.
pub data FileType : Type 0 where
  fd_none : FileType
  fd_pipe fd_inode : ℕ → FileType

-- `struct file`; `ref` is an `int`.
pub record File : Type 0 where
  pub type : FileType
  pub ref : ℕ
  pub readable : Bool
  pub writable : Bool
  pub off : ℕ

-- The loop of `filealloc` over `n` files from `i` on.
unfoldable pub filealloc_loop : ℕ → ℕ → (ℕ → File) → Option (ℕ × (ℕ → File))
filealloc_loop zero i file = none
filealloc_loop (suc n) i file =
    let next = filealloc_loop n (i + 1) file in
    if (file i).ref == 0 then some (i, update file i (record (file i) { ref = 1 })) else next

-- `filealloc`: `none` for 0.
unfoldable pub filealloc : (ℕ → File) → Option (ℕ × (ℕ → File))
unfolding filealloc_loop
filealloc file = filealloc_loop nfile 0 file

-- `ref < 1` on an `int`
abbrev pub below_one : ℕ → Bool
below_one ref = ref == 0 || leb (2 ^ 31) ref

unfoldable pub filedup : ℕ → (ℕ → File) → Result (ℕ → File)
filedup i file =
    if below_one (file i).ref
    then panic "filedup"
    else ok (update file i (record (file i) { ref = u32 ((file i).ref + 1) }))

-- What `fileclose` does behind `release`: nothing, or `pipeclose`, or `iput` in a transaction.
pub data Close : Type 0 where
  keeps drops : Close
  closes_pipe : ℕ → Bool → Close
  puts_inode : ℕ → Close

abbrev pub last_close : File → Close
last_close f = elim (f.type) [
  | fd_none ↦ drops
  | fd_pipe p ↦ closes_pipe p f.writable
  | fd_inode ip ↦ puts_inode ip
]

-- `fileclose` up to the last `release`.
unfoldable pub fileclose : ℕ → (ℕ → File) → Result (Close × (ℕ → File))
fileclose i file =
    let less = u32 ((file i).ref + 2 ^ 32 - 1) in
    if below_one (file i).ref
    then panic "fileclose"
    else if below_one less
    then ok (last_close (file i), update file i (record (file i) { ref = 0; type = fd_none }))
    else ok (keeps, update file i (record (file i) { ref = less }))
