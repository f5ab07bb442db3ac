-- ===== src/Lib.antt =====
-- Parts of xv6-64, a small Unix kernel for x86-64, and the theorems that make them correct: the
-- page allocator, spin locks, the string routines, the process table with its scheduler, pipes,
-- the redo log of the file system, the buffer cache, the inodes, directories and path names of
-- the file system, the table of open files, page tables, and the arguments of system calls.
--
-- How the parts interact. `proc.c` keeps the process table; `fork`, `exit`, `wait`, `sleep` and
-- the scheduler change it under `ptable.lock`. It takes kernel stacks from `kalloc.c`, and calls
-- the file system and the virtual memory, which are an interface here. `pipe.c` sleeps and wakes
-- on the table. `log.c` writes the disk through the buffer cache; `fs.c` passes each block it
-- changes to it. `vm.c` takes the pages of its tables from `kalloc.c`.
--
-- * Base (Base/Tests, Lists, Fault, Words): names of the library passed on, Boolean tests on the
--   native numbers, lists with native indices, `Result` with `panic`, machine words.
--
-- * Kalloc, for `kalloc.c`: `kalloc`, `kfree`, `freerange`, `kinit1`, `kinit2`. The free list is
--   linked through the words of memory, as in the code; Kalloc/Freelist relates it to a list of
--   pages, Kalloc/Range has the loop of `freerange`.
--
-- * Spinlock, for `spinlock.c`: `initlock`, `holding`, `pushcli`, `popcli`, and `acquire` and
--   `release` as five atomic steps of each CPU, in any order of the CPUs (Spinlock/Exclusion);
--   Spinlock/Nesting has the depth of `pushcli`.
--
-- * Str, for `string.c` and `ulib.c`: one function per routine over a byte memory; Str/Move,
--   Str/Copy and Str/Compare have what they do.
--
-- * Proc, for `proc.h` and `proc.c`: the table is a list of `struct proc`, a pointer to a process
--   is its index. Proc/Alloc has `allocproc`; Proc/Sleep `sleep`, `wakeup`, `kill`, `yield` and
--   the checks of `sched`; Proc/Family `fork`, `exit` and `wait`; Proc/Setup `userinit` and
--   `growproc`; Proc/Scheduler the loop of `scheduler`; Proc/Services the calls into `vm.c`,
--   `file.c`, `fs.c` and `log.c`, as a record that the definitions take. Proc/Table and Proc/Pids
--   are lemmas on tables. Proc/Ops puts all these steps together, in any order; `fork`, which
--   holds no lock between its parts, is one step there; Proc/Ops/Moves has the state diagram.
--
-- * Pipe, for `pipe.c`: `pipewrite`, `piperead`, `pipeclose`, and the pipe that `pipealloc`
--   makes. A call stops where it sleeps. Pipe/Ring relates the ring to a queue of bytes,
--   Pipe/Fifo has the calls.
--
-- * Log, for `log.c`: `initlog`, `recover_from_log`, `install_trans`, `read_head`, `write_head`,
--   `write_log`, `commit`, `log_write`, and one round of `begin_op` and of `end_op`. The store is
--   the cache and a disk that takes a given number of further writes before the power fails; a
--   block is written as a whole. Log/Header and Log/Loops have the parts of a commit, Log/Crash
--   what a crash leaves, Log/Recovery and Log/Commit the recovery, Log/Space and Log/Reserve the
--   space in the log.
--
-- * Sleeplock, for `sleeplock.c`, and Bio, for `bio.c`: `binit`, `bget` up to `acquiresleep`, and
--   `brelse`. The list through `prev` and `next` is a list of buffer numbers in its order.
--   Bio/Scan has the loops of `bget`, Bio/Cache the cache.
--
-- * File, for `file.c`: `filealloc`, `filedup`, and `fileclose` up to its last `release`, with
--   what it then closes; File/Counts has the reference counts, File/Transfer `fileread` and
--   `filewrite` over an interface to the inodes and pipes, File/Written `filewrite` over the
--   `writei` of Content.
--
-- * Icache, for the inode cache of `fs.c`: `iinit`, `iget`, `idup`, and the test and the end of
--   `iput`; Icache/Unique has the cache.
--
-- * Fs, for the blocks of `fs.c`: `readsb`, `bzero`, `balloc`, `bfree`, over the blocks as
--   `bread` returns them and a list of the blocks passed to `log_write`. Fs/Bits, Fs/Words and
--   Fs/Bitmap are lemmas on the bytes of a block, Fs/Alloc has the bitmap.
--
-- * Inode, for `fs.c`: `ialloc`, `iupdate`, `ilock`, `iunlock`, `stati`; Inode/Dinode has the
--   inode as it lies in its block.
--
-- * Content, for `fs.c`: `bmap`, `itrunc`, `iput`, `readi`, `writei`. Content/Map relates an
--   inode to the list of its blocks, Content/Bmap and Content/Grow have `bmap`, Content/Bytes,
--   Content/Overwrite, Content/Write and Content/Calls reading and writing, Content/Truncate and
--   Content/Empty `itrunc`.
--
-- * Dir, for `fs.c`: `namecmp`, `dirlookup`, `dirlink`; Dir/Entries has a directory as the list
--   of its entries, Dir/Lookup, Dir/Link and Dir/Found the calls.
--
-- * Names, for `fs.c`: `skipelem`, `namex`, `namei`, `nameiparent`; a walk that meets an inode
--   locked by another process ends there, waiting. Names/Elements and Names/Skip have `skipelem`.
--
-- * Vm, for `vm.c`: `walkpgdir`, `mappages`, `setupkvm`, `kvmalloc`, `allocuvm`, `deallocuvm`,
--   `freevm`, `clearpteu`, `copyuvm`, `uva2ka`, over the memory of Kalloc; Vm/Tree has a page
--   table as a tree of pages, with the lower half of the first table, since the upper half holds
--   the large pages of the kernel; Vm/Enter and Vm/Stored have a table entered and an entry
--   written, Vm/Pte has the word that an entry is, Vm/Walk has `walkpgdir`, Vm/Round and
--   Vm/Mapped have `mappages`.
--
-- * Syscall, for `syscall.c`: `fetchint`, `fetchaddr`, `fetchstr`, `fetcharg`, `argint`,
--   `argaddr`, `argptr`, `argstr`, over the memory of the process as bytes; Syscall/Bounds has
--   what they accept.
--
-- * Sysproc, for `sysproc.c` and the dispatch of `syscall.c`: `sys_kill`, `sys_sbrk`,
--   `sys_uptime`, the loop of `sys_sleep` by rounds, and `syscall` up to its test of `killed`;
--   Sysproc/Ticks has the sleeping.
--
-- * Tests has runs of the theorems at concrete machines.
--
-- Critical sections. Code under one spin lock is one step; that the locks give this is the
-- subject of Spinlock. `sleep` releases its lock only after it has `ptable.lock`, so its entry is
-- one step, and what follows `sched` another one. In the log a sleeping lock on each buffer is
-- held through each read and write, so these are atomic too.
--
-- Bounds and fuel. `uint` and `int` wrap at 2 ^ 32 and `addr_t` at 2 ^ 64, with the remainder
-- written out. `freerange` and the unbounded string loops run on fuel: `freerange` needs one unit
-- more than there are pages in the range, `strlen` one more than there are bytes, and `filewrite`
-- one more than the bytes to write. The pieces of `readi` and `writei` are at most as many as the
-- bytes of the call, since each has a byte at least; `skipelem` needs one unit more than the path
-- has bytes, `namex` one more than the path has elements, `mappages` one for each page. The loops
-- of `allocuvm`, `deallocuvm` and `copyuvm` take one round for each page below the size and one
-- for the last test. All other loops are structural, over the table of 64 slots, over the bits
-- and entries of a block, over the bytes of a call or over the entries of the log.
--
-- Not modelled: debugging output and call stacks; `swtch` and the trap frames beyond their words;
-- of `vm.c` the functions that move bytes (`inituvm`, `loaduvm`, `copyout`) and those that write
-- registers; the disk driver, the handlers of `sysfile.c`, `exec.c`, the drivers, the assembly
-- files and the user programs.
pub mod Base
pub mod Kalloc
pub mod Spinlock
pub mod Str
pub mod Proc
pub mod Pipe
pub mod Log
pub mod Sleeplock
pub mod Bio
pub mod File
pub mod Fs
pub mod Syscall
pub mod Icache
pub mod Inode
pub mod Content
pub mod Dir
pub mod Names
pub mod Vm
pub mod Sysproc
pub mod Tests
