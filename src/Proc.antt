-- ===== src/Proc.antt =====
-- proc.h and proc.c: the process table. `Proc.Alloc` makes processes, `Proc.Sleep` has sleeping,
-- waking and killing, `Proc.Family` fork, exit and wait, `Proc.Setup` the first process and the size
-- of a process, and `Proc.Scheduler` the scheduler. What runs with `ptable.lock` held is one step.
pub mod Alloc
pub mod Table
pub mod Pids
pub mod Sleep
pub mod Services
pub mod Family
pub mod Setup
pub mod Scheduler
pub mod Ops
use cs461_mlfq_scheduler.Kalloc.{Kmem}
use cs461_mlfq_scheduler.Base.{
  ◌==◌, ℕ, zero, suc, Bool, true, false, Option, none, some, List, [], ◌∷◌,
}

-- `enum procstate`
pub data ProcState : Type 0 where
  unused embryo sleeping runnable running zombie : ProcState

-- A `void *` that is slept on: null, a slot of the process table, or another kernel address.
pub data Chan : Type 0 where
  null : Chan
  slot : ℕ → Chan
  word : ℕ → Chan

-- `p->chan == chan`
abbrev pub same_chan : Chan → Chan → Bool
same_chan null null = true
same_chan (slot i) (slot j) = i == j
same_chan (word a) (word b) = a == b
same_chan _ _ = false

-- `struct context`
pub record Context : Type 0 where
  pub r15 : ℕ
  pub r14 : ℕ
  pub r13 : ℕ
  pub r12 : ℕ
  pub rbx : ℕ
  pub rbp : ℕ
  pub rip : ℕ

-- `struct proc`. A pointer to a process, file or inode is its index in the table, `none` for null;
-- `tf` has the 64-bit words of the trap frame that the pointer leads to, and `trapret` the word of
-- the kernel stack below it.
pub record Proc : Type 0 where
  pub sz : ℕ
  pub pgdir : ℕ
  pub kstack : ℕ
  pub state : ProcState
  pub pid : ℕ
  pub parent : Option ℕ
  pub tf : ℕ → ℕ
  pub trapret : ℕ
  pub context : Context
  pub chan : Chan
  pub killed : Bool
  pub ofile : List (Option ℕ)
  pub cwd : Option ℕ
  pub name : ℕ → ℕ

abbrev pub nproc : ℕ
nproc = 64

abbrev pub nofile : ℕ
nofile = 16

abbrev pub kstacksize : ℕ
kstacksize = 4096

-- The kernel's state, as far as proc.c changes it. `W` is that of files, inodes and the log.
pub record Kernel (W : Type 0) : Type 0 where
  pub procs : List Proc
  pub nextpid : ℕ
  pub initproc : Option ℕ
  pub kmem : Kmem
  pub world : W

abbrev pub is_state : ProcState → ProcState → Bool
is_state unused unused = true
is_state embryo embryo = true
is_state sleeping sleeping = true
is_state runnable runnable = true
is_state running running = true
is_state zombie zombie = true
is_state _ _ = false

-- Whether a pointer to a process is the one to slot `i`.
abbrev pub is_slot : ℕ → Option ℕ → Bool
is_slot i none = false
is_slot i (some j) = j == i

-- A change of one slot of the table, which is a write through a `struct proc *`.
abbrev pub modify : List Proc → ℕ → (Proc → Proc) → List Proc
modify [] i f = []
modify (p ∷ ps) zero f = f p ∷ ps
modify (p ∷ ps) (suc i) f = p ∷ modify ps i f
