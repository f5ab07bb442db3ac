-- ===== src/Proc/Family.antt =====
-- `fork`, `exit` and `wait` of proc.c.
pub mod Fork
pub mod Exit
pub mod Wait
use cs461_mlfq_scheduler.Kalloc.{Kmem, kfree}
use cs461_mlfq_scheduler.Str.{safestrcpy}
use cs461_mlfq_scheduler.Proc.{
  unused, runnable, zombie, Chan, null, slot, Proc, Kernel, nofile, nproc, is_state, is_slot,
  modify,
}
use cs461_mlfq_scheduler.Proc.Alloc.{Symbols, allocproc}
use cs461_mlfq_scheduler.Proc.Sleep.{wakeup}
use cs461_mlfq_scheduler.Proc.Services.{Services}
use cs461_mlfq_scheduler.Base.{
  ltb, ◌==◌, if◌then◌else◌, get_elem?, set, get_or, Result, ◌>>=◌, update, ok, panic, ℕ, zero, suc,
  ◌+◌, ◌-◌, Bool, false, ◌&&◌, ◌||◌, not, Option, none, some, List, [], ◌∷◌,
}

-- Registers of the trap frame, by their place in `struct trapframe`.
abbrev pub rax : ℕ
rax = 0

-- A pointer to a process as a channel.
abbrev pub chan_of : Option ℕ → Chan
chan_of none = null
chan_of (some i) = slot i

-- `safestrcpy(np->name, proc->name, sizeof(proc->name))`, with the two arrays side by side.
abbrev pub copy_name : (ℕ → ℕ) → (ℕ → ℕ) → ℕ → ℕ
copy_name to from = safestrcpy (λ a. if ltb a 16 then to a else from (a - 16)) 0 16 16

-- `np->ofile[i] = filedup(proc->ofile[i])` for each open file: the new array.
abbrev pub inherit : List (Option ℕ) → List (Option ℕ) → List (Option ℕ)
inherit (some f ∷ fs) (_ ∷ gs) = some f ∷ inherit fs gs
inherit (none ∷ fs) (g ∷ gs) = g ∷ inherit fs gs
inherit _ gs = gs

-- What `fork` writes into the child, behind `copyuvm`.
abbrev pub become_child : ℕ → ℕ → Proc → Proc → Proc
become_child cur pgdir parent np = record np {
  pgdir = pgdir;
  sz = parent.sz;
  parent = some cur;
  tf = update parent.tf rax 0;
  ofile = inherit parent.ofile np.ofile;
  cwd = parent.cwd;
  name = copy_name np.name parent.name;
  state = runnable;
}

abbrev pub drop_stack : Proc → Proc
drop_stack np = record np { kstack = 0; state = unused }

-- What `wait` clears in the child's slot.
abbrev pub reap : Proc → Proc
reap p = record p {
  kstack = 0;
  pid = 0;
  parent = none;
  name = update p.name 0 0;
  killed = false;
  state = unused;
}

-- The loop of `wait`: a zombie child's slot, or whether there are children.
pub data Scan : Type 0 where
  exited : ℕ → Scan
  children : Bool → Scan

unfoldable pub wait_scan : ℕ → List Proc → ℕ → Bool → Scan
wait_scan cur [] i havekids = children havekids
wait_scan cur (p ∷ ps) i havekids =
    let next = wait_scan cur ps (i + 1) (havekids || is_slot cur p.parent) in
    if is_slot cur p.parent && is_state p.state zombie then exited i else next

-- How one round of `wait` ends: with a pid, with -1, or with `sleep`.
pub data Waited : Type 0 where
  reaped : ℕ → Waited
  no_child : Waited
  must_sleep : Waited

-- The loop body of `exit` over the table: child `i` is passed to init.
unfoldable pub reparent_at : ℕ → Option ℕ → ℕ → List Proc → List Proc
reparent_at cur init i procs = elim (get_elem? procs i) [
  | none ↦ procs
  | some p ↦
      if is_slot cur p.parent
      then (let moved = modify procs i (λ q. record q { parent = init }) in
          if is_state p.state zombie then wakeup (chan_of init) moved else moved)
      else procs
]

-- The loop from slot `i` over `n` slots.
unfoldable pub reparent : ℕ → Option ℕ → ℕ → ℕ → List Proc → List Proc
reparent cur init zero i procs = procs
reparent cur init (suc n) i procs = reparent cur init n (i + 1) (reparent_at cur init i procs)

abbrev pub parent_at : ℕ → List Proc → Option ℕ
parent_at cur procs = elim (get_elem? procs cur) [ none ↦ none | some p ↦ p.parent ]

-- `exit` from `acquire(&ptable.lock)` to `sched()`.
unfoldable pub exit_locked : ℕ → Option ℕ → List Proc → List Proc
exit_locked cur init procs =
    modify (reparent cur init nproc 0 (wakeup (chan_of (parent_at cur procs)) procs)) cur
      (λ p. record p { state = zombie })

module _ {W : Type 0} (sym : Symbols) (services : Services W) (kend : ℕ) where
  open services use {copyuvm, freevm, filedup, idup, fileclose, put_cwd}

  dup_files : List (Option ℕ) → W → Result W
  dup_files [] w = ok w
  dup_files (none ∷ fs) w = dup_files fs w
  dup_files (some f ∷ fs) w = filedup f w >>= dup_files fs

  -- `fork` for the child in slot `i`, from the test of `copyuvm`'s result on.
  fork_with : ℕ → ℕ → Proc → Kernel W → ℕ × Kmem → Proc → Result (Option ℕ × Kernel W)
  unfolding dup_files
  fork_with cur i parent k copy np =
      if copy.0 == 0
      then (kfree kend np.kstack copy.1 >>= λ mem.
          ok (none, record k { procs = modify k.procs i drop_stack; kmem = mem }))
      else dup_files parent.ofile k.world >>= λ files. idup parent.cwd files >>= λ world. ok (
        some np.pid,
        record k {
          procs = modify k.procs i (become_child cur copy.0 parent);
          kmem = copy.1;
          world = world;
        },
      )

  fork_into : ℕ → ℕ → Proc → Kernel W → Result (Option ℕ × Kernel W)
  unfolding fork_with
  fork_into cur i parent k = copyuvm parent.pgdir parent.sz k.kmem >>= λ copy.
      elim (get_elem? k.procs i) [
        | none ↦ panic "page fault"
        | some np ↦ fork_with cur i parent k copy np
      ]

  -- `fork` by the process in slot `cur`: the child's pid, or `none` for -1.
  unfoldable pub fork : ℕ → Kernel W → Result (Option ℕ × Kernel W)
  unfolding fork_into
  fork cur k = allocproc sym k >>= λ got. elim (got.0) [
    | none ↦ ok (none, got.1)
    | some i ↦ elim (get_elem? got.1.procs cur) [
      | none ↦ panic "page fault"
      | some parent ↦ fork_into cur i parent got.1
    ]
  ]

  -- One round of the first loop of `exit`.
  close_fd : ℕ → ℕ → Kernel W → Result (Kernel W)
  close_fd cur fd k = elim (get_elem? k.procs cur) [
    | none ↦ panic "page fault"
    | some p ↦ elim (get_or p.ofile fd none) [
      | none ↦ ok k
      | some f ↦ fileclose cur f k >>= λ k'. ok (record k' {
        procs = modify k'.procs cur (λ q. record q { ofile = set q.ofile fd none });
      })
    ]
  ]

  pub close_fds : ℕ → ℕ → ℕ → Kernel W → Result (Kernel W)
  unfolding close_fd
  close_fds cur zero fd k = ok k
  close_fds cur (suc n) fd k = close_fd cur fd k >>= close_fds cur n (fd + 1)

  -- `exit` by the process in slot `cur`, up to `sched`.
  unfoldable pub exit : ℕ → Kernel W → Result (Kernel W)
  unfolding close_fds
  exit cur k =
      if is_slot cur k.initproc
      then panic "init exiting"
      else close_fds cur nofile 0 k >>= λ closed. elim (get_elem? closed.procs cur) [
        | none ↦ panic "page fault"
        | some p ↦ put_cwd cur p.cwd closed >>= λ put.
            (let procs = modify put.procs cur (λ q. record q { cwd = none }) in
              ok (record put { procs = exit_locked cur put.initproc procs }))
      ]

  -- One round of `wait`'s loop by the process in slot `cur`. On `must_sleep` the caller sleeps on
  -- its own slot and then makes another round.
  unfoldable pub wait_round : ℕ → Kernel W → Result (Waited × Kernel W)
  wait_round cur k = elim (wait_scan cur k.procs 0 false) [
    | exited i ↦ elim (get_elem? k.procs i) [
      | none ↦ panic "page fault"
      | some p ↦ kfree kend p.kstack k.kmem >>= λ mem. freevm p.pgdir mem >>= λ mem'.
          ok (reaped p.pid, record k { procs = modify k.procs i reap; kmem = mem' })
    ]
    | children havekids ↦ elim (get_elem? k.procs cur) [
      | none ↦ panic "page fault"
      | some self ↦ ok (if not havekids || self.killed then no_child else must_sleep, k)
    ]
  ]
