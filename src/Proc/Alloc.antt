-- ===== src/Proc/Alloc.antt =====
-- `allocproc` of proc.c.
pub mod Slot
use cs461_mlfq_scheduler.Kalloc.{kalloc}
use cs461_mlfq_scheduler.Proc.{unused, embryo, Proc, Kernel, kstacksize, is_state, modify}
use cs461_mlfq_scheduler.Base.{
  ◌==◌, if◌then◌else◌, Result, ◌>>=◌, u32, ok, ℕ, ◌+◌, ◌-◌, ◌*◌, sym, Option, none, some, List, [],
  ◌∷◌,
}

-- The first UNUSED slot, from slot `i` on.
unfoldable pub find_unused : List Proc → ℕ → Option ℕ
find_unused [] i = none
find_unused (p ∷ ps) i = if is_state p.state unused then some i else find_unused ps (i + 1)

-- `sizeof *p->tf`
abbrev pub frame_size : ℕ
frame_size = 176

-- Functions whose addresses the linker chooses.
pub record Symbols : Type 0 where
  pub forkret : ℕ
  pub syscall_trapret : ℕ

abbrev pub claim : ℕ → Proc → Proc
claim pid p = record p { state = embryo; pid = pid }

abbrev pub unclaim : Proc → Proc
unclaim p = record p { state = unused; kstack = 0 }

-- The kernel stack: a trap frame with whatever the page held, the address that `forkret` returns
-- to, and a context that is 0 but for `rip`.
abbrev pub set_stack : Symbols → (ℕ → ℕ) → ℕ → Proc → Proc
set_stack sym mem page p = record p {
  kstack = page;
  tf = λ w. mem (page + kstacksize - frame_size + 8 * w);
  trapret = sym.syscall_trapret;
  context = record { r15 = 0; r14 = 0; r13 = 0; r12 = 0; rbx = 0; rbp = 0; rip = sym.forkret };
}

module _ {W : Type 0} (sym : Symbols) where
  -- The part of `allocproc` behind `found`.
  alloc_at : ℕ → Kernel W → Result (Option ℕ × Kernel W)
  alloc_at i k =
      let claimed = record k {
        procs = modify k.procs i (claim k.nextpid);
        nextpid = u32 (k.nextpid + 1);
      } in
      kalloc k.kmem >>= λ got.
      if got.0 == 0
      then ok (none, record claimed { procs = modify claimed.procs i unclaim; kmem = got.1 })
      else ok (
        some i,
        record claimed {
          procs = modify claimed.procs i (set_stack sym got.1.mem got.0);
          kmem = got.1;
        },
      )

  unfoldable pub allocproc : Kernel W → Result (Option ℕ × Kernel W)
  unfolding alloc_at
  allocproc k = elim (find_unused k.procs 0) [ none ↦ ok (none, k) | some i ↦ alloc_at i k ]
