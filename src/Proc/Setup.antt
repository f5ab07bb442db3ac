-- ===== src/Proc/Setup.antt =====
-- `userinit` and `growproc` of proc.c: the first process, and the size of a process.
use cs461_mlfq_scheduler.Kalloc.{Kmem}
use cs461_mlfq_scheduler.Proc.{runnable, Proc, Kernel, modify}
use cs461_mlfq_scheduler.Proc.Alloc.{Symbols, allocproc}
use cs461_mlfq_scheduler.Proc.Services.{Services}
use cs461_mlfq_scheduler.Proc.Family.{copy_name}
use cs461_mlfq_scheduler.Base.{
  ◌==◌, if◌then◌else◌, get_elem?, get_or, Result, ◌>>=◌, u64, update, ok, panic, ℕ, ◌+◌, ◌-◌, ◌^◌,
  Bool, true, false, none, some, [], ◌∷◌,
}

-- Registers of the trap frame, by their place in `struct trapframe`.
abbrev rcx : ℕ
rcx = 2

abbrev r11 : ℕ
r11 = 10

abbrev rsp : ℕ
rsp = 20

-- The argument of `growproc`: n > 0 (`grow`), n < 0 (`shrink`, by the amount), or 0.
pub data Resize : Type 0 where
  grow shrink : ℕ → Resize
  same : Resize

module _ {W : Type 0} (sym : Symbols) (services : Services W) where
  open services use {setupkvm, inituvm, allocuvm, deallocuvm, namei_root}

  -- `userinit`; `allocproc` failing is a write through a null pointer.
  unfoldable pub userinit : Kernel W → Result (Kernel W)
  userinit k = allocproc sym k >>= λ got. elim (got.0) [
    | none ↦ panic "page fault"
    | some i ↦ setupkvm got.1.kmem >>= λ table.
        if table.0 == 0
        then panic "userinit: out of memory?"
        else inituvm table.0 table.1 >>= λ mem. namei_root got.1.world >>= λ root. ok (record k {
          procs = modify got.1.procs i (λ p. record p {
            pgdir = table.0;
            sz = 8192;
            tf = update (update (update (λ _. 0) r11 0x200) rsp 8192) rcx 4096;
            name =
                copy_name p.name
                  (λ a. get_or (b'i' ∷ b'n' ∷ b'i' ∷ b't' ∷ b'c' ∷ b'o' ∷ b'd' ∷ b'e' ∷ []) a 0);
            cwd = root.0;
            state = runnable;
          });
          nextpid = got.1.nextpid;
          initproc = some i;
          kmem = mem;
          world = root.1;
        })
  ]

  -- `growproc`, without `switchuvm`: whether it returns 0.
  resized : ℕ → Proc → Result (ℕ × Kmem) → Kernel W → Result (Bool × Kernel W)
  resized cur p got k = got >>= λ got'.
      if got'.0 == 0
      then ok (false, record k { kmem = got'.1 })
      else ok (
        true,
        record k { procs = modify k.procs cur (λ q. record q { sz = got'.0 }); kmem = got'.1 },
      )

  unfoldable pub growproc : ℕ → Resize → Kernel W → Result (Bool × Kernel W)
  unfolding resized
  growproc cur n k = elim (get_elem? k.procs cur) [
    | none ↦ panic "page fault"
    | some p ↦ elim n [
      | grow b ↦ resized cur p (allocuvm p.pgdir p.sz (u64 (p.sz + b)) k.kmem) k
      | shrink b ↦ resized cur p (deallocuvm p.pgdir p.sz (u64 (p.sz + 2 ^ 64 - b)) k.kmem) k
      | same ↦ ok (true, k)
    ]
  ]
