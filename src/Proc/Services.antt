-- ===== src/Proc/Services.antt =====
-- What proc.c asks of vm.c, file.c, fs.c and log.c, as an interface. `W` is the state of files,
-- inodes and the log. A call may sleep, so other processes may have run when it comes back.
use cs461_mlfq_scheduler.Kalloc.{Kmem}
use cs461_mlfq_scheduler.Proc.{Kernel}
use cs461_mlfq_scheduler.Base.{Result, ℕ, Option}

-- A page table is its address, 0 for failure.
pub record Services (W : Type 0) : Type 0 where
  pub copyuvm : ℕ → ℕ → Kmem → Result (ℕ × Kmem)
  pub freevm : ℕ → Kmem → Result Kmem
  pub setupkvm : Kmem → Result (ℕ × Kmem)
  pub inituvm : ℕ → Kmem → Result Kmem
  pub allocuvm : ℕ → ℕ → ℕ → Kmem → Result (ℕ × Kmem)
  pub deallocuvm : ℕ → ℕ → ℕ → Kmem → Result (ℕ × Kmem)
  pub filedup : ℕ → W → Result W
  pub idup : Option ℕ → W → Result W
  pub namei_root : W → Result (Option ℕ × W)
  pub fileclose : ℕ → ℕ → Kernel W → Result (Kernel W)
  pub put_cwd : ℕ → Option ℕ → Kernel W → Result (Kernel W)
