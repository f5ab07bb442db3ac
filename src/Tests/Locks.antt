-- ===== src/Tests/Locks.antt =====
-- Tests of spinlock.c.
use cs461_mlfq_scheduler.Spinlock.{
  Cpu, Machine, spinning, taken, inside, initlock, holding, pushcli, step, run, boot,
}
use cs461_mlfq_scheduler.Spinlock.Exclusion.{critical, is_outside, mutual_exclusion, no_lost_lock}
use cs461_mlfq_scheduler.Spinlock.Nesting.{IsNested}
use cs461_mlfq_scheduler.Base.{
  update, ok, ℕ, ◌≡◌, refl, ◌↔◌, ◌⊎◌, true, false, List, [], ◌∷◌, arith,
}

abbrev orders : List ℕ
orders = 0 ∷ 1 ∷ 0 ∷ 1 ∷ 0 ∷ 1 ∷ 0 ∷ 0 ∷ 1 ∷ []

mutual_exclusion_example :
    (m : Machine) × (run orders boot ≡ ok m)
    × ((i j : ℕ) → critical (m.pc i) ≡ true → critical (m.pc j) ≡ true → i ≡ j)
    × ((i : ℕ) → (holding i m.lock ≡ true) ↔ (m.pc i ≡ inside))
    × ((i : ℕ) → (m.cpu i).iflag ≡ is_outside (m.pc i))
mutual_exclusion_example = mutual_exclusion orders

abbrev idle : Cpu
idle = record { ncli = 0; intena = false; iflag = true }

idle-IsNested : IsNested idle
idle-IsNested = record { off = λ h. absurd (omega arith) }

-- CPU 0 spins on a lock that is free.
abbrev contended : Machine
contended = record {
  lock = initlock;
  cpu = update boot.cpu 0 (pushcli (boot.cpu 0));
  pc = update boot.pc 0 spinning;
}

contends : run (0 ∷ []) boot ≡ ok contended
unfolding run step boot initlock
contends = refl

no_lost_lock_example :
    ((m' : Machine) × (step 0 contended ≡ ok m') × (m'.pc 0 ≡ taken))
    ⊎ ((j : ℕ) × (critical (contended.pc j) ≡ true))
no_lost_lock_example = no_lost_lock (0 ∷ []) 0 contends refl
