-- ===== src/Spinlock/Exclusion.antt =====
-- What holds of a spin lock under every interleaving of the CPUs.
use cs461_mlfq_scheduler.Spinlock.{
  pushcli, Machine, Pc, outside, spinning, taken, inside, clearing, holding, step, run, boot,
  initlock,
}
use cs461_mlfq_scheduler.Base.{
  Bool-cases, update, ok, ℕ, ◌-◌, ◌≡◌, refl, ◌↔◌, ◌⊎◌, inl, inr, Bool, true, false, none, some,
  List, [], ◌∷◌, arith,
}

-- From a successful `xchg` up to the store of 0.
abbrev pub critical : Pc → Bool
critical taken = true
critical inside = true
critical clearing = true
critical _ = false

abbrev pub is_outside : Pc → Bool
is_outside outside = true
is_outside _ = false

pub record IsSafe (m : Machine) : Type 0 where
  pub alone : (i j : ℕ) → critical (m.pc i) ≡ true → critical (m.pc j) ≡ true → i ≡ j
  pub locked_by : (i : ℕ) → critical (m.pc i) ≡ true → m.lock.locked ≡ true
  pub held_by : m.lock.locked ≡ true → (i : ℕ) × (critical (m.pc i) ≡ true)
  pub owner_inside : (i : ℕ) → m.lock.owner ≡ some i → m.pc i ≡ inside
  pub inside_owner : (i : ℕ) → m.pc i ≡ inside → m.lock.owner ≡ some i
  pub at_rest : (i : ℕ) → m.pc i ≡ outside → (m.cpu i).ncli ≡ 0
  pub open_at_rest : (i : ℕ) → m.pc i ≡ outside → (m.cpu i).iflag ≡ true
  pub nested : (i : ℕ) → is_outside (m.pc i) ≡ false → (m.cpu i).ncli ≡ 1
  pub off : (i : ℕ) → is_outside (m.pc i) ≡ false → (m.cpu i).iflag ≡ false
  pub reopens : (i : ℕ) → is_outside (m.pc i) ≡ false → (m.cpu i).intena ≡ true

boot-IsSafe : IsSafe boot
unfolding boot initlock
boot-IsSafe = record {
  alone = λ i j a b. cc;
  locked_by = λ i a. cc;
  held_by = λ a. absurd (cc);
  owner_inside = λ i a. cc;
  inside_owner = λ i a. cc;
  at_rest = λ i a. refl;
  open_at_rest = λ i a. refl;
  nested = λ i a. cc;
  off = λ i a. cc;
  reopens = λ i a. cc;
}

module _ (me : ℕ) (m : Machine) (v : IsSafe m) where
  open v use {
    alone, locked_by, held_by, owner_inside, inside_owner, at_rest, open_at_rest, nested, off,
    reopens,
  }

  step_outside : m.pc me ≡ outside → (m' : Machine) × (step me m ≡ ok m') × IsSafe m'
  unfolding step
  step_outside e = (
    record m { cpu = update m.cpu me (pushcli (m.cpu me)); pc = update m.pc me spinning },
    ground (arith, owner_inside me),
    record {
      alone = λ i j a b. ground (arith, alone i j);
      locked_by = λ i a. ground (arith, locked_by i);
      held_by = λ a. let (i, c) = held_by a in (i, ground arith);
      owner_inside = λ i a. ground (arith, owner_inside i);
      inside_owner = λ i a. ground (arith, inside_owner i);
      at_rest = λ i a. ground (arith, at_rest i);
      open_at_rest = λ i a. ground (arith, open_at_rest i);
      nested = λ i a. ground (arith, nested i, at_rest i);
      off = λ i a. ground (arith, off i);
      reopens = λ i a. ground (arith, reopens i, open_at_rest i, at_rest i);
    },
  )

  step_spinning : m.pc me ≡ spinning → (m' : Machine) × (step me m ≡ ok m') × IsSafe m'
  unfolding step
  step_spinning e = elim (Bool-cases m.lock.locked) [
    | inl busy ↦ (m, ground arith, v)
    | inr free ↦ (
      record m { lock = record { locked = true; owner = m.lock.owner }; pc = update m.pc me taken },
      ground arith,
      record {
        alone = λ i j a b. ground (arith, locked_by i, locked_by j);
        locked_by = λ i a. refl;
        held_by = λ a. (me, ground arith);
        owner_inside = λ i a. ground (arith, owner_inside i);
        inside_owner = λ i a. ground (arith, inside_owner i);
        at_rest = λ i a. ground (arith, at_rest i);
        open_at_rest = λ i a. ground (arith, open_at_rest i);
        nested = λ i a. ground (arith, nested i);
        off = λ i a. ground (arith, off i);
        reopens = λ i a. ground (arith, reopens i);
      },
    )
  ]

  step_taken : m.pc me ≡ taken → (m' : Machine) × (step me m ≡ ok m') × IsSafe m'
  unfolding step
  step_taken e = (
    record m {
      lock = record { locked = m.lock.locked; owner = some me };
      pc = update m.pc me inside;
    },
    ground arith,
    record {
      alone = λ i j a b. ground (arith, alone i j, alone me j, alone i me);
      locked_by = λ i a. ground (arith, locked_by i, locked_by me);
      held_by = λ a. (me, ground arith);
      owner_inside = λ i a. ground (arith, owner_inside i);
      inside_owner = λ i a. ground (arith, inside_owner i, alone i me);
      at_rest = λ i a. ground (arith, at_rest i);
      open_at_rest = λ i a. ground (arith, open_at_rest i);
      nested = λ i a. ground (arith, nested i);
      off = λ i a. ground (arith, off i);
      reopens = λ i a. ground (arith, reopens i);
    },
  )

  step_inside : m.pc me ≡ inside → (m' : Machine) × (step me m ≡ ok m') × IsSafe m'
  unfolding step
  step_inside e = (
    record m {
      lock = record { locked = m.lock.locked; owner = none };
      pc = update m.pc me clearing;
    },
    ground (arith, inside_owner me, locked_by me),
    record {
      alone = λ i j a b. ground (arith, alone i j, alone me j, alone i me);
      locked_by = λ i a. ground (arith, locked_by i, locked_by me);
      held_by = λ a. (me, ground arith);
      owner_inside = λ i a. cc;
      inside_owner = λ i a. ground (arith, alone i me);
      at_rest = λ i a. ground (arith, at_rest i);
      open_at_rest = λ i a. ground (arith, open_at_rest i);
      nested = λ i a. ground (arith, nested i);
      off = λ i a. ground (arith, off i);
      reopens = λ i a. ground (arith, reopens i);
    },
  )

  step_clearing : m.pc me ≡ clearing → (m' : Machine) × (step me m ≡ ok m') × IsSafe m'
  unfolding step
  step_clearing e = (
    record m {
      lock = record { locked = false; owner = m.lock.owner };
      cpu =
          update m.cpu me
            (record { ncli = (m.cpu me).ncli - 1; intena = (m.cpu me).intena; iflag = true });
      pc = update m.pc me outside;
    },
    ground (arith, nested me, off me, reopens me),
    record {
      alone = λ i j a b. ground (arith, alone i j, alone me j, alone i me);
      locked_by = λ i a. ground (arith, alone i me);
      held_by = λ a. absurd (cc);
      owner_inside = λ i a. ground (arith, owner_inside i);
      inside_owner = λ i a. ground (arith, inside_owner i);
      at_rest = λ i a. ground (arith, at_rest i, nested i);
      open_at_rest = λ i a. ground (arith, open_at_rest i);
      nested = λ i a. ground (arith, nested i);
      off = λ i a. ground (arith, off i);
      reopens = λ i a. ground (arith, reopens i);
    },
  )

  -- No step panics, and every step keeps the lock safe.
  pub step-IsSafe : (m' : Machine) × (step me m ≡ ok m') × IsSafe m'
  step-IsSafe = by_pc (m.pc me) refl
    where
      by_pc : (p : Pc) → m.pc me ≡ p → (m' : Machine) × (step me m ≡ ok m') × IsSafe m'
      by_pc outside e = step_outside e
      by_pc spinning e = step_spinning e
      by_pc taken e = step_taken e
      by_pc inside e = step_inside e
      by_pc clearing e = step_clearing e

run-IsSafe :
    (order : List ℕ) (m : Machine) → IsSafe m → (m' : Machine) × (run order m ≡ ok m') × IsSafe m'
unfolding run
run-IsSafe [] m v = (m, refl, v)
run-IsSafe (me ∷ rest) m v =
    let (m1, e1, v1) = step-IsSafe me m v in
    let (m2, e2, v2) = run-IsSafe rest m1 v1 in (m2, rw e1 e2, v2)

reach-IsSafe : (order : List ℕ) (m : Machine) → run order boot ≡ ok m → IsSafe m
reach-IsSafe order m e =
    let (m', e', v) = run-IsSafe order boot boot-IsSafe in let same : m' ≡ m = cc in rw (← same) v

-- In whatever order the CPUs take their steps, no check of `acquire`, `release` or `popcli`
-- panics; two CPUs are never between a successful `xchg` and the store of 0; `holding` is true
-- exactly for a CPU between `lk->cpu = cpu` and `lk->cpu = 0`; and interrupts are off on each CPU
-- from its `pushcli` to its `popcli`, and on outside.
pub mutual_exclusion :
    (order : List ℕ)
    → (m : Machine) × (run order boot ≡ ok m)
      × ((i j : ℕ) → critical (m.pc i) ≡ true → critical (m.pc j) ≡ true → i ≡ j)
      × ((i : ℕ) → (holding i m.lock ≡ true) ↔ (m.pc i ≡ inside))
      × ((i : ℕ) → (m.cpu i).iflag ≡ is_outside (m.pc i))
unfolding holding
mutual_exclusion order =
    let (m, e, v) = run-IsSafe order boot boot-IsSafe in
    (
      m,
      e,
      v.alone,
      λ i. ground (arith, v.owner_inside i, v.inside_owner i, v.locked_by i),
      λ i. ground (arith, v.open_at_rest i, v.off i),
    )

-- The lock is not lost: whenever some CPU spins on it, the CPU's next `xchg` succeeds, or another
-- CPU is in its critical section.
pub no_lost_lock :
    (order : List ℕ) (i : ℕ) {m : Machine}
    → run order boot ≡ ok m
    → m.pc i ≡ spinning
    → ((m' : Machine) × (step i m ≡ ok m') × (m'.pc i ≡ taken))
      ⊎ ((j : ℕ) × (critical (m.pc j) ≡ true))
unfolding step
no_lost_lock order i {m} e s =
    let v = reach-IsSafe order m e in
    elim (Bool-cases m.lock.locked) [
      | inl busy ↦ inr (v.held_by busy)
      | inr free ↦ inl (
        record m {
          lock = record { locked = true; owner = m.lock.owner };
          pc = update m.pc i taken;
        },
        ground arith,
        ground arith,
      )
    ]
