-- ===== src/Proc/Scheduler/Fairness.antt =====
-- The scheduler goes round the table: no RUNNABLE process waits for more than one round.
use cs461_mlfq_scheduler.Proc.{Proc, runnable, nproc, is_state}
use cs461_mlfq_scheduler.Proc.Table.{get-modify, length-modify, get-lt-length, length-le_of_get}
use cs461_mlfq_scheduler.Proc.Scheduler.{Sched, dispatched, step, after}
use cs461_mlfq_scheduler.Proc.Scheduler.Dispatch.{procs-step, run_it}
use native.Mathlib.Decide.{ℕ_discrete}
use cs461_mlfq_scheduler.Base.{
  leb, if◌then◌else◌, Bool-cases, Option-cases, length, get_elem?, ℕ, zero, suc, ◌+◌, ◌-◌, ◌*◌, ◌≤◌,
  ◌<◌, ◌≡◌, refl, ◌∙◌, ◌≢◌, ◌⊎◌, inl, inr, Bool, true, false, Option, none, some, List, arith,
}

-- Slot `j` has a RUNNABLE process, in a table of full length.
pub record IsReady (j : ℕ) (ps : List Proc) : Type 0 where
  pub whole : length ps ≡ nproc
  pub proc : Proc
  pub here : get_elem? ps j ≡ some proc
  pub ready : is_state proc.state runnable ≡ true

abbrev pub busy : Option ℕ → Bool
busy none = false
busy (some c) = true

-- The loop stands at a slot of the table, or behind its end with no process to return from.
pub record IsPlaced (s : Sched) : Type 0 where
  pub within : s.pos ≤ nproc
  pub inside : busy s.current ≡ true → s.pos < nproc

-- The steps from slot `pos` to slot `j`, going round.
abbrev pub way : ℕ → ℕ → ℕ
way pos j = if leb pos j then 2 * (j - pos) else 2 * (nproc - pos) + 1 + 2 * j

abbrev pub rank : Sched → ℕ → ℕ
rank s j = if busy s.current then 1 + way (s.pos + 1) j else way s.pos j

module _ (j : ℕ) (s : Sched) (ps : List Proc) (v : IsPlaced s) (r : IsReady j ps) where
  open r use {whole, proc, here, ready}

  -- The process in slot `j` is switched to as soon as the loop stands there.
  step_there : busy s.current ≡ false → s.pos ≡ j → (step s ps).2 ≡ dispatched j
  unfolding step
  step_there idle at = ground (arith, here, ready)

  -- Any other step comes nearer to slot `j`.
  step_nearer :
      ((busy s.current ≡ true) ⊎ (s.pos ≢ j))
      → IsPlaced (step s ps).0 × (rank (step s ps).0 j < rank s j)
  unfolding step
  step_nearer away = elim (Option-cases s.current) [
    | inr (c, back) ↦ (
      record { within = ground (arith, v.inside); inside = ground (arith) },
      ground (arith, v.inside),
    )
    | inl idle ↦ elim (Option-cases (get_elem? ps s.pos)) [
      | inr (p, at) ↦
          let inside = get-lt-length ps s.pos p at in
          elim (Bool-cases (is_state p.state runnable)) [
            | inl yes_ ↦ (record { within = ground arith; inside = ground arith }, ground arith)
            | inr no_ ↦ (record { within = ground arith; inside = ground arith }, ground arith)
          ]
      | inl gone ↦
          let past = length-le_of_get ps s.pos gone in
          let low = get-lt-length ps j proc here in
          (record { within = ground (arith); inside = ground (arith) }, ground (arith, v.within))
    ]
  ]

  step_keeps : ((busy s.current ≡ true) ⊎ (s.pos ≢ j)) → IsReady j (step s ps).1
  step_keeps away = elim (procs-step s ps) [
    | inl same ↦ rw same r
    | inr (p, at, ok_, e, event, idle) ↦ record {
      whole = rw e (length-modify ps s.pos run_it ∙ whole);
      proc = proc;
      here = rw e (get-modify ps s.pos j run_it ∙ ground arith);
      ready = ready;
    }
  ]

-- What the rest of the machine does to the table between two steps of the scheduler: anything that
-- leaves a RUNNABLE process in slot `j`.
abbrev pub LeavesReady : ℕ → (ℕ → List Proc → List Proc) → Type 0
LeavesReady j env = (n : ℕ) (ps : List Proc) → IsReady j ps → IsReady j (env n ps)

-- Where the loop stands, seen from slot `j`.
stands :
    (j : ℕ) (current : Option ℕ) (pos : ℕ)
    → ((busy current ≡ false) × (pos ≡ j)) ⊎ ((busy current ≡ true) ⊎ (pos ≢ j))
stands j none pos = elim (ℕ_discrete pos j) [ yes e ↦ inl (refl, e) | no ne ↦ inr (inr ne) ]
stands j (some c) pos = inr (inl refl)

-- The dispatch of slot `j` in at most `r` steps.
abbrev pub DispatchedWithin : ℕ → ℕ → (ℕ → List Proc → List Proc) → Sched → List Proc → Type 0
DispatchedWithin r j env s ps =
    (n : ℕ) × (n ≤ r) × ((step (after n env s ps).0 (after n env s ps).1).2 ≡ dispatched j)

within_rank :
    (r j : ℕ) (env : ℕ → List Proc → List Proc) (s : Sched) (ps : List Proc)
    → LeavesReady j env
    → IsPlaced s
    → IsReady j ps
    → rank s j ≤ r
    → DispatchedWithin r j env s ps
unfolding after
within_rank zero j env s ps leaves v ready le = elim (stands j s.current s.pos) [
  | inl (idle, at) ↦ (0, omega arith, step_there j s ps v ready idle at)
  | inr away ↦ let (v', nearer) = step_nearer j s ps v ready away in absurd (omega arith)
]
within_rank (suc r) j env s ps leaves v ready le = elim (stands j s.current s.pos) [
  | inl (idle, at) ↦ (0, omega arith, step_there j s ps v ready idle at)
  | inr away ↦
      let (v', nearer) = step_nearer j s ps v ready away in
      let (n, less, e) =
        within_rank r j (λ i. env (i + 1)) (step s ps).0 (env 0 (step s ps).1)
          (λ i qs h. leaves (i + 1) qs h) v'
          (leaves 0 (step s ps).1 (step_keeps j s ps v ready away)) (omega arith) in
      (suc n, omega arith, e)
]

-- A RUNNABLE process is switched to within 129 steps of the scheduler, that is before any other
-- slot has its turn twice, from wherever the scheduler stands and whatever the processes that run
-- in between do to the table, as long as they leave the process RUNNABLE.
pub round_robin :
    (j : ℕ) (env : ℕ → List Proc → List Proc) (s : Sched) (ps : List Proc)
    → LeavesReady j env
    → IsPlaced s
    → IsReady j ps
    → DispatchedWithin 128 j env s ps
round_robin j env s ps leaves v ready = within_rank 128 j env s ps leaves v ready (
    let low = get-lt-length ps j ready.proc ready.here in
    let whole = ready.whole in ground (arith, v.within, v.inside))
