-- ===== src/Proc/Scheduler/Dispatch.antt =====
-- What one step of the scheduler does to the table.
use cs461_mlfq_scheduler.Proc.{Proc, runnable, running, is_state, modify}
use cs461_mlfq_scheduler.Proc.Scheduler.{Sched, dispatched, step}
use cs461_mlfq_scheduler.Base.{
  Bool-cases, Option-cases, get_elem?, ◌≡◌, ◌⊎◌, inl, inr, true, none, some, List, arith,
}

abbrev pub run_it : Proc → Proc
run_it q = record q { state = running }

-- A step dispatches the RUNNABLE process in the slot that it stands at, and leaves the rest, or
-- it leaves the table as it is.
pub procs-step :
    (s : Sched) (ps : List Proc)
    → ((step s ps).1 ≡ ps)
      ⊎ ((p : Proc) × (get_elem? ps s.pos ≡ some p)
          × (is_state p.state runnable ≡ true)
          × ((step s ps).1 ≡ modify ps s.pos run_it)
          × ((step s ps).2 ≡ dispatched s.pos)
          × (s.current ≡ none))
unfolding step
procs-step s ps = elim (Option-cases s.current) [
  | inr (c, back) ↦ inl (ground arith)
  | inl idle ↦ elim (Option-cases (get_elem? ps s.pos)) [
    | inl gone ↦ inl (ground arith)
    | inr (p, here) ↦ elim (Bool-cases (is_state p.state runnable)) [
      | inl ready ↦ inr (p, here, ready, ground arith, ground arith, idle)
      | inr other ↦ inl (ground arith)
    ]
  ]
]

-- A RUNNABLE process that the scheduler stands at is dispatched.
pub step-dispatches :
    (s : Sched) (ps : List Proc) (p : Proc)
    → s.current ≡ none
    → get_elem? ps s.pos ≡ some p
    → p.state ≡ runnable
    → (step s ps).1 ≡ modify ps s.pos run_it
unfolding step
step-dispatches s ps p idle here ready = ground arith
