-- ===== src/Proc/Scheduler.antt =====
-- `scheduler` of proc.c: one CPU's loop over the process table.
pub mod Dispatch
pub mod Fairness
use cs461_mlfq_scheduler.Proc.{runnable, running, Proc, nproc, is_state, modify}
use cs461_mlfq_scheduler.Base.{
  ltb, if◌then◌else◌, get_elem?, ℕ, zero, suc, ◌+◌, Bool, true, false, Option, none, some, List,
}

-- The loop's variables: the slot that `p` points to, `skipped`, and the CPU's `proc`.
pub record Sched : Type 0 where
  pub pos : ℕ
  pub skipped : ℕ
  pub current : Option ℕ

-- What one round does: pass over a slot, switch to the process in a slot, take the CPU back from
-- it, or end a pass over the table, with or without `hlt`.
pub data Event : Type 0 where
  passed : Event
  dispatched : ℕ → Event
  returned : Event
  pass_ended : Bool → Event

-- The loop body at slot `pos`, up to `swtch`.
visit : Sched → Proc → List Proc → Sched × List Proc × Event
visit s p procs =
    if is_state p.state runnable
    then (
      record s { skipped = 0; current = some s.pos },
      modify procs s.pos (λ q. record q { state = running }),
      dispatched s.pos,
    )
    else (record s { skipped = s.skipped + 1; pos = s.pos + 1 }, procs, passed)

-- The end of the inner loop; the outer loop begins again at slot 0.
end_pass : Sched → List Proc → Sched × List Proc × Event
end_pass s procs =
    if ltb nproc s.skipped
    then (record s { pos = 0; skipped = 0 }, procs, pass_ended true)
    else (record s { pos = 0 }, procs, pass_ended false)

unfoldable pub step : Sched → List Proc → Sched × List Proc × Event
unfolding visit end_pass
step s procs = elim (s.current) [
  | some p ↦ (record s { current = none; pos = s.pos + 1 }, procs, returned)
  | none ↦ elim (get_elem? procs s.pos) [ some p ↦ visit s p procs | none ↦ end_pass s procs ]
]

-- The scheduler's first `n` steps; behind each of them the rest of the machine changes the table
-- in any way, `env`.
unfoldable pub after : ℕ → (ℕ → List Proc → List Proc) → Sched → List Proc → Sched × List Proc
after zero env s procs = (s, procs)
after (suc n) env s procs =
    let (s', procs', _) = step s procs in after n (λ i. env (i + 1)) s' (env 0 procs')
