-- ===== src/Tests/Table.antt =====
-- Tests of proc.c: scheduling, exit, sleeping, waking and killing.
use cs461_mlfq_scheduler.Proc.{
  sleeping, runnable, running, zombie, null, slot, word, Proc, is_state, is_slot,
}
use cs461_mlfq_scheduler.Proc.Table.{IsPut}
use cs461_mlfq_scheduler.Proc.Sleep.{kill, wakeup, sleep_enter, sleep_leave}
use cs461_mlfq_scheduler.Proc.Sleep.Kill.{IsFirst, kill_lem}
use cs461_mlfq_scheduler.Proc.Sleep.Wake.{sleep_wakeup}
use cs461_mlfq_scheduler.Proc.Family.{reparent, reparent_at, exit_locked, parent_at}
use cs461_mlfq_scheduler.Proc.Family.Exit.{exit_locked_lem}
use cs461_mlfq_scheduler.Proc.Family.Exit.Reparent.{AwaitsChild}
use cs461_mlfq_scheduler.Proc.Scheduler.{Sched, step}
use cs461_mlfq_scheduler.Proc.Scheduler.Fairness.{
  IsPlaced, IsReady, LeavesReady, DispatchedWithin, round_robin,
}
use cs461_mlfq_scheduler.Tests.Data.{process, table}
use cs461_mlfq_scheduler.Base.{
  get_elem?, ok, panic, Bool, none, ℕ, ◌≡◌, refl, ◌≢◌, ◌⊎◌, true, false, some, List, [], ◌∷◌, arith,
}

-- Init runs, its child runs in slot 1, and slot 2 is RUNNABLE.
abbrev three : List Proc
three =
    table
      (process running 1 ∷ record (process running 2) { parent = some 0 } ∷ process runnable 3 ∷ [])

abbrev at_one : Sched
at_one = record { pos = 1; skipped = 0; current = some 1 }

at_one-IsPlaced : IsPlaced at_one
at_one-IsPlaced = record { within = omega arith; inside = λ e. omega arith }

three-IsReady : IsReady 2 three
three-IsReady = record { whole = refl; proc = process runnable 3; here = refl; ready = refl }

abbrev untouched : ℕ → List Proc → List Proc
untouched n ps = ps

untouched-LeavesReady : LeavesReady 2 untouched
untouched-LeavesReady n ps r = r

round_robin_example : DispatchedWithin 128 2 untouched at_one three
round_robin_example =
    round_robin 2 untouched at_one three untouched-LeavesReady at_one-IsPlaced three-IsReady

-- Init waits for its child in slot 1, which has a ZOMBIE child in slot 2.
abbrev waiting : List Proc
waiting = table (
    record (process sleeping 1) { chan = slot 0 }
    ∷ record (process running 2) { parent = some 0 }
    ∷ record (process zombie 3) { parent = some 1 }
    ∷ [])

abbrev woken_init : Proc
woken_init = record (process runnable 1) { chan = slot 0 }

exits : get_elem? (exit_locked 1 (some 0) waiting) 0 ≡ some woken_init
unfolding exit_locked reparent reparent_at wakeup
exits = refl

abbrev init_slot : ℕ
init_slot = 0

exit_locked_lem_example :
    (is_slot 1 woken_init.parent ≡ false)
    × (init_slot ≡ 1 → is_state woken_init.state zombie ≡ true)
    × ((p : Proc)
        → init_slot ≢ 1
        → get_elem? waiting 0 ≡ some p
        → parent_at 1 waiting ≡ some 0
        → AwaitsChild 0 p
        → is_state woken_init.state runnable ≡ true)
    × ((p c : Proc) (z : ℕ)
        → some 0 ≡ some init_slot
        → get_elem? waiting 0 ≡ some p
        → AwaitsChild 0 p
        → get_elem? waiting z ≡ some c
        → is_slot 1 c.parent ≡ true
        → is_state c.state zombie ≡ true
        → is_state woken_init.state runnable ≡ true)
exit_locked_lem_example = exit_locked_lem 1 (some 0) waiting refl refl 0 woken_init exits

kill_lem_example :
    ((kill 1 waiting ≡ (false, waiting))
      × ((j : ℕ) (q : Proc) → get_elem? waiting j ≡ some q → q.pid ≢ 1))
    ⊎ ((i : ℕ) × (p : Proc) × (qs : List Proc) × IsFirst 1 waiting i p
        × (kill 1 waiting ≡ (true, qs))
        × (p.state ≡ sleeping → IsPut waiting i (record p { killed = true; state = runnable }) qs)
        × (p.state ≢ sleeping → IsPut waiting i (record p { killed = true }) qs))
kill_lem_example = kill_lem 1 waiting

-- A scheduler that begins a pass.
abbrev at_zero : Sched
at_zero = record { pos = 0; skipped = 0; current = none }

sleep_wakeup_example :
    ((qs : List Proc) × (sleep_enter (some 0) (word 640) true three ≡ ok qs)
      × IsPut three 0 (record (process running 1) { chan = word 640; state = sleeping }) qs
      × (get_elem? (sleep_leave 0 (step at_zero (wakeup (word 640) qs)).1) 0
          ≡ some (record (process running 1) { state = running; chan = null })))
    × ((has_lock : Bool) → sleep_enter none (word 640) has_lock three ≡ panic "sleep")
    × (sleep_enter (some 0) (word 640) false three ≡ panic "sleep without lk")
sleep_wakeup_example = sleep_wakeup 0 (word 640) three (process running 1) at_zero refl refl refl
