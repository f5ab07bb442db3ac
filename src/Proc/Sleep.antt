-- ===== src/Proc/Sleep.antt =====
-- Sleeping, waking, killing and giving up the CPU, in proc.c.
pub mod Kill
pub mod Wake
use mathlib.Core.Option
use cs461_mlfq_scheduler.Spinlock.{Cpu, Lock, holding}
use cs461_mlfq_scheduler.Proc.{
  ProcState, sleeping, runnable, running, Chan, null, same_chan, Proc, is_state, modify,
}
use cs461_mlfq_scheduler.Base.{
  ◌==◌, if◌then◌else◌, Result, ok, panic, ℕ, Bool, true, false, ◌&&◌, not, Option, none, some, List,
  [], ◌∷◌, map,
}

-- The loop body of `wakeup1`.
abbrev pub wake_one : Chan → Proc → Proc
wake_one chan p =
    if is_state p.state sleeping && same_chan p.chan chan then record p { state = runnable } else p

-- `wakeup1`, and `wakeup`, which calls it with the lock held.
unfoldable pub wakeup : Chan → List Proc → List Proc
wakeup chan procs = map (wake_one chan) procs

abbrev pub kill_one : Proc → Proc
kill_one p =
    if is_state p.state sleeping
    then record p { killed = true; state = runnable }
    else record p { killed = true }

-- The loop of `kill`; `none` if no slot has the pid.
unfoldable pub kill_scan : ℕ → List Proc → Option (List Proc)
kill_scan pid [] = none
kill_scan pid (p ∷ ps) =
    if p.pid == pid then some (kill_one p ∷ ps) else Option.map (λ qs. p ∷ qs) (kill_scan pid ps)

-- `kill`: whether it returns 0 (`true`) or -1, and the table.
unfoldable pub kill : ℕ → List Proc → Bool × List Proc
unfolding kill_scan
kill pid procs = elim (kill_scan pid procs) [ none ↦ (false, procs) | some ps ↦ (true, ps) ]

-- The checks of `sched`, in order. Behind them `swtch` leaves for the scheduler.
unfoldable pub sched_checks : ℕ → Lock → Cpu → ProcState → Result (Unit {0})
sched_checks me ptable_lock cpu state =
    if not (holding me ptable_lock)
    then panic "sched ptable.lock"
    else if not (cpu.ncli == 1)
    then panic "sched locks"
    else if is_state state running
    then panic "sched running"
    else if cpu.iflag
    then panic "sched interruptible"
    else ok tt

abbrev pub go_to_sleep : Chan → Proc → Proc
go_to_sleep chan p = record p { chan = chan; state = sleeping }

-- `sleep` up to `sched`, for the process in slot `cur` (`none`: no process). `has_lock` is the
-- test of its second argument; the lock is released behind the acquisition of `ptable.lock`, so no
-- `wakeup` can come between.
unfoldable pub sleep_enter : Option ℕ → Chan → Bool → List Proc → Result (List Proc)
sleep_enter none chan has_lock procs = panic "sleep"
sleep_enter (some cur) chan has_lock procs =
    if has_lock then ok (modify procs cur (go_to_sleep chan)) else panic "sleep without lk"

-- `sleep` behind `sched`; the scheduler has set the state to RUNNING.
unfoldable pub sleep_leave : ℕ → List Proc → List Proc
sleep_leave cur procs = modify procs cur (λ p. record p { chan = null })

-- `yield` up to `sched`.
unfoldable pub yield_enter : ℕ → List Proc → List Proc
yield_enter cur procs = modify procs cur (λ p. record p { state = runnable })
