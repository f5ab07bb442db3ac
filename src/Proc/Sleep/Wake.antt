-- ===== src/Proc/Sleep/Wake.antt =====
-- Whom `wakeup` wakes, and the round from `sleep` to `wakeup`.
use cs461_mlfq_scheduler.Proc.Scheduler.{Sched, step}
use cs461_mlfq_scheduler.Proc.Scheduler.Dispatch.{run_it, step-dispatches}
use cs461_mlfq_scheduler.Proc.{
  Proc, Chan, null, sleeping, running, runnable, is_state, same_chan, modify,
}
use cs461_mlfq_scheduler.Proc.Table.{get-map, IsPut, modify-IsPut}
use cs461_mlfq_scheduler.Proc.Sleep.{wakeup, wake_one, sleep_enter, go_to_sleep, sleep_leave}
use cs461_mlfq_scheduler.Base.{
  ap, ◌∙◌, Bool, false, none, panic, Bool-cases, get_elem?, ok, ℕ, ◌≡◌, refl, ◌↔◌, inl, inr, true,
  ◌&&◌, some, List, map, arith,
}

pub same_chan_iff : (a b : Chan) → (same_chan a b ≡ true) ↔ (a ≡ b)
same_chan_iff a b = ground arith

-- `wakeup` makes exactly the processes RUNNABLE that sleep on the channel, and changes nothing
-- else of any process.
pub get-wakeup :
    (chan : Chan) (ps : List Proc) (i : ℕ) (p : Proc)
    → get_elem? ps i ≡ some p
    → ((p.state ≡ sleeping) × (p.chan ≡ chan)
        → get_elem? (wakeup chan ps) i ≡ some (record p { state = runnable }))
      × (¬ ((p.state ≡ sleeping) × (p.chan ≡ chan)) → get_elem? (wakeup chan ps) i ≡ some p)
unfolding wakeup
get-wakeup chan ps i p here = (
  λ h. ground (arith, get-map ps i (wake_one chan), same_chan_iff p.chan chan),
  λ h. elim (Bool-cases (is_state p.state sleeping && same_chan p.chan chan)) [
    | inl both ↦ absurd (h (ground arith, (same_chan_iff p.chan chan).0 (ground arith)))
    | inr not_both ↦ ground (arith, get-map ps i (wake_one chan))
  ],
)

-- A process that goes to sleep on a channel is SLEEPING on it with all else as it was; woken on it
-- and dispatched by an idle scheduler that stands at its slot, it comes out of `sleep` RUNNING and with no
-- channel, and otherwise as it went in. Without a process, or without a lock, `sleep` panics.
pub sleep_wakeup :
    (cur : ℕ) (chan : Chan) (ps : List Proc) (p : Proc) (s : Sched)
    → get_elem? ps cur ≡ some p
    → s.pos ≡ cur
    → s.current ≡ none
    → ((qs : List Proc) × (sleep_enter (some cur) chan true ps ≡ ok qs)
        × IsPut ps cur (record p { chan = chan; state = sleeping }) qs
        × (get_elem? (sleep_leave cur (step s (wakeup chan qs)).1) cur
            ≡ some (record p { state = running; chan = null })))
      × ((has_lock : Bool) → sleep_enter none chan has_lock ps ≡ panic "sleep")
      × (sleep_enter (some cur) chan false ps ≡ panic "sleep without lk")
unfolding sleep_enter sleep_leave wakeup
sleep_wakeup cur chan ps p s here at idle =
    let qs = modify ps cur (go_to_sleep chan) in
    let put = modify-IsPut ps cur p (go_to_sleep chan) here in
    let ready : Proc = record p { chan = chan; state = runnable } in
    let awake : get_elem? (map (wake_one chan) qs) cur ≡ some ready =
      (let asleep = put.0 in
        ground (arith, get-map qs cur (wake_one chan), same_chan_iff chan chan)) in
    let runs : (step s (wakeup chan qs)).1 ≡ modify (wakeup chan qs) cur run_it =
      step-dispatches s (wakeup chan qs) ready idle
        (ap (λ i. get_elem? (wakeup chan qs) i) at ∙ awake) refl
      ∙ ap (λ i. modify (wakeup chan qs) i run_it) at in
    let up = modify-IsPut (wakeup chan qs) cur ready run_it awake in
    let left =
      modify-IsPut (modify (wakeup chan qs) cur run_it) cur (run_it ready)
        (λ q. record q { chan = null }) up.0 in
    (
      (
        qs,
        refl,
        put,
        ap (λ rs. get_elem? (modify rs cur (λ (q : Proc). record q { chan = null })) cur) runs
            ∙ left.0,
      ),
      λ has_lock. refl,
      refl,
    )
