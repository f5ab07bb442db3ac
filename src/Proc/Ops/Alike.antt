-- ===== src/Proc/Ops/Alike.antt =====
-- The steps that leave each slot's pid, and whether it is in use, as they were.
use cs461_mlfq_scheduler.Proc.{Proc, Chan, zombie, is_state, is_slot, modify, nproc}
use cs461_mlfq_scheduler.Proc.Table.{Each, Each-refl, Each-trans, Each-map, Each-modify}
use cs461_mlfq_scheduler.Proc.Pids.{IsLive, Alike, Alike-refl, Alike-trans}
use cs461_mlfq_scheduler.Proc.Sleep.{wakeup, wake_one, kill, kill_one}
use cs461_mlfq_scheduler.Proc.Sleep.Kill.{kill_cases}
use cs461_mlfq_scheduler.Proc.Family.{exit_locked, reparent, reparent_at, chan_of, parent_at}
use cs461_mlfq_scheduler.Proc.Scheduler.Dispatch.{procs-step, run_it}
use cs461_mlfq_scheduler.Proc.Scheduler.{Sched, step}
use cs461_mlfq_scheduler.Proc.Ops.{Runs}
use cs461_mlfq_scheduler.Base.{
  Bool-cases, Option-cases, get_elem?, ℕ, zero, suc, ◌+◌, ◌≡◌, refl, sym, ◌∙◌, inl, inr, Option,
  some, List, arith,
}

pub Alike-wakeup : (chan : Chan) (ps : List Proc) → Each Alike ps (wakeup chan ps)
unfolding wakeup
Alike-wakeup chan ps = Each-map Alike ps (wake_one chan) (λ p. ground arith)

pub Alike-modify :
    (ps : List Proc) (i : ℕ) (f : Proc → Proc)
    → ((p : Proc) → get_elem? ps i ≡ some p → Alike p (f p))
    → Each Alike ps (modify ps i f)
Alike-modify ps i f h = Each-modify Alike ps i f Alike-refl h

pub Alike-kill : (pid : ℕ) (ps : List Proc) → Each Alike ps (kill pid ps).1
Alike-kill pid ps = elim (kill_cases pid ps) [
  | inl (e, _) ↦ rw e (Each-refl Alike ps Alike-refl)
  | inr (i, p, _, e) ↦ rw e (Alike-modify ps i kill_one (λ q h. ground arith))
]

pub Alike-reparent_at :
    (cur : ℕ) (init : Option ℕ) (i : ℕ) (ps : List Proc) → Each Alike ps (reparent_at cur init i ps)
unfolding reparent_at
Alike-reparent_at cur init i ps = elim (Option-cases (get_elem? ps i)) [
  | inl gone ↦ rw (gone, reparent_at) (Each-refl Alike ps Alike-refl)
  | inr (p, here) ↦
      let moved = modify ps i (λ (q : Proc). record q { parent = init }) in
      let step : Each Alike ps moved =
        Alike-modify ps i (λ q. record q { parent = init }) (λ q h. Alike-refl q) in
      rw (here, reparent_at)
        (elim (Bool-cases (is_slot cur p.parent)) [
          | inr other ↦ rw other (Each-refl Alike ps Alike-refl)
          | inl child ↦ rw child (elim (Bool-cases (is_state p.state zombie)) [
            | inl dead ↦
                rw dead
                  (Each-trans Alike ps moved _ Alike-trans step (Alike-wakeup (chan_of init) moved))
            | inr alive ↦ rw alive step
          ])
        ])
]

pub Alike-reparent :
    (cur : ℕ) (init : Option ℕ) (n i : ℕ) (ps : List Proc)
    → Each Alike ps (reparent cur init n i ps)
unfolding reparent
Alike-reparent cur init zero i ps = Each-refl Alike ps Alike-refl
Alike-reparent cur init (suc n) i ps =
    Each-trans Alike ps (reparent_at cur init i ps) _ Alike-trans (Alike-reparent_at cur init i ps)
      (Alike-reparent cur init n (i + 1) (reparent_at cur init i ps))

-- The slot of a process that acts is in use.
abbrev pub Acting : ℕ → List Proc → Type 0
Acting cur ps = (p : Proc) → get_elem? ps cur ≡ some p → IsLive p

pub Alike-exit_locked :
    (cur : ℕ) (init : Option ℕ) (ps : List Proc)
    → Acting cur ps
    → Each Alike ps (exit_locked cur init ps)
unfolding exit_locked
Alike-exit_locked cur init ps live =
    let woken = wakeup (chan_of (parent_at cur ps)) ps in
    let moved = reparent cur init nproc 0 woken in
    let before : Each Alike ps moved =
      Each-trans Alike ps woken moved Alike-trans (Alike-wakeup (chan_of (parent_at cur ps)) ps)
        (Alike-reparent cur init nproc 0 woken) in
    Each-trans Alike ps moved _ Alike-trans before (
      Alike-modify moved cur (λ p. record p { state = zombie })
        (λ q here. let (p, was, l) = before cur q here in (sym (l.0 ∙ live p was), refl)))

pub Alike-step : (s : Sched) (ps : List Proc) → Each Alike ps (step s ps).1
Alike-step s ps = elim (procs-step s ps) [
  | inl same ↦ rw same (Each-refl Alike ps Alike-refl)
  | inr (p, here, ready, e, _, _) ↦ rw e (Alike-modify ps s.pos run_it (λ q at. ground arith))
]

pub Runs-Acting : (cur : ℕ) (ps : List Proc) → Runs cur ps → Acting cur ps
Runs-Acting cur ps (p, here, runs) q at = ground arith
