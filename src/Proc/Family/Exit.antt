-- ===== src/Proc/Family/Exit.antt =====
-- What `exit` leaves behind: a zombie with no children, and a parent that is awake.
pub mod Reparent
pub mod Orphans
use cs461_mlfq_scheduler.Proc.{
  same_chan, Proc, Chan, slot, sleeping, runnable, zombie, is_state, is_slot, modify, nproc,
}
use native.Mathlib.Nat.{add-zero}
use native.Mathlib.Decide.{ℕ_discrete}
use mathlib.Core.Path.{subst}
use cs461_mlfq_scheduler.Proc.Table.{
  get-modify, get-map, get-lt-length, modify_origin, map_origin, Each, Each-refl, Each-trans,
  Each-map, Each-modify,
}
use cs461_mlfq_scheduler.Proc.Sleep.{wakeup, wake_one}
use cs461_mlfq_scheduler.Proc.Family.{chan_of, parent_at, reparent_at, reparent, exit_locked}
use cs461_mlfq_scheduler.Base.{
  length, get_elem?, ℕ, ◌≡◌, sym, ◌≢◌, inl, inr, true, false, Option, some, List, map, arith,
}
use cs461_mlfq_scheduler.Proc.Family.Exit.Reparent.{
  Stays, Stays-reparent, NoneBelow-reparent, AwaitsChild,
}
use cs461_mlfq_scheduler.Proc.Family.Exit.Orphans.{Orphan-wakeup, Ready-wakeup, Awake-reparent}

-- When a process other than init exits, its slot is a ZOMBIE and no process is left that has it as
-- parent. A parent that sleeps in `wait` is made RUNNABLE; so is init, if it sleeps in `wait` and a
-- child that it is given is a ZOMBIE already.
pub exit_locked_lem :
    (cur : ℕ) (init : Option ℕ) (ps : List Proc)
    → length ps ≡ nproc
    → is_slot cur init ≡ false
    → (j : ℕ) (q : Proc) → get_elem? (exit_locked cur init ps) j ≡ some q
    → (is_slot cur q.parent ≡ false)
      × (j ≡ cur → is_state q.state zombie ≡ true)
      × ((p : Proc)
          → j ≢ cur
          → get_elem? ps j ≡ some p
          → parent_at cur ps ≡ some j
          → AwaitsChild j p
          → is_state q.state runnable ≡ true)
      × ((p c : Proc) (z : ℕ)
          → init ≡ some j
          → get_elem? ps j ≡ some p
          → AwaitsChild j p
          → get_elem? ps z ≡ some c
          → is_slot cur c.parent ≡ true
          → is_state c.state zombie ≡ true
          → is_state q.state runnable ≡ true)
unfolding exit_locked wakeup
exit_locked_lem cur init ps whole other j q at =
    let chan = chan_of (parent_at cur ps) in
    let woken = map (wake_one chan) ps in
    let moved = reparent cur init nproc 0 woken in
    let die = λ (p : Proc). record p { state = zombie } in
    let (m, here, same) = modify_origin moved cur j die q at in
    let (w, from, stays) = Stays-reparent cur init nproc 0 woken j m here in
    let (p0, was, is_woken) = map_origin ps j (wake_one chan) w from in
    let low = get-lt-length ps j p0 was in
    let orphan =
      NoneBelow-reparent cur init nproc 0 woken other (λ i r lt h. absurd (omega arith)) j m
        (omega arith) here in
    (
      elim same [ inl old ↦ ground arith | inr (cj, new) ↦ ground arith ],
      λ eq. ground (arith, get-modify moved cur j die),
      λ p ne at_p parent awaits. elim same [
        | inr (cj, new) ↦ absurd (ne (sym cj))
        | inl old ↦
            let p_same : p0 ≡ p = cc in
            let up : is_state w.state runnable ≡ true = ground arith in ground arith
      ],
      λ p c z is_init at_p awaits at_z mine dead.
          let ne : cur ≢ j = (λ e. ground (arith, is_init)) in
          let orphan = Orphan-wakeup cur init z chan ps (c, at_z, mine, dead) in
          let ready = Ready-wakeup cur init j chan ps (p, at_p, inr awaits) in
          let up =
            Awake-reparent cur init nproc 0 j z woken is_init (omega arith)
              (omega (arith, whole, get-lt-length ps z c at_z)) orphan ready in
          elim same [
            | inr (cj, new) ↦ absurd (ne cj)
            | inl old ↦ subst (λ (x : Proc). is_state x.state runnable ≡ true) (sym old) (up m here)
          ],
    )
