-- ===== src/Proc/Family/Exit/Reparent.antt =====
-- What the loop of `exit` that gives its children to init does.
use cs461_mlfq_scheduler.Proc.{
  Proc, Chan, slot, sleeping, runnable, zombie, is_state, is_slot, modify,
}
use native.Mathlib.Nat.{add-zero}
use native.Mathlib.Decide.{ℕ_discrete}
use mathlib.Core.Path.{subst}
use cs461_mlfq_scheduler.Proc.Table.{
  get-modify, modify_origin, map_origin, Each, Each-refl, Each-trans, Each-map, Each-modify,
}
use cs461_mlfq_scheduler.Proc.Sleep.{wakeup, wake_one}
use cs461_mlfq_scheduler.Proc.Family.{chan_of, reparent_at, reparent}
use cs461_mlfq_scheduler.Base.{
  Bool-cases, Option-cases, get_elem?, ℕ, zero, suc, ◌+◌, ◌<◌, ◌≡◌, refl, ◌⊎◌, inl, inr, true,
  false, Option, some, List, arith,
}

-- The process is in the state that it was in, or slept and is RUNNABLE.
abbrev pub Stays : Proc → Proc → Type 0
Stays p q = (q.state ≡ p.state) ⊎ ((p.state ≡ sleeping) × (q.state ≡ runnable))

pub Stays-refl : (p : Proc) → Stays p p
Stays-refl p = inl refl

pub Stays-trans : (p q r : Proc) → Stays p q → Stays q r → Stays p r
Stays-trans p q r a b = ground arith

pub Stays-wakeup : (chan : Chan) (ps : List Proc) → Each Stays ps (wakeup chan ps)
unfolding wakeup
Stays-wakeup chan ps = Each-map Stays ps (wake_one chan) (λ p. ground arith)

-- The parent is asleep in `wait`: on the channel of its own slot.
abbrev pub AwaitsChild : ℕ → Proc → Type 0
AwaitsChild i p = (is_state p.state sleeping ≡ true) × (p.chan ≡ slot i)

module _ (cur : ℕ) (init : Option ℕ) where
  abbrev pub adopt : Proc → Proc
  adopt q = record q { parent = init }

  -- One round of the loop: nothing, or the child in slot `i` is adopted and init perhaps woken.
  pub reparent_at_cases :
      (i : ℕ) (ps : List Proc)
      → ((reparent_at cur init i ps ≡ ps)
          × ((p : Proc) → get_elem? ps i ≡ some p → is_slot cur p.parent ≡ false))
        ⊎ (reparent_at cur init i ps ≡ modify ps i adopt)
        ⊎ (reparent_at cur init i ps ≡ wakeup (chan_of init) (modify ps i adopt))
  unfolding reparent_at
  reparent_at_cases i ps = elim (Option-cases (get_elem? ps i)) [
    | inl gone ↦ inl (ground arith, λ p h. cc)
    | inr (p, here) ↦ elim (Bool-cases (is_slot cur p.parent)) [
      | inr other ↦ inl (ground arith, λ q h. ground arith)
      | inl child ↦ elim (Bool-cases (is_state p.state zombie)) [
        | inl dead ↦ inr (inr (ground arith))
        | inr alive ↦ inr (inl (ground arith))
      ]
    ]
  ]

  Stays-adopt : (i : ℕ) (ps : List Proc) → Each Stays ps (modify ps i adopt)
  Stays-adopt i ps = Each-modify Stays ps i adopt Stays-refl (λ p at. inl refl)

  Stays-reparent_at : (i : ℕ) (ps : List Proc) → Each Stays ps (reparent_at cur init i ps)
  Stays-reparent_at i ps = elim (reparent_at_cases i ps) [
    | inl (same, _) ↦ rw same (Each-refl Stays ps Stays-refl)
    | inr (inl e) ↦ rw e (Stays-adopt i ps)
    | inr (inr e) ↦ rw e (
        Each-trans Stays ps (modify ps i adopt) _ Stays-trans (Stays-adopt i ps)
          (Stays-wakeup (chan_of init) (modify ps i adopt)))
  ]

  pub Stays-reparent : (n i : ℕ) (ps : List Proc) → Each Stays ps (reparent cur init n i ps)
  unfolding reparent
  Stays-reparent zero i ps = Each-refl Stays ps Stays-refl
  Stays-reparent (suc n) i ps =
      Each-trans Stays ps (reparent_at cur init i ps) _ Stays-trans (Stays-reparent_at i ps)
        (Stays-reparent n (i + 1) (reparent_at cur init i ps))

  -- No slot below `n` has `cur` as its parent.
  abbrev pub NoneBelow : ℕ → List Proc → Type 0
  NoneBelow n ps =
      (j : ℕ) (q : Proc) → j < n → get_elem? ps j ≡ some q → is_slot cur q.parent ≡ false

  NoneBelow-wakeup :
      (n : ℕ) (chan : Chan) (ps : List Proc) → NoneBelow n ps → NoneBelow n (wakeup chan ps)
  unfolding wakeup
  NoneBelow-wakeup n chan ps h j q lt at =
      let (p, here, same) = map_origin ps j (wake_one chan) q at in
      let before = h j p lt here in ground arith

  NoneBelow-adopt :
      (i : ℕ) (ps : List Proc)
      → is_slot cur init ≡ false
      → NoneBelow i ps
      → NoneBelow (i + 1) (modify ps i adopt)
  NoneBelow-adopt i ps other h j q lt at =
      let (p, here, same) = modify_origin ps i j adopt q at in
      elim (ℕ_discrete i j) [
        | yes eq ↦ ground (arith, get-modify ps i j adopt)
        | no ne ↦
            let before = h j p (omega arith) here in
            elim same [ inl old ↦ ground arith | inr (ij, new) ↦ ground arith ]
      ]

  NoneBelow-reparent_at :
      (i : ℕ) (ps : List Proc)
      → is_slot cur init ≡ false
      → NoneBelow i ps
      → NoneBelow (i + 1) (reparent_at cur init i ps)
  NoneBelow-reparent_at i ps other h = elim (reparent_at_cases i ps) [
    | inl (same, not_here) ↦ rw same (λ j q lt at. elim (ℕ_discrete j i) [
      | yes eq ↦ not_here q (subst (λ m. get_elem? ps m ≡ some q) eq at)
      | no ne ↦ h j q (omega arith) at
    ])
    | inr (inl e) ↦ rw e (NoneBelow-adopt i ps other h)
    | inr (inr e) ↦ rw e (NoneBelow-wakeup (i + 1) (chan_of init) _ (NoneBelow-adopt i ps other h))
  ]

  pub NoneBelow-reparent :
      (n i : ℕ) (ps : List Proc)
      → is_slot cur init ≡ false
      → NoneBelow i ps
      → NoneBelow (i + n) (reparent cur init n i ps)
  unfolding reparent
  NoneBelow-reparent zero i ps other h = rw add-zero h
  NoneBelow-reparent (suc n) i ps other h =
      let e : i + suc n ≡ i + 1 + n = omega arith in
      rw e (
        NoneBelow-reparent n (i + 1) (reparent_at cur init i ps) other
          (NoneBelow-reparent_at i ps other h))
