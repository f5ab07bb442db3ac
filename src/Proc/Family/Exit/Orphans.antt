-- ===== src/Proc/Family/Exit/Orphans.antt =====
-- What `exit` does for children that are zombies already: it wakes init.
use cs461_mlfq_scheduler.Proc.{
  same_chan, Proc, Chan, slot, runnable, zombie, is_state, is_slot, modify,
}
use native.Mathlib.Decide.{ℕ_discrete}
use mathlib.Core.Path.{subst}
use cs461_mlfq_scheduler.Proc.Table.{get-modify, get-map, map_origin, Each}
use cs461_mlfq_scheduler.Proc.Sleep.{wakeup, wake_one}
use cs461_mlfq_scheduler.Proc.Family.{chan_of, reparent_at, reparent}
use cs461_mlfq_scheduler.Base.{
  Bool-cases, get_elem?, ℕ, zero, suc, ◌+◌, ◌<◌, ◌≤◌, ◌∙◌, ap, ◌≡◌, sym, ◌≢◌, ◌⊎◌, inl, inr, true,
  Option, some, List, arith,
}
use cs461_mlfq_scheduler.Proc.Family.Exit.Reparent.{
  Stays, adopt, reparent_at_cases, Stays-reparent, AwaitsChild,
}

module _ (cur : ℕ) (init : Option ℕ) where
  -- A zombie child in slot `z`.
  abbrev pub Orphan : ℕ → List Proc → Type 0
  Orphan z ps =
      (c : Proc) × (get_elem? ps z ≡ some c)
      × (is_slot cur c.parent ≡ true)
      × (is_state c.state zombie ≡ true)

  -- Slot `w` sleeps in `wait`, or is awake.
  abbrev pub Ready : ℕ → List Proc → Type 0
  Ready w ps =
      (p : Proc) × (get_elem? ps w ≡ some p)
      × ((is_state p.state runnable ≡ true) ⊎ AwaitsChild w p)

  pub Orphan-wakeup :
      (z : ℕ) (chan : Chan) (ps : List Proc) → Orphan z ps → Orphan z (wakeup chan ps)
  unfolding wakeup
  Orphan-wakeup z chan ps (c, here, mine, dead) =
      (wake_one chan c, ground (arith, get-map ps z (wake_one chan)), ground arith, ground arith)

  Orphan-adopt :
      (z i : ℕ) (ps : List Proc) → i ≢ z → Orphan z ps → Orphan z (modify ps i (adopt cur init))
  Orphan-adopt z i ps ne (c, here, mine, dead) =
      (c, ground (arith, get-modify ps i z (adopt cur init)), mine, dead)

  pub Ready-wakeup : (w : ℕ) (chan : Chan) (ps : List Proc) → Ready w ps → Ready w (wakeup chan ps)
  unfolding wakeup
  Ready-wakeup w chan ps (p, here, ready) = (
    wake_one chan p,
    ground (arith, get-map ps w (wake_one chan)),
    elim ready [
      | inl up ↦ inl (ground arith)
      | inr waits ↦ elim (Bool-cases (same_chan p.chan chan)) [
        | inl hit ↦ inl (ground arith)
        | inr miss ↦ inr (ground arith)
      ]
    ],
  )

  Ready-adopt : (w i : ℕ) (ps : List Proc) → Ready w ps → Ready w (modify ps i (adopt cur init))
  Ready-adopt w i ps (p, here, ready) = elim (ℕ_discrete i w) [
    | yes e ↦ (adopt cur init p, ground (arith, get-modify ps i w (adopt cur init)), ready)
    | no ne ↦ (p, ground (arith, get-modify ps i w (adopt cur init)), ready)
  ]

  Orphan-reparent_at :
      (z i : ℕ) (ps : List Proc) → i ≢ z → Orphan z ps → Orphan z (reparent_at cur init i ps)
  Orphan-reparent_at z i ps ne h = elim (reparent_at_cases cur init i ps) [
    | inl (same, _) ↦ rw same h
    | inr (inl e) ↦ rw e (Orphan-adopt z i ps ne h)
    | inr (inr e) ↦ rw e (Orphan-wakeup z (chan_of init) _ (Orphan-adopt z i ps ne h))
  ]

  Ready-reparent_at : (w i : ℕ) (ps : List Proc) → Ready w ps → Ready w (reparent_at cur init i ps)
  Ready-reparent_at w i ps h = elim (reparent_at_cases cur init i ps) [
    | inl (same, _) ↦ rw same h
    | inr (inl e) ↦ rw e (Ready-adopt w i ps h)
    | inr (inr e) ↦ rw e (Ready-wakeup w (chan_of init) _ (Ready-adopt w i ps h))
  ]

  -- Slot `w` is awake.
  abbrev pub Awake : ℕ → List Proc → Type 0
  Awake w ps = (q : Proc) → get_elem? ps w ≡ some q → is_state q.state runnable ≡ true

  Awake-Stays : (w : ℕ) (ps qs : List Proc) → Each Stays ps qs → Awake w ps → Awake w qs
  Awake-Stays w ps qs each up q at =
      let (p, was, stays) = each w q at in let ran = up p was in ground arith

  Awake-wakeup : (w : ℕ) (ps : List Proc) → Ready w ps → Awake w (wakeup (slot w) ps)
  unfolding wakeup
  Awake-wakeup w ps (p, here, ready) q at =
      let (x, was, eq) = map_origin ps w (wake_one (slot w)) q at in
      let same : x ≡ p = cc in elim ready [ inl up ↦ ground arith | inr waits ↦ ground arith ]

  -- The round for a zombie child wakes init.
  Awake-reparent_at :
      (w z : ℕ) (ps : List Proc)
      → init ≡ some w
      → Orphan z ps
      → Ready w ps
      → Awake w (reparent_at cur init z ps)
  unfolding reparent_at
  Awake-reparent_at w z ps is_init (c, here, mine, dead) ready =
      let e : reparent_at cur init z ps ≡ wakeup (slot w) (modify ps z (adopt cur init)) =
        ground arith ∙ ap (λ m. wakeup (chan_of m) (modify ps z (adopt cur init))) is_init in
      subst (Awake w) (sym e)
        (Awake-wakeup w (modify ps z (adopt cur init)) (Ready-adopt w z ps ready))

  pub Awake-reparent :
      (n i w z : ℕ) (ps : List Proc)
      → init ≡ some w
      → i ≤ z
      → z < i + n
      → Orphan z ps
      → Ready w ps
      → Awake w (reparent cur init n i ps)
  unfolding reparent
  Awake-reparent zero i w z ps is_init lo hi orphan ready = absurd (omega arith)
  Awake-reparent (suc n) i w z ps is_init lo hi orphan ready = elim (ℕ_discrete i z) [
    | yes e ↦
        Awake-Stays w (reparent_at cur init i ps) _
          (Stays-reparent cur init n (i + 1) (reparent_at cur init i ps))
          (Awake-reparent_at w i ps is_init (subst (λ m. Orphan m ps) (sym e) orphan) ready)
    | no ne ↦
        Awake-reparent n (i + 1) w z (reparent_at cur init i ps) is_init (omega arith) (omega arith)
          (Orphan-reparent_at z i ps ne orphan) (Ready-reparent_at w i ps ready)
  ]
