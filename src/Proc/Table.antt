-- ===== src/Proc/Table.antt =====
-- Reading a process table that was changed in one slot, or in each slot alike.
use mathlib.Core.Option
use native.Mathlib.Decide.{ℕ_discrete}
use cs461_mlfq_scheduler.Proc.{Proc, modify}
use mathlib.Core.Path.{subst}
use cs461_mlfq_scheduler.Base.{
  ◌≢◌, ◌==◌, if◌then◌else◌, Option-cases, length, get_elem?, ℕ, zero, suc, ◌≤◌, ◌<◌, ◌≡◌, refl, sym,
  ap, ◌∙◌, ◌⊎◌, inl, inr, none, some, List, [], ◌∷◌, map, arith,
}

pub get-modify :
    (ps : List Proc) (i j : ℕ) (f : Proc → Proc)
    → get_elem? (modify ps i f) j
      ≡ (if i == j then Option.map f (get_elem? ps j) else get_elem? ps j)
get-modify [] i j f = ground arith
get-modify (p ∷ ps) zero zero f = refl
get-modify (p ∷ ps) zero (suc j) f = ground arith
get-modify (p ∷ ps) (suc i) zero f = ground arith
get-modify (p ∷ ps) (suc i) (suc j) f = get-modify ps i j f ∙ ground arith

pub length-modify : (ps : List Proc) (i : ℕ) (f : Proc → Proc) → length (modify ps i f) ≡ length ps
length-modify [] i f = refl
length-modify (p ∷ ps) zero f = refl
length-modify (p ∷ ps) (suc i) f = ap suc (length-modify ps i f)

pub get-map :
    (ps : List Proc) (j : ℕ) (f : Proc → Proc)
    → get_elem? (map f ps) j ≡ Option.map f (get_elem? ps j)
get-map [] j f = refl
get-map (p ∷ ps) zero f = refl
get-map (p ∷ ps) (suc j) f = get-map ps j f

-- The slot `i` holds `q` now, and all others what they held.
abbrev pub IsPut : List Proc → ℕ → Proc → List Proc → Type 0
IsPut ps i q qs = (get_elem? qs i ≡ some q) × ((j : ℕ) → i ≢ j → get_elem? qs j ≡ get_elem? ps j)

pub modify-IsPut :
    (ps : List Proc) (i : ℕ) (p : Proc) (f : Proc → Proc)
    → get_elem? ps i ≡ some p
    → IsPut ps i (f p) (modify ps i f)
modify-IsPut ps i p f here =
    (ground (arith, get-modify ps i i f), λ j ne. ground (arith, get-modify ps i j f))

-- A slot of the table after a change: where it comes from.
pub modify_origin :
    (ps : List Proc) (i j : ℕ) (f : Proc → Proc) (q : Proc)
    → get_elem? (modify ps i f) j ≡ some q
    → (p : Proc) × (get_elem? ps j ≡ some p) × ((q ≡ p) ⊎ ((i ≡ j) × (q ≡ f p)))
modify_origin ps i j f q e = elim (Option-cases (get_elem? ps j)) [
  | inl gone ↦ ground (arith, get-modify ps i j f)
  | inr (p, here) ↦ (p, here, ground (arith, get-modify ps i j f))
]

pub modify_apart :
    (ps : List Proc) (i j : ℕ) (f : Proc → Proc) (q : Proc)
    → get_elem? (modify ps i f) j ≡ some q
    → (p : Proc) × (get_elem? ps j ≡ some p) × ((i ≡ j) × (q ≡ f p) ⊎ (i ≢ j) × (q ≡ p))
modify_apart ps i j f q e = elim (Option-cases (get_elem? ps j)) [
  | inl gone ↦ ground (arith, get-modify ps i j f)
  | inr (p, here) ↦ (
    p,
    here,
    elim (ℕ_discrete i j) [
      | yes same ↦ inl (same, ground (arith, get-modify ps i j f))
      | no ne ↦ inr (ne, ground (arith, get-modify ps i j f))
    ],
  )
]

pub map_origin :
    (ps : List Proc) (j : ℕ) (f : Proc → Proc) (q : Proc)
    → get_elem? (map f ps) j ≡ some q
    → (p : Proc) × (get_elem? ps j ≡ some p) × (q ≡ f p)
map_origin ps j f q e = elim (Option-cases (get_elem? ps j)) [
  | inl gone ↦ ground (arith, get-map ps j f)
  | inr (p, here) ↦ (p, here, ground (arith, get-map ps j f))
]

pub get-lt-length : (ps : List Proc) (i : ℕ) (p : Proc) → get_elem? ps i ≡ some p → i < length ps
get-lt-length [] i p e = cc
get-lt-length (x ∷ ps) zero p e = omega arith
get-lt-length (x ∷ ps) (suc i) p e = omega (arith, get-lt-length ps i p e)

pub length-le_of_get : (ps : List Proc) (i : ℕ) → get_elem? ps i ≡ none → length ps ≤ i
length-le_of_get [] i e = omega arith
length-le_of_get (x ∷ ps) zero e = absurd (cc)
length-le_of_get (x ∷ ps) (suc i) e = omega (arith, length-le_of_get ps i e)

-- Each slot of the second table comes from the same slot of the first by `R`.
abbrev pub Each : (Proc → Proc → Type 0) → List Proc → List Proc → Type 0
Each R ps qs =
    (i : ℕ) (q : Proc) → get_elem? qs i ≡ some q → (p : Proc) × (get_elem? ps i ≡ some p) × R p q

module _ (R : Proc → Proc → Type 0) where
  pub Each-refl : (ps : List Proc) → ((p : Proc) → R p p) → Each R ps ps
  Each-refl ps r i q e = (q, e, r q)

  pub Each-trans :
      (ps qs rs : List Proc)
      → ((p q r : Proc) → R p q → R q r → R p r)
      → Each R ps qs
      → Each R qs rs
      → Each R ps rs
  Each-trans ps qs rs t a b i r e =
      let (q, e1, v1) = b i r e in let (p, e2, v2) = a i q e1 in (p, e2, t p q r v2 v1)

  pub Each-map :
      (ps : List Proc) (f : Proc → Proc) → ((p : Proc) → R p (f p)) → Each R ps (map f ps)
  Each-map ps f keep i q e =
      let (p, here, same) = map_origin ps i f q e in (p, here, subst (R p) (sym same) (keep p))

  pub Each-modify :
      (ps : List Proc) (i : ℕ) (f : Proc → Proc)
      → ((p : Proc) → R p p)
      → ((p : Proc) → get_elem? ps i ≡ some p → R p (f p))
      → Each R ps (modify ps i f)
  Each-modify ps i f r keep j q e =
      let (p, here, same) = modify_origin ps i j f q e in
      elim same [
        | inl eq ↦ (p, here, subst (R p) (sym eq) (r p))
        | inr (ij, eq) ↦ (p, here, subst (R p) (sym eq) (keep p (rw ij here)))
      ]
