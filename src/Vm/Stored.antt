-- ===== src/Vm/Stored.antt =====
-- vm.c: what an entry of a last table that is written does to the tree and the translations.
use mathlib.Core.Path.{subst}
use native.Mathlib.Decide.{ℕ_discrete}
use cs461_mlfq_scheduler.Kalloc.{pgsize, Kmem}
use cs461_mlfq_scheduler.Kalloc.Freelist.{IsPage, Links}
use cs461_mlfq_scheduler.Vm.{present, points_to, entry, pmx, pdpx, pdx, ptx, store}
use cs461_mlfq_scheduler.Vm.Tree.{IsTree, IsIndex, IsIndex-lt, word_at, entry_ne}
use cs461_mlfq_scheduler.Base.{
  Bool-cases, length, All, update_ne, ℕ, ◌+◌, ◌/◌, ◌^◌, ◌<◌, ◌≡◌, refl, sym, ap, ◌∙◌, ◌≢◌, ◌⊎◌, inl,
  inr, Option, none, some, List, [], ◌∷◌, arith,
}

-- The word that translates an address, 0 where a table is missing.
abbrev pub pte_of : (ℕ → ℕ) → ℕ → ℕ → ℕ
pte_of mem root a = word_at mem root (pmx a) (pdpx a ∷ pdx a ∷ ptx a ∷ [])

-- Putting the indices `js` before the path `s`.
abbrev pub onto : List ℕ → List ℕ → List ℕ
onto [] s = s
onto (j ∷ js) s = onto js (j ∷ s)

module _ (kend root : ℕ) (at : ℕ → Option (List ℕ)) (k : Kmem) (free : List ℕ)
    (v : IsTree kend root at k free) where
  -- The entry of a last table is what its path leads to.
  pub entry_led :
      (t a b c l : ℕ)
      → at t ≡ some (c ∷ b ∷ a ∷ [])
      → word_at k.mem root a (b ∷ c ∷ l ∷ []) ≡ k.mem (entry t l)
  unfolding word_at
  entry_led t a b c l h =
      let (t2, h2, _, _, p2, e2) = v.up t c (b ∷ a ∷ []) h in
      let (t1, h1, _, _, p1, e1) = v.up t2 b (a ∷ []) h2 in
      let (t0, h0, _, _, p0, e0) = v.up t1 a [] h1 in
      let top = v.top_only t0 h0 in rw (sym top, p0, e0, p1, e1, p2, e2) refl

  module _ (t a b c l w : ℕ) (here : at t ≡ some (c ∷ b ∷ a ∷ [])) (hl : l < 512) where
    abbrev pub stored : Kmem
    stored = store (entry t l) w k

    entry_kept :
        (u j : ℕ) (s : List ℕ)
        → at u ≡ some s
        → j < 512
        → u ≢ t ⊎ j ≢ l
        → stored.mem (entry u j) ≡ k.mem (entry u j)
    entry_kept u j s h hj ne =
        let off = entry_ne u t j l (v.aligned u s h) (v.aligned t (c ∷ b ∷ a ∷ []) here) hj hl ne in
        update_ne k.mem (entry t l) (entry u j) w (λ e. off (sym e))

    not_last : (u : ℕ) (s : List ℕ) → at u ≡ some s → length s < 3 → u ≢ t
    not_last u s h short e =
        let h' = subst (λ x. at x ≡ some s) e h in
        let h0 = here in
        let es : s ≡ c ∷ b ∷ a ∷ [] = (cc) in let n = ap length es in absurd (omega arith)

    elsewhere : (u j : ℕ) (s : List ℕ) → at u ≡ some s → j ∷ s ≢ l ∷ c ∷ b ∷ a ∷ [] → u ≢ t ⊎ j ≢ l
    elsewhere u j s h ne = elim (ℕ_discrete u t) [
      | yes e ↦ let h' = subst (λ x. at x ≡ some s) e h in let h0 = here in inr (λ ej. ne (cc))
      | no off ↦ inl off
    ]

    -- Another path reads the word it has read.
    pub word_at-kept :
        (u j : ℕ) (s js : List ℕ)
        → at u ≡ some s
        → IsIndex s j
        → All (λ x. x < 512) js
        → length s + length js ≡ 3
        → onto js (j ∷ s) ≢ l ∷ c ∷ b ∷ a ∷ []
        → word_at stored.mem u j js ≡ word_at k.mem u j js
    unfolding word_at
    word_at-kept u j s [] h hj hjs n ne =
        entry_kept u j s h (IsIndex-lt s j hj) (elsewhere u j s h ne)
    word_at-kept u j s (x ∷ xs) h hj hjs n ne =
        let kept = entry_kept u j s h (IsIndex-lt s j hj) (inl (not_last u s h (omega arith))) in
        rw kept (elim (Bool-cases (present (k.mem (entry u j)))) [
          | inl p ↦ rw p (
              word_at-kept (points_to (k.mem (entry u j))) x (j ∷ s) xs
                (v.down u s j h (omega arith) hj p) hjs.0 hjs.1 (omega arith) ne)
          | inr p ↦ rw p refl
        ])

    stored-Links :
        (x : ℕ) (ys : List ℕ)
        → All (λ y. at y ≡ none) ys
        → Links kend k.mem x ys
        → Links kend stored.mem x ys
    stored-Links x [] gone g = g
    stored-Links x (y ∷ ys) gone g =
        let far : y ≢ t =
          (λ e. let h = here in let q = subst (λ z. at z ≡ none) e gone.0 in absurd (cc)) in
        let off =
          entry_ne y t 0 l (IsPage.aligned g.1) (v.aligned t (c ∷ b ∷ a ∷ []) here) (omega arith) hl
            (inl far) in
        let kept = update_ne k.mem (entry t l) y w (λ e. off (omega arith)) in
        (g.0, g.1, g.2, rw kept (stored-Links (k.mem y) ys gone.1 g.3))

    pub stored-IsTree : IsTree kend root at stored free
    stored-IsTree = record {
      top = v.top;
      top_only = v.top_only;
      down = λ u s j h short hj p.
          let kept = entry_kept u j s h (IsIndex-lt s j hj) (inl (not_last u s h short)) in
          ap (λ x. at (points_to x)) kept ∙ v.down u s j h short hj (ap present (sym kept) ∙ p);
      up = λ u j s h.
          let (x, hx, short, hj, p, e) = v.up u j s h in
          let kept = entry_kept x j s hx (IsIndex-lt s j hj) (inl (not_last x s hx short)) in
          (x, hx, short, hj, ap present kept ∙ p, ap points_to kept ∙ e);
      aligned = v.aligned;
      unused = v.unused;
      list = stored-Links k.freelist free v.unused v.list;
    }

-- Addresses of the lower half agree in their four indices where they are in one page.
pub index_page :
    (x y : ℕ)
    → x < 2 ^ 47
    → y < 2 ^ 47
    → pmx x ≡ pmx y
    → pdpx x ≡ pdpx y
    → pdx x ≡ pdx y
    → ptx x ≡ ptx y
    → x / pgsize ≡ y / pgsize
index_page x y hx hy e1 e2 e3 e4 = omega arith

pub page_index :
    (x y : ℕ)
    → x / pgsize ≡ y / pgsize
    → (pmx x ≡ pmx y) × (pdpx x ≡ pdpx y) × (pdx x ≡ pdx y) × (ptx x ≡ ptx y)
page_index x y e = (omega arith, omega arith, omega arith, omega arith)
