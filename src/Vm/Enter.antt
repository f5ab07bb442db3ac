-- ===== src/Vm/Enter.antt =====
-- vm.c: a page table into which a new table is entered.
use mathlib.Core.Path.{subst}
use native.Mathlib.Decide.{ℕ_discrete}
use cs461_mlfq_scheduler.Kalloc.{pgsize, v2p, Kmem}
use cs461_mlfq_scheduler.Kalloc.Freelist.{IsPage, Links}
use cs461_mlfq_scheduler.Vm.{present, table_flags, entry, points_to, zero_page, store}
use cs461_mlfq_scheduler.Base.{
  Bool-cases, length, All, update, update_self, update_ne, ℕ, ◌+◌, ◌%◌, ◌<◌, ◌≡◌, refl, sym, ap,
  ◌∙◌, ◌≢◌, ◌⊎◌, inl, inr, true, false, Option, none, some, List, [], ◌∷◌, arith,
}
use cs461_mlfq_scheduler.Vm.Tree.{
  IsTree, IsIndex, IsIndex-lt, word_at, entry_ne, entry_outside, points_to_page,
}

-- A table `r` from the free list is entered at index `i` of table `t`, whose entry is not present.
module _ (kend root : ℕ) (at : ℕ → Option (List ℕ)) (k : Kmem) (r : ℕ) (free : List ℕ)
    (v : IsTree kend root at k (r ∷ free)) (t : ℕ) (s : List ℕ) (i : ℕ) (here : at t ≡ some s)
    (depth : length s < 3) (in_half : IsIndex s i)
    (missing : present (k.mem (entry t i)) ≡ false) where
  hi : i < 512
  hi = IsIndex-lt s i in_half

  abbrev pub entered : Kmem
  entered =
      store (entry t i) (v2p r + table_flags)
        (record k { freelist = k.mem r; mem = zero_page k.mem r })

  abbrev pub at_new : ℕ → Option (List ℕ)
  at_new = update at r (some (i ∷ s))

  page : IsPage kend r
  page = v.list.1

  not_table : (u : ℕ) (s' : List ℕ) → at u ≡ some s' → u ≢ r
  not_table u s' h e =
      let gone = v.unused.0 in let h' = subst (λ x. at x ≡ some s') e h in absurd (cc)

  -- The entries of the tables, but for the new one.
  entry_kept :
      (u j : ℕ) (s' : List ℕ)
      → at u ≡ some s'
      → j < 512
      → u ≢ t ⊎ j ≢ i
      → entered.mem (entry u j) ≡ k.mem (entry u j)
  entry_kept u j s' h hj ne =
      let au = v.aligned u s' h in
      let at_ = v.aligned t s here in
      let off = entry_ne u t j i au at_ hj hi ne in
      let out = entry_outside u r j au page.aligned hj (not_table u s' h) in
      update_ne (zero_page k.mem r) (entry t i) (entry u j) (v2p r + table_flags) (λ e. off (sym e))
      ∙ ground arith

  entry_new : entered.mem (entry t i) ≡ v2p r + table_flags
  entry_new = update_self (zero_page k.mem r) (entry t i) (v2p r + table_flags)

  entry_zero : (j : ℕ) → j < 512 → entered.mem (entry r j) ≡ 0
  entry_zero j hj =
      let off =
        entry_ne r t j i page.aligned (v.aligned t s here) hj hi
          (inl (λ e. not_table t s here (sym e))) in
      update_ne (zero_page k.mem r) (entry t i) (entry r j) (v2p r + table_flags) (λ e. off (sym e))
      ∙ ground arith

  pub at_kept : (u : ℕ) → u ≢ r → at_new u ≡ at u
  at_kept u ne = update_ne at r u (some (i ∷ s)) (λ e. ne (sym e))

  pub at_r : at_new r ≡ some (i ∷ s)
  at_r = update_self at r (some (i ∷ s))

  -- A table is an old one or the new one, an entry of an old one is as before or the new one.
  tables : (u : ℕ) (s' : List ℕ) → at_new u ≡ some s' → (at u ≡ some s') ⊎ (u ≡ r) × (s' ≡ i ∷ s)
  tables u s' h = elim (ℕ_discrete u r) [
    | yes e ↦ let h' = subst (λ x. at_new x ≡ some s') e h in let new = at_r in inr (e, cc)
    | no ne ↦ inl (sym (at_kept u ne) ∙ h)
  ]

  entries :
      (u j : ℕ) (s' : List ℕ)
      → at u ≡ some s'
      → j < 512
      → (u ≡ t) × (j ≡ i) ⊎ (entered.mem (entry u j) ≡ k.mem (entry u j))
  entries u j s' h hj = elim (ℕ_discrete u t) [
    | yes eu ↦ elim (ℕ_discrete j i) [
      | yes ej ↦ inl (eu, ej)
      | no ne ↦ inr (entry_kept u j s' h hj (inr ne))
    ]
    | no ne ↦ inr (entry_kept u j s' h hj (inl ne))
  ]

  pub at_old : (u : ℕ) (s' : List ℕ) → at u ≡ some s' → at_new u ≡ some s'
  at_old u s' h = at_kept u (not_table u s' h) ∙ h

  entry_points : points_to (v2p r + table_flags) ≡ r
  entry_points = points_to_page r page.word page.aligned

  entry_present : present (v2p r + table_flags) ≡ true
  entry_present = let al = page.aligned in ground arith

  same_path : (u : ℕ) (s' : List ℕ) → at u ≡ some s' → u ≡ t → s' ≡ s
  same_path u s' h eu = let h' = subst (λ x. at x ≡ some s') eu h in let h0 = here in cc

  new_entry_down :
      (u j : ℕ) (s' : List ℕ)
      → at u ≡ some s'
      → u ≡ t
      → j ≡ i
      → at_new (points_to (entered.mem (entry u j))) ≡ some (j ∷ s')
  new_entry_down u j s' h eu ej =
      let e = same_path u s' h eu in rw (eu, ej, e, entry_new, entry_points) at_r

  new_down :
      (u : ℕ) (s' : List ℕ) (j : ℕ)
      → at_new u ≡ some s'
      → length s' < 3
      → IsIndex s' j
      → present (entered.mem (entry u j)) ≡ true
      → at_new (points_to (entered.mem (entry u j))) ≡ some (j ∷ s')
  new_down u s' j h short hj p = elim (tables u s' h) [
    | inr (e, e') ↦
        let z = entry_zero j (IsIndex-lt s' j hj) in
        let clash : true ≡ false =
          sym p ∙ ap (λ x. present (entered.mem (entry x j))) e ∙ ap present z in
        absurd (cc)
    | inl old ↦ elim (entries u j s' old (IsIndex-lt s' j hj)) [
      | inl (eu, ej) ↦ new_entry_down u j s' old eu ej
      | inr kept ↦
          let p' : present (k.mem (entry u j)) ≡ true = ap present (sym kept) ∙ p in
          ap (λ x. at_new (points_to x)) kept
          ∙ at_old (points_to (k.mem (entry u j))) (j ∷ s') (v.down u s' j old short hj p')
    ]
  ]

  new_up :
      (u : ℕ) (j : ℕ) (s' : List ℕ)
      → at_new u ≡ some (j ∷ s')
      → (w : ℕ) × (at_new w ≡ some s')
        × (length s' < 3)
        × IsIndex s' j
        × (present (entered.mem (entry w j)) ≡ true)
        × (points_to (entered.mem (entry w j)) ≡ u)
  new_up u j s' h = elim (tables u (j ∷ s') h) [
    | inr (e, e') ↦
        let ej : j ≡ i = (cc) in
        let es : s' ≡ s = (cc) in
        rw (ej, es, e)
          (
            t,
            at_old t s here,
            depth,
            in_half,
            ap present entry_new ∙ entry_present,
            ap points_to entry_new ∙ entry_points,
          )
    | inl old ↦
        let up = v.up u j s' old in
        elim (entries (up.0) j s' (up.1) (IsIndex-lt s' j up.3)) [
          | inl (eu, ej) ↦
              let clash : false ≡ true =
                sym missing
                ∙ ap (λ x. present (k.mem (entry x i))) (sym eu)
                ∙ ap (λ x. present (k.mem (entry (up.0) x))) (sym ej)
                ∙ up.4 in
              absurd (cc)
          | inr kept ↦ (
            up.0,
            at_old up.0 s' up.1,
            up.2,
            up.3,
            ap present kept ∙ up.4,
            ap points_to kept ∙ up.5,
          )
        ]
  ]

  new_aligned : (u : ℕ) (s' : List ℕ) → at_new u ≡ some s' → u % pgsize ≡ 0
  new_aligned u s' h = elim (tables u s' h) [
    | inr (e, e') ↦ let al = page.aligned in omega arith
    | inl old ↦ v.aligned u s' old
  ]

  new_unused :
      (ys : List ℕ)
      → All (λ y. r ≢ y) ys
      → All (λ y. at y ≡ none) ys
      → All (λ y. at_new y ≡ none) ys
  new_unused [] away gone = gone
  new_unused (y ∷ ys) away gone =
      (at_kept y (λ e. away.0 (sym e)) ∙ gone.0, new_unused ys away.1 gone.1)

  new_Links :
      (x : ℕ) (ys : List ℕ)
      → All (λ y. r ≢ y) ys
      → All (λ y. at y ≡ none) ys
      → Links kend k.mem x ys
      → Links kend entered.mem x ys
  new_Links x [] away gone l = l
  new_Links x (y ∷ ys) away gone l =
      let far : y ≢ t =
        (λ e. let h = here in let g = subst (λ z. at z ≡ none) e gone.0 in absurd (cc)) in
      let off =
        entry_ne y t 0 i (IsPage.aligned l.1) (v.aligned t s here) (omega arith) hi (inl far) in
      let out =
        entry_outside y r 0 (IsPage.aligned l.1) page.aligned (omega arith) (λ e. away.0 (sym e)) in
      let kept : entered.mem y ≡ k.mem y =
        update_ne (zero_page k.mem r) (entry t i) y (v2p r + table_flags) (λ e. off (omega arith))
        ∙ ground arith in
      (l.0, l.1, l.2, rw kept (new_Links (k.mem y) ys away.1 gone.1 l.3))

  new_top : (u : ℕ) → at_new u ≡ some [] → u ≡ root
  new_top u h = elim (tables u [] h) [ inr (e, e') ↦ absurd (cc) | inl old ↦ v.top_only u old ]

  -- The tree with the new table.
  pub entered-IsTree : IsTree kend root at_new entered free
  entered-IsTree = record {
    top = at_old root [] v.top;
    top_only = new_top;
    down = new_down;
    up = new_up;
    aligned = new_aligned;
    unused = new_unused free v.list.2 v.unused.1;
    list = new_Links (k.mem r) free v.list.2 v.unused.1 v.list.3;
  }

  -- The new table reads as zeroes, so no translation changes.
  new_zero : (j : ℕ) (js : List ℕ) → j < 512 → word_at entered.mem r j js ≡ 0
  unfolding word_at
  new_zero j [] hj = entry_zero j hj
  new_zero j (l ∷ ls) hj = rw (entry_zero j hj)

  pub word_at-entered :
      (u j : ℕ) (s' js : List ℕ)
      → at u ≡ some s'
      → IsIndex s' j
      → All (λ x. x < 512) js
      → length s' + length js ≡ 3
      → word_at entered.mem u j js ≡ word_at k.mem u j js
  unfolding word_at
  word_at-entered u j s' [] h hj hjs n = elim (entries u j s' h (IsIndex-lt s' j hj)) [
    | inl (eu, ej) ↦
        let e : s' ≡ s = same_path u s' h eu in let le = ap length e in absurd (omega arith)
    | inr kept ↦ kept
  ]
  word_at-entered u j s' (l ∷ ls) h hj hjs n = elim (entries u j s' h (IsIndex-lt s' j hj)) [
    | inl (eu, ej) ↦
        rw (eu, ej, entry_new, entry_present, entry_points, missing) (new_zero l ls hjs.0)
    | inr kept ↦ rw kept (elim (Bool-cases (present (k.mem (entry u j)))) [
      | inl p ↦ rw p (
          word_at-entered (points_to (k.mem (entry u j))) l (j ∷ s') ls
            (v.down u s' j h (omega arith) hj p) hjs.0 hjs.1 (omega arith))
      | inr p ↦ rw p refl
    ])
  ]
