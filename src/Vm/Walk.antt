-- ===== src/Vm/Walk.antt =====
-- vm.c: `walkpgdir` with `alloc` finds the table for an address and changes no translation.
use cs461_mlfq_scheduler.Kalloc.{Kmem, kalloc}
use cs461_mlfq_scheduler.Kalloc.Freelist.{IsFreelist, page_ne_zero}
use cs461_mlfq_scheduler.Vm.{present, points_to, entry, pmx, pdpx, pdx, ptx, walk_level, walkpgdir}
use cs461_mlfq_scheduler.Vm.Tree.{IsTree, IsIndex, word_at}
use cs461_mlfq_scheduler.Vm.Enter.{entered, at_new, at_old, at_r, entered-IsTree, word_at-entered}
use cs461_mlfq_scheduler.Base.{
  Bool-cases, length, All, ok, ℕ, ◌+◌, ◌≤◌, ◌<◌, ◌≡◌, refl, ◌∙◌, inl, inr, true, false, Option,
  some, List, [], ◌∷◌, arith,
}

module _ (kend root : ℕ) where
  -- The translations of the tables of `at` are the same in two memories: for a table led to by `s'`
  -- the words at the end of all paths from it.
  abbrev pub SameWords : (ℕ → Option (List ℕ)) → (ℕ → ℕ) → (ℕ → ℕ) → Type 0
  SameWords at mem mem' =
      (u j : ℕ) (s' js : List ℕ)
      → at u ≡ some s'
      → IsIndex s' j
      → All (λ x. x < 512) js
      → length s' + length js ≡ 3
      → word_at mem' u j js ≡ word_at mem u j js

  -- A tree that has grown by at most `n` tables, with a table that `s` leads to.
  pub record IsGrown (at : ℕ → Option (List ℕ)) (k : Kmem) (free : List ℕ) (n : ℕ) (s : List ℕ)
      (table : ℕ) (k' : Kmem) : Type 0 where
    pub at' : ℕ → Option (List ℕ)
    pub free' : List ℕ
    pub tree : IsTree kend root at' k' free'
    pub leads : at' table ≡ some s
    pub keeps : (u : ℕ) (s' : List ℕ) → at u ≡ some s' → at' u ≡ some s'
    pub same : SameWords at k.mem k'.mem
    pub left : length free ≤ length free' + n

  kalloc_first :
      (k : Kmem) (r : ℕ) (free : List ℕ)
      → IsFreelist kend k (r ∷ free)
      → kalloc k ≡ ok (r, record k { freelist = k.mem r })
  unfolding kalloc
  kalloc_first k r free l = rw l.0 (ground (arith, page_ne_zero kend r l.1))

  module _ (at : ℕ → Option (List ℕ)) (k : Kmem) (t : ℕ) (s : List ℕ) (i : ℕ) (here : at t ≡ some s)
      (short : length s < 3) (hi : IsIndex s i) where
    -- A level that enters a new table.
    level_new :
        (r : ℕ) (free : List ℕ)
        → IsTree kend root at k (r ∷ free)
        → present (k.mem (entry t i)) ≡ false
        → (table : ℕ) × (k' : Kmem) × (walk_level true (entry t i) k ≡ ok (some table, k'))
          × IsGrown at k (r ∷ free) 1 (i ∷ s) table k'
    unfolding walk_level
    level_new r free v p = (
      r,
      entered kend root at k r free v t s i here short hi p,
      rw (p, kalloc_first k r free v.list) (ground (arith, page_ne_zero kend r v.list.1)),
      record {
        at' = at_new kend root at k r free v t s i here short hi p;
        free' = free;
        tree = entered-IsTree kend root at k r free v t s i here short hi p;
        leads = at_r kend root at k r free v t s i here short hi p;
        keeps = at_old kend root at k r free v t s i here short hi p;
        same = word_at-entered kend root at k r free v t s i here short hi p;
        left = omega arith;
      },
    )

    -- One level, with a page free.
    level_lem :
        (free : List ℕ)
        → IsTree kend root at k free
        → 1 ≤ length free
        → (table : ℕ) × (k' : Kmem) × (walk_level true (entry t i) k ≡ ok (some table, k'))
          × IsGrown at k free 1 (i ∷ s) table k'
    unfolding walk_level
    level_lem free v enough = elim (Bool-cases (present (k.mem (entry t i)))) [
      | inl p ↦ (
        points_to (k.mem (entry t i)),
        k,
        rw p refl,
        record {
          at' = at;
          free' = free;
          tree = v;
          leads = v.down t s i here short hi p;
          keeps = λ u s' h. h;
          same = λ u j s' js h hj hjs n. refl;
          left = omega arith;
        },
      )
      | inr p ↦ missing free v enough p
    ]
      where
        missing :
            (free : List ℕ)
            → IsTree kend root at k free
            → 1 ≤ length free
            → present (k.mem (entry t i)) ≡ false
            → (table : ℕ) × (k' : Kmem) × (walk_level true (entry t i) k ≡ ok (some table, k'))
              × IsGrown at k free 1 (i ∷ s) table k'
        missing [] v enough p = absurd (omega arith)
        missing (r ∷ free) v enough p = level_new r free v p

  IsGrown-trans :
      {at : ℕ → Option (List ℕ)} {k k1 k2 : Kmem} {free : List ℕ} {m n table table2 : ℕ}
      {s s2 : List ℕ} (g : IsGrown at k free m s table k1)
      → IsGrown g.at' k1 g.free' n s2 table2 k2
      → IsGrown at k free (m + n) s2 table2 k2
  IsGrown-trans g h = record {
    at' = h.at';
    free' = h.free';
    tree = h.tree;
    leads = h.leads;
    keeps = λ u s' e. h.keeps u s' (g.keeps u s' e);
    same = λ u j s' js e hj hjs len.
        h.same u j s' js (g.keeps u s' e) hj hjs len ∙ g.same u j s' js e hj hjs len;
    left = (let a = g.left in let b = h.left in omega arith);
  }

  -- With three pages free `walkpgdir` with `alloc`, for an address of the lower half, returns the
  -- entry that the indices of the address lead to, in a page table again that has taken three free
  -- pages at most; no table is lost, and the words at the ends of all paths are those before the call.
  pub walk_lem :
      (at : ℕ → Option (List ℕ)) (k : Kmem) (free : List ℕ) (va : ℕ)
      → IsTree kend root at k free
      → 3 ≤ length free
      → pmx va < 256
      → (pgtab : ℕ) × (k' : Kmem) × (walkpgdir root va true k
          ≡ ok (some (entry pgtab (ptx va)), k'))
        × IsGrown at k free 3 (pdx va ∷ pdpx va ∷ pmx va ∷ []) pgtab k'
  unfolding walkpgdir
  walk_lem at k free va v enough low =
      let (t1, k1, e1, g1) =
        level_lem at k root [] (pmx va) v.top (omega arith) low free v (omega arith) in
      let n1 = g1.left in
      let (t2, k2, e2, g2) =
        level_lem g1.at' k1 t1 (pmx va ∷ []) (pdpx va) g1.leads (omega arith) (omega arith) g1.free'
          g1.tree (omega arith) in
      let n2 = g2.left in
      let (t3, k3, e3, g3) =
        level_lem g2.at' k2 t2 (pdpx va ∷ pmx va ∷ []) (pdx va) g2.leads (omega arith) (omega arith)
          g2.free' g2.tree (omega arith) in
      (t3, k3, rw (e1, e2, e3) refl, IsGrown-trans g1 (IsGrown-trans g2 g3))
