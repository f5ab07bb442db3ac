-- ===== src/Vm/Mapped.antt =====
-- vm.c: `mappages` gives its pages their translations and leaves all others.
use mathlib.Core.Path.{subst}
use cs461_mlfq_scheduler.Kalloc.{pgsize, Kmem}
use cs461_mlfq_scheduler.Vm.{pgrounddown, present, store, pte_word, mappages, mappages_loop}
use cs461_mlfq_scheduler.Vm.Pte.{IsEntry, pte_word-IsEntry}
use cs461_mlfq_scheduler.Vm.Tree.{IsTree}
use cs461_mlfq_scheduler.Base.{
  ltb, Bool-cases, length, u64, ok, ℕ, zero, suc, ◌+◌, ◌-◌, ◌*◌, ◌/◌, ◌%◌, ◌^◌, ◌≤◌, ◌<◌, ◌≡◌, sym,
  ap, ◌∙◌, ◌⊎◌, inl, inr, true, false, Option, some, List, arith,
}
use cs461_mlfq_scheduler.Vm.Stored.{pte_of}
use cs461_mlfq_scheduler.Vm.Round.{IsMapped, map_step, loop_last, loop_more}

below_or_not : (x y : ℕ) → (x < y) ⊎ (y ≤ x)
below_or_not x y = elim (Bool-cases (ltb x y)) [
  | inl h ↦ inl (ground arith)
  | inr h ↦ inr (ground arith)
]

IsEntry-intro :
    (pa perm w pa' : ℕ)
    → pa % pgsize ≡ 0
    → pa < 2 ^ 64
    → perm < pgsize
    → w ≡ pte_word pa perm
    → pa ≡ pa'
    → IsEntry w pa' perm
IsEntry-intro pa perm w pa' al small flags e same =
    subst (λ x. IsEntry w x perm) same
      (subst (λ x. IsEntry x pa perm) (sym e) (pte_word-IsEntry pa perm al small flags))

module _ (kend root : ℕ) where
  -- The pages from `a` on are mapped to those from `pa` on, `size` bytes, and nothing else is changed.
  pub record AreMapped (k : Kmem) (a size pa perm : ℕ) (k' : Kmem) : Type 0 where
    pub at' : ℕ → Option (List ℕ)
    pub free' : List ℕ
    pub tree : IsTree kend root at' k' free'
    pub inside :
        (b : ℕ)
        → a ≤ b
        → b < a + size
        → IsEntry (pte_of k'.mem root b) (pa + (b / pgsize * pgsize - a)) perm
    pub outside :
        (b : ℕ) → b < 2 ^ 47 → b < a ⊎ a + size ≤ b → pte_of k'.mem root b ≡ pte_of k.mem root b

  AreMapped-one :
      (k k' : Kmem) (free : List ℕ) (a pa perm : ℕ)
      → a % pgsize ≡ 0
      → a + pgsize ≤ 2 ^ 47
      → pa % pgsize ≡ 0
      → pa + pgsize ≤ 2 ^ 64
      → perm < pgsize
      → IsMapped kend root k free a (pte_word pa perm) k'
      → AreMapped k a pgsize pa perm k'
  AreMapped-one k k' free a pa perm al top pal ptop flags m = record {
    at' = m.at';
    free' = m.free';
    tree = m.tree;
    inside = λ b lo hi.
        IsEntry-intro pa perm (pte_of k'.mem root b) (pa + (b / pgsize * pgsize - a)) pal
          (omega arith) flags (m.here b (omega arith) (omega arith)) (omega arith);
    outside =
        λ b hb off. m.elsewhere b hb (λ e. elim off [ inl h ↦ omega arith | inr h ↦ omega arith ]);
  }

  AreMapped-more :
      (k k1 k2 : Kmem) (free : List ℕ) (a size pa perm : ℕ)
      → a % pgsize ≡ 0
      → a + (pgsize + size) ≤ 2 ^ 47
      → pa % pgsize ≡ 0
      → pa + pgsize ≤ 2 ^ 64
      → perm < pgsize
      → IsMapped kend root k free a (pte_word pa perm) k1
      → AreMapped k1 (a + pgsize) size (pa + pgsize) perm k2
      → AreMapped k a (pgsize + size) pa perm k2
  AreMapped-more k k1 k2 free a size pa perm al top pal ptop flags m r = record {
    at' = r.at';
    free' = r.free';
    tree = r.tree;
    inside = λ b lo hi. elim (below_or_not b (a + pgsize)) [
      | inl h ↦
          IsEntry-intro pa perm (pte_of k2.mem root b) (pa + (b / pgsize * pgsize - a)) pal
            (omega arith) flags
            (r.outside b (omega arith) (inl h) ∙ m.here b (omega arith) (omega arith)) (omega arith)
      | inr h ↦
          subst (λ x. IsEntry (pte_of k2.mem root b) x perm) (omega arith)
            (r.inside b h (omega arith))
    ];
    outside = λ b hb off. elim off [
      | inl h ↦ r.outside b hb (inl (omega arith)) ∙ m.elsewhere b hb (omega arith)
      | inr h ↦ r.outside b hb (inr (omega arith)) ∙ m.elsewhere b hb (omega arith)
    ];
  }

  -- The loop of `mappages` for the page at `a` and `m` more.
  mappages_loop_lem :
      (fuel m : ℕ) (at : ℕ → Option (List ℕ)) (k : Kmem) (free : List ℕ) (a pa perm : ℕ)
      → IsTree kend root at k free
      → 3 * suc m ≤ length free
      → a % pgsize ≡ 0
      → a + pgsize * suc m ≤ 2 ^ 47
      → pa + pgsize * suc m ≤ 2 ^ 64
      → pa % pgsize ≡ 0
      → perm < pgsize
      → m ≤ fuel
      → ((b : ℕ) → a ≤ b → b < a + pgsize * suc m → present (pte_of k.mem root b) ≡ false)
      → (k' : Kmem) × (mappages_loop (suc fuel) root a (a + pgsize * m) pa perm k
          ≡ some (ok (true, k')))
        × AreMapped k a (pgsize * suc m) pa perm k'
  mappages_loop_lem fuel zero at k free a pa perm v enough al top ptop pal flags fits vacant =
      let w = pte_word pa perm in
      let (pte, k1, e, read, m) = map_step kend root at k free a w v (omega arith) (omega arith) in
      let empty = ap present read ∙ vacant a (omega arith) (omega arith) in
      (
        store pte w k1,
        loop_last kend root fuel a (a + pgsize * 0) pa perm pte k k1 e empty (omega arith),
        AreMapped-one k (store pte w k1) free a pa perm al (omega arith) pal (omega arith) flags m,
      )
  mappages_loop_lem (suc fuel) (suc n) at k free a pa perm v enough al top ptop pal flags fits
        vacant =
      let w = pte_word pa perm in
      let (pte, k1, e, read, m) = map_step kend root at k free a w v (omega arith) (omega arith) in
      let empty = ap present read ∙ vacant a (omega arith) (omega arith) in
      let more = m.left in
      let (k2, e2, r) =
        mappages_loop_lem fuel n m.at' (store pte w k1) m.free' (a + pgsize) (pa + pgsize) perm
          m.tree (omega arith) (omega arith) (omega arith) (omega arith) (omega arith) flags
          (omega arith)
          (λ b lo hi.
            ap present (m.elsewhere b (omega arith) (λ q. omega arith))
            ∙ vacant b (omega arith) (omega arith)) in
      let ls : pgsize + pgsize * suc n ≡ pgsize * suc (suc n) = (omega arith) in
      let le : a + pgsize * suc n ≡ a + pgsize + pgsize * n = (omega arith) in
      (
        k2,
        loop_more kend root (suc fuel) a (a + pgsize * suc n) pa perm pte k k1 e empty (omega arith)
              (omega arith) (omega arith)
            ∙ rw le e2,
        subst (λ x. AreMapped k a x pa perm k2) ls
            (AreMapped-more k (store pte w k1) k2 free a (pgsize * suc n) pa perm al (omega arith)
              pal (omega arith) flags m r),
      )
  mappages_loop_lem zero (suc n) at k free a pa perm v enough al top ptop pal flags fits vacant =
      absurd (omega arith)

  mappages_from :
      (fuel m : ℕ) (at : ℕ → Option (List ℕ)) (k : Kmem) (free : List ℕ) (va size pa perm : ℕ)
      → IsTree kend root at k free
      → 1 ≤ size
      → (va + size - 1) / pgsize ≡ va / pgsize + m
      → 3 * suc m ≤ length free
      → pgrounddown va + pgsize * suc m ≤ 2 ^ 47
      → pa + pgsize * suc m ≤ 2 ^ 64
      → pa % pgsize ≡ 0
      → perm < pgsize
      → m ≤ fuel
      → ((b : ℕ)
          → pgrounddown va ≤ b
          → b < pgrounddown va + pgsize * suc m
          → present (pte_of k.mem root b) ≡ false)
      → (k' : Kmem) × (mappages (suc fuel) root va size pa perm k ≡ some (ok (true, k')))
        × AreMapped k (pgrounddown va) (pgsize * suc m) pa perm k'
  unfolding mappages
  mappages_from fuel m at k free va size pa perm v some_ ends enough top ptop pal flags fits
        vacant =
      let last : pgrounddown (u64 (va + size + 2 ^ 64 - 1)) ≡ pgrounddown va + pgsize * m =
        (omega arith) in
      let (k', e, r) =
        mappages_loop_lem fuel m at k free (pgrounddown va) pa perm v enough (omega arith) top ptop
          pal flags fits vacant in
      (k', rw last e, r)

-- The pages that `size` bytes from `va` on touch.
abbrev pub pages : ℕ → ℕ → ℕ
pages va size = suc ((va + size - 1) / pgsize - va / pgsize)

-- Where three pages are free for each page that `size` bytes from `va` on touch, and no address in
-- those pages is mapped, `mappages` returns 0, given a round for each page, for a `pa` at a page's
-- beginning and a `perm` below 4096: in a page table again, each address in the pages has an entry with
-- the address of the physical page at the same distance from `pa`, with PTE_P set and the other flags
-- those of `perm`, and all other addresses of the lower half have the entries they had.
pub mappages_lem :
    (kend root fuel : ℕ) (at : ℕ → Option (List ℕ)) (k : Kmem) (free : List ℕ) (va size pa perm : ℕ)
    → IsTree kend root at k free
    → 1 ≤ size
    → 3 * pages va size ≤ length free
    → pgrounddown va + pgsize * pages va size ≤ 2 ^ 47
    → pa + pgsize * pages va size ≤ 2 ^ 64
    → pa % pgsize ≡ 0
    → perm < pgsize
    → pages va size ≤ fuel
    → ((b : ℕ)
        → pgrounddown va ≤ b
        → b < pgrounddown va + pgsize * pages va size
        → present (pte_of k.mem root b) ≡ false)
    → (k' : Kmem) × (mappages fuel root va size pa perm k ≡ some (ok (true, k')))
      × AreMapped kend root k (pgrounddown va) (pgsize * pages va size) pa perm k'
mappages_lem kend root zero at k free va size pa perm v some_ enough top ptop pal flags fits
      vacant =
    absurd (omega arith)
mappages_lem kend root (suc fuel) at k free va size pa perm v some_ enough top ptop pal flags fits
      vacant =
    mappages_from kend root fuel ((va + size - 1) / pgsize - va / pgsize) at k free va size pa perm
      v some_ (omega arith) enough top ptop pal flags (omega arith) vacant
