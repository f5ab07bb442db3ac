-- ===== src/Vm/Round.antt =====
-- vm.c: one round of the loop of `mappages`.
use cs461_mlfq_scheduler.Kalloc.{pgsize, Kmem}
use cs461_mlfq_scheduler.Vm.{
  present, entry, pmx, pdpx, pdx, ptx, store, pte_word, walkpgdir, mappages_loop,
}
use cs461_mlfq_scheduler.Vm.Tree.{IsTree}
use cs461_mlfq_scheduler.Vm.Walk.{walk_lem}
use cs461_mlfq_scheduler.Base.{
  ◌==◌, length, All, u64, update_self, ok, ℕ, suc, ◌+◌, ◌/◌, ◌^◌, ◌≤◌, ◌<◌, ◌≡◌, refl, sym, ◌∙◌,
  ◌≢◌, true, false, Option, some, List, [], ◌∷◌, arith,
}
use cs461_mlfq_scheduler.Vm.Stored.{
  pte_of, entry_led, stored-IsTree, word_at-kept, index_page, page_index,
}

small : (b : ℕ) → All (λ x. x < 512) (pdpx b ∷ pdx b ∷ ptx b ∷ [])
small b = (omega arith, (omega arith, (omega arith, tt)))

same_words :
    (mem : ℕ → ℕ) (root b a : ℕ)
    → (pmx b ≡ pmx a) × (pdpx b ≡ pdpx a) × (pdx b ≡ pdx a) × (ptx b ≡ ptx a)
    → pte_of mem root b ≡ pte_of mem root a
same_words mem root b a (e1, e2, e3, e4) = rw (e1, e2, e3, e4) refl

module _ (kend root : ℕ) where
  -- The page at `a` gets the word `w`; at most three pages become tables.
  pub record IsMapped (k : Kmem) (free : List ℕ) (a w : ℕ) (k' : Kmem) : Type 0 where
    pub at' : ℕ → Option (List ℕ)
    pub free' : List ℕ
    pub tree : IsTree kend root at' k' free'
    pub here : (b : ℕ) → b < 2 ^ 47 → b / pgsize ≡ a / pgsize → pte_of k'.mem root b ≡ w
    pub elsewhere :
        (b : ℕ) → b < 2 ^ 47 → b / pgsize ≢ a / pgsize → pte_of k'.mem root b ≡ pte_of k.mem root b
    pub left : length free ≤ length free' + 3

  -- One round of the loop of `mappages`.
  pub map_step :
      (at : ℕ → Option (List ℕ)) (k : Kmem) (free : List ℕ) (a w : ℕ)
      → IsTree kend root at k free
      → 3 ≤ length free
      → a < 2 ^ 47
      → (pte : ℕ) × (k' : Kmem) × (walkpgdir root a true k ≡ ok (some pte, k'))
        × (k'.mem pte ≡ pte_of k.mem root a)
        × IsMapped k free a w (store pte w k')
  map_step at k free a w v enough ha =
      let (t, k1, e, g) = walk_lem kend root at k free a v enough (omega arith) in
      let same : (b : ℕ) → b < 2 ^ 47 → pte_of k1.mem root b ≡ pte_of k.mem root b = (λ b hb.
        g.same root (pmx b) [] (pdpx b ∷ pdx b ∷ ptx b ∷ []) v.top (omega arith) (small b) refl) in
      let kept =
        word_at-kept kend root g.at' k1 g.free' g.tree t (pmx a) (pdpx a) (pdx a) (ptx a) w g.leads
          (omega arith) in
      let tree' =
        stored-IsTree kend root g.at' k1 g.free' g.tree t (pmx a) (pdpx a) (pdx a) (ptx a) w g.leads
          (omega arith) in
      let led =
        entry_led kend root g.at' (store (entry t (ptx a)) w k1) g.free' tree' t (pmx a) (pdpx a)
          (pdx a) (ptx a) g.leads in
      (
        entry t (ptx a),
        k1,
        e,
        sym (entry_led kend root g.at' k1 g.free' g.tree t (pmx a) (pdpx a) (pdx a) (ptx a) g.leads)
            ∙ same a ha,
        record {
          at' = g.at';
          free' = g.free';
          tree = tree';
          here = λ b hb p.
              let i = page_index b a p in
              same_words (store (entry t (ptx a)) w k1).mem root b a i
              ∙ led
              ∙ update_self k1.mem (entry t (ptx a)) w;
          elsewhere = λ b hb ne.
              kept root (pmx b) [] (pdpx b ∷ pdx b ∷ ptx b ∷ []) g.tree.top (omega arith) (small b)
                refl (λ q. ne (index_page b a hb ha (cc) (cc) (cc) (cc)))
              ∙ same b hb;
          left = g.left;
        },
      )

  -- A round of the loop, the last one or another.
  module _ (fuel a last pa perm pte : ℕ) (k k1 : Kmem)
      (e : walkpgdir root a true k ≡ ok (some pte, k1)) (empty : present (k1.mem pte) ≡ false) where
    pub loop_last :
        a ≡ last
        → mappages_loop (suc fuel) root a last pa perm k
          ≡ some (ok (true, store pte (pte_word pa perm) k1))
    unfolding mappages_loop
    loop_last h =
        let t : (a == last) ≡ true = (ground arith) in rw (mappages_loop, e, empty, t) refl

    pub loop_more :
        a ≢ last
        → a + pgsize < 2 ^ 64
        → pa + pgsize < 2 ^ 64
        → mappages_loop (suc fuel) root a last pa perm k
          ≡ mappages_loop fuel root
              (a + pgsize)
              last
              (pa + pgsize)
              perm
              (store pte (pte_word pa perm) k1)
    unfolding mappages_loop
    loop_more h ha hpa =
        let t : (a == last) ≡ false = (ground arith) in
        let ea : u64 (a + pgsize) ≡ a + pgsize = (omega arith) in
        let ep : u64 (pa + pgsize) ≡ pa + pgsize = (omega arith) in
        rw (mappages_loop, e, empty, t, ea, ep) refl
