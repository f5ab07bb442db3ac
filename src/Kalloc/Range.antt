-- ===== src/Kalloc/Range.antt =====
-- `freerange` and `kinit1` of kalloc.c: which pages the loop frees, and that it ends.
use cs461_mlfq_scheduler.Base.{
  ℕ, zero, suc, ◌+◌, ◌-◌, ◌*◌, ◌/◌, ◌%◌, ◌≤◌, ◌<◌, ◌≡◌, ◌≢◌, refl, some, List, [], ◌∷◌, arith, All,
  ok, ◌∙◌,
}
use cs461_mlfq_scheduler.Kalloc.{
  pgsize, kernbase, phystop, pgroundup, Kmem, freerange_loop, freerange,
}
use cs461_mlfq_scheduler.Kalloc.Freelist.{IsPage, IsFreelist, kfree_pushes}

-- `xs` with the `n` pages from `p` upwards put in front, one after the other.
abbrev pub pushed : ℕ → ℕ → List ℕ → List ℕ
pushed p zero xs = xs
pushed p (suc n) xs = pushed (p + pgsize) n (p ∷ xs)

All-lt_mono : (p q : ℕ) (xs : List ℕ) → p ≤ q → All (λ y. y < p) xs → All (λ y. y < q) xs
All-lt_mono p q [] h a = a
All-lt_mono p q (x ∷ xs) h a = (omega arith, All-lt_mono p q xs h a.1)

All-ne_of_lt : (p : ℕ) (xs : List ℕ) → All (λ y. y < p) xs → All (λ y. p ≢ y) xs
All-ne_of_lt p [] a = a
All-ne_of_lt p (x ∷ xs) a = (omega arith, All-ne_of_lt p xs a.1)

-- The number of pages that fit between `vstart`, rounded up, and `vend`.
abbrev pub room : ℕ → ℕ → ℕ
room vstart vend = (vend - pgroundup vstart) / pgsize

module _ (kend : ℕ) where
  range-IsPage :
      (p vend : ℕ)
      → p % pgsize ≡ 0
      → kend ≤ p
      → kernbase ≤ p
      → p + pgsize ≤ vend
      → vend ≤ kernbase + phystop
      → IsPage kend p
  range-IsPage p vend al be kb fit top = omega arith

  freerange_loop_frees :
      (n fuel p vend : ℕ) (k : Kmem) (xs : List ℕ)
      → n < fuel
      → p % pgsize ≡ 0
      → kend ≤ p
      → kernbase ≤ p
      → p + n * pgsize ≤ vend
      → vend < p + suc n * pgsize
      → vend ≤ kernbase + phystop
      → All (λ y. y < p) xs
      → IsFreelist kend k xs
      → (k' : Kmem) × (freerange_loop kend fuel p vend k ≡ some (ok k'))
        × IsFreelist kend k' (pushed p n xs)
        × (k'.use_lock ≡ k.use_lock)
  unfolding freerange_loop
  freerange_loop_frees n zero p vend k xs hf al be kb lo hi top a l = absurd (omega arith)
  freerange_loop_frees zero (suc fuel) p vend k xs hf al be kb lo hi top a l =
      (k, ground arith, l, refl)
  freerange_loop_frees (suc n) (suc fuel) p vend k xs hf al be kb lo hi top a l =
      let (k', e, l', u) =
        kfree_pushes kend p k xs (range-IsPage p vend al be kb (omega arith) top)
          (All-ne_of_lt p xs a) l in
      let (k'', e', l'', u') =
        freerange_loop_frees n fuel (p + pgsize) vend k' (p ∷ xs) (omega arith) (omega arith)
          (omega arith) (omega arith) (omega arith) (omega arith) top
          (omega arith, All-lt_mono p (p + pgsize) xs (omega arith) a) l' in
      (k'', ground (arith, e, e'), l'', u' ∙ u)

  -- `freerange` from a list of lower pages ends, and frees every whole page of the range, in order.
  pub freerange_frees :
      (fuel vstart vend : ℕ) (k : Kmem) (xs : List ℕ)
      → room vstart vend < fuel
      → kend ≤ vstart
      → kernbase ≤ vstart
      → vstart ≤ vend
      → pgroundup vstart ≤ vend
      → vend ≤ kernbase + phystop
      → All (λ y. y < pgroundup vstart) xs
      → IsFreelist kend k xs
      → (k' : Kmem) × (freerange kend fuel vstart vend k ≡ some (ok k'))
        × IsFreelist kend k' (pushed (pgroundup vstart) (room vstart vend) xs)
        × (k'.use_lock ≡ k.use_lock)
  unfolding freerange
  freerange_frees fuel vstart vend k xs hf be kb up le top a l =
      freerange_loop_frees (room vstart vend) fuel (pgroundup vstart) vend k xs hf (omega arith)
        (omega arith) (omega arith) (omega arith) (omega arith) top a l
