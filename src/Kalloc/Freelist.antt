-- ===== src/Kalloc/Freelist.antt =====
-- The free list of kalloc.c as a list of pages, and what `kalloc` and `kfree` do to it.
use cs461_mlfq_scheduler.Base.{
  ℕ, ◌%◌, ◌^◌, ◌≤◌, ◌<◌, ◌≡◌, ◌≢◌, ◌↔◌, refl, false, List, [], ◌∷◌, arith, All, update, update_self,
  ok, panic,
}
use cs461_mlfq_scheduler.Kalloc.{
  pgsize, phystop, v2p, Kmem, fill_junk, kalloc, kfree, kfree_refuses,
}

module _ (kend : ℕ) where
  -- The addresses that `kfree` takes: aligned, behind the kernel, below PHYSTOP.
  pub record IsPage (v : ℕ) : Type 0 where
    pub word : v < 2 ^ 64
    pub aligned : v % pgsize ≡ 0
    pub behind : kend ≤ v
    pub below : v2p v < phystop

  -- From `r` the links lead through the pages of the list, each once, and end in 0.
  abbrev pub Links : (ℕ → ℕ) → ℕ → List ℕ → Type 0
  Links mem r [] = r ≡ 0
  Links mem r (x ∷ xs) = (r ≡ x) × IsPage x × All (λ y. x ≢ y) xs × Links mem (mem x) xs

  abbrev pub IsFreelist : Kmem → List ℕ → Type 0
  IsFreelist k xs = Links k.mem k.freelist xs

  -- A page is not at address 0.
  pub page_ne_zero : (v : ℕ) → IsPage v → v ≢ 0
  page_ne_zero v p = omega arith

  page-accepted : (v : ℕ) → IsPage v → kfree_refuses kend v ≡ false
  page-accepted v p = ground arith

  accepted-IsPage : (v : ℕ) → v < 2 ^ 64 → kfree_refuses kend v ≡ false → IsPage v
  accepted-IsPage v h e = ground arith

  -- Freeing `v` writes no other page's first word.
  write_elsewhere :
      (mem : ℕ → ℕ) (v w x : ℕ)
      → IsPage v
      → IsPage x
      → v ≢ x
      → update (fill_junk mem v) v w x ≡ mem x
  write_elsewhere mem v w x p q ne = ground arith

  -- Writing the page `v` keeps the links of a list that `v` is not on.
  Links-write :
      (mem : ℕ → ℕ) (v w r : ℕ) (xs : List ℕ)
      → IsPage v
      → All (λ y. v ≢ y) xs
      → Links mem r xs
      → Links (update (fill_junk mem v) v w) r xs
  Links-write mem v w r [] p away l = l
  Links-write mem v w r (x ∷ xs) p away l = (
    l.0,
    l.1,
    l.2,
    rw (write_elsewhere mem v w x p l.1 away.0) (Links-write mem v w (mem x) xs p away.1 l.3),
  )

  -- `kfree` of a page that is not free yet succeeds and puts it in front of the free list.
  pub kfree_pushes :
      (v : ℕ) (k : Kmem) (xs : List ℕ)
      → IsPage v
      → All (λ y. v ≢ y) xs
      → IsFreelist k xs
      → (k' : Kmem) × (kfree kend v k ≡ ok k') × IsFreelist k' (v ∷ xs) × (k'.use_lock ≡ k.use_lock)
  unfolding kfree
  kfree_pushes v k xs p away l = (
    record k { mem = update (fill_junk k.mem v) v k.freelist; freelist = v },
    rw (page-accepted v p),
    (
      refl,
      p,
      away,
      rw (update_self (fill_junk k.mem v) v k.freelist)
          (Links-write k.mem v k.freelist k.freelist xs p away l),
    ),
    refl,
  )

  -- `kalloc` takes the page in front: a `kfree` is undone by it, with the rest of the list kept.
  pub kalloc_pops :
      (k : Kmem) (x : ℕ) (xs : List ℕ)
      → IsFreelist k (x ∷ xs)
      → (k' : Kmem) × (kalloc k ≡ ok (x, k')) × IsFreelist k' xs × IsPage x × All (λ y. x ≢ y) xs
  unfolding kalloc
  kalloc_pops k x xs l = (
    record k { freelist = k.mem k.freelist },
    ground (arith, page_ne_zero x l.1),
    rw l.0 l.3,
    l.1,
    l.2,
  )

  -- With no page free `kalloc` stops the machine: it never returns 0.
  pub kalloc_empty : (k : Kmem) → IsFreelist k [] → kalloc k ≡ panic "Out of memory!"
  unfolding kalloc
  kalloc_empty k l = rw l

  -- Of the 64-bit addresses `kfree` accepts exactly those of pages: aligned, behind the kernel and
  -- below PHYSTOP; on all others it panics.
  pub kfree_accepts_iff :
      (v : ℕ) (k : Kmem) → v < 2 ^ 64 → IsPage v ↔ ((k' : Kmem) × (kfree kend v k ≡ ok k'))
  unfolding kfree
  kfree_accepts_iff v k h = (
    λ p. (
      record k { mem = update (fill_junk k.mem v) v k.freelist; freelist = v },
      rw (page-accepted v p),
    ),
    λ (k', e). accepted-IsPage v h (ground arith),
  )
