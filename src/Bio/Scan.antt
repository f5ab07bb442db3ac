-- ===== src/Bio/Scan.antt =====
-- bio.c: what the two loops of `bget` find.
use cs461_mlfq_scheduler.Bio.{Buf, is_block, find_cached, is_free, find_free}
use cs461_mlfq_scheduler.Base.{
  Bool-cases, Option-cases, get_elem?, ℕ, zero, suc, ◌≡◌, ap, inl, inr, true, false, none, some,
  List, [], ◌∷◌, ◌++◌, arith,
}

-- The list has the entry.
abbrev pub Has : List ℕ → ℕ → Type 0
Has is i = (k : ℕ) × (get_elem? is k ≡ some i)

module _ (buf : ℕ → Buf) where
  pub find_cached-some :
      (dev blockno : ℕ) (is : List ℕ) (i : ℕ)
      → find_cached dev blockno buf is ≡ some i
      → Has is i × (is_block dev blockno (buf i) ≡ true)
  unfolding find_cached
  find_cached-some dev blockno [] i e = absurd (cc)
  find_cached-some dev blockno (j ∷ is) i e = elim (Bool-cases (is_block dev blockno (buf j))) [
    | inl here ↦ let same : j ≡ i = ground arith in ((0, ground arith), rw (← same) here)
    | inr off ↦
        let ((k, at), e') = find_cached-some dev blockno is i (rw (off) at e) in ((suc k, at), e')
  ]

  pub find_cached-none :
      (dev blockno : ℕ) (is : List ℕ)
      → find_cached dev blockno buf is ≡ none
      → (i : ℕ) → Has is i
      → is_block dev blockno (buf i) ≡ false
  unfolding find_cached
  find_cached-none dev blockno [] e i (k, at) = absurd (cc)
  find_cached-none dev blockno (j ∷ is) e i (zero, at) = ground arith
  find_cached-none dev blockno (j ∷ is) e i (suc k, at) =
      find_cached-none dev blockno is (ground arith) i (k, at)

  -- No buffer of the list could be recycled.
  abbrev pub NoneFree : List ℕ → Type 0
  NoneFree is = (i : ℕ) → Has is i → is_free (buf i) ≡ false

  pub find_free-none : (is : List ℕ) → find_free buf is ≡ none → NoneFree is
  unfolding find_free
  find_free-none [] e i (k, at) = absurd (cc)
  find_free-none (j ∷ is) e i (zero, at) = elim (Option-cases (find_free buf is)) [
    | inr (m, some_) ↦ absurd (ground arith)
    | inl none_ ↦ ground arith
  ]
  find_free-none (j ∷ is) e i (suc k, at) = elim (Option-cases (find_free buf is)) [
    | inr (m, some_) ↦ absurd (ground arith)
    | inl none_ ↦ find_free-none is none_ i (k, at)
  ]

  -- The buffer found is free, and none behind it is.
  pub find_free-some :
      (is : List ℕ) (i : ℕ)
      → find_free buf is ≡ some i
      → (before after : List ℕ) × (is ≡ before ++ i ∷ after)
        × (is_free (buf i) ≡ true)
        × NoneFree after
  unfolding find_free
  find_free-some [] i e = absurd (cc)
  find_free-some (j ∷ is) i e = elim (Option-cases (find_free buf is)) [
    | inr (m, some_) ↦
        let (before, after, split, free, rest) = find_free-some is i (ground arith) in
        (j ∷ before, after, ap (λ xs. j ∷ xs) split, free, rest)
    | inl none_ ↦ elim (Bool-cases (is_free (buf j))) [
      | inl free ↦
          let same : j ≡ i = ground arith in
          ([], is, ap (λ x. x ∷ is) same, rw (← same) free, find_free-none is none_)
      | inr busy ↦ absurd (ground arith)
    ]
  ]
