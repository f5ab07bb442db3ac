-- ===== src/Vm/Tree.antt =====
-- vm.c: a page table as a tree of pages, and what one level of `walkpgdir` does to it.
use cs461_mlfq_scheduler.Kalloc.{pgsize, v2p, Kmem}
use cs461_mlfq_scheduler.Kalloc.Freelist.{IsFreelist}
use cs461_mlfq_scheduler.Vm.{present, table_flags, entry, points_to}
use cs461_mlfq_scheduler.Base.{
  if◌then◌else◌, length, All, ℕ, ◌+◌, ◌%◌, ◌^◌, ◌≤◌, ◌<◌, ◌≡◌, sym, ap, ◌∙◌, ◌≢◌, ◌⊎◌, inl, inr,
  true, Option, none, some, List, [], ◌∷◌, arith,
}

-- The indices in a table that the indices `s` lead to; of the first table the half for the user.
abbrev pub IsIndex : List ℕ → ℕ → Type 0
IsIndex [] j = j < 256
IsIndex (i ∷ s) j = j < 512

pub IsIndex-lt : (s : List ℕ) (j : ℕ) → IsIndex s j → j < 512
IsIndex-lt [] j h = omega arith
IsIndex-lt (i ∷ s) j h = h

-- The tables of a page table, each with the indices that lead to it, the last one first. An entry of
-- the three upper levels that is present leads to a page of the next level, which is led to by that
-- entry alone; pages on the free list are none of them.
pub record IsTree (kend root : ℕ) (at : ℕ → Option (List ℕ)) (k : Kmem) (free : List ℕ)
    : Type 0 where
  pub top : at root ≡ some []
  pub top_only : (t : ℕ) → at t ≡ some [] → t ≡ root
  pub down :
      (t : ℕ) (s : List ℕ) (j : ℕ)
      → at t ≡ some s
      → length s < 3
      → IsIndex s j
      → present (k.mem (entry t j)) ≡ true
      → at (points_to (k.mem (entry t j))) ≡ some (j ∷ s)
  pub up :
      (t : ℕ) (j : ℕ) (s : List ℕ)
      → at t ≡ some (j ∷ s)
      → (u : ℕ) × (at u ≡ some s)
        × (length s < 3)
        × IsIndex s j
        × (present (k.mem (entry u j)) ≡ true)
        × (points_to (k.mem (entry u j)) ≡ t)
  pub aligned : (t : ℕ) (s : List ℕ) → at t ≡ some s → t % pgsize ≡ 0
  pub unused : All (λ x. at x ≡ none) free
  pub list : IsFreelist kend k free

-- The word that the indices lead to, 0 where a table is missing.
unfoldable pub word_at : (ℕ → ℕ) → ℕ → ℕ → List ℕ → ℕ
word_at mem t i [] = mem (entry t i)
word_at mem t i (j ∷ js) =
    let rest = word_at mem (points_to (mem (entry t i))) j js in
    if present (mem (entry t i)) then rest else 0

-- Entries of pages are apart unless pages and indices agree.
pub entry_ne :
    (t u i j : ℕ)
    → t % pgsize ≡ 0
    → u % pgsize ≡ 0
    → i < 512
    → j < 512
    → t ≢ u ⊎ i ≢ j
    → entry t i ≢ entry u j
entry_ne t u i j at au hi hj ne e = elim ne [
  | inl off ↦ off (omega arith)
  | inr off ↦ off (omega arith)
]

pub entry_outside :
    (t r j : ℕ)
    → t % pgsize ≡ 0
    → r % pgsize ≡ 0
    → j < 512
    → t ≢ r
    → entry t j < r ⊎ r + pgsize ≤ entry t j
entry_outside t r j at ar hj ne = omega arith

pub points_to_page : (r : ℕ) → r < 2 ^ 64 → r % pgsize ≡ 0 → points_to (v2p r + table_flags) ≡ r
points_to_page r small al = omega arith

-- A path leads to one table.
pub same_table :
    (kend root : ℕ) (at : ℕ → Option (List ℕ)) (k : Kmem) (free : List ℕ)
    → IsTree kend root at k free
    → (t u : ℕ) (s : List ℕ) → at t ≡ some s
    → at u ≡ some s
    → t ≡ u
same_table kend root at k free v t u [] ht hu = v.top_only t ht ∙ sym (v.top_only u hu)
same_table kend root at k free v t u (j ∷ s) ht hu =
    let a = v.up t j s ht in
    let b = v.up u j s hu in
    let e = same_table kend root at k free v (a.0) (b.0) s a.1 b.1 in
    sym a.5 ∙ ap (λ x. points_to (k.mem (entry x j))) e ∙ b.5
