-- ===== src/Tests/Tables.antt =====
-- vm.c: page tables on a machine with one empty table and six free pages.
use mathlib.Core.Path.{subst}
use native.Mathlib.Decide.{ℕ_discrete}
use cs461_mlfq_scheduler.Kalloc.{pgsize, kernbase, Kmem}
use cs461_mlfq_scheduler.Kalloc.Freelist.{IsPage, IsFreelist}
use cs461_mlfq_scheduler.Vm.{present, entry, pmx, walkpgdir, mappages}
use cs461_mlfq_scheduler.Vm.Tree.{IsTree, IsIndex, IsIndex-lt, word_at}
use cs461_mlfq_scheduler.Vm.Walk.{IsGrown, walk_lem}
use cs461_mlfq_scheduler.Vm.Stored.{pte_of}
use cs461_mlfq_scheduler.Vm.Mapped.{AreMapped, mappages_lem}
use cs461_mlfq_scheduler.Base.{
  ltb, leb, ◌==◌, if◌then◌else◌, update, update_ne, ok, ℕ, ◌+◌, ◌*◌, ◌%◌, ◌<◌, ◌≡◌, refl, sym, ap,
  true, false, ◌&&◌, Option, none, some, List, [], ◌∷◌, arith,
}

-- The page `n` behind the kernel; page 0 is the first table.
abbrev page : ℕ → ℕ
page n = kernbase + 0x100000 + pgsize * n

abbrev free_pages : List ℕ
free_pages = page 1 ∷ page 2 ∷ page 3 ∷ page 4 ∷ page 5 ∷ page 6 ∷ []

abbrev chained : ℕ → ℕ
chained a = if leb (page 1) a && ltb a (page 6) && a % pgsize == 0 then a + pgsize else 0

abbrev machine : Kmem
machine = record { use_lock = false; freelist = page 1; mem = chained }

abbrev only_root : ℕ → Option (List ℕ)
only_root = update (λ a. none) (page 0) (some [])

page-IsPage : (n : ℕ) → n < 7 → IsPage (page 0) (page n)
page-IsPage n h = record {
  word = omega arith;
  aligned = omega arith;
  behind = omega arith;
  below = omega arith;
}

machine-IsFreelist : IsFreelist (page 0) machine free_pages
machine-IsFreelist = (
  refl,
  page-IsPage 1 (omega arith),
  (omega arith, (omega arith, (omega arith, (omega arith, (omega arith, tt))))),
  (
    refl,
    page-IsPage 2 (omega arith),
    (omega arith, (omega arith, (omega arith, (omega arith, tt)))),
    (
      refl,
      page-IsPage 3 (omega arith),
      (omega arith, (omega arith, (omega arith, tt))),
      (
        refl,
        page-IsPage 4 (omega arith),
        (omega arith, (omega arith, tt)),
        (
          refl,
          page-IsPage 5 (omega arith),
          (omega arith, tt),
          (refl, page-IsPage 6 (omega arith), tt, refl),
        ),
      ),
    ),
  ),
)

below-zero : (a : ℕ) → a < page 1 → chained a ≡ 0
below-zero a h = ground arith

only_root_lem : (t : ℕ) (s : List ℕ) → only_root t ≡ some s → (t ≡ page 0) × (s ≡ [])
only_root_lem t s h = elim (ℕ_discrete t (page 0)) [
  | yes e ↦ let h' = subst (λ x. only_root x ≡ some s) e h in (e, cc)
  | no ne ↦
      let g : only_root t ≡ none = update_ne (λ a. none) (page 0) t (some []) (λ q. ne (sym q)) in
      absurd (cc)
]

first_zero :
    (t : ℕ) (s : List ℕ) (j : ℕ) → only_root t ≡ some s → IsIndex s j → chained (entry t j) ≡ 0
first_zero t s j h hj =
    let (et, es) = only_root_lem t s h in
    let small = IsIndex-lt s j hj in below-zero (entry t j) (omega arith)

machine-IsTree : IsTree (page 0) (page 0) only_root machine free_pages
machine-IsTree = record {
  top = refl;
  top_only = λ t h. (only_root_lem t [] h).0;
  down = λ t s j h short hj p. let z = ap present (first_zero t s j h hj) in absurd (cc);
  up = λ t j s h. let e = (only_root_lem t (j ∷ s) h).1 in absurd (cc);
  aligned = λ t s h. let e = (only_root_lem t s h).0 in omega arith;
  unused = (refl, (refl, (refl, (refl, (refl, (refl, tt))))));
  list = machine-IsFreelist;
}

vacant : (b : ℕ) → present (pte_of chained (page 0) b) ≡ false
unfolding word_at
vacant b = let z = below-zero (entry (page 0) (pmx b)) (omega arith) in rw z refl

mappages_lem_example :
    (k' : Kmem) × (mappages 2 (page 0) 0x400000 5000 0x200000 6 machine ≡ some (ok (true, k')))
    × AreMapped (page 0) (page 0) machine 0x400000 8192 0x200000 6 k'
mappages_lem_example =
    mappages_lem (page 0) (page 0) 2 only_root machine free_pages 0x400000 5000 0x200000 6
      machine-IsTree (omega arith) (omega arith) (omega arith) (omega arith) refl (omega arith)
      (omega arith) (λ b lo hi. vacant b)

walk_lem_example :
    (pgtab : ℕ) × (k' : Kmem) × (walkpgdir (page 0) 0x403000 true machine
      ≡ ok (some (entry pgtab 3), k'))
    × IsGrown (page 0) (page 0) only_root machine free_pages 3 (2 ∷ 0 ∷ 0 ∷ []) pgtab k'
walk_lem_example =
    walk_lem (page 0) (page 0) only_root machine free_pages 0x403000 machine-IsTree (omega arith)
      (omega arith)
