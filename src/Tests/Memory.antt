-- ===== src/Tests/Memory.antt =====
-- Tests of kalloc.c and of string.c and ulib.c.
use cs461_mlfq_scheduler.Kalloc.{Kmem, freerange, pgsize, kernbase, pgroundup}
use cs461_mlfq_scheduler.Kalloc.Freelist.{IsPage, IsFreelist}
use cs461_mlfq_scheduler.Kalloc.Range.{pushed, room, freerange_frees}
use cs461_mlfq_scheduler.Str.{Memory, memmove, user_memmove, safestrcpy}
use cs461_mlfq_scheduler.Str.Move.{copied, memmove_lem, user_memmove_smears}
use cs461_mlfq_scheduler.Str.Copy.{safestrcpy_bounded}
use cs461_mlfq_scheduler.Base.{
  update, ok, ℕ, ◌+◌, ◌*◌, ◌≤◌, ◌<◌, ◌≡◌, refl, ◌⊎◌, false, some, [], arith,
}

-- Two pages behind a kernel that ends with its first page; the first of them is free.
abbrev kend : ℕ
kend = kernbase + pgsize

abbrev page : ℕ
page = kernbase + 2 * pgsize

abbrev no_page : Kmem
no_page = record { use_lock = false; freelist = 0; mem = λ _. 0 }

abbrev one_page : Kmem
one_page = record { use_lock = false; freelist = page; mem = λ _. 0 }

page-IsPage : IsPage kend page
page-IsPage = record {
  word = omega arith;
  aligned = omega arith;
  behind = omega arith;
  below = omega arith;
}

freerange_frees_example :
    (k' : Kmem) × (freerange kend 4 (kend + 1) (page + 2 * pgsize + 5) no_page ≡ some (ok k'))
    × IsFreelist kend k'
        (pushed (pgroundup (kend + 1)) (room (kend + 1) (page + 2 * pgsize + 5)) [])
    × (k'.use_lock ≡ false)
freerange_frees_example =
    freerange_frees kend 4 (kend + 1) (page + 2 * pgsize + 5) no_page [] (omega arith) (omega arith)
      (omega arith) (omega arith) (omega arith) (omega arith) tt refl

-- "ab" at 10, with 1 in all cells behind.
abbrev text : Memory
text = update (update (update (λ _. 1) 10 97) 11 98) 12 0

memmove_lem_example : memmove text 11 10 3 12 ≡ copied text 11 10 3 12
memmove_lem_example = memmove_lem text 11 10 3 12

user_memmove_smears_example : (user_memmove text 11 10 2 12 ≡ 97) × (copied text 11 10 2 12 ≡ 98)
user_memmove_smears_example = user_memmove_smears text 10 1 0 (omega arith)

safestrcpy_bounded_example :
    ((i : ℕ) × (i < 2) × (safestrcpy text 20 10 2 (20 + i) ≡ 0))
    × ((a : ℕ) → a < 20 ⊎ 20 + 2 ≤ a → safestrcpy text 20 10 2 a ≡ text a)
safestrcpy_bounded_example = safestrcpy_bounded text 20 10 2 (omega arith)
