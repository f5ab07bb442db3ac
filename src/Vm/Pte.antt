-- ===== src/Vm/Pte.antt =====
-- vm.c: the word that `mappages` stores, by its parts.
use native.Mathlib.Nat.{pow-succ'}
use cs461_mlfq_scheduler.Kalloc.{pgsize}
use cs461_mlfq_scheduler.Vm.{pte_word}
use cs461_mlfq_scheduler.Base.{
  or_bits, ℕ, zero, suc, ◌+◌, ◌*◌, ◌/◌, ◌%◌, ◌^◌, ◌≤◌, ◌<◌, ◌≡◌, ap, ◌∙◌, arith,
}

or_bits-zero : (n a : ℕ) → a < 2 ^ n → or_bits n a 0 ≡ a
unfolding or_bits
or_bits-zero zero a h = omega arith
or_bits-zero (suc n) a h =
    let p : 2 ^ suc n ≡ 2 * 2 ^ n = pow-succ' 2 n in
    let ih = or_bits-zero n (a / 2) (omega arith) in omega arith

-- The lowest `m` bits of `a` are 0, and `b` has no others.
abbrev Apart : ℕ → ℕ → ℕ → Type 0
Apart zero a b = b ≡ 0
Apart (suc m) a b = (a % 2 ≡ 0) × Apart m (a / 2) (b / 2)

or_bits-Apart : (n m a b : ℕ) → m ≤ n → a < 2 ^ n → Apart m a b → or_bits n a b ≡ a + b
unfolding or_bits
or_bits-Apart n zero a b le h z = ap (λ x. or_bits n a x) z ∙ or_bits-zero n a h ∙ omega arith
or_bits-Apart zero (suc m) a b le h z = absurd (omega arith)
or_bits-Apart (suc n) (suc m) a b le h (even, z) =
    let p : 2 ^ suc n ≡ 2 * 2 ^ n = pow-succ' 2 n in
    let ih = or_bits-Apart n m (a / 2) (b / 2) (omega arith) (omega arith) z in omega arith

or_bits-one : (a : ℕ) → a < 2 ^ 64 → or_bits 64 a 1 ≡ 1 + 2 * (a / 2)
unfolding or_bits
or_bits-one a h = let rest = or_bits-zero 63 (a / 2) (omega arith) in omega arith

page-Apart : (pa perm : ℕ) → pa % pgsize ≡ 0 → perm < pgsize → Apart 12 pa perm
page-Apart pa perm al small = (
  omega arith,
  (
    omega arith,
    (
      omega arith,
      (
        omega arith,
        (
          omega arith,
          (
            omega arith,
            (
              omega arith,
              (
                omega arith,
                (omega arith, (omega arith, (omega arith, (omega arith, omega arith)))),
              ),
            ),
          ),
        ),
      ),
    ),
  ),
)

-- An entry with PTE_P for the page at `pa`, with the flags `perm` above PTE_P.
abbrev pub IsEntry : ℕ → ℕ → ℕ → Type 0
IsEntry w pa perm = (w / pgsize * pgsize ≡ pa) × (w % 2 ≡ 1) × (w % pgsize / 2 ≡ perm / 2)

pub pte_word-IsEntry :
    (pa perm : ℕ)
    → pa % pgsize ≡ 0
    → pa < 2 ^ 64
    → perm < pgsize
    → IsEntry (pte_word pa perm) pa perm
unfolding pte_word
pte_word-IsEntry pa perm al small flags =
    let e = or_bits-Apart 64 12 pa perm (omega arith) small (page-Apart pa perm al flags) in
    let f = or_bits-one (pa + perm) (omega arith) in
    rw e (omega (arith, f), omega (arith, f), omega (arith, f))
