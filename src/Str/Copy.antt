-- ===== src/Str/Copy.antt =====
-- `safestrcpy` and `strncpy` stay inside the destination, and what they leave in it.
use native.Mathlib.Nat.{add-zero}
use cs461_mlfq_scheduler.Str.{Memory, safestrcpy, safestrcpy_loop, strncpy, pad_zero}
use cs461_mlfq_scheduler.Base.{
  ltb, leb, ◌==◌, if◌then◌else◌, Bool-cases, update, ℕ, zero, suc, ◌+◌, ◌≤◌, ◌<◌, ◌≡◌, refl, ◌∙◌,
  ◌⊎◌, inl, inr, ◌&&◌, arith,
}

safestrcpy_loop_outside :
    (n : ℕ) (mem : Memory) (s t a : ℕ) → (a < s) ⊎ (s + n < a) → safestrcpy_loop mem s t n a ≡ mem a
unfolding safestrcpy_loop
safestrcpy_loop_outside zero mem s t a h = ground arith
safestrcpy_loop_outside (suc n) mem s t a h =
    ground (arith, safestrcpy_loop_outside n (update mem s (mem t)) (s + 1) (t + 1) a)

safestrcpy_loop_ends :
    (n : ℕ) (mem : Memory) (s t : ℕ) → (i : ℕ) × (i ≤ n) × (safestrcpy_loop mem s t n (s + i) ≡ 0)
unfolding safestrcpy_loop
safestrcpy_loop_ends zero mem s t = (0, omega arith, ground arith)
safestrcpy_loop_ends (suc n) mem s t = elim (Bool-cases (mem t == 0)) [
  | inl z ↦ (1, omega arith, ground arith)
  | inr nz ↦
      let (i, le, e) = safestrcpy_loop_ends n (update mem s (mem t)) (s + 1) (t + 1) in
      (suc i, omega arith, rw (nz, shift s i) e)
]
  where
    shift : (p i : ℕ) → p + suc i ≡ p + 1 + i
    shift p i = omega arith

-- `safestrcpy` with room for at least one byte leaves a 0 within the `n` bytes of the destination,
-- and writes no byte outside of them, whatever the source holds.
pub safestrcpy_bounded :
    (mem : Memory) (s t n : ℕ)
    → 0 < n
    → ((i : ℕ) × (i < n) × (safestrcpy mem s t n (s + i) ≡ 0))
      × ((a : ℕ) → a < s ⊎ s + n ≤ a → safestrcpy mem s t n a ≡ mem a)
unfolding safestrcpy
safestrcpy_bounded mem s t zero h = absurd (omega arith)
safestrcpy_bounded mem s t (suc n) h =
    let (i, le, e) = safestrcpy_loop_ends n mem s t in
    ((i, omega arith, e), λ a out. safestrcpy_loop_outside n mem s t a (omega arith))

pad_zero_lem :
    (n : ℕ) (mem : Memory) (s a : ℕ)
    → pad_zero mem s n a ≡ (if leb s a && ltb a (s + n) then 0 else mem a)
unfolding pad_zero
pad_zero_lem zero mem s a = ground arith
pad_zero_lem (suc n) mem s a = pad_zero_lem n (update mem s 0) (s + 1) a ∙ ground arith

-- The `i`-th byte that `strncpy` stores: the source's, and 0 behind the source's first 0.
abbrev pub padded : Memory → ℕ → ℕ → ℕ
padded mem t zero = mem t
padded mem t (suc i) = if mem t == 0 then 0 else padded mem (t + 1) i

pub padded_ext :
    (i : ℕ) (mem mem' : Memory) (t : ℕ)
    → ((j : ℕ) → j ≤ i → mem (t + j) ≡ mem' (t + j))
    → padded mem t i ≡ padded mem' t i
padded_ext zero mem mem' t h = rw add-zero at (h 0 (omega arith))
padded_ext (suc i) mem mem' t h =
    let head : mem t ≡ mem' t = rw add-zero at (h 0 (omega arith)) in
    let rest = padded_ext i mem mem' (t + 1) (λ j hj. rw (step j) at (h (suc j) (omega arith))) in
    ground arith
  where
    step : (j : ℕ) → t + suc j ≡ t + 1 + j
    step j = omega arith

pub strncpy_outside :
    (n : ℕ) (mem : Memory) (s t a : ℕ) → a < s ⊎ s + n ≤ a → strncpy mem s t n a ≡ mem a
unfolding strncpy
strncpy_outside zero mem s t a h = refl
strncpy_outside (suc n) mem s t a h = ground (
  arith,
  pad_zero_lem n (update mem s (mem t)) (s + 1) a,
  strncpy_outside n (update mem s (mem t)) (s + 1) (t + 1) a,
)

strncpy_inside :
    (n : ℕ) (mem : Memory) (s t i : ℕ)
    → s + n ≤ t ⊎ t + n ≤ s
    → i < n
    → strncpy mem s t n (s + i) ≡ padded mem t i
unfolding strncpy
strncpy_inside zero mem s t i h lt = absurd (omega arith)
strncpy_inside (suc n) mem s t zero h lt =
    let mem' = update mem s (mem t) in
    rw add-zero (elim (Bool-cases (mem t == 0)) [
      | inl z ↦ rw z (pad_zero_lem n mem' (s + 1) s ∙ ground arith)
      | inr nz ↦ rw nz (strncpy_outside n mem' (s + 1) (t + 1) s (omega arith) ∙ ground arith)
    ])
strncpy_inside (suc n) mem s t (suc i) h lt =
    let mem' = update mem s (mem t) in
    let e : s + suc i ≡ s + 1 + i = omega arith in
    rw e (elim (Bool-cases (mem t == 0)) [
      | inl z ↦ rw z (pad_zero_lem n mem' (s + 1) (s + 1 + i) ∙ ground arith)
      | inr nz ↦ rw nz (
          strncpy_inside n mem' (s + 1) (t + 1) i (omega arith) (omega arith)
          ∙ padded_ext i mem' mem (t + 1) (λ j hj. ground arith))
    ])

-- `strncpy` into a destination apart from the source stores the string and fills the rest of the
-- `n` bytes with zeros, and changes no other byte; a source of `n` bytes or more is cut, with no 0
-- behind it.
pub strncpy_lem :
    (n : ℕ) (mem : Memory) (s t : ℕ)
    → s + n ≤ t ⊎ t + n ≤ s
    → ((i : ℕ) → i < n → strncpy mem s t n (s + i) ≡ padded mem t i)
      × ((a : ℕ) → a < s ⊎ s + n ≤ a → strncpy mem s t n a ≡ mem a)
strncpy_lem n mem s t h = (λ i. strncpy_inside n mem s t i h, strncpy_outside n mem s t)
