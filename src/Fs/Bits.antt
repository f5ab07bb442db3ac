-- ===== src/Fs/Bits.antt =====
-- The bits of a byte that `balloc` sets and `bfree` clears.
use native.Mathlib.Nat.{div-div-eq-div-mul}
use cs461_mlfq_scheduler.Base.{
  ℕ, zero, suc, ◌+◌, ◌-◌, ◌*◌, ◌/◌, ◌%◌, ◌^◌, ◌≤◌, ◌≡◌, refl, sym, ap, ◌∙◌, ◌≢◌, arith,
}

-- The bit `i` of `x`.
abbrev pub bit : ℕ → ℕ → ℕ
bit x i = x / 2 ^ i % 2

pow_suc : (i : ℕ) → 2 ^ suc i ≡ 2 * 2 ^ i
pow_suc i = omega arith

bit-suc : (x i : ℕ) → bit x (suc i) ≡ bit (x / 2) i
bit-suc x i = ap (λ y. y % 2) (ap (λ p. x / p) (pow_suc i) ∙ sym (div-div-eq-div-mul x 2 (2 ^ i)))

pub set_self : (x i : ℕ) → bit x i ≡ 0 → bit (x + 2 ^ i) i ≡ 1
set_self x zero h = omega arith
set_self x (suc i) h =
    let half : (x + 2 ^ suc i) / 2 ≡ x / 2 + 2 ^ i = omega arith in
    bit-suc (x + 2 ^ suc i) i ∙ rw half (set_self (x / 2) i (sym (bit-suc x i) ∙ h))

pub set_ne : (x i j : ℕ) → i ≢ j → bit x i ≡ 0 → bit (x + 2 ^ i) j ≡ bit x j
set_ne x zero zero ne h = absurd (ne refl)
set_ne x zero (suc j) ne h =
    let half : (x + 1) / 2 ≡ x / 2 = omega arith in
    bit-suc (x + 1) j ∙ ap (λ y. bit y j) half ∙ sym (bit-suc x j)
set_ne x (suc i) zero ne h = omega arith
set_ne x (suc i) (suc j) ne h =
    let half : (x + 2 ^ suc i) / 2 ≡ x / 2 + 2 ^ i = omega arith in
    bit-suc (x + 2 ^ suc i) j
    ∙ ap (λ y. bit y j) half
    ∙ set_ne (x / 2) i j (λ e. ne (ap suc e)) (sym (bit-suc x i) ∙ h)
    ∙ sym (bit-suc x j)

-- A number with bit `i` set is at least 2 ^ i.
pow_le : (x i : ℕ) → bit x i ≡ 1 → 2 ^ i ≤ x
pow_le x zero h = omega arith
pow_le x (suc i) h = omega (arith, pow_le (x / 2) i (sym (bit-suc x i) ∙ h))

pub clear_self : (x i : ℕ) → bit x i ≡ 1 → bit (x - 2 ^ i) i ≡ 0
clear_self x zero h = omega arith
clear_self x (suc i) h =
    let half : (x - 2 ^ suc i) / 2 ≡ x / 2 - 2 ^ i = omega (arith, pow_le x (suc i) h) in
    bit-suc (x - 2 ^ suc i) i ∙ rw half (clear_self (x / 2) i (sym (bit-suc x i) ∙ h))

pub clear_ne : (x i j : ℕ) → i ≢ j → bit x i ≡ 1 → bit (x - 2 ^ i) j ≡ bit x j
clear_ne x zero zero ne h = absurd (ne refl)
clear_ne x zero (suc j) ne h =
    let half : (x - 1) / 2 ≡ x / 2 = omega arith in
    bit-suc (x - 1) j ∙ ap (λ y. bit y j) half ∙ sym (bit-suc x j)
clear_ne x (suc i) zero ne h = omega (arith, pow_le x (suc i) h)
clear_ne x (suc i) (suc j) ne h =
    let half : (x - 2 ^ suc i) / 2 ≡ x / 2 - 2 ^ i = omega (arith, pow_le x (suc i) h) in
    bit-suc (x - 2 ^ suc i) j
    ∙ ap (λ y. bit y j) half
    ∙ clear_ne (x / 2) i j (λ e. ne (ap suc e)) (sym (bit-suc x i) ∙ h)
    ∙ sym (bit-suc x j)
