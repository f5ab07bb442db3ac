-- ===== src/Str/Compare.antt =====
-- `strncmp`, `strcmp` and `strlen`: what the results say of the strings.
use cs461_mlfq_scheduler.Str.{Memory, strncmp, strlen}
use native.Mathlib.Nat.{add-zero}
use native.Mathlib.Decide.{ℕ_discrete}
use cs461_mlfq_scheduler.Base.{ℕ, zero, suc, ◌+◌, ◌<◌, ◌≡◌, refl, ◌≢◌, ◌↔◌, some, arith}

-- Two strings agree on their first `n` bytes, up to a 0 on both sides at the latest.
abbrev pub Agree : Memory → ℕ → ℕ → ℕ → Type 0
Agree mem p q n = (i : ℕ) → i < n → ((j : ℕ) → j < i → mem (p + j) ≢ 0) → mem (p + i) ≡ mem (q + i)

shift : (p i : ℕ) → p + suc i ≡ p + 1 + i
shift p i = omega arith

module _ (mem : Memory) where
  Agree-suc :
      (n p q : ℕ)
      → mem p ≡ mem q
      → (mem p ≢ 0 → Agree mem (p + 1) (q + 1) n)
      → Agree mem p q (suc n)
  Agree-suc n p q e rest zero h pre = rw (add-zero, add-zero) e
  Agree-suc n p q e rest (suc i) h pre =
      rw (shift p i, shift q i)
        (rest (λ z. pre 0 (omega arith) (rw add-zero z)) i (omega arith)
          (λ j hj z. pre (suc j) (omega arith) (rw (shift p j) z)))

  Agree-head : (n p q : ℕ) → Agree mem p q (suc n) → mem p ≡ mem q
  Agree-head n p q a = rw (add-zero, add-zero) at (a 0 (omega arith) (λ j h. absurd (omega arith)))

  Agree-tail : (n p q : ℕ) → Agree mem p q (suc n) → mem p ≢ 0 → Agree mem (p + 1) (q + 1) n
  Agree-tail n p q a nz i h pre = rw (← shift p i, ← shift q i) (a (suc i) (omega arith) earlier)
    where
      earlier : (j : ℕ) → j < suc i → mem (p + j) ≢ 0
      earlier zero hj = rw add-zero nz
      earlier (suc j) hj = rw (shift p j) (pre j (omega arith))

  -- `strncmp` answers 0 exactly for strings that agree on their first `n` bytes, as far as the
  -- first 0.
  pub strncmp-eq_iff : (n p q : ℕ) → ((strncmp mem p q n).1 ≡ 0) ↔ Agree mem p q n
  unfolding strncmp
  strncmp-eq_iff zero p q = (λ e i h pre. absurd (omega arith), λ a. refl)
  strncmp-eq_iff (suc n) p q =
      let (to, from) = strncmp-eq_iff n (p + 1) (q + 1) in
      (
        λ e. Agree-suc n p q (ground arith) (λ nz. to (ground arith)),
        λ a.
            let head = Agree-head n p q a in
            elim (ℕ_discrete (mem p) 0) [
              | yes z ↦ ground arith
              | no nz ↦ let tail = from (Agree-tail n p q a nz) in ground arith
            ],
      )

  -- `strlen` returns the number of bytes before the first 0, given the fuel for them.
  pub strlen_lem :
      (fuel s m n : ℕ)
      → m < fuel
      → mem (s + n + m) ≡ 0
      → ((j : ℕ) → j < m → mem (s + n + j) ≢ 0)
      → strlen fuel mem s n ≡ some (n + m)
  unfolding strlen
  strlen_lem zero s m n h z nz = absurd (omega arith)
  strlen_lem (suc fuel) s zero n h z nz =
      let z' : mem (s + n) ≡ 0 = rw add-zero at z in ground arith
  strlen_lem (suc fuel) s (suc m) n h z nz =
      let first : mem (s + n) ≢ 0 = rw add-zero at (nz 0 (omega arith)) in
      let ih =
        strlen_lem fuel s m (n + 1) (omega arith) (rw (step m) at z)
          (λ j hj. rw (step j) at (nz (suc j) (omega arith))) in
      ground arith
    where
      step : (j : ℕ) → s + n + suc j ≡ s + (n + 1) + j
      step j = omega arith
