-- ===== src/Syscall/Bounds.antt =====
-- syscall.c: which addresses the kernel accepts from a process.
use cs461_mlfq_scheduler.Kalloc.{pgsize}
use cs461_mlfq_scheduler.Syscall.{
  bytes_at, fetchint, fetchaddr, fetchstr_loop, fetchstr, fetcharg, argaddr, argptr,
}
use cs461_mlfq_scheduler.Base.{
  ltb, leb, ◌==◌, ltb→lt, tests, Bool-cases, u32, ok, ℕ, zero, suc, ◌+◌, ◌-◌, ◌*◌, ◌^◌, ◌≤◌, ◌<◌,
  ◌≡◌, refl, sym, ap, ◌∙◌, ◌≢◌, ◌↔◌, ◌⊎◌, inl, inr, false, none, some, arith,
}

-- `fetchint` and `fetchaddr` read a word exactly if all its bytes are in the memory of the process,
-- above the first page; the process has less than 2 ^ 63 bytes.
pub fetch_iff :
    (sz : ℕ) (mem : ℕ → ℕ) (addr : ℕ)
    → sz < 2 ^ 63
    → ((fetchint sz mem addr ≡ some (bytes_at mem addr 4)) ↔ ((pgsize ≤ addr) × (addr + 4 ≤ sz)))
      × ((fetchaddr sz mem addr ≡ some (bytes_at mem addr 8)) ↔ ((pgsize ≤ addr) × (addr + 8 ≤ sz)))
unfolding fetchint fetchaddr
fetch_iff sz mem addr small =
    ((λ e. ground arith, λ h. ground arith), (λ e. ground arith, λ h. ground arith))

-- A string of `k` bytes and a 0, all before `n` bytes have passed.
abbrev pub IsString : (ℕ → ℕ) → ℕ → ℕ → ℕ → Type 0
IsString mem s n k = (k < n) × (mem (s + k) ≡ 0) × ((j : ℕ) → j < k → mem (s + j) ≢ 0)

shift : (s j : ℕ) → s + suc j ≡ s + 1 + j
shift s j = omega arith

fetchstr_loop_lem :
    (n : ℕ) (mem : ℕ → ℕ) (s m : ℕ)
    → ((k : ℕ) × (fetchstr_loop n mem s m ≡ some (m + k)) × IsString mem s n k)
      ⊎ ((fetchstr_loop n mem s m ≡ none) × ((j : ℕ) → j < n → mem (s + j) ≢ 0))
unfolding fetchstr_loop
fetchstr_loop_lem zero mem s m = inr (refl, λ j h. absurd (omega arith))
fetchstr_loop_lem (suc n) mem s m = elim (Bool-cases (mem s == 0)) [
  | inl z ↦ inl (
    0,
    rw (z) (ap (λ x. some x) (omega arith)),
    (omega arith, ground arith, λ j h. absurd (omega arith)),
  )
  | inr nz ↦ elim (fetchstr_loop_lem n mem (s + 1) (m + 1)) [
    | inl (k, e, (lt, end, before)) ↦ inl (
      suc k,
      rw (nz) (e ∙ ap (λ x. some x) (omega arith)),
      (omega arith, ap mem (shift s k) ∙ end, earlier k nz before),
    )
    | inr (e, all) ↦ inr (rw (nz) e, earlier n nz all)
  ]
]
  where
    earlier :
        (k : ℕ)
        → (mem s == 0) ≡ false
        → ((j : ℕ) → j < k → mem (s + 1 + j) ≢ 0)
        → (j : ℕ) → j < suc k
        → mem (s + j) ≢ 0
    earlier k nz before zero h z = let z' : mem s ≡ 0 = ap mem (omega arith) ∙ z in ground arith
    earlier k nz before (suc j) h z = before j (omega arith) (sym (ap mem (shift s j)) ∙ z)

-- Either `fetchstr` returns the length of a string that begins above the first page and ends inside
-- the memory of the process; or it returns -1, and the address is in the first page or there is no
-- 0 from it to the end of the process.
pub fetchstr_lem :
    (sz : ℕ) (mem : ℕ → ℕ) (addr : ℕ)
    → ((k : ℕ) × (fetchstr sz mem addr ≡ some k)
        × (pgsize ≤ addr)
        × IsString mem addr (sz - addr) k)
      ⊎ ((fetchstr sz mem addr ≡ none)
          × ((addr < pgsize) ⊎ ((j : ℕ) → j < sz - addr → mem (addr + j) ≢ 0)))
unfolding fetchstr
fetchstr_lem sz mem addr = elim (Bool-cases (ltb addr pgsize)) [
  | inl low ↦ inr (ground arith, inl (ltb→lt addr pgsize low))
  | inr high ↦ elim (Bool-cases (leb sz addr)) [
    | inl past ↦ inr (ground arith, inr (λ j h. absurd (omega tests)))
    | inr inside ↦ elim (fetchstr_loop_lem (sz - addr) mem addr 0) [
      | inl (k, e, string) ↦
          inl (k, rw (high, inside) (e ∙ ap (λ x. some x) (omega arith)), ground arith, string)
      | inr (e, all) ↦ inr (rw (high, inside) e, inr all)
    ]
  ]
]

-- For a pointer below 2 ^ 32 and a process of at most 2 ^ 31 bytes `argptr` succeeds exactly if the
-- block of `size` bytes begins below `sz` and ends at or below it; the first page, which is not mapped,
-- counts as any other.
pub argptr_iff :
    (sz : ℕ) (tf : ℕ → ℕ) (n size i : ℕ)
    → fetcharg tf n ≡ ok i
    → sz ≤ 2 ^ 31
    → i < 2 ^ 32
    → size < 2 ^ 31
    → (argptr sz tf n size ≡ ok (some i)) ↔ ((i < sz) × (i + size ≤ sz))
unfolding argptr argaddr
argptr_iff sz tf n size i e small low nonneg = (λ h. ground (arith, e), λ h. ground (arith, e))

-- `argptr` does not look at the high half of a pointer: what it accepts it also accepts with any
-- multiple of 2 ^ 32 added, though that is behind the end of the process.
pub argptr_ignores_high :
    (sz : ℕ) (tf tf' : ℕ → ℕ) (n size i k : ℕ)
    → fetcharg tf n ≡ ok i
    → fetcharg tf' n ≡ ok (i + (k + 1) * 2 ^ 32)
    → sz ≤ 2 ^ 32
    → argptr sz tf n size ≡ ok (some i)
    → (argptr sz tf' n size ≡ ok (some (i + (k + 1) * 2 ^ 32))) × (sz ≤ i + (k + 1) * 2 ^ 32)
unfolding argptr argaddr
argptr_ignores_high sz tf tf' n size i k e e' small h =
    let same : u32 (i + (k + 1) * 2 ^ 32) ≡ u32 i = omega arith in
    (ground (arith, e, e'), omega arith)
