-- ===== src/Syscall.antt =====
-- syscall.c: the arguments of system calls, and the checks of user addresses.
pub mod Bounds
use cs461_mlfq_scheduler.Kalloc.{pgsize}
use cs461_mlfq_scheduler.Base.{
  ltb, leb, ◌==◌, if◌then◌else◌, get_elem?, Result, ◌>>=◌, u32, u64, ok, panic, ℕ, zero, suc, ◌+◌,
  ◌-◌, ◌*◌, ◌^◌, Bool, ◌||◌, Option, none, some, [], ◌∷◌,
}

-- The `n` bytes from `a` on as a number, the lowest first.
abbrev pub bytes_at : (ℕ → ℕ) → ℕ → ℕ → ℕ
bytes_at mem a zero = 0
bytes_at mem a (suc n) = mem a + 256 * bytes_at mem (a + 1) n

-- The test of `fetchint` and `fetchaddr` for `size` bytes in a process of `sz` bytes: true if they
-- return -1.
abbrev pub out_of_reach : ℕ → ℕ → ℕ → Bool
out_of_reach sz addr size = ltb addr pgsize || (leb sz addr || ltb sz (u64 (addr + size)))

-- `none` for -1.
unfoldable pub fetchint : ℕ → (ℕ → ℕ) → ℕ → Option ℕ
fetchint sz mem addr = if out_of_reach sz addr 4 then none else some (bytes_at mem addr 4)

unfoldable pub fetchaddr : ℕ → (ℕ → ℕ) → ℕ → Option ℕ
fetchaddr sz mem addr = if out_of_reach sz addr 8 then none else some (bytes_at mem addr 8)

-- The loop of `fetchstr` from `s` on, for the `n` bytes up to `ep`: the bytes before the 0.
unfoldable pub fetchstr_loop : ℕ → (ℕ → ℕ) → ℕ → ℕ → Option ℕ
fetchstr_loop zero mem s k = none
fetchstr_loop (suc n) mem s k =
    let next = fetchstr_loop n mem (s + 1) (k + 1) in if mem s == 0 then some k else next

-- `fetchstr`: the length of the string; the pointer that it stores is `addr`.
unfoldable pub fetchstr : ℕ → (ℕ → ℕ) → ℕ → Option ℕ
unfolding fetchstr_loop
fetchstr sz mem addr =
    if ltb addr pgsize || leb sz addr then none else fetchstr_loop (sz - addr) mem addr 0

-- The places of the argument registers in `struct trapframe`.
abbrev pub fetcharg_reg : ℕ → Option ℕ
fetcharg_reg n = get_elem? (6 ∷ 5 ∷ 3 ∷ 9 ∷ 7 ∷ 8 ∷ []) n

unfoldable pub fetcharg : (ℕ → ℕ) → ℕ → Result ℕ
fetcharg tf n = elim (fetcharg_reg n) [ none ↦ panic "failed fetch" | some r ↦ ok (tf r) ]

-- `argint` stores the low 32 bits.
unfoldable pub argint : (ℕ → ℕ) → ℕ → Result ℕ
unfolding fetcharg
argint tf n = fetcharg tf n >>= λ a. ok (u32 a)

unfoldable pub argaddr : (ℕ → ℕ) → ℕ → Result ℕ
unfolding fetcharg
argaddr tf n = fetcharg tf n

-- The test of `argptr` for an `int` size that is not negative: `(uint)i` and the sum have 32 bits.
abbrev pub argptr_refuses : ℕ → ℕ → ℕ → Bool
argptr_refuses sz i size = leb (2 ^ 31) size || (leb sz (u32 i) || ltb sz (u32 (u32 i + size)))

-- `argptr`: the pointer, or `none` for -1. A negative size is one of 2 ^ 31 or more.
unfoldable pub argptr : ℕ → (ℕ → ℕ) → ℕ → ℕ → Result (Option ℕ)
unfolding argaddr
argptr sz tf n size = argaddr tf n >>= λ i. ok (if argptr_refuses sz i size then none else some i)

-- An `int` as an `addr_t`.
abbrev pub sign_extend : ℕ → ℕ
sign_extend i = if ltb i (2 ^ 31) then i else i + (2 ^ 64 - 2 ^ 32)

-- `argstr`: the length and the pointer, or `none` for -1.
unfoldable pub argstr : ℕ → (ℕ → ℕ) → (ℕ → ℕ) → ℕ → Result (Option (ℕ × ℕ))
unfolding argint fetchstr
argstr sz tf mem n = argint tf n >>= λ i.
    ok (elim (fetchstr sz mem (sign_extend i)) [ none ↦ none | some k ↦ some (k, sign_extend i) ])
