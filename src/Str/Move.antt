-- ===== src/Str/Move.antt =====
-- `memmove` and `memset` do what they promise, overlapping regions included.
use cs461_mlfq_scheduler.Str.{
  Memory, move_down, move_up, memmove, user_memmove, stosb, stosl, memset,
}
use native.Mathlib.Nat.{zero-add, add-zero, suc-add}
use cs461_mlfq_scheduler.Base.{
  ltb, leb, ◌==◌, if◌then◌else◌, Bool-cases, update, update_self, ℕ, zero, suc, ◌+◌, ◌-◌, ◌*◌, ◌/◌,
  ◌%◌, ◌≤◌, ◌<◌, ◌≡◌, refl, ap, ◌∙◌, ◌⊎◌, inl, inr, ◌&&◌, arith,
}

-- Memory with `n` bytes from `src` copied to `dst`, all read before any is written.
abbrev pub copied : Memory → ℕ → ℕ → ℕ → Memory
copied mem dst src n a = if leb dst a && ltb a (dst + n) then mem (src + (a - dst)) else mem a

-- Memory with `n` bytes from `dst` set to `b`.
abbrev pub filled : Memory → ℕ → ℕ → ℕ → Memory
filled mem dst b n a = if leb dst a && ltb a (dst + n) then b else mem a

move_up_lem :
    (n : ℕ) (mem : Memory) (d s a : ℕ)
    → d ≤ s ⊎ s + n ≤ d
    → move_up mem d s n a ≡ copied mem d s n a
unfolding move_up
move_up_lem zero mem d s a h = ground arith
move_up_lem (suc n) mem d s a h =
    move_up_lem n (update mem d (mem s)) (d + 1) (s + 1) a (omega arith) ∙ ground arith

move_down_lem :
    (n : ℕ) (mem : Memory) (d s a : ℕ)
    → s ≤ d
    → move_down mem (d + n) (s + n) n a ≡ copied mem d s n a
unfolding move_down
move_down_lem zero mem d s a h = ground arith
move_down_lem (suc n) mem d s a h =
    let e : (d + suc n - 1 ≡ d + n) × (s + suc n - 1 ≡ s + n) = omega arith in
    rw (e.0, e.1) (move_down_lem n (update mem (d + n) (mem (s + n))) d s a h ∙ ground arith)

-- `memmove` copies as if through a buffer, whether or not the regions overlap, and changes no
-- byte outside of the destination.
pub memmove_lem :
    (mem : Memory) (dst src n a : ℕ) → memmove mem dst src n a ≡ copied mem dst src n a
unfolding memmove
memmove_lem mem dst src n a = elim (Bool-cases (ltb src dst && ltb dst (src + n))) [
  | inl over ↦ rw over (move_down_lem n mem dst src a (ground arith))
  | inr clear ↦ rw clear (move_up_lem n mem dst src a (ground arith))
]

-- `memmove` of ulib.c does the same where the destination does not begin inside the source.
pub user_memmove_lem :
    (mem : Memory) (dst src n a : ℕ)
    → dst ≤ src ⊎ src + n ≤ dst
    → user_memmove mem dst src n a ≡ copied mem dst src n a
unfolding user_memmove
user_memmove_lem mem dst src n a h = move_up_lem n mem dst src a h

move_up_below : (n : ℕ) (mem : Memory) (d s a : ℕ) → a < d → move_up mem d s n a ≡ mem a
unfolding move_up
move_up_below zero mem d s a h = refl
move_up_below (suc n) mem d s a h =
    move_up_below n (update mem d (mem s)) (d + 1) (s + 1) a (omega arith) ∙ ground arith

-- The loop in two runs.
move_up_split :
    (m r : ℕ) (mem : Memory) (d s : ℕ)
    → move_up mem d s (m + r) ≡ move_up (move_up mem d s m) (d + m) (s + m) r
unfolding move_up
move_up_split zero r mem d s = rw (zero-add, add-zero, add-zero)
move_up_split (suc m) r mem d s =
    let e : (d + suc m ≡ d + 1 + m) × (s + suc m ≡ s + 1 + m) = omega arith in
    rw (suc-add, e.0, e.1) (move_up_split m r (update mem d (mem s)) (d + 1) (s + 1))

-- `memmove` of ulib.c is wrong on a destination that begins `k` bytes inside a longer source: the
-- byte `k` behind the destination's start is the source's first byte again, where the
-- destination's own old first byte belongs.
pub user_memmove_smears :
    (mem : Memory) (src k r : ℕ)
    → 0 < k
    → (user_memmove mem (src + k) src (k + suc r) (src + k + k) ≡ mem src)
      × (copied mem (src + k) src (k + suc r) (src + k + k) ≡ mem (src + k))
unfolding user_memmove move_up
user_memmove_smears mem src k r h = (
  rw (move_up_split k (suc r) mem (src + k) src) (
      move_up_below r _ (src + k + k + 1) (src + k + 1) (src + k + k) (omega arith)
      ∙ update_self (move_up mem (src + k) src k) (src + k + k) _
      ∙ move_up_lem k mem (src + k) src (src + k) (omega arith)
      ∙ ground arith),
  ground arith,
)

stosb_lem : (n : ℕ) (mem : Memory) (d c a : ℕ) → stosb mem d c n a ≡ filled mem d (c % 256) n a
unfolding stosb
stosb_lem zero mem d c a = ground arith
stosb_lem (suc n) mem d c a = stosb_lem n (update mem d (c % 256)) (d + 1) c a ∙ ground arith

-- The word of four equal bytes, taken apart again.
bytes_of_word :
    (b : ℕ)
    → b < 256
    → let w = b * 16777216 + b * 65536 + b * 256 + b in
      (w % 256 ≡ b) × (w / 256 % 256 ≡ b) × (w / 65536 % 256 ≡ b) × (w / 16777216 % 256 ≡ b)
bytes_of_word b h = omega arith

stosl_lem :
    (n : ℕ) (mem : Memory) (d b a : ℕ)
    → b < 256
    → stosl mem d (b * 16777216 + b * 65536 + b * 256 + b) n a ≡ filled mem d b (4 * n) a
unfolding stosl
stosl_lem zero mem d b a h = ground arith
stosl_lem (suc n) mem d b a h = stosl_lem n _ (d + 4) b a h ∙ ground (arith, bytes_of_word b h)

-- `memset` sets exactly the `n` bytes from `dst` on to the low byte of `c`, whichever of its two
-- loops it chooses.
pub memset_lem :
    (mem : Memory) (dst c n a : ℕ) → memset mem dst c n a ≡ filled mem dst (c % 256) n a
unfolding memset
memset_lem mem dst c n a = elim (Bool-cases (dst % 4 == 0 && n % 4 == 0)) [
  | inl words ↦ rw words (
      stosl_lem (n / 4) mem dst (c % 256) a (omega arith)
      ∙ ap (λ m. filled mem dst (c % 256) m a) (ground arith))
  | inr bytes ↦ rw bytes (stosb_lem n mem dst c a)
]
