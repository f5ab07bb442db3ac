-- ===== src/Str.antt =====
-- string.c and the string functions of ulib.c, over memory as a function from addresses to bytes.
pub mod Move
pub mod Copy
pub mod Compare
use cs461_mlfq_scheduler.Base.{
  ltb, leb, ◌==◌, if◌then◌else◌, u32, update, ℕ, zero, suc, ◌+◌, ◌-◌, ◌*◌, ◌/◌, ◌%◌, Bool, true,
  false, ◌&&◌, not, Option, none, some,
}

abbrev pub Memory : Type 0
Memory = ℕ → ℕ

-- `stosb(dst, c, n)`: `n` bytes from `dst` on
pub stosb : Memory → ℕ → ℕ → ℕ → Memory
stosb mem dst c zero = mem
stosb mem dst c (suc n) = stosb (update mem dst (c % 256)) (dst + 1) c n

-- `stosl(dst, w, n)`: `n` little-endian words of 4 bytes
pub stosl : Memory → ℕ → ℕ → ℕ → Memory
stosl mem dst w zero = mem
stosl mem dst w (suc n) =
    stosl
      (update
        (update (update (update mem dst (w % 256)) (dst + 1) (w / 256 % 256)) (dst + 2)
          (w / 65536 % 256))
        (dst + 3) (w / 16777216 % 256))
      (dst + 4) w n

-- `memset` of string.c; `(c<<24)|(c<<16)|(c<<8)|c` with `c &= 0xFF` is the sum.
unfoldable pub memset : Memory → ℕ → ℕ → ℕ → Memory
memset mem dst c n =
    let b = c % 256 in
    if dst % 4 == 0 && n % 4 == 0
    then stosl mem dst (b * 16777216 + b * 65536 + b * 256 + b) (n / 4)
    else stosb mem dst c n

-- The results of `memcmp` and the others are differences of bytes: `(true, d)` is d and
-- `(false, d)` is -d.
abbrev pub byte_diff : ℕ → ℕ → Bool × ℕ
byte_diff a b = if leb b a then (true, a - b) else (false, b - a)

unfoldable pub memcmp : Memory → ℕ → ℕ → ℕ → Bool × ℕ
memcmp mem s1 s2 zero = (true, 0)
memcmp mem s1 s2 (suc n) =
    if mem s1 == mem s2 then memcmp mem (s1 + 1) (s2 + 1) n else byte_diff (mem s1) (mem s2)

-- The loop `while(n-- > 0) *--d = *--s;`, with `s` and `d` behind the bytes.
pub move_down : Memory → ℕ → ℕ → ℕ → Memory
move_down mem d s zero = mem
move_down mem d s (suc n) = move_down (update mem (d - 1) (mem (s - 1))) (d - 1) (s - 1) n

-- The loop `while(n-- > 0) *d++ = *s++;`
pub move_up : Memory → ℕ → ℕ → ℕ → Memory
move_up mem d s zero = mem
move_up mem d s (suc n) = move_up (update mem d (mem s)) (d + 1) (s + 1) n

unfoldable pub memmove : Memory → ℕ → ℕ → ℕ → Memory
unfolding move_down move_up
memmove mem dst src n =
    if ltb src dst && ltb dst (src + n)
    then move_down mem (dst + n) (src + n) n
    else move_up mem dst src n

unfoldable pub strncmp : Memory → ℕ → ℕ → ℕ → Bool × ℕ
strncmp mem p q zero = (true, 0)
strncmp mem p q (suc n) =
    if not (mem p == 0) && mem p == mem q
    then strncmp mem (p + 1) (q + 1) n
    else byte_diff (mem p) (mem q)

-- The second loop of `strncpy`, which fills up with 0.
pub pad_zero : Memory → ℕ → ℕ → Memory
pad_zero mem s zero = mem
pad_zero mem s (suc n) = pad_zero (update mem s 0) (s + 1) n

unfoldable pub strncpy : Memory → ℕ → ℕ → ℕ → Memory
unfolding pad_zero
strncpy mem s t zero = mem
strncpy mem s t (suc n) =
    let copied = update mem s (mem t) in
    let rest = strncpy copied (s + 1) (t + 1) n in
    if mem t == 0 then pad_zero copied (s + 1) n else rest

-- The loop `while(--n > 0 && (*s++ = *t++) != 0);` and the final `*s = 0`, for `n` more bytes.
-- Behind a copied 0 the final store goes one byte further.
pub safestrcpy_loop : Memory → ℕ → ℕ → ℕ → Memory
safestrcpy_loop mem s t zero = update mem s 0
safestrcpy_loop mem s t (suc n) =
    let copied = update mem s (mem t) in
    let rest = safestrcpy_loop copied (s + 1) (t + 1) n in
    if mem t == 0 then update copied (s + 1) 0 else rest

unfoldable pub safestrcpy : Memory → ℕ → ℕ → ℕ → Memory
unfolding safestrcpy_loop
safestrcpy mem s t zero = mem
safestrcpy mem s t (suc n) = safestrcpy_loop mem s t n

-- `strlen`; `none` means that there is no 0 among the first bytes, as many as the fuel.
unfoldable pub strlen : ℕ → Memory → ℕ → ℕ → Option ℕ
strlen zero mem s n = none
strlen (suc fuel) mem s n =
    let rest = strlen fuel mem s (n + 1) in if mem (s + n) == 0 then some n else rest

-- `strcmp` of ulib.c, with fuel for the bytes compared
unfoldable pub strcmp : ℕ → Memory → ℕ → ℕ → Option (Bool × ℕ)
strcmp zero mem p q = none
strcmp (suc fuel) mem p q =
    let rest = strcmp fuel mem (p + 1) (q + 1) in
    if not (mem p == 0) && mem p == mem q then rest else some (byte_diff (mem p) (mem q))

-- `strcpy` of ulib.c, with fuel for the bytes copied
unfoldable pub strcpy : ℕ → Memory → ℕ → ℕ → Option Memory
strcpy zero mem s t = none
strcpy (suc fuel) mem s t =
    let copied = update mem s (mem t) in
    let rest = strcpy fuel copied (s + 1) (t + 1) in if mem t == 0 then some copied else rest

-- `strchr` of ulib.c: the address, or `some 0` for a null pointer
unfoldable pub strchr : ℕ → Memory → ℕ → ℕ → Option ℕ
strchr zero mem s c = none
strchr (suc fuel) mem s c =
    let rest = strchr fuel mem (s + 1) c in
    if mem s == 0 then some 0 else if mem s == c then some s else rest

abbrev pub is_digit : ℕ → Bool
is_digit c = leb b'0' c && leb c b'9'

-- `atoi` of ulib.c, from the value `n` so far; `n*10 + *s++ - '0'` in 32 bits
unfoldable pub atoi_from : ℕ → Memory → ℕ → ℕ → Option ℕ
atoi_from zero mem s n = none
atoi_from (suc fuel) mem s n =
    let rest = atoi_from fuel mem (s + 1) (u32 (n * 10 + (mem s - b'0'))) in
    if is_digit (mem s) then rest else some n

unfoldable pub atoi : ℕ → Memory → ℕ → Option ℕ
unfolding atoi_from
atoi fuel mem s = atoi_from fuel mem s 0

-- `memmove` of ulib.c, which always copies upwards
unfoldable pub user_memmove : Memory → ℕ → ℕ → ℕ → Memory
unfolding move_up
user_memmove mem vdst vsrc n = move_up mem vdst vsrc n
