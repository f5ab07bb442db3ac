-- ===== src/Pipe/Ring.antt =====
-- The ring of a pipe as a queue of bytes.
use cs461_mlfq_scheduler.Pipe.{Pipe, pipesize, is_full, is_empty, put, peek, advance}
use mathlib.Core.Path.{ap₂}
use cs461_mlfq_scheduler.Base.{
  length, set, length-set, get_or, u32, ℕ, zero, suc, ◌+◌, ◌-◌, ◌%◌, ◌^◌, ◌≤◌, ◌<◌, ◌≡◌, refl, ap,
  ◌∙◌, ◌≢◌, true, false, List, [], ◌∷◌, ◌++◌, arith,
}

-- The counters stay in range, at most 512 apart, and the bytes fill the array.
pub record IsPipe (p : Pipe) : Type 0 where
  pub whole : length p.bytes ≡ pipesize
  pub read_in : p.nread < 2 ^ 32
  pub write_in : p.nwrite < 2 ^ 32
  pub apart : (p.nwrite + 2 ^ 32 - p.nread) % 2 ^ 32 ≤ pipesize

-- The number of bytes in the pipe, by wrapping subtraction.
abbrev pub held : Pipe → ℕ
held p = (p.nwrite + 2 ^ 32 - p.nread) % 2 ^ 32

-- The `n` bytes from counter `r` on.
abbrev pub window : List ℕ → ℕ → ℕ → List ℕ
window buf r zero = []
window buf r (suc n) = get_or buf (r % pipesize) 0 ∷ window buf (u32 (r + 1)) n

abbrev pub contents : Pipe → List ℕ
contents p = window p.bytes p.nread (held p)

length-window : (buf : List ℕ) (r n : ℕ) → length (window buf r n) ≡ n
length-window buf r zero = refl
length-window buf r (suc n) = ap suc (length-window buf (u32 (r + 1)) n)

pub length-contents : (p : Pipe) → length (contents p) ≡ held p
length-contents p = length-window p.bytes p.nread (held p)

get_or-set_self : (xs : List ℕ) (i v : ℕ) → i < length xs → get_or (set xs i v) i 0 ≡ v
get_or-set_self [] i v h = absurd (omega arith)
get_or-set_self (x ∷ xs) zero v h = refl
get_or-set_self (x ∷ xs) (suc i) v h = get_or-set_self xs i v (omega arith)

get_or-set_ne : (xs : List ℕ) (i j v : ℕ) → i ≢ j → get_or (set xs i v) j 0 ≡ get_or xs j 0
get_or-set_ne [] i j v h = refl
get_or-set_ne (x ∷ xs) zero zero v h = absurd (h refl)
get_or-set_ne (x ∷ xs) zero (suc j) v h = refl
get_or-set_ne (x ∷ xs) (suc i) zero v h = refl
get_or-set_ne (x ∷ xs) (suc i) (suc j) v h = get_or-set_ne xs i j v (λ e. h (ap suc e))

-- A byte written just behind a window extends it, also across the counters' wrap.
window-set :
    (n : ℕ) (buf : List ℕ) (r w c : ℕ)
    → length buf ≡ pipesize
    → r < 2 ^ 32
    → n < pipesize
    → w ≡ (r + n) % 2 ^ 32
    → window (set buf (w % pipesize) c) r (suc n) ≡ window buf r n ++ (c ∷ [])
window-set zero buf r w c whole lt small e =
    let same : w ≡ r = omega arith in
    rw same (ap (λ x. x ∷ []) (get_or-set_self buf (r % pipesize) c (omega arith)))
window-set (suc n) buf r w c whole lt small e =
    let head = get_or-set_ne buf (w % pipesize) (r % pipesize) c (omega arith) in
    let tail = window-set n buf (u32 (r + 1)) w c whole (omega arith) (omega arith) (omega arith) in
    ap₂ ◌∷◌ head tail

pub contents-put :
    (p : Pipe) (c : ℕ)
    → IsPipe p
    → is_full p ≡ false
    → (contents (put c p) ≡ contents p ++ (c ∷ [])) × IsPipe (put c p)
contents-put p c v room =
    let space : held p < pipesize = ground (arith, v.apart, v.read_in, v.write_in) in
    let more : held (put c p) ≡ suc (held p) = omega arith in
    (
      rw more
          (window-set (held p) p.bytes p.nread p.nwrite c v.whole v.read_in space (omega arith)),
      record {
        whole = length-set p.bytes (p.nwrite % pipesize) c ∙ v.whole;
        read_in = v.read_in;
        write_in = omega arith;
        apart = omega arith;
      },
    )

pub contents-advance :
    (p : Pipe)
    → IsPipe p
    → is_empty p ≡ false
    → (contents p ≡ peek p ∷ contents (advance p)) × IsPipe (advance p)
contents-advance p v some_ =
    let less : held p ≡ suc (held (advance p)) = ground (arith, v.apart, v.read_in, v.write_in) in
    (
      rw less refl,
      record { whole = v.whole; read_in = omega arith; write_in = v.write_in; apart = omega arith },
    )

pub contents-empty : (p : Pipe) → IsPipe p → is_empty p ≡ true → contents p ≡ []
contents-empty p v e = let none_left : held p ≡ 0 = ground (arith, v.read_in) in rw none_left refl
