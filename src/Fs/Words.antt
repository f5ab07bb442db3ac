-- ===== src/Fs/Words.antt =====
-- fs.h: words in the bytes of a block.
use cs461_mlfq_scheduler.Fs.{word, half, put_word, put_half}
use cs461_mlfq_scheduler.Base.{ℕ, ◌+◌, ◌/◌, ◌%◌, ◌^◌, ◌≤◌, ◌<◌, ◌≡◌, ◌⊎◌, arith}

pub word_put_self : (bytes : ℕ → ℕ) (i v : ℕ) → v < 2 ^ 32 → word (put_word bytes i v) i ≡ v
unfolding put_word
word_put_self bytes i v lt =
    let e0 : put_word bytes i v i ≡ v % 256 = ground arith in
    let e1 : put_word bytes i v (i + 1) ≡ v / 256 % 256 = ground arith in
    let e2 : put_word bytes i v (i + 2) ≡ v / 65536 % 256 = ground arith in
    let e3 : put_word bytes i v (i + 3) ≡ v / 16777216 % 256 = ground arith in omega arith

pub put_word_ne : (bytes : ℕ → ℕ) (i v j : ℕ) → j < i ⊎ i + 4 ≤ j → put_word bytes i v j ≡ bytes j
unfolding put_word
put_word_ne bytes i v j h = ground arith

pub word_put_ne :
    (bytes : ℕ → ℕ) (i v j : ℕ) → j + 4 ≤ i ⊎ i + 4 ≤ j → word (put_word bytes i v) j ≡ word bytes j
word_put_ne bytes i v j h =
    let e0 = put_word_ne bytes i v j (omega arith) in
    let e1 = put_word_ne bytes i v (j + 1) (omega arith) in
    let e2 = put_word_ne bytes i v (j + 2) (omega arith) in
    let e3 = put_word_ne bytes i v (j + 3) (omega arith) in omega arith

pub half_put_self : (bytes : ℕ → ℕ) (i v : ℕ) → v < 2 ^ 16 → half (put_half bytes i v) i ≡ v
unfolding put_half
half_put_self bytes i v lt =
    let e0 : put_half bytes i v i ≡ v % 256 = ground arith in
    let e1 : put_half bytes i v (i + 1) ≡ v / 256 % 256 = ground arith in omega arith

-- The bytes below `i` and from `i + 2` on stay.
pub put_half_ne : (bytes : ℕ → ℕ) (i v j : ℕ) → j < i ⊎ i + 2 ≤ j → put_half bytes i v j ≡ bytes j
unfolding put_half
put_half_ne bytes i v j h = ground arith

pub half-same : (f g : ℕ → ℕ) (i : ℕ) → ((j : ℕ) → j < i + 2 → f j ≡ g j) → half f i ≡ half g i
half-same f g i h = omega (arith, h i (omega arith), h (i + 1) (omega arith))

pub word-same : (f g : ℕ → ℕ) (i : ℕ) → ((j : ℕ) → j < i + 4 → f j ≡ g j) → word f i ≡ word g i
word-same f g i h = omega (
  arith,
  h i (omega arith),
  h (i + 1) (omega arith),
  h (i + 2) (omega arith),
  h (i + 3) (omega arith),
)
