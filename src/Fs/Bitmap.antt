-- ===== src/Fs/Bitmap.antt =====
-- fs.c: `balloc` and `bfree` as operations on the set of blocks in use.
use mathlib.Core.Path.{subst}
use native.Mathlib.Decide.{ℕ_discrete}
use cs461_mlfq_scheduler.Fs.{
  bpb, Blocks, write_block, bzero, bblock, is_clear, mark, unmark, scan_bits, balloc_loop, balloc,
}
use cs461_mlfq_scheduler.Fs.Bits.{bit, set_self, set_ne, clear_self, clear_ne}
use cs461_mlfq_scheduler.Base.{
  ltb, ◌==◌, ltb→lt, Bool-cases, Result, update, update_ne, ok, panic, ℕ, zero, suc, ◌+◌, ◌-◌, ◌*◌,
  ◌/◌, ◌%◌, ◌^◌, ◌≤◌, ◌<◌, ◌≡◌, refl, ap, ◌∙◌, ◌≢◌, inl, inr, Bool, true, false, not, Option, none,
  some, arith,
}

-- Block `b` is marked in the bitmap.
abbrev pub used : Blocks → ℕ → Bool
used d b = not (is_clear (d.block (bblock d.sb b)) (b % bpb))

-- The blocks of the bitmap are themselves in use, as mkfs.c marks them.
abbrev pub Covers : Blocks → Type 0
Covers d = (b : ℕ) → b < d.sb.size → used d (bblock d.sb b) ≡ true

bit-cases : (x i : ℕ) → (x / 2 ^ i % 2 == 0) ≡ false → bit x i ≡ 1
bit-cases x i h = ground arith

pub is_clear-mark_self :
    (bytes : ℕ → ℕ) (i : ℕ) → is_clear bytes i ≡ true → is_clear (mark bytes i) i ≡ false
is_clear-mark_self bytes i h =
    let one = set_self (bytes (i / 8)) (i % 8) (ground arith) in ground arith

pub is_clear-unmark_self :
    (bytes : ℕ → ℕ) (i : ℕ) → is_clear bytes i ≡ false → is_clear (unmark bytes i) i ≡ true
is_clear-unmark_self bytes i h =
    let zero_ = clear_self (bytes (i / 8)) (i % 8) (ground arith) in ground arith

same_bit : (i j : ℕ) → i / 8 ≡ j / 8 → i % 8 ≡ j % 8 → i ≡ j
same_bit i j q r = omega arith

-- A byte is changed in one bit: no other bit of the bitmap changes.
is_clear-update :
    (bytes : ℕ → ℕ) (i j v : ℕ)
    → i ≢ j
    → ((k : ℕ) → i % 8 ≢ k → bit v k ≡ bit (bytes (i / 8)) k)
    → is_clear (update bytes (i / 8) v) j ≡ is_clear bytes j
is_clear-update bytes i j v ne kept = elim (ℕ_discrete (i / 8) (j / 8)) [
  | no off ↦ ap (λ y. bit y (j % 8) == 0) (update_ne bytes (i / 8) (j / 8) v off)
  | yes on ↦
      let here : update bytes (i / 8) v (j / 8) ≡ v = ground arith in
      ap (λ y. bit y (j % 8) == 0) here
      ∙ ap (λ y. y == 0) (kept (j % 8) (λ e. ne (same_bit i j on e)))
      ∙ ap (λ q. bit (bytes q) (j % 8) == 0) on
]

pub is_clear-mark_ne :
    (bytes : ℕ → ℕ) (i j : ℕ)
    → i ≢ j
    → is_clear bytes i ≡ true
    → is_clear (mark bytes i) j ≡ is_clear bytes j
is_clear-mark_ne bytes i j ne h =
    is_clear-update bytes i j (bytes (i / 8) + 2 ^ (i % 8)) ne
      (λ k off. set_ne (bytes (i / 8)) (i % 8) k off (ground arith))

pub is_clear-unmark_ne :
    (bytes : ℕ → ℕ) (i j : ℕ)
    → i ≢ j
    → is_clear bytes i ≡ false
    → is_clear (unmark bytes i) j ≡ is_clear bytes j
is_clear-unmark_ne bytes i j ne h =
    is_clear-update bytes i j (bytes (i / 8) - 2 ^ (i % 8)) ne
      (λ k off. clear_ne (bytes (i / 8)) (i % 8) k off (ground arith))

-- Where the inner loop stops: at the first free bit of the group that is a block of the disk.
data Scanned (n : ℕ) (bytes : ℕ → ℕ) (size b bi : ℕ) (r : Option ℕ) : Type 0 where
  stops :
      (i : ℕ)
      → r ≡ some i
      → bi ≤ i
      → i < bi + n
      → b + i < size
      → is_clear bytes i ≡ true
      → ((j : ℕ) → bi ≤ j → j < i → is_clear bytes j ≡ false)
      → Scanned n bytes size b bi r
  passes :
      r ≡ none
      → ((j : ℕ) → bi ≤ j → j < bi + n → b + j < size → is_clear bytes j ≡ false)
      → Scanned n bytes size b bi r

scan_bits_lem :
    (n : ℕ) (bytes : ℕ → ℕ) (size b bi : ℕ)
    → Scanned n bytes size b bi (scan_bits n bytes size b bi)
unfolding scan_bits
scan_bits_lem zero bytes size b bi = passes refl (λ j lo hi lt. absurd (omega arith))
scan_bits_lem (suc n) bytes size b bi = elim (Bool-cases (ltb (b + bi) size)) [
  | inr end ↦ passes (ground arith) (λ j lo hi lt. absurd (ground arith))
  | inl more ↦ elim (Bool-cases (is_clear bytes bi)) [
    | inl free ↦
        stops bi (rw (more, free) refl) (omega arith) (omega arith) (ltb→lt (b + bi) size more) free
          (λ j lo hi. absurd (omega arith))
    | inr taken ↦ elim (scan_bits_lem n bytes size b (bi + 1)) [
      | stops i e lo hi lt free first ↦
          stops i (rw (more, taken) e) (omega arith) (omega arith) lt free
            (λ j l h. here j (λ g. first j g h) l taken)
      | passes e all ↦
          passes (rw (more, taken) e)
            (λ j lo hi lt. here j (λ g. all j g (omega arith) lt) lo taken)
    ]
  ]
]
  where
    here :
        (j : ℕ)
        → (bi + 1 ≤ j → is_clear bytes j ≡ false)
        → bi ≤ j
        → is_clear bytes bi ≡ false
        → is_clear bytes j ≡ false
    here j later lo taken = elim (ℕ_discrete bi j) [
      | yes same ↦ subst (λ k. is_clear bytes k ≡ false) same taken
      | no off ↦ later (omega arith)
    ]

-- The disk with block `b` marked and zeroed.
abbrev pub grab : ℕ → Blocks → Blocks
grab b d = let bno = bblock d.sb b in bzero b (write_block bno (mark (d.block bno) (b % bpb)) d)

-- How `balloc` ends.
pub data Allocated (d : Blocks) (r : Result (ℕ × Blocks)) : Type 0 where
  full :
      r ≡ panic "balloc: out of blocks"
      → ((c : ℕ) → c < d.sb.size → used d c ≡ true)
      → Allocated d r
  fresh :
      (b : ℕ)
      → b < d.sb.size
      → used d b ≡ false
      → ((c : ℕ) → c < b → used d c ≡ true)
      → r ≡ ok (b, grab b d)
      → Allocated d r

in_group : (b j : ℕ) → b % bpb ≡ 0 → j < bpb → ((b + j) / bpb ≡ b / bpb) × ((b + j) % bpb ≡ j)
in_group b j z h = omega arith

-- The bit of a block, seen from the start of its group.
used-is_clear :
    (d : Blocks) (b c : ℕ) (v : Bool)
    → b % bpb ≡ 0
    → b ≤ c
    → c < b + bpb
    → is_clear (d.block (bblock d.sb b)) (c - b) ≡ v
    → used d c ≡ not v
used-is_clear d b c v z lo hi h =
    let g : (c / bpb ≡ b / bpb) × (c % bpb ≡ c - b) = omega arith in ap not (rw (g.0, g.1) h)

balloc_loop_lem :
    (n b : ℕ) (d : Blocks)
    → b % bpb ≡ 0
    → d.sb.size < b + n * bpb
    → ((c : ℕ) → c < b → c < d.sb.size → used d c ≡ true)
    → Allocated d (balloc_loop n b d)
unfolding balloc_loop
balloc_loop_lem zero b d z enough below = full refl (λ c h. below c (omega arith) h)
balloc_loop_lem (suc n) b d z enough below = elim (Bool-cases (ltb b d.sb.size)) [
  | inr end ↦ full (rw end refl) (λ c h. below c (ground arith) h)
  | inl more ↦ elim (scan_bits_lem bpb (d.block (bblock d.sb b)) d.sb.size b 0) [
    | passes e all ↦
        let rest : Allocated d (balloc_loop n (b + bpb) d) =
          balloc_loop_lem n (b + bpb) d (omega arith) (omega arith)
            (λ c h lt. here c (λ j e. all j (omega arith) (omega arith) (omega arith)) h lt) in
        rw (more, e) rest
    | stops i e lo hi lt free first ↦
        let g = in_group b i z (omega arith) in
        let same : b + i - b ≡ i = omega arith in
        fresh (b + i) lt
          (used-is_clear d b (b + i) true z (omega arith) (omega arith) (rw same free))
          (λ c h. here c (λ j e. first j (omega arith) (omega arith)) (omega arith) (omega arith))
          (rw (more, e, g.0, g.1) refl)
  ]
]
  where
    -- A block below the group, or in it.
    here :
        (c : ℕ)
        → ((j : ℕ) → c ≡ b + j → is_clear (d.block (bblock d.sb b)) j ≡ false)
        → c < b + bpb
        → c < d.sb.size
        → used d c ≡ true
    here c in_it hi lt = elim (Bool-cases (ltb c b)) [
      | inl under ↦ below c (ltb→lt c b under) lt
      | inr over ↦
          let le : b ≤ c = ground arith in
          used-is_clear d b c false z le hi (in_it (c - b) (omega arith))
    ]

-- What `balloc` returns, on every disk: the first block below `sb.size` that is free, marked
-- in the bitmap and then zeroed; or, if every block is in use, it panics.
pub balloc_lem : (d : Blocks) → Allocated d (balloc d)
unfolding balloc
balloc_lem d =
    balloc_loop_lem (d.sb.size / bpb + 1) 0 d (omega arith) (omega arith)
      (λ c h lt. absurd (omega arith))
