-- ===== src/Names/Elements.antt =====
-- fs.c: the loops of `skipelem` over a path.
use cs461_mlfq_scheduler.Str.{Memory, memmove}
use cs461_mlfq_scheduler.Str.Move.{copied, memmove_lem}
use cs461_mlfq_scheduler.Dir.{dirsiz}
use cs461_mlfq_scheduler.Names.{skip_slashes, skip_name, store_name}
use cs461_mlfq_scheduler.Base.{
  ltb, leb, ◌==◌, if◌then◌else◌, Bool-cases, length, get_or, update_self, update_ne, ℕ, zero, suc,
  ◌+◌, ◌-◌, ◌≤◌, ◌<◌, min, ◌≡◌, refl, ap, ◌∙◌, ◌≢◌, ◌⊎◌, inl, inr, true, false, ◌&&◌, not, some,
  List, [], ◌∷◌, arith,
}

-- The string `xs` is at `p` in memory, with a 0 behind it and none in it.
abbrev pub IsAt : Memory → ℕ → List ℕ → Type 0
IsAt mem p [] = mem p ≡ 0
IsAt mem p (x ∷ xs) = (mem p ≡ x) × (x ≢ 0) × IsAt mem (p + 1) xs

-- A path without its slashes in front.
abbrev pub drop_slashes : List ℕ → List ℕ
drop_slashes [] = []
drop_slashes (x ∷ xs) = if x == b'/' then drop_slashes xs else x ∷ xs

-- Up to the first slash, and from there on.
abbrev pub element : List ℕ → List ℕ
element [] = []
element (x ∷ xs) = if x == b'/' then [] else x ∷ element xs

abbrev pub behind : List ℕ → List ℕ
behind [] = []
behind (x ∷ xs) = if x == b'/' then x ∷ xs else behind xs

pub skip_slashes_lem :
    (fuel : ℕ) (mem : Memory) (p : ℕ) (xs : List ℕ)
    → IsAt mem p xs
    → length xs < fuel
    → (q : ℕ) × (skip_slashes fuel mem p ≡ some q)
      × (q + length (drop_slashes xs) ≡ p + length xs)
      × IsAt mem q (drop_slashes xs)
unfolding skip_slashes
skip_slashes_lem zero mem p xs at enough = absurd (omega arith)
skip_slashes_lem (suc fuel) mem p [] at enough =
    let off : (mem p == b'/') ≡ false = ground arith in (p, rw off refl, refl, at)
skip_slashes_lem (suc fuel) mem p (x ∷ xs) (e, nz, at) enough = elim (Bool-cases (x == b'/')) [
  | inl slash ↦
      let (q, eq, len, at') = skip_slashes_lem fuel mem (p + 1) xs at (omega arith) in
      let on : (mem p == b'/') ≡ true = ground arith in
      (q, rw on eq, rw slash (len ∙ omega arith), rw slash at')
  | inr plain ↦
      let off : (mem p == b'/') ≡ false = ground arith in
      (p, rw off refl, rw plain refl, rw plain (e, nz, at))
]

pub skip_name_lem :
    (fuel : ℕ) (mem : Memory) (p : ℕ) (xs : List ℕ)
    → IsAt mem p xs
    → length xs < fuel
    → (skip_name fuel mem p ≡ some (p + length (element xs)))
      × IsAt mem (p + length (element xs)) (behind xs)
unfolding skip_name
skip_name_lem zero mem p xs at enough = absurd (omega arith)
skip_name_lem (suc fuel) mem p [] at enough =
    let off : not (mem p == b'/') && not (mem p == 0) ≡ false = ground arith in
    let e : p + 0 ≡ p = omega arith in rw (off, e) (refl, at)
skip_name_lem (suc fuel) mem p (x ∷ xs) (e, nz, at) enough = elim (Bool-cases (x == b'/')) [
  | inl slash ↦
      let off : not (mem p == b'/') && not (mem p == 0) ≡ false = ground arith in
      let e0 : p + 0 ≡ p = omega arith in rw (off, slash, e0) (refl, (e, nz, at))
  | inr plain ↦
      let on : not (mem p == b'/') && not (mem p == 0) ≡ true = ground arith in
      let (eq, at') = skip_name_lem fuel mem (p + 1) xs at (omega arith) in
      let e1 : p + suc (length (element xs)) ≡ p + 1 + length (element xs) = omega arith in
      rw (on, plain, e1) (eq, at')
]

pub element-behind : (xs : List ℕ) → length (element xs) + length (behind xs) ≡ length xs
element-behind [] = refl
element-behind (x ∷ xs) = elim (Bool-cases (x == b'/')) [
  | inl slash ↦ rw slash (omega arith)
  | inr plain ↦ rw plain (omega (arith, element-behind xs))
]

-- The bytes of an element, where the string is in memory.
element_at :
    (mem : Memory) (p i : ℕ) (xs : List ℕ)
    → IsAt mem p xs
    → i < length (element xs)
    → mem (p + i) ≡ get_or (element xs) i 0
element_at mem p i [] at lt = absurd (omega arith)
element_at mem p i (x ∷ xs) (e, nz, at) lt = elim (Bool-cases (x == b'/')) [
  | inl slash ↦ let none_ : length (element (x ∷ xs)) ≡ 0 = rw slash refl in absurd (omega arith)
  | inr plain ↦
      let len : length (element (x ∷ xs)) ≡ suc (length (element xs)) = rw plain refl in
      rw plain (step i (omega arith) (λ j h. element_at mem (p + 1) j xs at h))
]
  where
    step :
        (i : ℕ)
        → i < suc (length (element xs))
        → ((j : ℕ) → j < length (element xs) → mem (p + 1 + j) ≡ get_or (element xs) j 0)
        → mem (p + i) ≡ get_or (x ∷ element xs) i 0
    step zero h next = ap mem (omega arith) ∙ e
    step (suc i) h next = ap mem (omega arith) ∙ next i (omega arith)

copied_inside : (mem : Memory) (d s n i : ℕ) → i < n → copied mem d s n (d + i) ≡ mem (s + i)
copied_inside mem d s n i lt =
    let inside : leb d (d + i) && ltb (d + i) (d + n) ≡ true = ground arith in
    let at : d + i - d ≡ i = omega arith in rw (inside, at) refl

-- The same string in another memory.
pub IsAt-same :
    (mem mem' : Memory) (p : ℕ) (xs : List ℕ)
    → ((a : ℕ) → p ≤ a → a ≤ p + length xs → mem' a ≡ mem a)
    → IsAt mem p xs
    → IsAt mem' p xs
IsAt-same mem mem' p [] same at = same p (omega arith) (omega arith) ∙ at
IsAt-same mem mem' p (x ∷ xs) same (e, nz, at) = (
  same p (omega arith) (omega arith) ∙ e,
  nz,
  IsAt-same mem mem' (p + 1) xs (λ a lo hi. same a (omega arith) (omega arith)) at,
)

-- What `skipelem` has copied to `name`: the element, cut at 14 bytes, with a 0 behind it if there is
-- room; no other byte has changed, also none behind that 0.
pub record Copied (name : ℕ) (e : List ℕ) (mem mem' : Memory) : Type 0 where
  pub bytes : (i : ℕ) → i < min dirsiz (length e) → mem' (name + i) ≡ get_or e i 0
  pub ended : length e < dirsiz → mem' (name + length e) ≡ 0
  pub others : (a : ℕ) → a < name ⊎ name + min dirsiz (length e + 1) ≤ a → mem' a ≡ mem a

pub copy_name_lem :
    (mem : Memory) (s name : ℕ) (xs : List ℕ)
    → IsAt mem s xs
    → Copied name (element xs) mem (store_name mem s (s + length (element xs)) name)
copy_name_lem mem s name xs at =
    let n = length (element xs) in
    let len : s + n - s ≡ n = omega arith in
    elim (Bool-cases (leb dirsiz n)) [
      | inl long ↦
          rw (len, long)
            (record {
              bytes = λ i h.
                  memmove_lem mem name s dirsiz (name + i)
                  ∙ copied_inside mem name s dirsiz i (omega arith)
                  ∙ element_at mem s i xs at (omega arith);
              ended = λ h. absurd (ground arith);
              others = λ a out. memmove_lem mem name s dirsiz a ∙ ground arith;
            })
      | inr short ↦
          rw (len, short)
            (record {
              bytes = λ i h.
                  update_ne (memmove mem name s n) (name + n) (name + i) 0
                    (λ e. absurd (omega arith))
                  ∙ memmove_lem mem name s n (name + i)
                  ∙ copied_inside mem name s n i (omega arith)
                  ∙ element_at mem s i xs at (omega arith);
              ended = λ h. update_self (memmove mem name s n) (name + n) 0;
              others = λ a out.
                  update_ne (memmove mem name s n) (name + n) a 0 (λ e. absurd (ground arith))
                  ∙ memmove_lem mem name s n a
                  ∙ ground arith;
            })
    ]
