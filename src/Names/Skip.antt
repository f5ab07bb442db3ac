-- ===== src/Names/Skip.antt =====
-- fs.c: `skipelem` takes a path apart at its slashes.
use mathlib.Core.Path.{subst}
use cs461_mlfq_scheduler.Str.{Memory}
use cs461_mlfq_scheduler.Dir.{dirsiz}
use cs461_mlfq_scheduler.Names.{skip_slashes, skip_name, store_name, take_elem, skipelem}
use cs461_mlfq_scheduler.Names.Elements.{
  IsAt, drop_slashes, element, behind, skip_slashes_lem, skip_name_lem, element-behind, IsAt-same,
  Copied, copy_name_lem,
}
use cs461_mlfq_scheduler.Base.{
  ◌==◌, if◌then◌else◌, Bool-cases, length, ℕ, ◌+◌, ◌≤◌, ◌<◌, ◌≡◌, refl, sym, ap, ◌∙◌, ◌⊎◌, inl, inr,
  true, false, Option, none, some, List, [], ◌∷◌, arith,
}

drop_slashes-head :
    (xs : List ℕ) (y : ℕ) (ys : List ℕ) → drop_slashes xs ≡ y ∷ ys → (y == b'/') ≡ false
drop_slashes-head [] y ys e = absurd (cc)
drop_slashes-head (x ∷ xs) y ys e = elim (Bool-cases (x == b'/')) [
  | inl slash ↦
      let on : drop_slashes (x ∷ xs) ≡ drop_slashes xs = rw slash refl in
      drop_slashes-head xs y ys (sym on ∙ e)
  | inr plain ↦
      let off : drop_slashes (x ∷ xs) ≡ x ∷ xs = rw plain refl in
      let same : x ≡ y = (let both = sym off ∙ e in cc) in ap (λ c. c == b'/') (sym same) ∙ plain
]

-- How `skipelem` ends: at the end of the path, with nothing changed; or behind an element.
pub data Skipped (xs : List ℕ) (name : ℕ) (mem : Memory) (r : Option ℕ × Memory) : Type 0 where
  at_end : drop_slashes xs ≡ [] → r ≡ (none, mem) → Skipped xs name mem r
  took :
      (next : ℕ)
      → r.0 ≡ some next
      → 0 < length (element (drop_slashes xs))
      → Copied name (element (drop_slashes xs)) mem r.1
      → IsAt r.1 next (drop_slashes (behind (drop_slashes xs)))
      → Skipped xs name mem r

length-drop_slashes : (xs : List ℕ) → length (drop_slashes xs) ≤ length xs
length-drop_slashes [] = omega arith
length-drop_slashes (x ∷ xs) = elim (Bool-cases (x == b'/')) [
  | inl slash ↦ rw slash (omega (arith, length-drop_slashes xs))
  | inr plain ↦ rw plain (omega arith)
]

take_elem_lem :
    (fuel : ℕ) (mem : Memory) (s end next name : ℕ)
    → skip_name fuel mem s ≡ some end
    → skip_slashes fuel (store_name mem s end name) end ≡ some next
    → take_elem fuel mem s name ≡ some (some next, store_name mem s end name)
unfolding take_elem
take_elem_lem fuel mem s end next name e e' = rw (take_elem, e, e') refl

took_lem :
    (fuel : ℕ) (mem : Memory) (s name : ℕ) (ys : List ℕ)
    → IsAt mem s ys
    → length ys < fuel
    → s + length ys < name ⊎ name + dirsiz ≤ s
    → (next : ℕ) × (mem' : Memory) × (take_elem fuel mem s name ≡ some (some next, mem'))
      × Copied name (element ys) mem mem'
      × IsAt mem' next (drop_slashes (behind ys))
took_lem fuel mem s name ys at enough apart =
    let n = length (element ys) in
    let sum = element-behind ys in
    let (e, rest) = skip_name_lem fuel mem s ys at enough in
    let mem' = store_name mem s (s + n) name in
    let c = copy_name_lem mem s name ys at in
    let rest' = IsAt-same mem mem' (s + n) (behind ys) (λ a lo hi. c.others a (omega arith)) rest in
    let (next, e', len, at') = skip_slashes_lem fuel mem' (s + n) (behind ys) rest' (omega arith) in
    (next, mem', take_elem_lem fuel mem s (s + n) next name e e', c, at')

-- `skipelem` on a path in memory that does not overlap `name`, given fuel for more bytes than the path
-- has, always comes to an end: it returns 0 for a path of slashes alone; otherwise it copies the first
-- element to `name`, all of it up to 14 bytes, with a 0 behind it if it is shorter, and returns the
-- rest of the path without its slashes in front; no other byte changes.
pub skipelem_lem :
    (fuel : ℕ) (mem : Memory) (path name : ℕ) (xs : List ℕ)
    → IsAt mem path xs
    → length xs < fuel
    → path + length xs < name ⊎ name + dirsiz ≤ path
    → (r : Option ℕ × Memory) × (skipelem fuel mem path name ≡ some r) × Skipped xs name mem r
unfolding skipelem
skipelem_lem fuel mem path name xs at enough apart =
    let (s, e, len, at') = skip_slashes_lem fuel mem path xs at enough in
    let (r, e', k) = from s (drop_slashes xs) refl at' len in (r, rw (skipelem, e) e', k)
  where
    from :
        (s : ℕ) (ys : List ℕ)
        → drop_slashes xs ≡ ys
        → IsAt mem s ys
        → s + length ys ≡ path + length xs
        → (r : Option ℕ × Memory) × ((if mem s == 0
              then some (none, mem)
              else take_elem fuel mem s name)
            ≡ some r)
          × Skipped xs name mem r
    from s [] same at' len =
        let end : (mem s == 0) ≡ true = ground arith in ((none, mem), rw end refl, at_end same refl)
    from s (y ∷ ys) same (e, nz, at') len =
        let more : (mem s == 0) ≡ false = ground arith in
        let shorter : length (y ∷ ys) ≤ length xs =
          subst (λ zs. length zs ≤ length xs) same (length-drop_slashes xs) in
        let (next, mem', e', c, rest) =
          took_lem fuel mem s name (y ∷ ys) (e, nz, at') (omega arith) (omega arith) in
        let pos : 0 < length (element (y ∷ ys)) =
          rw (drop_slashes-head xs y ys same) (omega arith) in
        (
          (some next, mem'),
          rw more e',
          took next refl (subst (λ zs. 0 < length (element zs)) (sym same) pos)
              (subst (λ zs. Copied name (element zs) mem mem') (sym same) c)
              (subst (λ zs. IsAt mem' next (drop_slashes (behind zs))) (sym same) rest),
        )
