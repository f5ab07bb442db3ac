-- ===== src/Proc/Pids.antt =====
-- Process ids: no two processes have the same one, and `kill` finds the one that it names.
use cs461_mlfq_scheduler.Proc.{Proc, unused, is_state, modify}
use cs461_mlfq_scheduler.Proc.Table.{Each, modify_origin}
use cs461_mlfq_scheduler.Proc.Alloc.{claim}
use cs461_mlfq_scheduler.Base.{
  get_elem?, ℕ, ◌+◌, ◌≤◌, ◌<◌, ◌≡◌, refl, sym, ap, ◌∙◌, ◌⊎◌, inl, inr, false, some, List, arith,
}

abbrev pub IsLive : Proc → Type 0
IsLive p = is_state p.state unused ≡ false

-- Among slots in use, pids are positive, below `nextpid`, and different.
pub record HasPids (nextpid : ℕ) (ps : List Proc) : Type 0 where
  pub bounds :
      (i : ℕ) (p : Proc) → get_elem? ps i ≡ some p → IsLive p → (0 < p.pid) × (p.pid < nextpid)
  pub distinct :
      (i j : ℕ) (p q : Proc)
      → get_elem? ps i ≡ some p
      → get_elem? ps j ≡ some q
      → IsLive p
      → IsLive q
      → p.pid ≡ q.pid
      → i ≡ j

-- A slot in use was in use before, with the same pid.
abbrev pub Kept : Proc → Proc → Type 0
Kept p q = IsLive q → IsLive p × (q.pid ≡ p.pid)

pub Kept-refl : (p : Proc) → Kept p p
Kept-refl p v = (v, refl)

pub Kept-trans : (p q r : Proc) → Kept p q → Kept q r → Kept p r
Kept-trans p q r a b v = let (w, e) = b v in let (x, f) = a w in (x, e ∙ f)

-- A slot is in use exactly if it was, with the same pid.
abbrev pub Alike : Proc → Proc → Type 0
Alike p q = (is_state q.state unused ≡ is_state p.state unused) × (q.pid ≡ p.pid)

pub Alike-refl : (p : Proc) → Alike p p
Alike-refl p = (refl, refl)

pub Alike-trans : (p q r : Proc) → Alike p q → Alike q r → Alike p r
Alike-trans p q r a b = (b.0 ∙ a.0, b.1 ∙ a.1)

pub Kept-Alike : (ps qs : List Proc) → Each Alike ps qs → Each Kept ps qs
Kept-Alike ps qs a i q e = let (p, here, l) = a i q e in (p, here, λ v. (sym l.0 ∙ v, l.1))

-- What keeps the pids of the slots in use keeps them distinct.
pub HasPids-Kept :
    (n m : ℕ) (ps qs : List Proc) → n ≤ m → Each Kept ps qs → HasPids n ps → HasPids m qs
HasPids-Kept n m ps qs le keep h = record {
  bounds = λ i q e v.
      let (p, here, kept) = keep i q e in
      let (was, pid) = kept v in let b = h.bounds i p here was in omega arith;
  distinct = λ i j q r e f v w eq.
      let (p, here, kept) = keep i q e in
      let (was, pid) = kept v in
      let (p', here', kept') = keep j r f in
      let (was', pid') = kept' w in h.distinct i j p p' here here' was was' (omega arith);
}

claim_origin :
    (n i j : ℕ) (ps : List Proc) (q : Proc)
    → get_elem? (modify ps i (claim n)) j ≡ some q
    → (get_elem? ps j ≡ some q) ⊎ ((i ≡ j) × (q.pid ≡ n))
claim_origin n i j ps q e =
    let (p, here, same) = modify_origin ps i j (claim n) q e in
    elim same [
      | inl old ↦ inl (here ∙ ap (λ x. some x) (sym old))
      | inr (ij, new) ↦ inr (ij, ap (λ (x : Proc). x.pid) new)
    ]

-- A slot that takes the next pid keeps the pids different.
pub HasPids-claim :
    (n i : ℕ) (ps : List Proc) → 0 < n → HasPids n ps → HasPids (n + 1) (modify ps i (claim n))
HasPids-claim n i ps pos h = record {
  bounds = λ j q e v. elim (claim_origin n i j ps q e) [
    | inl here ↦ let b = h.bounds j q here v in omega arith
    | inr (ij, new) ↦ omega arith
  ];
  distinct = λ j l q r e f v w eq. elim (claim_origin n i j ps q e) [
    | inl here ↦ elim (claim_origin n i l ps r f) [
      | inl here' ↦ h.distinct j l q r here here' v w eq
      | inr (il, new) ↦ let b = h.bounds j q here v in absurd (omega arith)
    ]
    | inr (ij, new) ↦ elim (claim_origin n i l ps r f) [
      | inl here' ↦ let b = h.bounds l r here' w in absurd (omega arith)
      | inr (il, new') ↦ sym ij ∙ il
    ]
  ];
}
