-- ===== src/Log/Crash.antt =====
-- log.c: what a disk holds after a crash, and that recovery completes it.
use cs461_mlfq_scheduler.Log.{Block}
use cs461_mlfq_scheduler.Log.Loops.{loc, IsAway}
use native.Mathlib.Decide.{ℕ_discrete}
use cs461_mlfq_scheduler.Base.{
  ℕ, zero, suc, ◌+◌, ◌≤◌, ◌<◌, ◌≡◌, sym, ap, ◌∙◌, ◌≢◌, ◌⊎◌, inl, inr, arith,
}

-- Whether one of the first `n` entries names block `a`.
pub home-cases :
    (n : ℕ) (block : ℕ → ℕ) (a : ℕ)
    → ((t : ℕ) × (t < n) × (block t ≡ a)) ⊎ ((t : ℕ) → t < n → block t ≢ a)
home-cases zero block a = inr (λ t h e. absurd (omega arith))
home-cases (suc n) block a = elim (ℕ_discrete (block n) a) [
  | yes e ↦ inl (n, omega arith, e)
  | no ne ↦ elim (home-cases n block a) [
    | inl (t, h, e) ↦ inl (t, omega arith, e)
    | inr none_ ↦ inr (λ t h e. elim (ℕ_discrete t n) [
      | yes same ↦ ne (ap block (sym same) ∙ e)
      | no other ↦ none_ t (omega arith) e
    ])
  ]
]

-- The entries name different blocks outside of the log.
abbrev pub IsPlan : ℕ → ℕ → ℕ → (ℕ → ℕ) → Type 0
IsPlan start cap n block =
    (n ≤ cap)
    × ((t : ℕ) → t < n → IsAway start cap (block t))
    × ((s t : ℕ) → s < n → t < n → block s ≡ block t → s ≡ t)

pub IsPlan-copy :
    (start cap n n' : ℕ) (block block' : ℕ → ℕ)
    → n' ≡ n
    → ((t : ℕ) → t < n → block' t ≡ block t)
    → IsPlan start cap n block
    → IsPlan start cap n' block'
IsPlan-copy start cap n n' block block' count homes (fit, away, apart) = (
  omega arith,
  λ t h. let o = away t (omega arith) in let e = homes t (omega arith) in omega arith,
  λ s t hs ht e.
      apart s t (omega arith) (omega arith)
        (sym (homes s (omega arith)) ∙ e ∙ homes t (omega arith)),
)

-- A disk from which recovery can make the blocks `target`: the header's entries hold the new
-- data of their homes, and all else has its data already.
pub record Recoverable (start cap : ℕ) (disk target : ℕ → Block) : Type 0 where
  pub plan : IsPlan start cap (disk start 0) (λ t. disk start (t + 1))
  pub logged : (t : ℕ) → t < disk start 0 → disk (loc start t) ≡ target (disk start (t + 1))
  pub others :
      (a : ℕ)
      → IsAway start cap a
      → ((t : ℕ) → t < disk start 0 → disk start (t + 1) ≢ a)
      → disk a ≡ target a

-- The same by the entries `block` of a log in memory, of which the header has a copy.
pub Recoverable-of :
    (start cap n : ℕ) (block : ℕ → ℕ) (disk target : ℕ → Block)
    → disk start 0 ≡ n
    → ((t : ℕ) → t < n → disk start (t + 1) ≡ block t)
    → IsPlan start cap n block
    → ((t : ℕ) → t < n → disk (loc start t) ≡ target (block t))
    → ((a : ℕ) → IsAway start cap a → ((t : ℕ) → t < n → block t ≢ a) → disk a ≡ target a)
    → Recoverable start cap disk target
Recoverable-of start cap n block disk target count homes plan entries rest = record {
  plan = IsPlan-copy start cap n (disk start 0) block (λ t. disk start (t + 1)) count homes plan;
  logged = λ t h. entries t (omega arith) ∙ ap target (sym (homes t (omega arith)));
  others = λ a o h. rest a o (λ t ht e. h t (omega arith) (homes t ht ∙ e));
}

-- A disk with an empty log and the blocks `target`.
abbrev pub IsClean : ℕ → ℕ → (ℕ → Block) → (ℕ → Block) → Type 0
IsClean start cap disk target =
    (disk start 0 ≡ 0) × ((a : ℕ) → IsAway start cap a → disk a ≡ target a)

pub IsClean-Recoverable :
    (start cap : ℕ) (disk target : ℕ → Block)
    → IsClean start cap disk target
    → Recoverable start cap disk target
IsClean-Recoverable start cap disk target (empty, eq) =
    Recoverable-of start cap 0 (λ t. 0) disk target empty (λ t h. absurd (omega arith))
      (omega arith, λ t h. absurd (omega arith), λ s t h h' e. absurd (omega arith))
      (λ t h. absurd (omega arith)) (λ a away h. eq a away)

-- A disk that agrees on all blocks that are no home is as recoverable.
pub Recoverable-kept :
    (start cap : ℕ) (disk disk' target : ℕ → Block)
    → Recoverable start cap disk target
    → ((a : ℕ) → ((t : ℕ) → t < disk start 0 → disk start (t + 1) ≢ a) → disk' a ≡ disk a)
    → Recoverable start cap disk' target
Recoverable-kept start cap disk disk' target r kept =
    let (fit, away, apart) = r.plan in
    let head = kept start (λ t h e. let o = away t h in absurd (omega arith)) in
    Recoverable-of start cap (disk start 0) (λ t. disk start (t + 1)) disk' target
      (ap (λ x. x 0) head) (λ t h. ap (λ x. x (t + 1)) head) r.plan
      (λ t h.
        kept (loc start t) (λ s h' e. let o = away s h' in absurd (omega arith)) ∙ r.logged t h)
      (λ a o h. kept a h ∙ r.others a o h)
