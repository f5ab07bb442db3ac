-- ===== src/Proc/Sleep/Kill.antt =====
-- Whom `kill` marks.
use cs461_mlfq_scheduler.Proc.{Proc, sleeping, runnable, modify}
use cs461_mlfq_scheduler.Proc.Table.{IsPut, modify-IsPut}
use cs461_mlfq_scheduler.Proc.Sleep.{kill, kill_scan, kill_one}
use cs461_mlfq_scheduler.Base.{
  ap, ◌∙◌, ◌==◌, Bool-cases, get_elem?, ℕ, zero, suc, ◌<◌, ◌≡◌, refl, ◌≢◌, ◌⊎◌, inl, inr, true,
  false, none, some, List, [], ◌∷◌, arith,
}

-- The slot that `kill` stops at: the first with the pid.
abbrev pub IsFirst : ℕ → List Proc → ℕ → Proc → Type 0
IsFirst pid ps i p =
    (get_elem? ps i ≡ some p)
    × (p.pid ≡ pid)
    × ((j : ℕ) (q : Proc) → j < i → get_elem? ps j ≡ some q → q.pid ≢ pid)

pub kill_scan_first :
    (pid : ℕ) (ps : List Proc) (i : ℕ) (p : Proc)
    → IsFirst pid ps i p
    → kill_scan pid ps ≡ some (modify ps i kill_one)
unfolding kill_scan
kill_scan_first pid [] i p (here, same, below) = absurd (cc)
kill_scan_first pid (x ∷ ps) zero p (here, same, below) = ground arith
kill_scan_first pid (x ∷ ps) (suc i) p (here, same, below) =
    let ih = kill_scan_first pid ps i p (here, same, λ j q h. below (suc j) q (omega arith)) in
    let other = below 0 x (omega arith) refl in ground arith

pub kill_scan_lem :
    (pid : ℕ) (ps : List Proc)
    → ((kill_scan pid ps ≡ none) × ((j : ℕ) (q : Proc) → get_elem? ps j ≡ some q → q.pid ≢ pid))
      ⊎ ((i : ℕ) × (p : Proc) × IsFirst pid ps i p)
unfolding kill_scan
kill_scan_lem pid [] = inl (refl, λ j q e. absurd (cc))
kill_scan_lem pid (x ∷ ps) = elim (Bool-cases (x.pid == pid)) [
  | inl same ↦ inr (0, x, (refl, ground arith, λ j q h. absurd (omega arith)))
  | inr other ↦ elim (kill_scan_lem pid ps) [
    | inl (gone, none_of) ↦ inl (ground arith, either other none_of)
    | inr (i, p, (here, same, below)) ↦ inr (suc i, p, (here, same, below_suc other below))
  ]
]
  where
    either :
        (x.pid == pid) ≡ false
        → ((j : ℕ) (q : Proc) → get_elem? ps j ≡ some q → q.pid ≢ pid)
        → (j : ℕ) (q : Proc) → get_elem? (x ∷ ps) j ≡ some q
        → q.pid ≢ pid
    either other none_of zero q e = ground arith
    either other none_of (suc j) q e = none_of j q e

    below_suc :
        {i : ℕ}
        → (x.pid == pid) ≡ false
        → ((j : ℕ) (q : Proc) → j < i → get_elem? ps j ≡ some q → q.pid ≢ pid)
        → (j : ℕ) (q : Proc) → j < suc i
        → get_elem? (x ∷ ps) j ≡ some q
        → q.pid ≢ pid
    below_suc other below zero q h e = ground arith
    below_suc other below (suc j) q h e = below j q (omega arith) e

-- The two ways `kill` ends.
pub kill_cases :
    (pid : ℕ) (ps : List Proc)
    → ((kill pid ps ≡ (false, ps)) × ((j : ℕ) (q : Proc) → get_elem? ps j ≡ some q → q.pid ≢ pid))
      ⊎ ((i : ℕ) × (p : Proc) × IsFirst pid ps i p × (kill pid ps ≡ (true, modify ps i kill_one)))
unfolding kill
kill_cases pid ps = elim (kill_scan_lem pid ps) [
  | inl (gone, none_of) ↦ inl (ground arith, none_of)
  | inr (i, p, first) ↦ inr (i, p, first, ground (arith, kill_scan_first pid ps i p first))
]

-- `kill` returns 0 exactly if some slot, used or not, has the pid. Then the first such slot is
-- marked as killed and, if it slept, made RUNNABLE, and no other slot changes; else none changes.
pub kill_lem :
    (pid : ℕ) (ps : List Proc)
    → ((kill pid ps ≡ (false, ps)) × ((j : ℕ) (q : Proc) → get_elem? ps j ≡ some q → q.pid ≢ pid))
      ⊎ ((i : ℕ) × (p : Proc) × (qs : List Proc) × IsFirst pid ps i p
          × (kill pid ps ≡ (true, qs))
          × (p.state ≡ sleeping → IsPut ps i (record p { killed = true; state = runnable }) qs)
          × (p.state ≢ sleeping → IsPut ps i (record p { killed = true }) qs))
kill_lem pid ps = elim (kill_cases pid ps) [
  | inl gone ↦ inl gone
  | inr (i, p, first, e) ↦
      let put = modify-IsPut ps i p kill_one first.0 in
      inr (
        i,
        p,
        modify ps i kill_one,
        first,
        e,
        λ asleep. (put.0 ∙ ap (λ q. some q) (ground arith), put.1),
        λ awake. (put.0 ∙ ap (λ q. some q) (ground arith), put.1),
      )
]
