-- ===== src/Log/Space.antt =====
-- log.c: `log_write`, and the space that `begin_op` reserves for it.
use mathlib.Core.Path.{subst}
use cs461_mlfq_scheduler.Log.{Store, Log, logsize, find_entry, log_write}
use cs461_mlfq_scheduler.Log.Crash.{IsPlan, IsPlan-copy}
use cs461_mlfq_scheduler.Log.Loops.{IsAway}
use native.Mathlib.Decide.{ℕ_discrete}
use cs461_mlfq_scheduler.Base.{
  ◌==◌, if◌then◌else◌, ==_iff, Bool-cases, update, update_self, update_ne, ok, ℕ, zero, suc, ◌+◌,
  ◌-◌, ◌≤◌, ◌<◌, ◌≡◌, sym, ap, ◌∙◌, ◌≢◌, ◌⊎◌, inl, inr, true, arith,
}

-- The search ends at an entry for the block, or behind the entries if there is none.
find_entry_lem :
    (k i : ℕ) (block : ℕ → ℕ) (b : ℕ)
    → (i ≤ find_entry k i block b)
      × ((find_entry k i block b < i + k) × (block (find_entry k i block b) ≡ b)
          ⊎ (find_entry k i block b ≡ i + k) × ((t : ℕ) → i ≤ t → t < i + k → block t ≢ b))
unfolding find_entry
find_entry_lem zero i block b = (omega arith, inr (omega arith, λ t lo hi e. absurd (omega arith)))
find_entry_lem (suc k) i block b =
    let (lo, found) = find_entry_lem k (i + 1) block b in
    elim (Bool-cases (block i == b)) [
      | inl here ↦ rw (here) (omega arith, inl (omega arith, (==_iff (block i) b).0 here))
      | inr off ↦ rw (off) (
        omega arith,
        elim found [
          | inl (hi, e) ↦ inl (omega arith, e)
          | inr (end, none_) ↦ inr (
            omega arith,
            λ t lo' hi e. elim (ℕ_discrete i t) [
              | yes same ↦ let e' = ap block same ∙ e in ground arith
              | no later ↦ none_ t (omega arith) (omega arith) e
            ],
          )
        ],
      )
    ]

-- An entry that has the block already is written as it was.
update_same : (block : ℕ → ℕ) (i b t : ℕ) → block i ≡ b → update block i b t ≡ block t
update_same block i b t e = elim (ℕ_discrete i t) [
  | yes same ↦ subst (λ u. update block i b u ≡ block u) same (update_self block i b ∙ sym e)
  | no other ↦ update_ne block i t b other
]

-- A new entry for a block that has none.
IsPlan-append :
    (start cap n : ℕ) (block : ℕ → ℕ) (b : ℕ)
    → IsPlan start cap n block
    → IsAway start cap b
    → n < cap
    → ((t : ℕ) → t < n → block t ≢ b)
    → IsPlan start cap (n + 1) (update block n b)
IsPlan-append start cap n block b (fit, away, apart) o room fresh = (
  omega arith,
  λ t h. elim (ℕ_discrete n t) [
    | yes last ↦
        subst (λ u. IsAway start cap u)
          (sym (ap (update block n b) (sym last) ∙ update_self block n b)) o
    | no old ↦
        subst (λ u. IsAway start cap u) (sym (update_ne block n t b old)) (away t (omega arith))
  ],
  λ s t hs ht e. elim (ℕ_discrete n s) [
    | yes ls ↦ elim (ℕ_discrete n t) [
      | yes lt ↦ omega arith
      | no ot ↦ absurd (
          fresh t (omega arith) (
            sym (update_ne block n t b ot)
            ∙ sym e
            ∙ ap (update block n b) (sym ls)
            ∙ update_self block n b))
    ]
    | no os ↦ elim (ℕ_discrete n t) [
      | yes lt ↦ absurd (
          fresh s (omega arith) (
            sym (update_ne block n s b os)
            ∙ e
            ∙ ap (update block n b) (sym lt)
            ∙ update_self block n b))
      | no ot ↦
          apart s t (omega arith) (omega arith)
            (sym (update_ne block n s b os) ∙ e ∙ update_ne block n t b ot)
    ]
  ],
)

-- What `log_write` leaves of the log in memory.
abbrev pub recorded : ℕ → Log → Log
recorded b log =
    let i = find_entry log.n 0 log.block b in
    record log { block = update log.block i b; n = if i == log.n then log.n + 1 else log.n }

-- The entries behind a write: the old ones, and one for the block.
abbrev pub IsRecorded : ℕ → Log → Log → Type 0
IsRecorded b log log' =
    (log.n ≤ log'.n)
    × (log'.n ≤ log.n + 1)
    × ((t : ℕ) → t < log.n → log'.block t ≡ log.block t)
    × ((t : ℕ) × (t < log'.n) × (log'.block t ≡ b))

recorded_lem :
    (b cap : ℕ) (log : Log)
    → IsPlan log.start cap log.n log.block
    → IsAway log.start cap b
    → log.n < cap
    → IsPlan log.start cap (recorded b log).n (recorded b log).block
      × IsRecorded b log (recorded b log)
recorded_lem b cap log plan o room =
    let i = find_entry log.n 0 log.block b in
    let (lo, found) = find_entry_lem log.n 0 log.block b in
    let here = update_self log.block i b in
    elim found [
      | inl (hi, e) ↦
          let count : (recorded b log).n ≡ log.n = ground arith in
          let same = λ (t : ℕ) (h : t < log.n). update_same log.block i b t e in
          (
            IsPlan-copy log.start cap log.n (recorded b log).n log.block (recorded b log).block
                count same plan,
            (omega arith, omega arith, same, (i, omega arith, here)),
          )
      | inr (end, none_) ↦
          let end' : i ≡ log.n = omega arith in
          let count : (recorded b log).n ≡ log.n + 1 = ground arith in
          let put = λ (t : ℕ). ap (λ j. update log.block j b t) end' in
          (
            IsPlan-copy log.start cap (log.n + 1) (recorded b log).n (update log.block log.n b)
                (recorded b log).block count (λ t h. put t)
                (IsPlan-append log.start cap log.n log.block b plan o room
                  (λ t h. none_ t (omega arith) (omega arith))),
            (
              omega arith,
              omega arith,
              λ t h. update_ne log.block i t b (omega arith),
              (i, omega arith, here),
            ),
          )
    ]

-- In an operation, with room in the log, `log_write` of a block outside of the log succeeds: the
-- entries stay different blocks outside of the log, the old ones keep their places, the block has an
-- entry behind it and is pinned in the cache, and at most one entry is new.
pub log_write_lem :
    (b : ℕ) (log : Log) (st : Store)
    → IsPlan log.start (log.size - 1) log.n log.block
    → IsAway log.start (log.size - 1) b
    → log.n < logsize
    → log.n + 1 < log.size
    → 0 < log.outstanding
    → (log_write b log st ≡ ok (recorded b log, record st { dirty = update st.dirty b true }))
      × IsPlan log.start (log.size - 1) (recorded b log).n (recorded b log).block
      × IsRecorded b log (recorded b log)
unfolding log_write
log_write_lem b log st plan o room space inside =
    let (plan', entries) = recorded_lem b (log.size - 1) log plan o (omega arith) in
    (ground arith, plan', entries)
