-- ===== src/Log/Commit.antt =====
-- log.c: the atomicity of a commit.
use mathlib.Core.Path.{subst}
use cs461_mlfq_scheduler.Log.{Store, Log, bread, install_trans, write_head, write_log, commit}
use cs461_mlfq_scheduler.Log.Header.{
  write_head_words, write_head_elsewhere, disk-write_head, power-write_head,
}
use cs461_mlfq_scheduler.Log.Crash.{
  IsPlan, Recoverable, Recoverable-of, IsClean, IsClean-Recoverable,
}
use cs461_mlfq_scheduler.Log.Recovery.{
  install_and_erase, erase, reboot, reboots, reboot_lem, reboots-Recoverable,
}
use cs461_mlfq_scheduler.Log.Loops.{
  loc, IsAway, bread_eq, install_off, power-install, write_log_elsewhere, power-write_log,
  write_log_entry,
}
use cs461_mlfq_scheduler.Base.{
  ltb, leb, if◌then◌else◌, tests, Bool-cases, ℕ, ◌+◌, ◌≤◌, ◌<◌, ◌≡◌, refl, sym, ap, ◌∙◌, ◌≢◌, inl,
  inr, List, arith,
}

module _ (cap : ℕ) (log : Log) (st : Store) (plan' : IsPlan log.start cap log.n log.block)
    (empty : st.disk log.start 0 ≡ 0)
    (settled : (a : ℕ)
      → IsAway log.start cap a
      → ((t : ℕ) → t < log.n → log.block t ≢ a)
      → bread st a ≡ st.disk a) where
  -- With power for no more than the log's blocks, only those change.
  commit_lost :
      st.power ≤ log.n
      → 0 < log.n
      → Recoverable log.start cap
          (install_and_erase log (write_head log (write_log log st))).disk
          st.disk
  unfolding write_log install_trans
  commit_lost few some_ =
      let (fit, away, apart) = plan' in
      let logged = write_log log st in
      let left = power-write_log log log.n 0 st in
      let headed = write_head log logged in
      let left' = power-write_head log logged in
      let last =
        (disk-write_head (record log { n = 0 }) (install_trans log headed)).1
          (power-install log log.n 0 headed ∙ omega arith) in
      let disk' =
        last
        ∙ install_off log log.n 0 headed (omega arith)
        ∙ (disk-write_head log logged).1 (omega arith) in
      subst (λ d. Recoverable log.start cap d st.disk) (sym disk')
        (IsClean-Recoverable log.start cap logged.disk st.disk (
          ap (λ x. x 0) (write_log_elsewhere log log.n 0 st log.start (omega arith)).0 ∙ empty,
          λ a o. (write_log_elsewhere log log.n 0 st a (omega arith)).0,
        ))

  -- Once the header is written, the new data are there.
  headed-Recoverable :
      log.n < st.power
      → Recoverable log.start cap (write_head log (write_log log st)).disk (bread st)
  unfolding write_log
  headed-Recoverable pow =
      let (fit, away, apart) = plan' in
      let logged = write_log log st in
      let left = power-write_log log log.n 0 st in
      let (count, words) = write_head_words log logged in
      let head = (disk-write_head log logged).0 (omega arith) in
      Recoverable-of log.start cap log.n log.block (write_head log logged).disk (bread st)
        (ap (λ x. x 0) head ∙ count) (λ t h. ap (λ x. x (t + 1)) head ∙ words t h) plan'
        (λ t h.
          (write_head_elsewhere log logged (loc log.start t) (omega arith)).0
          ∙ (write_log_entry log log.n 0 cap st (omega arith) (λ u hu. away u (omega arith)) t
                (omega arith) (omega arith)).1
              (omega arith))
        (λ a o other.
          (write_head_elsewhere log logged a (omega arith)).0
          ∙ (write_log_elsewhere log log.n 0 st a (omega arith)).0
          ∙ sym (settled a o other))

  commit_kept :
      log.n < st.power
      → Recoverable log.start cap
          (install_and_erase log (write_head log (write_log log st))).disk
          (bread st)
  unfolding write_log
  commit_kept pow =
      let (fit, away, apart) = plan' in
      let logged = write_log log st in
      let left = power-write_log log log.n 0 st in
      let (count, words) = write_head_words log logged in
      let head = (disk-write_head log logged).0 (omega arith) in
      erase cap log (write_head log logged) (bread st) (headed-Recoverable pow)
        (ap (λ x. x 0) head ∙ count) (λ t h. ap (λ x. x (t + 1)) head ∙ words t h)
        (λ t h.
          let entry =
            write_log_entry log log.n 0 cap st (omega arith) (λ u hu. away u (omega arith)) t
              (omega arith) (omega arith) in
          let (d, c) = write_head_elsewhere log logged (loc log.start t) (omega arith) in
          bread_eq logged (write_head log logged) (loc log.start t) d c
          ∙ entry.0
          ∙ sym (d ∙ entry.1 (omega arith)))

  commit_empty :
      log.n ≡ 0
      → Recoverable log.start cap st.disk st.disk × Recoverable log.start cap st.disk (bread st)
  commit_empty none_ = (
    IsClean-Recoverable log.start cap st.disk st.disk (empty, λ a o. refl),
    IsClean-Recoverable log.start cap st.disk (bread st)
        (empty, λ a o. sym (settled a o (λ t h. absurd (omega arith)))),
  )

  -- The disk behind `commit` is recoverable, to the old blocks or to the new ones.
  commit-Recoverable :
      Recoverable log.start cap
        (commit log st).1.disk
        (if leb st.power log.n then st.disk else bread st)
  unfolding commit
  commit-Recoverable = elim (Bool-cases (ltb 0 log.n)) [
    | inl some_ ↦ elim (Bool-cases (leb st.power log.n)) [
      | inl few ↦ rw (some_, few) (commit_lost (omega tests) (omega tests))
      | inr many ↦ rw (some_, many) (commit_kept (ground arith))
    ]
    | inr none_ ↦ elim (Bool-cases (leb st.power log.n)) [
      | inl few ↦ rw (none_, few) (commit_empty (ground arith)).0
      | inr many ↦ rw (none_, many) (commit_empty (ground arith)).1
    ]
  ]

-- A commit is atomic. Take a log whose entries name different blocks outside of the log, on a disk
-- with an empty log, and a cache that differs from the disk only in those blocks. Let the power fail
-- behind any of the commit's writes, and again in any number of starts of the machine. The first
-- start with power for more writes than the log has blocks leaves an empty log, and all blocks
-- outside of the log as they were before if the power failed before the header was written, and else
-- all as they were in the cache.
pub commit_atomic :
    (cap : ℕ) (log : Log) (st : Store)
    → IsPlan log.start cap log.n log.block
    → st.disk log.start 0 ≡ 0
    → ((a : ℕ)
        → IsAway log.start cap a
        → ((t : ℕ) → t < log.n → log.block t ≢ a)
        → bread st a ≡ st.disk a)
    → (nlog : ℕ) (powers : List ℕ) (power : ℕ) → cap < power
    → IsClean log.start cap
        (reboot log.start nlog power (reboots log.start nlog powers (commit log st).1.disk))
        (if leb st.power log.n then st.disk else bread st)
commit_atomic cap log st plan empty settled nlog powers power enough =
    let target = if leb st.power log.n then st.disk else bread st in
    let disk = reboots log.start nlog powers (commit log st).1.disk in
    (reboot_lem log.start cap nlog power disk target (
        reboots-Recoverable log.start cap nlog powers (commit log st).1.disk target
          (commit-Recoverable cap log st plan empty settled))).1
      enough
