-- ===== src/Log/Recovery.antt =====
-- log.c: recovery from a crash at any write.
use mathlib.Core.Path.{subst}
use cs461_mlfq_scheduler.Log.{
  Block, Store, Log, bread, install_trans, read_head, write_head, recover_from_log, initlog,
}
use cs461_mlfq_scheduler.Log.Header.{
  read_words_lem, write_head_words, write_head_elsewhere, disk-write_head,
}
use cs461_mlfq_scheduler.Log.Crash.{
  home-cases, IsPlan, Recoverable, IsPlan-copy, IsClean, IsClean-Recoverable, Recoverable-kept,
}
use cs461_mlfq_scheduler.Log.Loops.{loc, IsAway, install_elsewhere, install_home, power-install}
use native.Mathlib.Decide.{ℕ_discrete}
use cs461_mlfq_scheduler.Base.{
  ℕ, ◌+◌, ◌-◌, ◌≤◌, ◌<◌, ◌≡◌, refl, sym, ap, ◌∙◌, inl, inr, false, none, List, [], ◌∷◌, arith,
}

-- The end of a commit and of a recovery: the installation and the erasing of the log.
abbrev pub install_and_erase : Log → Store → Store
install_and_erase log st = write_head (record log { n = 0 }) (install_trans log st)

module _ (cap : ℕ) (log : Log) (st : Store) (target : ℕ → Block)
    (r : Recoverable log.start cap st.disk target) (count : st.disk log.start 0 ≡ log.n)
    (homes : (t : ℕ) → t < log.n → st.disk log.start (t + 1) ≡ log.block t)
    (reads : (t : ℕ) → t < log.n → bread st (loc log.start t) ≡ st.disk (loc log.start t)) where
  plan : IsPlan log.start cap log.n log.block
  plan =
      IsPlan-copy log.start cap (st.disk log.start 0) log.n (λ t. st.disk log.start (t + 1))
        log.block (sym count) (λ t h. sym (homes t (omega arith))) r.plan

  install_trans-Recoverable : Recoverable log.start cap (install_trans log st).disk target
  unfolding install_trans
  install_trans-Recoverable =
      Recoverable-kept log.start cap st.disk (install_trans log st).disk target r (λ a other.
        (install_elsewhere log log.n 0 st a
          (λ t lo hi e. other t (omega arith) (homes t (omega arith) ∙ e))).0)

  installed :
      log.n ≤ st.power → (a : ℕ) → IsAway log.start cap a → (install_trans log st).disk a ≡ target a
  unfolding install_trans
  installed pow a o =
      let (fit, away, apart) = plan in
      elim (home-cases log.n log.block a) [
        | inl (t, h, e) ↦
            subst (λ u. (install_trans log st).disk u ≡ target u) e
              (install_home log log.n 0 cap st (omega arith) pow (λ u h'. away u (omega arith))
                  (λ u w hu hw. apart u w (omega arith) (omega arith)) t (omega arith) (omega arith)
                ∙ reads t h
                ∙ r.logged t (omega arith)
                ∙ ap target (homes t h))
        | inr other ↦
            (install_elsewhere log log.n 0 st a (λ t lo hi e. other t (omega arith) e)).0
            ∙ r.others a o (λ t h e. other t (omega arith) (sym (homes t (omega arith)) ∙ e))
      ]

  power-install_trans : (install_trans log st).power ≡ st.power - log.n
  unfolding install_trans
  power-install_trans = power-install log log.n 0 st

  erase-IsClean : log.n < st.power → IsClean log.start cap (install_and_erase log st).disk target
  erase-IsClean pow =
      let left = power-install_trans in
      let empty : Log = record log { n = 0 } in
      let st' = install_trans log st in
      (
        ap (λ x. x 0) ((disk-write_head empty st').0 (omega arith))
            ∙ (write_head_words empty st').0,
        λ a o. (write_head_elsewhere empty st' a (omega arith)).0 ∙ installed (omega arith) a o,
      )

  pub erase : Recoverable log.start cap (install_and_erase log st).disk target
  erase =
      let left = power-install_trans in
      elim (ℕ_discrete (install_trans log st).power 0) [
        | yes none_ ↦
            subst (λ d. Recoverable log.start cap d target)
              (sym ((disk-write_head (record log { n = 0 }) (install_trans log st)).1 none_))
              install_trans-Recoverable
        | no some_ ↦
            IsClean-Recoverable log.start cap (install_and_erase log st).disk target
              (erase-IsClean (omega arith))
      ]

-- The machine when it has just been started.
abbrev pub started : ℕ → (ℕ → Block) → Store
started power disk = record { cache = λ _. none; dirty = λ _. false; disk = disk; power = power }

-- The disk behind `initlog`, with power for `power` writes.
abbrev pub reboot : ℕ → ℕ → ℕ → (ℕ → Block) → (ℕ → Block)
reboot start nlog power disk = (initlog start nlog (started power disk)).1.disk

-- What `read_head` reads.
read_head_lem :
    (log : Log) (st : Store)
    → ((read_head log st).n ≡ bread st log.start 0)
      × ((t : ℕ)
          → t < (read_head log st).n
          → (read_head log st).block t ≡ bread st log.start (t + 1))
unfolding read_head
read_head_lem log st = (
  refl,
  λ t h. read_words_lem (bread st log.start 0) 0 (bread st log.start) log.block t ∙ ground arith,
)

-- From a disk whose header names different blocks outside of the log, with their new data in the
-- log, a start of the machine leaves such a disk for the same data, wherever the power fails; with
-- power for more writes than the log has blocks it empties the log and installs the data.
pub reboot_lem :
    (start cap nlog power : ℕ) (disk target : ℕ → Block)
    → Recoverable start cap disk target
    → Recoverable start cap (reboot start nlog power disk) target
      × (cap < power → IsClean start cap (reboot start nlog power disk) target)
unfolding initlog recover_from_log
reboot_lem start cap nlog power disk target r =
    let fresh : Log = record {
      start = start;
      size = nlog;
      outstanding = 0;
      committing = false;
      n = 0;
      block = λ _. 0;
    } in
    let st = started power disk in
    let (count, words) = read_head_lem fresh st in
    let (fit, away, apart) = r.plan in
    (
      erase cap (read_head fresh st) st target r (sym count) (λ t h. sym (words t h)) (λ t h. refl),
      λ pow.
          erase-IsClean cap (read_head fresh st) st target r (sym count) (λ t h. sym (words t h))
            (λ t h. refl) (omega arith),
    )

-- The disk behind starts of the machine with power for so many writes each.
abbrev pub reboots : ℕ → ℕ → List ℕ → (ℕ → Block) → (ℕ → Block)
reboots start nlog [] disk = disk
reboots start nlog (power ∷ powers) disk = reboots start nlog powers (reboot start nlog power disk)

pub reboots-Recoverable :
    (start cap nlog : ℕ) (powers : List ℕ) (disk target : ℕ → Block)
    → Recoverable start cap disk target
    → Recoverable start cap (reboots start nlog powers disk) target
reboots-Recoverable start cap nlog [] disk target r = r
reboots-Recoverable start cap nlog (power ∷ powers) disk target r =
    reboots-Recoverable start cap nlog powers (reboot start nlog power disk) target
      (reboot_lem start cap nlog power disk target r).0
