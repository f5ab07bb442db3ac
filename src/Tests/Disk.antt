-- ===== src/Tests/Disk.antt =====
-- Tests of log.c.
use cs461_mlfq_scheduler.Log.{Block, Store, Log, bread, commit, log_write, begin_round}
use cs461_mlfq_scheduler.Log.Loops.{IsAway}
use cs461_mlfq_scheduler.Log.Crash.{IsPlan, Recoverable, IsClean}
use cs461_mlfq_scheduler.Log.Recovery.{reboot, reboots, reboot_lem}
use cs461_mlfq_scheduler.Log.Commit.{commit_atomic}
use cs461_mlfq_scheduler.Log.Space.{recorded, IsRecorded, log_write_lem}
use cs461_mlfq_scheduler.Log.Reserve.{Reaches, idle, admit, admitted_write}
use cs461_mlfq_scheduler.Base.{
  leb, if◌then◌else◌, update, ok, ℕ, ◌<◌, ◌≡◌, refl, ◌≢◌, true, false, none, some, [], ◌∷◌, arith,
}

-- A log at block 2 with one entry, for block 40, whose new data are 7s, and power for the commit's
-- first two writes.
abbrev one_entry : Log
one_entry = record {
  start = 2;
  size = 33;
  outstanding = 0;
  committing = true;
  n = 1;
  block = λ _. 40;
}

abbrev zeros : ℕ → Block
zeros b = λ _. 0

abbrev failing : Store
failing = record {
  cache = update (λ _. none) 40 (some (λ _. 7));
  dirty = λ _. false;
  disk = zeros;
  power = 2;
}

one_entry-IsPlan : IsPlan 2 32 1 (λ _. 40)
one_entry-IsPlan = (omega arith, λ t h. omega arith, λ s t hs ht e. omega arith)

failing_settled : (a : ℕ) → IsAway 2 32 a → ((t : ℕ) → t < 1 → 40 ≢ a) → bread failing a ≡ zeros a
failing_settled a o other = let ne = other 0 (omega arith) in ground arith

commit_atomic_example :
    IsClean 2 32
      (reboot 2 33 33 (reboots 2 33 (1 ∷ 0 ∷ []) (commit one_entry failing).1.disk))
      (if leb 2 1 then zeros else bread failing)
commit_atomic_example =
    commit_atomic 32 one_entry failing one_entry-IsPlan refl failing_settled 33 (1 ∷ 0 ∷ []) 33
      (omega arith)

-- A disk whose log holds 7s for block 40.
abbrev crashed : ℕ → Block
crashed = update (update zeros 2 (update (update (λ _. 0) 0 1) 1 40)) 3 (λ _. 7)

abbrev sevens : ℕ → Block
sevens = update crashed 40 (λ _. 7)

crashed-Recoverable : Recoverable 2 32 crashed sevens
crashed-Recoverable = record {
  plan = (omega arith, λ t h. ground arith, λ s t hs ht e. omega arith);
  logged = λ t h. ground arith;
  others = λ a o other. let ne = other 0 (omega arith) in ground arith;
}

reboot_lem_example :
    Recoverable 2 32 (reboot 2 33 1 crashed) sevens
    × (32 < 1 → IsClean 2 32 (reboot 2 33 1 crashed) sevens)
reboot_lem_example = reboot_lem 2 32 33 1 crashed sevens crashed-Recoverable

abbrev busy : Log
busy = record one_entry { outstanding = 1; committing = false }

log_write_lem_example :
    (log_write 50 busy failing
      ≡ ok (recorded 50 busy, record failing { dirty = update (λ _. false) 50 true }))
    × IsPlan 2 32 (recorded 50 busy).n (recorded 50 busy).block
    × IsRecorded 50 busy (recorded 50 busy)
log_write_lem_example =
    log_write_lem 50 busy failing one_entry-IsPlan (omega arith) (omega arith) (omega arith)
      (omega arith)

abbrev empty : Log
empty = record { start = 2; size = 33; outstanding = 0; committing = false; n = 0; block = λ _. 0 }

abbrev admitted : Log
admitted = record empty { outstanding = 1 }

begins : begin_round empty ≡ (true, admitted)
unfolding begin_round
begins = refl

admitted-Reaches : Reaches admitted (10 ∷ [])
admitted-Reaches = admit (idle {log = empty} refl refl refl) begins

admitted_write_example :
    log_write 50 admitted failing
    ≡ ok (recorded 50 admitted, record failing { dirty = update (λ _. false) 50 true })
admitted_write_example = admitted_write admitted [] [] 9 50 failing admitted-Reaches (omega arith)
