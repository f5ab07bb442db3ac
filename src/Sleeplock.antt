-- ===== src/Sleeplock.antt =====
-- sleeplock.c: locks whose waiters sleep. What runs under `lk->lk` is one step.
use cs461_mlfq_scheduler.Proc.{Chan, Proc}
use cs461_mlfq_scheduler.Proc.Sleep.{wakeup}
use cs461_mlfq_scheduler.Base.{if◌then◌else◌, ℕ, Bool, true, false, Option, none, some, List}

-- `struct sleeplock` without its spin lock and name.
pub record Sleeplock : Type 0 where
  pub locked : Bool
  pub pid : ℕ

unfoldable pub initsleeplock : Sleeplock
initsleeplock = record { locked = false; pid = 0 }

-- One round of `acquiresleep` by the process `pid`; `none` means that it sleeps and tries again.
unfoldable pub acquiresleep_round : ℕ → Sleeplock → Option Sleeplock
acquiresleep_round pid lk = if lk.locked then none else some (record { locked = true; pid = pid })

-- `releasesleep`, of the lock that is slept on as `chan`.
unfoldable pub releasesleep : Chan → Sleeplock → List Proc → Sleeplock × List Proc
releasesleep chan lk procs = (record { locked = false; pid = 0 }, wakeup chan procs)

abbrev pub holdingsleep : Sleeplock → Bool
holdingsleep lk = lk.locked
