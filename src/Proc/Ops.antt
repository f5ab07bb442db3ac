-- ===== src/Proc/Ops.antt =====
-- The steps that processes and schedulers take on the process table, in any order. The system
-- calls are those of `Family` and `Sleep`; of `exit` it is the part under `ptable.lock`. `fork` is one
-- step, though it holds no lock from `allocproc` to its end.
pub mod Alike
pub mod Pids
pub mod StaleKill
pub mod States
pub mod Moves
use cs461_mlfq_scheduler.Proc.{Proc, Kernel, Chan, running, is_state}
use cs461_mlfq_scheduler.Proc.Alloc.{Symbols}
use cs461_mlfq_scheduler.Proc.Sleep.{wakeup, kill, sleep_enter, sleep_leave, yield_enter}
use cs461_mlfq_scheduler.Proc.Services.{Services}
use cs461_mlfq_scheduler.Proc.Family.{fork, exit_locked, wait_round}
use cs461_mlfq_scheduler.Proc.Scheduler.{Sched, step}
use cs461_mlfq_scheduler.Base.{get_elem?, Result, ◌>>=◌, ok, ℕ, ◌≡◌, sym, true, some, List}

pub data Op : Type 0 where
  forks exits waits leaves yields : ℕ → Op
  sleeps : ℕ → Chan → Op
  wakes : Chan → Op
  kills : ℕ → Op
  schedules : Sched → Op

abbrev pub with_procs : {W : Type 0} → Kernel W → List Proc → Kernel W
with_procs k ps = record k { procs = ps }

-- The process that makes a system call is RUNNING.
abbrev pub Runs : ℕ → List Proc → Type 0
Runs cur ps = (p : Proc) × (get_elem? ps cur ≡ some p) × (is_state p.state running ≡ true)

abbrev pub Acts : Op → List Proc → Type 0
Acts (forks cur) ps = Runs cur ps
Acts (exits cur) ps = Runs cur ps
Acts (waits cur) ps = Runs cur ps
Acts (leaves cur) ps = Runs cur ps
Acts (yields cur) ps = Runs cur ps
Acts (sleeps cur chan) ps = Runs cur ps
Acts (wakes chan) ps = Unit
Acts (kills pid) ps = Unit
Acts (schedules s) ps = Unit

module _ {W : Type 0} (sym : Symbols) (services : Services W) (kend : ℕ) where
  unfoldable pub perform : Op → Kernel W → Result (Kernel W)
  perform (forks cur) k = fork sym services kend cur k >>= λ r. ok r.1
  perform (exits cur) k = ok (with_procs k (exit_locked cur k.initproc k.procs))
  perform (waits cur) k = wait_round sym services kend cur k >>= λ r. ok r.1
  perform (leaves cur) k = ok (with_procs k (sleep_leave cur k.procs))
  perform (yields cur) k = ok (with_procs k (yield_enter cur k.procs))
  perform (sleeps cur chan) k =
      sleep_enter (some cur) chan true k.procs >>= λ ps. ok (with_procs k ps)
  perform (wakes chan) k = ok (with_procs k (wakeup chan k.procs))
  perform (kills pid) k = ok (with_procs k (kill pid k.procs).1)
  perform (schedules s) k = ok (with_procs k (step s k.procs).1)
