-- ===== src/Spinlock.antt =====
-- spinlock.c: spin locks, the nesting of `cli`, and CPUs that contend for one lock.
pub mod Nesting
pub mod Exclusion
use cs461_mlfq_scheduler.Base.{
  ◌==◌, if◌then◌else◌, Result, ◌>>=◌, update, ok, panic, ℕ, ◌+◌, ◌-◌, Bool, true, false, ◌&&◌,
  Option, none, some, List, [], ◌∷◌,
}

-- The part of `struct cpu` that locks use; `iflag` is FL_IF of the CPU's flags register.
pub record Cpu : Type 0 where
  pub ncli : ℕ
  pub intena : Bool
  pub iflag : Bool

-- `struct spinlock` without its debugging name and call stack; `none` is a null `cpu`.
pub record Lock : Type 0 where
  pub locked : Bool
  pub owner : Option ℕ

unfoldable pub initlock : Lock
initlock = record { locked = false; owner = none }

abbrev pub is_cpu : ℕ → Option ℕ → Bool
is_cpu me none = false
is_cpu me (some c) = c == me

unfoldable pub holding : ℕ → Lock → Bool
holding me lk = lk.locked && is_cpu me lk.owner

unfoldable pub pushcli : Cpu → Cpu
pushcli c = record c {
  iflag = false;
  intena = if c.ncli == 0 then c.iflag else c.intena;
  ncli = c.ncli + 1;
}

-- `--cpu->ncli < 0` is a test for 0 before the subtraction.
unfoldable pub popcli : Cpu → Result Cpu
popcli c =
    if c.iflag
    then panic "popcli - interruptible"
    else if c.ncli == 0
    then panic "popcli"
    else ok (record c {
      ncli = c.ncli - 1;
      iflag = if c.ncli - 1 == 0 && c.intena then true else c.iflag;
    })

-- Where a CPU stands in `acquire` and `release`: outside of both, spinning on the `xchg`, behind
-- it with `lk->cpu` still to be set, holding the lock, and with `lk->cpu` cleared.
pub data Pc : Type 0 where
  outside spinning taken inside clearing : Pc

pub record Machine : Type 0 where
  pub lock : Lock
  pub cpu : ℕ → Cpu
  pub pc : ℕ → Pc

-- `acquire` up to its loop: `pushcli`, and the test that the lock is not held already.
acquire_enter : ℕ → Machine → Result Machine
acquire_enter me m =
    if holding me m.lock
    then panic "acquire"
    else ok (record m { cpu = update m.cpu me (pushcli (m.cpu me)); pc = update m.pc me spinning })

-- One `xchg(&lk->locked, 1)`: it fails as long as the old value is 1.
acquire_xchg : ℕ → Machine → Result Machine
acquire_xchg me m =
    if m.lock.locked
    then ok m
    else ok (record m {
      lock = record { locked = true; owner = m.lock.owner };
      pc = update m.pc me taken;
    })

-- `lk->cpu = cpu`
acquire_record : ℕ → Machine → Result Machine
acquire_record me m = ok (record m {
  lock = record { locked = m.lock.locked; owner = some me };
  pc = update m.pc me inside;
})

-- `release` up to `lk->cpu = 0`
release_clear : ℕ → Machine → Result Machine
release_clear me m =
    if holding me m.lock
    then ok (record m {
      lock = record { locked = m.lock.locked; owner = none };
      pc = update m.pc me clearing;
    })
    else panic "release"

-- `movl $0, lk->locked`, and `popcli`
release_drop : ℕ → Machine → Result Machine
release_drop me m = do
  c ← popcli (m.cpu me)
  ok (record m {
    lock = record { locked = false; owner = m.lock.owner };
    cpu = update m.cpu me c;
    pc = update m.pc me outside;
  })

step_at : Pc → ℕ → Machine → Result Machine
step_at outside = acquire_enter
step_at spinning = acquire_xchg
step_at taken = acquire_record
step_at inside = release_clear
step_at clearing = release_drop

-- The next atomic step of CPU `me`.
unfoldable pub step : ℕ → Machine → Result Machine
unfolding step_at acquire_enter acquire_xchg acquire_record release_clear release_drop holding
    pushcli popcli
step me m = step_at (m.pc me) me m

-- The CPUs move in any order.
unfoldable pub run : List ℕ → Machine → Result Machine
run [] m = ok m
run (me ∷ rest) m = step me m >>= run rest

unfoldable pub boot : Machine
unfolding initlock
boot = record {
  lock = initlock;
  cpu = λ _. record { ncli = 0; intena = false; iflag = true };
  pc = λ _. outside;
}
