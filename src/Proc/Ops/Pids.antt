-- ===== src/Proc/Ops/Pids.antt =====
-- No sequence of steps gives two processes one pid.
use cs461_mlfq_scheduler.Proc.{Proc, Kernel, modify}
use cs461_mlfq_scheduler.Proc.Table.{get-modify, Each, Each-modify}
use cs461_mlfq_scheduler.Proc.Pids.{
  HasPids, Kept, Kept-refl, Alike, Alike-refl, Kept-Alike, HasPids-Kept,
}
use cs461_mlfq_scheduler.Proc.Alloc.{Symbols, allocproc, claim, set_stack}
use cs461_mlfq_scheduler.Proc.Alloc.Slot.{full, took, allocproc_lem}
use cs461_mlfq_scheduler.Proc.Sleep.{sleep_enter, sleep_leave, yield_enter}
use cs461_mlfq_scheduler.Proc.Services.{Services}
use cs461_mlfq_scheduler.Proc.Family.{fork, wait_round, become_child, drop_stack, reap}
use native.Mathlib.Nat.{le_refl}
use cs461_mlfq_scheduler.Proc.Family.{Waited}
use cs461_mlfq_scheduler.Proc.Family.Fork.{Filled, failed, born, fork_lem}
use cs461_mlfq_scheduler.Proc.Family.Wait.{wait_round_cases}
use cs461_mlfq_scheduler.Proc.Pids.{HasPids-claim}
use cs461_mlfq_scheduler.Proc.Ops.{
  Acts, Op, forks, exits, waits, leaves, yields, sleeps, wakes, kills, schedules, perform,
}
use cs461_mlfq_scheduler.Proc.Ops.Alike.{
  Alike-wakeup, Alike-modify, Alike-kill, Acting, Alike-exit_locked, Alike-step, Runs-Acting,
}
use cs461_mlfq_scheduler.Base.{
  get_elem?, >>=-eq-ok, u32, ok, ℕ, suc, ◌+◌, ◌^◌, ◌≤◌, ◌<◌, ◌≡◌, refl, inl, inr, Option, some,
  List, arith,
}

module _ {W : Type 0} (symbols : Symbols) (services : Services W) (kend : ℕ) where
  -- `allocproc` keeps the pids different, and what it returns is a slot in use.
  HasPids-allocproc :
      (k k' : Kernel W) (r : Option ℕ)
      → 0 < k.nextpid
      → k.nextpid + 1 < 2 ^ 32
      → HasPids k.nextpid k.procs
      → allocproc symbols k ≡ ok (r, k')
      → HasPids k'.nextpid k'.procs
        × (k.nextpid ≤ k'.nextpid)
        × (k'.nextpid ≤ k.nextpid + 1)
        × ((i : ℕ) → r ≡ some i → Acting i k'.procs)
  HasPids-allocproc k k' r pos small h e = elim (allocproc_lem symbols k k' r e) [
    | full none_ same _ ↦ rw same (h, le_refl k.nextpid, omega arith, λ i some_. absurd (cc))
    | took i page mem some_ found got same ↦
        let claimed = modify k.procs i (claim k.nextpid) in
        let next : u32 (k.nextpid + 1) ≡ k.nextpid + 1 = omega arith in
        rw same (
          rw next (
              HasPids-Kept (k.nextpid + 1) (k.nextpid + 1) claimed _ (omega arith)
                (Each-modify Kept claimed i (set_stack symbols mem.mem page) Kept-refl
                  (λ p at v. (v, refl)))
                (HasPids-claim k.nextpid i k.procs pos h)),
          omega arith,
          omega arith,
          λ j eq p at. ground (
            arith,
            get-modify claimed i j (set_stack symbols mem.mem page),
            get-modify k.procs i j (claim k.nextpid),
          ),
        )
  ]

  HasPids-Filled :
      (cur i : ℕ) (parent : Proc) (k : Kernel W) (r : Option ℕ × Kernel W)
      → Acting i k.procs
      → HasPids k.nextpid k.procs
      → Filled cur i parent k r
      → HasPids r.1.nextpid r.1.procs × (r.1.nextpid ≡ k.nextpid)
  HasPids-Filled cur i parent k r live h (failed _ ps n) = (
    rw (ps, n)
        (HasPids-Kept k.nextpid k.nextpid k.procs _ (le_refl k.nextpid)
          (Each-modify Kept k.procs i drop_stack Kept-refl (λ p at v. cc)) h),
    n,
  )
  HasPids-Filled cur i parent k r live h (born np pgdir here _ _ ps n) = (
    rw (ps, n)
        (HasPids-Kept k.nextpid k.nextpid k.procs _ (le_refl k.nextpid)
          (Each-modify Kept k.procs i (become_child cur pgdir parent) Kept-refl
            (λ p at v. (live p at, refl)))
          h),
    n,
  )

  HasPids-fork :
      (cur : ℕ) (k : Kernel W) (r : Option ℕ × Kernel W)
      → 0 < k.nextpid
      → k.nextpid + 1 < 2 ^ 32
      → HasPids k.nextpid k.procs
      → fork symbols services kend cur k ≡ ok r
      → HasPids r.1.nextpid r.1.procs × (k.nextpid ≤ r.1.nextpid) × (r.1.nextpid ≤ k.nextpid + 1)
  HasPids-fork cur k r pos small h e =
      let (a, k1, made, rest) = fork_lem symbols services kend cur k r e in
      let (h1, lo, hi, acting) = HasPids-allocproc k k1 a pos small h made in
      elim rest [
        | inl (no_slot, same) ↦ rw same (h1, lo, hi)
        | inr (i, parent, slot, here, filled) ↦
            let (h2, n) = HasPids-Filled cur i parent k1 r (acting i slot) h1 filled in
            (h2, omega arith, omega arith)
      ]

  HasPids-wait :
      (cur : ℕ) (k : Kernel W) (self : Proc) (r : Waited × Kernel W)
      → get_elem? k.procs cur ≡ some self
      → HasPids k.nextpid k.procs
      → wait_round symbols services kend cur k ≡ ok r
      → HasPids r.1.nextpid r.1.procs × (r.1.nextpid ≡ k.nextpid)
  HasPids-wait cur k self r me h e =
      elim (wait_round_cases symbols services kend cur k self r me e) [
        | inl (i, p, mem, here, child, dead, freed, freed', same) ↦ rw same (
          HasPids-Kept k.nextpid k.nextpid k.procs _ (le_refl k.nextpid)
              (Each-modify Kept k.procs i reap Kept-refl (λ q at v. cc)) h,
          refl,
        )
        | inr (inl (_, same, _)) ↦ rw same (h, refl)
        | inr (inr (_, same, _, _)) ↦ rw same (h, refl)
      ]

  HasPids-Alike : (n : ℕ) (ps qs : List Proc) → Each Alike ps qs → HasPids n ps → HasPids n qs
  HasPids-Alike n ps qs a h = HasPids-Kept n n ps qs (le_refl n) (Kept-Alike ps qs a) h

  -- A step that only changes the table.
  table :
      (k k' : Kernel W) (qs : List Proc)
      → ok (record k { procs = qs }) ≡ ok k'
      → HasPids k.nextpid k.procs
      → Each Alike k.procs qs
      → HasPids k'.nextpid k'.procs × (k.nextpid ≤ k'.nextpid) × (k'.nextpid ≤ k.nextpid + 1)
  table k k' qs e h a =
      let eq : k' ≡ record k { procs = qs } = cc in
      rw eq (HasPids-Alike k.nextpid k.procs qs a h, le_refl k.nextpid, omega arith)

  HasPids-perform :
      (o : Op) (k k' : Kernel W)
      → 0 < k.nextpid
      → k.nextpid + 1 < 2 ^ 32
      → HasPids k.nextpid k.procs
      → Acts o k.procs
      → perform symbols services kend o k ≡ ok k'
      → HasPids k'.nextpid k'.procs × (k.nextpid ≤ k'.nextpid) × (k'.nextpid ≤ k.nextpid + 1)
  unfolding perform sleep_enter sleep_leave yield_enter
  HasPids-perform (forks cur) k k' pos small h a e =
      let (r, forked, same) = >>=-eq-ok (fork symbols services kend cur k) _ e in
      let eq : k' ≡ r.1 = cc in rw eq (HasPids-fork cur k r pos small h forked)
  HasPids-perform (waits cur) k k' pos small h (self, me, runs) e =
      let (r, waited, same) = >>=-eq-ok (wait_round symbols services kend cur k) _ e in
      let eq : k' ≡ r.1 = cc in
      let (h', n) = HasPids-wait cur k self r me h waited in rw eq (h', omega arith, omega arith)
  HasPids-perform (exits cur) k k' pos small h a e =
      table k k' _ e h (Alike-exit_locked cur k.initproc k.procs (Runs-Acting cur k.procs a))
  HasPids-perform (leaves cur) k k' pos small h a e =
      table k k' _ e h (Alike-modify k.procs cur _ (λ p at. Alike-refl p))
  HasPids-perform (yields cur) k k' pos small h a e = table k k' _ e h (
      Alike-modify k.procs cur _
        (λ p at. let live = Runs-Acting cur k.procs a p at in ground arith))
  HasPids-perform (sleeps cur chan) k k' pos small h a e = table k k' _ e h (
      Alike-modify k.procs cur _
        (λ p at. let live = Runs-Acting cur k.procs a p at in ground arith))
  HasPids-perform (wakes chan) k k' pos small h a e = table k k' _ e h (Alike-wakeup chan k.procs)
  HasPids-perform (kills pid) k k' pos small h a e = table k k' _ e h (Alike-kill pid k.procs)
  HasPids-perform (schedules s) k k' pos small h a e = table k k' _ e h (Alike-step s k.procs)

  -- The machine's steps, each by a process that runs, with no panic on the way.
  pub data Reaches (k : Kernel W) : ℕ → Kernel W → Type 0 where
    start : Reaches k 0 k
    next :
        {n : ℕ} {k1 k2 : Kernel W} (o : Op)
        → Reaches k n k1
        → Acts o k1.procs
        → perform symbols services kend o k1 ≡ ok k2
        → Reaches k (suc n) k2

  -- From a table with different pids, `n` steps of any processes, forks, exits, waits, sleeps,
  -- kills and schedulings in any order, lead to a table where no two processes have the same pid,
  -- as long as `nextpid` stays in range.
  pub Reaches-HasPids :
      {k : Kernel W} {n : ℕ} {k' : Kernel W}
      → 0 < k.nextpid
      → k.nextpid + n < 2 ^ 32
      → HasPids k.nextpid k.procs
      → Reaches k n k'
      → HasPids k'.nextpid k'.procs × (k.nextpid ≤ k'.nextpid) × (k'.nextpid ≤ k.nextpid + n)
  Reaches-HasPids pos small h start = (h, omega arith, omega arith)
  Reaches-HasPids {k} pos small h (next {n = m} {k1 = k1} {k2 = k2} o r a e) =
      let (h1, lo, hi) = Reaches-HasPids {k = k} pos (omega arith) h r in
      let (h2, lo', hi') = HasPids-perform o k1 k2 (omega arith) (omega arith) h1 a e in
      (h2, omega arith, omega arith)
