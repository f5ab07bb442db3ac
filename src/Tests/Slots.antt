-- ===== src/Tests/Slots.antt =====
-- Tests of proc.c: the life of a slot, and the machine's steps.
use cs461_mlfq_scheduler.Proc.{unused, runnable, running, Proc, Kernel}
use cs461_mlfq_scheduler.Proc.Pids.{IsLive, HasPids}
use cs461_mlfq_scheduler.Proc.Alloc.{allocproc}
use cs461_mlfq_scheduler.Proc.Sleep.{kill, yield_enter}
use cs461_mlfq_scheduler.Proc.Family.{Waited, no_child, must_sleep, wait_scan, wait_round}
use cs461_mlfq_scheduler.Proc.Family.Wait.{Collected, NoneExited, Tells, wait_round_lem}
use cs461_mlfq_scheduler.Proc.Ops.{yields, perform}
use cs461_mlfq_scheduler.Proc.Ops.Pids.{Reaches, start, next, Reaches-HasPids}
use cs461_mlfq_scheduler.Proc.Ops.Moves.{AllMove}
use cs461_mlfq_scheduler.Proc.Ops.States.{perform-Moves}
use cs461_mlfq_scheduler.Proc.Ops.StaleKill.{kill_unused_slot}
use cs461_mlfq_scheduler.Tests.Data.{
  process, kend, page, one_page-IsFreelist, kernel, symbols, services,
}
use cs461_mlfq_scheduler.Base.{
  get_elem?, ok, ℕ, zero, suc, ◌+◌, ◌≤◌, ◌<◌, ◌≡◌, refl, sym, ◌∙◌, ◌≢◌, ◌⊎◌, Bool, true, false,
  some, List, [], ◌∷◌, arith,
}

-- Init runs in slot 0; slot 1 is UNUSED.
abbrev lone : List Proc
lone = process running 1 ∷ process unused 0 ∷ []

abbrev at_work : Kernel (Unit {0})
at_work = kernel lone 2

first_slot_taken : (j : ℕ) (q : Proc) → j < 1 → get_elem? lone j ≡ some q → IsLive q
first_slot_taken zero q h here = ground arith
first_slot_taken (suc j) q h here = absurd (omega arith)

above_zero : (j : ℕ) (q : Proc) → j < 1 → get_elem? lone j ≡ some q → q.pid ≢ 0
above_zero zero q h here e = ground arith
above_zero (suc j) q h here e = absurd (omega arith)

kill_unused_slot_example :
    ((kill 0 lone).0 ≡ true)
    × ((k' : Kernel (Unit {0})) × (q : Proc) × (allocproc symbols
            (record at_work { procs = (kill 0 lone).1 })
          ≡ ok (some 1, k'))
        × (get_elem? k'.procs 1 ≡ some q)
        × (q.killed ≡ true))
kill_unused_slot_example =
    kill_unused_slot symbols kend 1 page 0 [] at_work (process unused 0) (refl, refl, above_zero)
      refl first_slot_taken one_page-IsFreelist

abbrev yielded_work : Kernel (Unit {0})
yielded_work = record at_work { procs = process runnable 1 ∷ process unused 0 ∷ [] }

yields_it : perform symbols services kend (yields 0) at_work ≡ ok yielded_work
unfolding perform yield_enter
yields_it = refl

perform-Moves_example : AllMove (yields 0) lone yielded_work.procs
perform-Moves_example =
    perform-Moves symbols services kend (yields 0) at_work yielded_work
      (process running 1, refl, refl) yields_it

lone_bounds : (i : ℕ) (p : Proc) → get_elem? lone i ≡ some p → IsLive p → (0 < p.pid) × (p.pid < 2)
lone_bounds zero p here live = ground arith
lone_bounds (suc zero) p here live = ground arith
lone_bounds (suc (suc i)) p here live = absurd (cc)

only_one : (i : ℕ) (p : Proc) → get_elem? lone i ≡ some p → IsLive p → i ≡ 0
only_one zero p here live = refl
only_one (suc zero) p here live = absurd (ground arith)
only_one (suc (suc i)) p here live = absurd (cc)

lone-HasPids : HasPids 2 lone
lone-HasPids = record {
  bounds = lone_bounds;
  distinct = λ i j p q at at' live live' e. only_one i p at live ∙ sym (only_one j q at' live');
}

one_yield : Reaches symbols services kend at_work 1 yielded_work
one_yield = next (yields 0) start (process running 1, refl, refl) yields_it

Reaches-HasPids_example : HasPids 2 yielded_work.procs × (2 ≤ 2) × (2 ≤ 2 + 1)
Reaches-HasPids_example =
    Reaches-HasPids symbols services kend (omega arith) (omega arith) lone-HasPids one_yield

abbrev killed : Bool
killed = false

abbrev nobody : Waited × Kernel (Unit {0})
nobody = (no_child, at_work)

waits : wait_round symbols services kend 0 at_work ≡ ok nobody
unfolding wait_round wait_scan
waits = refl

wait_round_lem_example :
    Collected symbols services kend 0 at_work nobody
    ⊎ (NoneExited 0 lone × (nobody ≡ (no_child, at_work)) × (Tells 0 lone false ⊎ (killed ≡ true)))
    ⊎ (NoneExited 0 lone × (nobody ≡ (must_sleep, at_work)) × Tells 0 lone true × (killed ≡ false))
wait_round_lem_example =
    wait_round_lem symbols services kend 0 at_work (process running 1) (no_child, at_work) refl
      waits
