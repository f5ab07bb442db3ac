-- ===== src/Proc/Ops/StaleKill.antt =====
-- A `kill` that hits a slot with no process.
use cs461_mlfq_scheduler.Kalloc.Freelist.{IsFreelist}
use cs461_mlfq_scheduler.Proc.{Proc, Kernel, unused, is_state, modify}
use mathlib.Core.Path.{subst}
use cs461_mlfq_scheduler.Proc.Table.{get-modify}
use cs461_mlfq_scheduler.Proc.Pids.{IsLive}
use cs461_mlfq_scheduler.Proc.Alloc.{Symbols, allocproc}
use cs461_mlfq_scheduler.Proc.Alloc.Slot.{allocproc_takes_first}
use cs461_mlfq_scheduler.Proc.Sleep.{kill, kill_one}
use cs461_mlfq_scheduler.Proc.Sleep.Kill.{IsFirst, kill_scan_first}
use cs461_mlfq_scheduler.Base.{
  get_elem?, ok, ℕ, ◌<◌, ◌≡◌, sym, ◌∙◌, ◌≢◌, true, some, List, ◌∷◌, arith,
}

-- `kill` does not look at the state of the slot whose pid it compares. If the first slot with the
-- pid is UNUSED, as a slot with pid 0 is, `kill` answers 0 and marks it; `allocproc` does not clear
-- the mark, so the next process made in that slot is killed from its birth.
pub kill_unused_slot :
    {W : Type 0} (symbols : Symbols) (kend i page pid : ℕ) (pages : List ℕ) (k : Kernel W)
    (p : Proc)
    → IsFirst pid k.procs i p
    → is_state p.state unused ≡ true
    → ((j : ℕ) (q : Proc) → j < i → get_elem? k.procs j ≡ some q → IsLive q)
    → IsFreelist kend k.kmem (page ∷ pages)
    → ((kill pid k.procs).0 ≡ true)
      × ((k' : Kernel W) × (q : Proc) × (allocproc symbols
              (record k { procs = (kill pid k.procs).1 })
            ≡ ok (some i, k'))
          × (get_elem? k'.procs i ≡ some q)
          × (q.killed ≡ true))
unfolding kill
kill_unused_slot symbols kend i page pid pages k p first free below pool =
    let scan = kill_scan_first pid k.procs i p first in
    let table : (kill pid k.procs).1 ≡ modify k.procs i kill_one = ground (arith, scan) in
    let marked = modify k.procs i kill_one in
    let r =
      allocproc_takes_first symbols kend i page pages (record k { procs = marked }) (kill_one p)
        (let here = first.0 in ground (arith, get-modify k.procs i i kill_one)) (ground arith)
        (λ j q lt at.
          below j q lt
            (let ne : i ≢ j = omega arith in ground (arith, get-modify k.procs i j kill_one)))
        pool in
    (
      ground (arith, scan),
      (
        r.0,
        r.1,
        subst (λ ps. allocproc symbols (record k { procs = ps }) ≡ ok (some i, r.0)) (sym table)
            r.2,
        r.3,
        r.7 ∙ ground arith,
      ),
    )
