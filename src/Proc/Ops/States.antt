-- ===== src/Proc/Ops/States.antt =====
-- Which moves of the state diagram the steps make: those that belong to them, and no others.
use mathlib.Core.Path.{subst}
use native.Mathlib.Decide.{ℕ_discrete}
use cs461_mlfq_scheduler.Proc.{
  Proc, ProcState, Kernel, unused, sleeping, runnable, running, zombie, modify,
}
use cs461_mlfq_scheduler.Proc.Table.{modify_apart}
use cs461_mlfq_scheduler.Proc.Alloc.{Symbols, allocproc, claim, set_stack}
use cs461_mlfq_scheduler.Proc.Alloc.Slot.{full, took, allocproc_lem, find_unused-some}
use cs461_mlfq_scheduler.Proc.Sleep.{go_to_sleep, sleep_enter, sleep_leave, yield_enter}
use cs461_mlfq_scheduler.Proc.Services.{Services}
use cs461_mlfq_scheduler.Proc.Family.{Waited, fork, wait_round, become_child, drop_stack, reap}
use cs461_mlfq_scheduler.Proc.Family.Fork.{failed, born, fork_lem}
use cs461_mlfq_scheduler.Proc.Family.Exit.Reparent.{Stays-wakeup}
use cs461_mlfq_scheduler.Proc.Family.Wait.{wait_round_cases}
use cs461_mlfq_scheduler.Proc.Ops.{
  Op, forks, exits, waits, leaves, yields, sleeps, wakes, kills, schedules, perform, Acts,
}
use cs461_mlfq_scheduler.Base.{
  ap, ◌∙◌, sym, ◌≢◌, ◌⊎◌, get_elem?, >>=-eq-ok, ok, ℕ, ◌≡◌, refl, inl, inr, Option, some, List,
  arith,
}
use cs461_mlfq_scheduler.Proc.Ops.Moves.{
  Moves, stays, started, collected, yielded, slept, woken, AllMove, AllMove-refl, edge,
  AllMove-modify, AllMove-Stays, is_state_eq, Runs-state, AllMove-kill, AllMove-step, AllMove-exit,
}

module _ {W : Type 0} (symbols : Symbols) (services : Services W) (kend : ℕ) where
  -- `allocproc` takes one slot, which was UNUSED, or none; the other states are as they were.
  Moves-allocproc :
      (k k1 : Kernel W) (a : Option ℕ) (j : ℕ) (q : Proc)
      → allocproc symbols k ≡ ok (a, k1)
      → get_elem? k1.procs j ≡ some q
      → (p : Proc) × (get_elem? k.procs j ≡ some p)
        × ((a ≡ some j) × (p.state ≡ unused) ⊎ (a ≢ some j) × (q.state ≡ p.state))
  Moves-allocproc k k1 a j q e at = elim (allocproc_lem symbols k k1 a e) [
    | full none_ same _ ↦ (
      q,
      subst (λ (x : Kernel W). get_elem? x.procs j ≡ some q) same at,
      inr (λ z. absurd (cc), refl),
    )
    | took i page mem some_ found got same ↦
        let claimed = modify k.procs i (claim k.nextpid) in
        let (n, x, here, there, free, _) = find_unused-some k.procs 0 i found in
        let slot_i : get_elem? k.procs i ≡ some x =
          subst (λ n. get_elem? k.procs n ≡ some x) (omega arith) there in
        let (m, from, end) =
          modify_apart claimed i j (set_stack symbols mem.mem page) q
            (subst (λ (x : Kernel W). get_elem? x.procs j ≡ some q) same at) in
        let (p, was, begin) = modify_apart k.procs i j (claim k.nextpid) m from in
        (
          p,
          was,
          elim (ℕ_discrete i j) [
            | yes ij ↦
                let here' = subst (λ n. get_elem? k.procs n ≡ some x) ij slot_i in
                let both : x ≡ p = cc in
                inl (
                  some_ ∙ ap (λ n. some n) ij,
                  ap (λ (z : Proc). z.state) (sym both) ∙ is_state_eq x.state unused free,
                )
            | no ne ↦ inr (
              λ z. ne (let y : some i ≡ some j = sym some_ ∙ z in cc),
              elim begin [
                | inl (ij, _) ↦ absurd (ne ij)
                | inr (_, eq) ↦ elim end [
                  | inl (ij, _) ↦ absurd (ne ij)
                  | inr (_, eq') ↦ ap (λ (z : Proc). z.state) (eq' ∙ eq)
                ]
              ],
            )
          ],
        )
  ]

  -- The slot that `fork` has taken is given up or made RUNNABLE.
  Moves-Filled :
      (cur i : ℕ) (k k1 : Kernel W) (a : Option ℕ) (b : ProcState) (f : Proc → Proc)
      → allocproc symbols k ≡ ok (a, k1)
      → a ≡ some i
      → ((p : Proc) → (f p).state ≡ b)
      → Moves (forks cur) i unused b
      → AllMove (forks cur) k.procs (modify k1.procs i f)
  Moves-Filled cur i k k1 a b f e taken sets move j q at =
      let (m, from, how) = modify_apart k1.procs i j f q at in
      let (p, was, state) = Moves-allocproc k k1 a j m e from in
      (
        p,
        was,
        elim state [
          | inl (aj, free) ↦ elim how [
            | inl (ij, eq) ↦
                edge (forks cur) j p q unused b free (ap (λ (z : Proc). z.state) eq ∙ sets m)
                  (subst (λ n. Moves (forks cur) n unused b) ij move)
            | inr (ne, eq) ↦ absurd (ne (let y : some i ≡ some j = sym taken ∙ aj in cc))
          ]
          | inr (other, same) ↦ elim how [
            | inl (ij, eq) ↦ absurd (other (taken ∙ ap (λ n. some n) ij))
            | inr (ne, eq) ↦
                subst (λ x. Moves (forks cur) j p.state x)
                  (sym (ap (λ (z : Proc). z.state) eq ∙ same)) stays
          ]
        ],
      )

  Moves-fork :
      (cur : ℕ) (k : Kernel W) (r : Option ℕ × Kernel W)
      → fork symbols services kend cur k ≡ ok r
      → AllMove (forks cur) k.procs r.1.procs
  Moves-fork cur k r e =
      let (a, k1, made, rest) = fork_lem symbols services kend cur k r e in
      elim rest [
        | inl (gone, same) ↦ rw same (λ j q at.
            let (p, was, state) = Moves-allocproc k k1 a j q made at in
            (
              p,
              was,
              elim state [
                | inl (aj, free) ↦ absurd (cc)
                | inr (other, kept) ↦ subst (λ x. Moves (forks cur) j p.state x) (sym kept) stays
              ],
            ))
        | inr (i, parent, taken, at, failed _ ps _) ↦
            rw ps (Moves-Filled cur i k k1 a unused drop_stack made taken (λ p. refl) stays)
        | inr (i, parent, taken, at, born np pgdir _ _ _ ps _) ↦ rw ps (
            Moves-Filled cur i k k1 a runnable (become_child cur pgdir parent) made taken
              (λ p. refl) started)
      ]

  Moves-wait :
      (cur : ℕ) (k : Kernel W) (self : Proc) (r : Waited × Kernel W)
      → get_elem? k.procs cur ≡ some self
      → wait_round symbols services kend cur k ≡ ok r
      → AllMove (waits cur) k.procs r.1.procs
  Moves-wait cur k self r me e = elim (wait_round_cases symbols services kend cur k self r me e) [
    | inl (i, p, mem, at, child, dead, _, _, same) ↦ rw same (
        AllMove-modify (waits cur) k.procs i reap (λ q at'.
          edge (waits cur) i q (reap q) zombie unused (ground (arith, is_state_eq p.state zombie))
            refl collected))
    | inr (inl (_, same, _)) ↦ rw same (AllMove-refl (waits cur) k.procs)
    | inr (inr (_, same, _, _)) ↦ rw same (AllMove-refl (waits cur) k.procs)
  ]

  -- A step that only changes the table.
  table :
      (o : Op) (k k' : Kernel W) (qs : List Proc)
      → ok (record k { procs = qs }) ≡ ok k'
      → AllMove o k.procs qs
      → AllMove o k.procs k'.procs
  table o k k' qs e f = let eq : k' ≡ record k { procs = qs } = cc in rw eq f

  -- A step that comes back, of a RUNNING process, a waker or the scheduler, changes the state of each
  -- slot by one edge of the state diagram at most, and only by one that belongs to the step: in `fork`
  -- from UNUSED past EMBRYO to RUNNABLE; in `wait` from ZOMBIE to UNUSED; in `exit`, `yield` and `sleep`
  -- of the running process itself to ZOMBIE, RUNNABLE or SLEEPING; in `exit`, `wakeup` and `kill` from
  -- SLEEPING to RUNNABLE; and in the scheduler, in the slot that it stands at, from RUNNABLE to RUNNING.
  pub perform-Moves :
      (o : Op) (k k' : Kernel W)
      → Acts o k.procs
      → perform symbols services kend o k ≡ ok k'
      → AllMove o k.procs k'.procs
  unfolding perform sleep_enter sleep_leave yield_enter
  perform-Moves (forks cur) k k' a e =
      let (r, forked, same) = >>=-eq-ok (fork symbols services kend cur k) _ e in
      let eq : k' ≡ r.1 = cc in rw eq (Moves-fork cur k r forked)
  perform-Moves (waits cur) k k' (self, me, runs) e =
      let (r, waited, same) = >>=-eq-ok (wait_round symbols services kend cur k) _ e in
      let eq : k' ≡ r.1 = cc in rw eq (Moves-wait cur k self r me waited)
  perform-Moves (exits cur) k k' a e =
      table (exits cur) k k' _ e (AllMove-exit cur k.initproc k.procs a)
  perform-Moves (leaves cur) k k' a e =
      table (leaves cur) k k' _ e (AllMove-modify (leaves cur) k.procs cur _ (λ p at. stays))
  perform-Moves (yields cur) k k' a e = table (yields cur) k k' _ e (
      AllMove-modify (yields cur) k.procs cur _ (λ p at.
        edge (yields cur) cur p (record p { state = runnable }) running runnable
          (Runs-state cur k.procs a p at) refl yielded))
  perform-Moves (sleeps cur chan) k k' a e = table (sleeps cur chan) k k' _ e (
      AllMove-modify (sleeps cur chan) k.procs cur _ (λ p at.
        edge (sleeps cur chan) cur p (go_to_sleep chan p) running sleeping
          (Runs-state cur k.procs a p at) refl slept))
  perform-Moves (wakes chan) k k' a e =
      table (wakes chan) k k' _ e
        (AllMove-Stays (wakes chan) k.procs _ (λ i. woken) (Stays-wakeup chan k.procs))
  perform-Moves (kills pid) k k' a e = table (kills pid) k k' _ e (AllMove-kill pid k.procs)
  perform-Moves (schedules s) k k' a e = table (schedules s) k k' _ e (AllMove-step s k.procs)
