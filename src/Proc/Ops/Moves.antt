-- ===== src/Proc/Ops/Moves.antt =====
-- The state diagram of processes, and the changes of the table that follow it.
use mathlib.Core.Path.{subst}
use cs461_mlfq_scheduler.Proc.{
  Proc, ProcState, Chan, unused, sleeping, runnable, running, zombie, is_state, modify, nproc,
}
use cs461_mlfq_scheduler.Proc.Table.{modify_origin, Each, Each-trans}
use cs461_mlfq_scheduler.Proc.Sleep.{wakeup, kill, kill_one}
use cs461_mlfq_scheduler.Proc.Sleep.Kill.{kill_cases}
use cs461_mlfq_scheduler.Proc.Family.{exit_locked, reparent, chan_of, parent_at}
use cs461_mlfq_scheduler.Proc.Family.Exit.Reparent.{
  Stays, Stays-trans, Stays-wakeup, Stays-reparent,
}
use cs461_mlfq_scheduler.Proc.Scheduler.{Sched, step}
use cs461_mlfq_scheduler.Proc.Scheduler.Dispatch.{procs-step, run_it}
use cs461_mlfq_scheduler.Proc.Ops.{
  Op, forks, exits, waits, yields, sleeps, wakes, kills, schedules, Runs,
}
use cs461_mlfq_scheduler.Base.{
  ap, ◌∙◌, sym, Bool-cases, get_elem?, ℕ, ◌≡◌, refl, inl, inr, true, Option, some, List, arith,
}

-- The move of the process in slot `i` in the step `o`: none, or one edge of the state diagram that
-- belongs to the step. `fork` is one step, so its child goes from UNUSED past EMBRYO to RUNNABLE.
pub data Moves : Op → ℕ → ProcState → ProcState → Type 0 where
  stays : {o : Op} {i : ℕ} {a : ProcState} → Moves o i a a
  started : {cur i : ℕ} → Moves (forks cur) i unused runnable
  collected : {cur i : ℕ} → Moves (waits cur) i zombie unused
  exited : {cur : ℕ} → Moves (exits cur) cur running zombie
  parent_woken : {cur i : ℕ} → Moves (exits cur) i sleeping runnable
  yielded : {cur : ℕ} → Moves (yields cur) cur running runnable
  slept : {cur : ℕ} {chan : Chan} → Moves (sleeps cur chan) cur running sleeping
  woken : {chan : Chan} {i : ℕ} → Moves (wakes chan) i sleeping runnable
  killed_awake : {pid i : ℕ} → Moves (kills pid) i sleeping runnable
  scheduled : {s : Sched} → Moves (schedules s) s.pos runnable running

-- Each slot of the table behind the step comes from the same slot by a move of the step.
abbrev pub AllMove : Op → List Proc → List Proc → Type 0
AllMove o ps qs =
    (i : ℕ) (q : Proc)
    → get_elem? qs i ≡ some q
    → (p : Proc) × (get_elem? ps i ≡ some p) × Moves o i p.state q.state

pub AllMove-refl : (o : Op) (ps : List Proc) → AllMove o ps ps
AllMove-refl o ps i q e = (q, e, stays)

-- A move between the states that two processes are known to be in.
pub edge :
    (o : Op) (i : ℕ) (p q : Proc) (a b : ProcState)
    → p.state ≡ a
    → q.state ≡ b
    → Moves o i a b
    → Moves o i p.state q.state
edge o i p q a b e f move = rw (e, f) move

-- A change of slot `i` by a move of the step.
pub AllMove-modify :
    (o : Op) (ps : List Proc) (i : ℕ) (f : Proc → Proc)
    → ((p : Proc) → get_elem? ps i ≡ some p → Moves o i p.state (f p).state)
    → AllMove o ps (modify ps i f)
AllMove-modify o ps i f h j q e =
    let (p, here, same) = modify_origin ps i j f q e in
    elim same [
      | inl eq ↦ (p, here, subst (λ x. Moves o j p.state x.state) (sym eq) stays)
      | inr (ij, eq) ↦
          let here' = subst (λ n. get_elem? ps n ≡ some p) (sym ij) here in
          (
            p,
            here,
            subst (λ n. Moves o n p.state q.state) ij
                (subst (λ x. Moves o i p.state x.state) (sym eq) (h p here')),
          )
    ]

-- Processes that stay in their states or are woken, in a step that wakes.
pub AllMove-Stays :
    (o : Op) (ps qs : List Proc)
    → ((i : ℕ) → Moves o i sleeping runnable)
    → Each Stays ps qs
    → AllMove o ps qs
AllMove-Stays o ps qs wakes_ a i q e =
    let (p, was, s) = a i q e in
    elim s [
      | inl same ↦ (p, was, subst (λ x. Moves o i p.state x) (sym same) stays)
      | inr (asleep, up) ↦ (p, was, edge o i p q sleeping runnable asleep up (wakes_ i))
    ]

pub is_state_eq : (a b : ProcState) → is_state a b ≡ true → a ≡ b
is_state_eq a b h = ground arith

pub Runs-state :
    (cur : ℕ) (ps : List Proc)
    → Runs cur ps
    → (p : Proc) → get_elem? ps cur ≡ some p
    → p.state ≡ running
Runs-state cur ps (q, at, runs) p here' = ground (arith, is_state_eq p.state running)

pub AllMove-kill : (pid : ℕ) (ps : List Proc) → AllMove (kills pid) ps (kill pid ps).1
AllMove-kill pid ps = elim (kill_cases pid ps) [
  | inl (e, _) ↦ rw e (AllMove-refl (kills pid) ps)
  | inr (i, p, _, e) ↦ rw e (
      AllMove-modify (kills pid) ps i kill_one (λ q at.
        elim (Bool-cases (is_state q.state sleeping)) [
          | inl asleep ↦
              edge (kills pid) i q (kill_one q) sleeping runnable
                (is_state_eq q.state sleeping asleep) (ground arith) killed_awake
          | inr awake ↦
              subst (λ x. Moves (kills pid) i q.state x)
                (let e : q.state ≡ (kill_one q).state = ground arith in e) stays
        ]))
]

pub AllMove-step : (s : Sched) (ps : List Proc) → AllMove (schedules s) ps (step s ps).1
AllMove-step s ps = elim (procs-step s ps) [
  | inl same ↦ rw same (AllMove-refl (schedules s) ps)
  | inr (p, at, ready, e, _, _) ↦ rw e (
      AllMove-modify (schedules s) ps s.pos run_it (λ q at'.
        edge (schedules s) s.pos q (run_it q) runnable running
          (ground (arith, is_state_eq p.state runnable)) refl scheduled))
]

pub AllMove-exit :
    (cur : ℕ) (init : Option ℕ) (ps : List Proc)
    → Runs cur ps
    → AllMove (exits cur) ps (exit_locked cur init ps)
unfolding exit_locked
AllMove-exit cur init ps runs j q at =
    let up = wakeup (chan_of (parent_at cur ps)) ps in
    let moved = reparent cur init nproc 0 up in
    let die = λ (p : Proc). record p { state = zombie } in
    let before : Each Stays ps moved =
      Each-trans Stays ps up moved Stays-trans (Stays-wakeup (chan_of (parent_at cur ps)) ps)
        (Stays-reparent cur init nproc 0 up) in
    let (m, from, same) = modify_origin moved cur j die q at in
    elim same [
      | inl eq ↦
          AllMove-Stays (exits cur) ps moved (λ i. parent_woken) before j q
            (from ∙ ap (λ x. some x) (sym eq))
      | inr (cj, eq) ↦
          let (p, was, s) = before j m from in
          let ran = Runs-state cur ps runs p (subst (λ n. get_elem? ps n ≡ some p) (sym cj) was) in
          (
            p,
            was,
            edge (exits cur) j p q running zombie ran (ap (λ (x : Proc). x.state) eq)
                (subst (λ n. Moves (exits cur) n running zombie) cj exited),
          )
    ]
