-- ===== src/Proc/Family/Wait.antt =====
-- What `wait` finds and collects.
use cs461_mlfq_scheduler.Kalloc.{Kmem, kfree}
use mathlib.Core.Path.{subst}
use cs461_mlfq_scheduler.Proc.Table.{IsPut, modify-IsPut}
use cs461_mlfq_scheduler.Proc.{Proc, Kernel, unused, zombie, is_state, is_slot, modify}
use cs461_mlfq_scheduler.Proc.Alloc.{Symbols}
use cs461_mlfq_scheduler.Proc.Services.{Services}
use cs461_mlfq_scheduler.Proc.Family.{
  Waited, reaped, no_child, must_sleep, wait_round, reap, Scan, exited, children, wait_scan,
}
use cs461_mlfq_scheduler.Base.{
  sym, update, none, Bool-cases, get_elem?, >>=-eq-ok, ok, ℕ, zero, suc, ◌+◌, ◌≡◌, refl, ap, ◌∙◌,
  ◌⊎◌, inl, inr, Bool, true, false, ◌&&◌, ◌||◌, some, List, [], ◌∷◌, arith,
}

abbrev pub IsChild : ℕ → Proc → Type 0
IsChild cur p = is_slot cur p.parent ≡ true

abbrev pub IsZombie : Proc → Type 0
IsZombie p = is_state p.state zombie ≡ true

-- No child of `cur` in the table is a zombie.
abbrev pub NoneExited : ℕ → List Proc → Type 0
NoneExited cur ps =
    (j : ℕ) (q : Proc) → get_elem? ps j ≡ some q → IsChild cur q → is_state q.state zombie ≡ false

-- `b` says whether `cur` has a child in the table.
abbrev pub Tells : ℕ → List Proc → Bool → Type 0
Tells cur ps true = (j : ℕ) × (q : Proc) × (get_elem? ps j ≡ some q) × IsChild cur q
Tells cur ps false = (j : ℕ) (q : Proc) → get_elem? ps j ≡ some q → is_slot cur q.parent ≡ false

seen_true :
    (cur : ℕ) (x : Proc) (ps : List Proc) (havekids : Bool)
    → ((havekids || is_slot cur x.parent) ≡ true) ⊎ Tells cur ps true
    → (havekids ≡ true) ⊎ Tells cur (x ∷ ps) true
seen_true cur x ps true h = inl refl
seen_true cur x ps false (inl here) = inr (0, x, refl, here)
seen_true cur x ps false (inr (j, q, there, child)) = inr (suc j, q, there, child)

seen_false :
    (cur : ℕ) (x : Proc) (ps : List Proc) (havekids : Bool)
    → ((havekids || is_slot cur x.parent) ≡ false) × Tells cur ps false
    → (havekids ≡ false) × Tells cur (x ∷ ps) false
seen_false cur x ps true h = cc (h.0)
seen_false cur x ps false (none_here, none_of) = (refl, both)
  where
    both : (j : ℕ) (q : Proc) → get_elem? (x ∷ ps) j ≡ some q → is_slot cur q.parent ≡ false
    both zero q here = ground arith
    both (suc j) q here = none_of j q here

pub data Found (cur : ℕ) (ps : List Proc) (n : ℕ) (havekids : Bool) (r : Scan) : Type 0 where
  zombie_child :
      (m : ℕ) (p : Proc)
      → r ≡ exited (n + m)
      → get_elem? ps m ≡ some p
      → IsChild cur p
      → IsZombie p
      → Found cur ps n havekids r
  no_zombie :
      (b : Bool)
      → r ≡ children b
      → NoneExited cur ps
      → (b ≡ true → (havekids ≡ true) ⊎ Tells cur ps true)
      → (b ≡ false → (havekids ≡ false) × Tells cur ps false)
      → Found cur ps n havekids r

-- The loop of `wait` finds a zombie child if there is one, and else tells whether there is a child.
pub wait_scan_lem :
    (cur : ℕ) (ps : List Proc) (n : ℕ) (havekids : Bool)
    → Found cur ps n havekids (wait_scan cur ps n havekids)
unfolding wait_scan
wait_scan_lem cur [] n havekids =
    no_zombie havekids refl (λ j q e. absurd (cc)) (λ e. inl e) (λ e. (e, λ j q f. absurd (cc)))
wait_scan_lem cur (x ∷ ps) n havekids =
    elim (Bool-cases (is_slot cur x.parent && is_state x.state zombie)) [
      | inl both ↦ zombie_child 0 x (ground arith) refl (ground arith) (ground arith)
      | inr neither ↦ elim (wait_scan_lem cur ps (n + 1) (havekids || is_slot cur x.parent)) [
        | zombie_child m p e here child dead ↦ zombie_child (suc m) p (ground arith) here child dead
        | no_zombie b e alive yes_ no_ ↦
            no_zombie b (ground arith) (first neither alive)
              (λ t. seen_true cur x ps havekids (yes_ t))
              (λ f. seen_false cur x ps havekids (no_ f))
      ]
    ]
  where
    first :
        (is_slot cur x.parent && is_state x.state zombie) ≡ false
        → NoneExited cur ps
        → NoneExited cur (x ∷ ps)
    first neither alive zero q here child = ground arith
    first neither alive (suc j) q here child = alive j q here child

module _ {W : Type 0} (symbols : Symbols) (services : Services W) (kend : ℕ) where
  -- A zombie child was reaped, with the result `r`.
  abbrev pub Reaped : ℕ → Kernel W → Waited × Kernel W → Type 0
  Reaped cur k r =
      (i : ℕ) × (p : Proc) × (mem : Kmem) × (get_elem? k.procs i ≡ some p)
      × IsChild cur p
      × IsZombie p
      × (kfree kend p.kstack k.kmem ≡ ok mem)
      × (services.freevm p.pgdir mem ≡ ok r.1.kmem)
      × (r ≡ (reaped p.pid, record k { procs = modify k.procs i reap; kmem = r.1.kmem }))

  collect :
      (cur i : ℕ) (k : Kernel W) (p : Proc) (r : Waited × Kernel W)
      → wait_scan cur k.procs 0 false ≡ exited i
      → get_elem? k.procs i ≡ some p
      → IsChild cur p
      → IsZombie p
      → wait_round symbols services kend cur k ≡ ok r
      → Reaped cur k r
  unfolding wait_round
  collect cur i k p r found here child dead e =
      let (mem, freed, rest) =
        >>=-eq-ok (kfree kend p.kstack k.kmem) _ (rw (found, here, wait_round) at e) in
      let (mem', freed', rest') = >>=-eq-ok (services.freevm p.pgdir mem) _ rest in
      let same : ok (reaped p.pid, record k { procs = modify k.procs i reap; kmem = mem' }) ≡ ok r =
        rest' in
      let kept : mem' ≡ r.1.kmem = ground (arith, same) in
      (i, p, mem, here, child, dead, freed, freed' ∙ ap ok kept, ground (arith, same, kept))

  -- The three ways a round of `wait` ends.
  pub wait_round_cases :
      (cur : ℕ) (k : Kernel W) (self : Proc) (r : Waited × Kernel W)
      → get_elem? k.procs cur ≡ some self
      → wait_round symbols services kend cur k ≡ ok r
      → Reaped cur k r
        ⊎ (NoneExited cur k.procs
            × (r ≡ (no_child, k))
            × (Tells cur k.procs false ⊎ (self.killed ≡ true)))
        ⊎ (NoneExited cur k.procs
            × (r ≡ (must_sleep, k))
            × Tells cur k.procs true
            × (self.killed ≡ false))
  unfolding wait_round
  wait_round_cases cur k self r me e = elim (wait_scan_lem cur k.procs 0 false) [
    | zombie_child m p found here child dead ↦
        let found' : wait_scan cur k.procs 0 false ≡ exited m = found ∙ ap exited (omega arith) in
        inl (collect cur m k p r found' here child dead e)
    | no_zombie b found alive yes_ no_ ↦ elim (Bool-cases b) [
      | inl kids ↦ elim (Bool-cases self.killed) [
        | inl dying ↦ inr (inl (alive, ground (arith, found), inr dying))
        | inr well ↦ inr (
            inr (
              alive,
              ground (arith, found),
              elim (yes_ kids) [ inl bad ↦ absurd (cc bad) | inr t ↦ t ],
              well,
            ))
      ]
      | inr lone ↦ inr (inl (alive, ground (arith, found), inl (no_ lone).1))
    ]
  ]

  -- A zombie child was collected: its stack and its page table are freed, its pid is the result, and
  -- its slot is UNUSED with no stack, pid, parent, name or kill; nothing else is changed.
  pub record Collected (cur : ℕ) (k : Kernel W) (r : Waited × Kernel W) : Type 0 where
    pub place : ℕ
    pub child : Proc
    pub between : Kmem
    pub there : get_elem? k.procs place ≡ some child
    pub mine : IsChild cur child
    pub dead : IsZombie child
    pub stack_freed : kfree kend child.kstack k.kmem ≡ ok between
    pub table_freed : services.freevm child.pgdir between ≡ ok r.1.kmem
    pub answer : r.0 ≡ reaped child.pid
    pub emptied :
        IsPut k.procs place
          (record child {
            kstack = 0;
            pid = 0;
            parent = none;
            name = update child.name 0 0;
            killed = false;
            state = unused;
          })
          r.1.procs
    pub rest : r.1 ≡ record k { procs = r.1.procs; kmem = r.1.kmem }

  Reaped-Collected :
      (cur : ℕ) (k : Kernel W) (r : Waited × Kernel W) → Reaped cur k r → Collected cur k r
  Reaped-Collected cur k r (i, p, mem, here, child, dead, freed, freed', same) =
      let procs : r.1.procs ≡ modify k.procs i reap =
        ap (λ (s : Waited × Kernel W). s.1.procs) same in
      record {
        place = i;
        child = p;
        between = mem;
        there = here;
        mine = child;
        dead = dead;
        stack_freed = freed;
        table_freed = freed';
        answer = ap (λ (s : Waited × Kernel W). s.0) same;
        emptied = subst (IsPut k.procs i (reap p)) (sym procs) (modify-IsPut k.procs i p reap here);
        rest =
            ap (λ (t : Waited × Kernel W). t.1) same
            ∙ ap (λ ps. record k { procs = ps; kmem = r.1.kmem }) (sym procs);
      }

  -- One round of `wait`, if it comes back, collects a zombie child: it returns the child's pid,
  -- frees first its kernel stack and then its page table, and makes its slot UNUSED with no stack,
  -- pid, parent, name or kill; all other slots are as they were. With no zombie
  -- child nothing changes: it answers -1 if the process has no child or is killed, and else sleeps.
  pub wait_round_lem :
      (cur : ℕ) (k : Kernel W) (self : Proc) (r : Waited × Kernel W)
      → get_elem? k.procs cur ≡ some self
      → wait_round symbols services kend cur k ≡ ok r
      → Collected cur k r
        ⊎ (NoneExited cur k.procs
            × (r ≡ (no_child, k))
            × (Tells cur k.procs false ⊎ (self.killed ≡ true)))
        ⊎ (NoneExited cur k.procs
            × (r ≡ (must_sleep, k))
            × Tells cur k.procs true
            × (self.killed ≡ false))
  wait_round_lem cur k self r me e = elim (wait_round_cases cur k self r me e) [
    | inl child ↦ inl (Reaped-Collected cur k r child)
    | inr (inl lone) ↦ inr (inl lone)
    | inr (inr waits) ↦ inr (inr waits)
  ]
