-- ===== src/Proc/Family/Fork.antt =====
-- The ways in which `fork` ends.
use cs461_mlfq_scheduler.Kalloc.{Kmem, kfree}
use cs461_mlfq_scheduler.Proc.{Proc, Kernel, modify}
use cs461_mlfq_scheduler.Proc.Alloc.{Symbols, allocproc}
use cs461_mlfq_scheduler.Proc.Services.{Services}
use cs461_mlfq_scheduler.Proc.Family.{
  become_child, drop_stack, dup_files, fork_with, fork_into, fork,
}
use cs461_mlfq_scheduler.Base.{
  ◌==◌, Bool-cases, Option-cases, get_elem?, >>=-eq-ok, ok, ℕ, ◌≡◌, ◌⊎◌, inl, inr, false, Option,
  none, some, arith,
}

module _ {W : Type 0} where
  -- Behind `allocproc`: the slot is given up, or becomes a child that can run.
  pub data Filled (cur i : ℕ) (parent : Proc) (k : Kernel W) (r : Option ℕ × Kernel W)
      : Type 0 where
    failed :
        r.0 ≡ none
        → r.1.procs ≡ modify k.procs i drop_stack
        → r.1.nextpid ≡ k.nextpid
        → Filled cur i parent k r
    born :
        (np : Proc) (pgdir : ℕ)
        → get_elem? k.procs i ≡ some np
        → r.0 ≡ some np.pid
        → (pgdir == 0) ≡ false
        → r.1.procs ≡ modify k.procs i (become_child cur pgdir parent)
        → r.1.nextpid ≡ k.nextpid
        → Filled cur i parent k r

module _ {W : Type 0} (symbols : Symbols) (services : Services W) (kend : ℕ) where
  open services use {copyuvm, idup}

  fork_with_lem :
      (cur i : ℕ) (parent : Proc) (k : Kernel W) (copy : ℕ × Kmem) (np : Proc)
      (r : Option ℕ × Kernel W)
      → get_elem? k.procs i ≡ some np
      → fork_with symbols services kend cur i parent k copy np ≡ ok r
      → Filled cur i parent k r
  unfolding fork_with
  fork_with_lem cur i parent k copy np r here e = elim (Bool-cases (copy.0 == 0)) [
    | inl null ↦
        let (mem, freed, rest) =
          >>=-eq-ok (kfree kend np.kstack copy.1) _ (rw (null, fork_with) at e) in
        failed (ground arith) (ground arith) (ground arith)
    | inr nz ↦
        let (files, dup, rest) =
          >>=-eq-ok (dup_files symbols services kend parent.ofile k.world) _
            (rw (nz, fork_with) at e) in
        let (world, dir, rest') = >>=-eq-ok (idup parent.cwd files) _ rest in
        born np copy.0 here (ground arith) nz (ground arith) (ground arith)
  ]

  fork_into_lem :
      (cur i : ℕ) (parent : Proc) (k : Kernel W) (r : Option ℕ × Kernel W)
      → fork_into symbols services kend cur i parent k ≡ ok r
      → Filled cur i parent k r
  unfolding fork_into
  fork_into_lem cur i parent k r e =
      let (copy, copied, rest) = >>=-eq-ok (copyuvm parent.pgdir parent.sz k.kmem) _ e in
      elim (Option-cases (get_elem? k.procs i)) [
        | inl gone ↦ absurd (ground arith)
        | inr (np, here) ↦ fork_with_lem cur i parent k copy np r here (ground arith)
      ]

  -- All of `fork`.
  pub fork_lem :
      (cur : ℕ) (k : Kernel W) (r : Option ℕ × Kernel W)
      → fork symbols services kend cur k ≡ ok r
      → (a : Option ℕ) × (k1 : Kernel W) × (allocproc symbols k ≡ ok (a, k1))
        × (((a ≡ none) × (r ≡ (none, k1)))
            ⊎ ((i : ℕ) × (parent : Proc) × (a ≡ some i)
                × (get_elem? k1.procs cur ≡ some parent)
                × Filled cur i parent k1 r))
  unfolding fork
  fork_lem cur k r e =
      let ((a, k1), made, rest) = >>=-eq-ok (allocproc symbols k) _ e in
      (
        a,
        k1,
        made,
        elim (Option-cases a) [
          | inl no_slot ↦ inl (no_slot, ground arith)
          | inr (i, slot) ↦ elim (Option-cases (get_elem? k1.procs cur)) [
            | inl gone ↦ absurd (ground arith)
            | inr (parent, here) ↦
                inr (i, parent, slot, here, fork_into_lem cur i parent k1 r (ground arith))
          ]
        ],
      )
