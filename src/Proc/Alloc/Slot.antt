-- ===== src/Proc/Alloc/Slot.antt =====
-- Which slot `allocproc` takes, and what it leaves there.
use cs461_mlfq_scheduler.Kalloc.{Kmem, kalloc}
use cs461_mlfq_scheduler.Kalloc.Freelist.{IsFreelist, kalloc_pops, page_ne_zero}
use cs461_mlfq_scheduler.Proc.{Proc, Kernel, unused, embryo, is_state, modify}
use cs461_mlfq_scheduler.Proc.Table.{get-modify}
use cs461_mlfq_scheduler.Proc.Pids.{IsLive}
use cs461_mlfq_scheduler.Proc.Alloc.{Symbols, find_unused, claim, set_stack, alloc_at, allocproc}
use cs461_mlfq_scheduler.Base.{
  ◌==◌, Bool-cases, Option-cases, get_elem?, >>=-eq-ok, u32, ok, ℕ, zero, suc, ◌+◌, ◌<◌, ◌≡◌, refl,
  ap, ◌∙◌, ◌≢◌, inl, inr, true, false, Option, none, some, List, [], ◌∷◌, arith,
}

-- The slot found is unused, and every slot below it is in use.
pub find_unused-some :
    (ps : List Proc) (n i : ℕ)
    → find_unused ps n ≡ some i
    → (m : ℕ) × (p : Proc) × (i ≡ n + m)
      × (get_elem? ps m ≡ some p)
      × (is_state p.state unused ≡ true)
      × ((j : ℕ) (q : Proc) → j < m → get_elem? ps j ≡ some q → IsLive q)
unfolding find_unused
find_unused-some [] n i e = absurd (cc)
find_unused-some (p ∷ ps) n i e = elim (Bool-cases (is_state p.state unused)) [
  | inl free ↦ (0, p, ground arith, refl, free, λ j q h. absurd (omega arith))
  | inr live ↦
      let (m, q, at, here, free, below) = find_unused-some ps (n + 1) i (ground arith) in
      (suc m, q, omega arith, here, free, λ j r h. first live below j r h)
]
  where
    first :
        {m : ℕ}
        → is_state p.state unused ≡ false
        → ((j : ℕ) (q : Proc) → j < m → get_elem? ps j ≡ some q → IsLive q)
        → (j : ℕ) (q : Proc) → j < suc m
        → get_elem? (p ∷ ps) j ≡ some q
        → IsLive q
    first live below zero q h here = ground arith
    first live below (suc j) q h here = below j q (omega arith) here

pub find_unused-none :
    (ps : List Proc) (n : ℕ)
    → find_unused ps n ≡ none
    → (j : ℕ) (q : Proc) → get_elem? ps j ≡ some q
    → IsLive q
unfolding find_unused
find_unused-none [] n e j q here = absurd (cc)
find_unused-none (p ∷ ps) n e zero q here = ground arith
find_unused-none (p ∷ ps) n e (suc j) q here = find_unused-none ps (n + 1) (ground arith) j q here

kalloc_ne_zero : (m m' : Kmem) (page : ℕ) → kalloc m ≡ ok (page, m') → (page == 0) ≡ false
unfolding kalloc
kalloc_ne_zero m m' page e = ground arith

pub find_unused_first :
    (ps : List Proc) (n i : ℕ) (p : Proc)
    → get_elem? ps i ≡ some p
    → is_state p.state unused ≡ true
    → ((j : ℕ) (q : Proc) → j < i → get_elem? ps j ≡ some q → IsLive q)
    → find_unused ps n ≡ some (n + i)
unfolding find_unused
find_unused_first [] n i p here free below = absurd (cc)
find_unused_first (x ∷ ps) n zero p here free below = ground arith
find_unused_first (x ∷ ps) n (suc i) p here free below =
    let live = below 0 x (omega arith) refl in
    rw live (
      find_unused_first ps (n + 1) i p here free (λ j q h. below (suc j) q (omega arith))
      ∙ ap (λ m. some m) (omega arith))

module _ {W : Type 0} (sym : Symbols) where
  -- How `allocproc` changes the kernel, if it comes back: it takes an unused slot and a page, or
  -- leaves everything as it was since no slot is unused. It never comes back with the slot lost.
  pub data Allocated (k : Kernel W) (r : Option ℕ) (k' : Kernel W) : Type 0 where
    full : r ≡ none → k' ≡ k → find_unused k.procs 0 ≡ none → Allocated k r k'
    took :
        (i page : ℕ) (mem : Kmem)
        → r ≡ some i
        → find_unused k.procs 0 ≡ some i
        → kalloc k.kmem ≡ ok (page, mem)
        → k' ≡ record k {
          procs = modify (modify k.procs i (claim k.nextpid)) i (set_stack sym mem.mem page);
          nextpid = u32 (k.nextpid + 1);
          kmem = mem;
        }
        → Allocated k r k'

  alloc_at_lem :
      (i : ℕ) (k k' : Kernel W) (r : Option ℕ)
      → find_unused k.procs 0 ≡ some i
      → alloc_at sym i k ≡ ok (r, k')
      → Allocated k r k'
  unfolding alloc_at
  alloc_at_lem i k k' r found e =
      let ((page, mem), got, rest) = >>=-eq-ok (kalloc k.kmem) _ e in
      let nz = kalloc_ne_zero k.kmem mem page got in
      took i page mem (ground arith) found got (ground arith)

  pub allocproc_lem :
      (k k' : Kernel W) (r : Option ℕ) → allocproc sym k ≡ ok (r, k') → Allocated k r k'
  unfolding allocproc
  allocproc_lem k k' r e = elim (Option-cases (find_unused k.procs 0)) [
    | inl none_free ↦ full (ground arith) (ground arith) none_free
    | inr (i, found) ↦ alloc_at_lem i k k' r found (rw (found, allocproc) at e)
  ]

  -- With a free page, `allocproc` takes the first UNUSED slot and turns it into an EMBRYO with the
  -- next pid, the page in front of the free list as its kernel stack, `forkret` as the place where
  -- it starts and `syscall_trapret` below its trap frame; it keeps the slot's old `killed`; no other
  -- slot changes.
  pub allocproc_takes_first :
      (kend i page : ℕ) (pages : List ℕ) (k : Kernel W) (p : Proc)
      → get_elem? k.procs i ≡ some p
      → is_state p.state unused ≡ true
      → ((j : ℕ) (q : Proc) → j < i → get_elem? k.procs j ≡ some q → IsLive q)
      → IsFreelist kend k.kmem (page ∷ pages)
      → (k' : Kernel W) × (q : Proc) × (allocproc sym k ≡ ok (some i, k'))
        × (get_elem? k'.procs i ≡ some q)
        × (q.state ≡ embryo)
        × (q.pid ≡ k.nextpid)
        × (q.kstack ≡ page)
        × (q.killed ≡ p.killed)
        × (q.context.rip ≡ sym.forkret)
        × (q.trapret ≡ sym.syscall_trapret)
        × (k'.nextpid ≡ u32 (k.nextpid + 1))
        × ((j : ℕ) → j ≢ i → get_elem? k'.procs j ≡ get_elem? k.procs j)
        × IsFreelist kend k'.kmem pages
  unfolding allocproc
  allocproc_takes_first kend i page pages k p here free below pool =
      let (mem, got, rest, is_page, _) = kalloc_pops kend k.kmem page pages pool in
      let found = find_unused_first k.procs 0 i p here free below in
      let found' : find_unused k.procs 0 ≡ some i = found ∙ ap (λ m. some m) (omega arith) in
      let nz = page_ne_zero kend page is_page in
      let once = modify k.procs i (claim k.nextpid) in
      (
        record k {
          procs = modify once i (set_stack sym mem.mem page);
          nextpid = u32 (k.nextpid + 1);
          kmem = mem;
        },
        set_stack sym mem.mem page (claim k.nextpid p),
        ground (arith, found', got, nz),
        ground (
          arith,
          get-modify once i i (set_stack sym mem.mem page),
          get-modify k.procs i i (claim k.nextpid),
        ),
        refl,
        refl,
        refl,
        refl,
        refl,
        refl,
        refl,
        λ j ne. ground (
          arith,
          get-modify once i j (set_stack sym mem.mem page),
          get-modify k.procs i j (claim k.nextpid),
        ),
        rest,
      )
