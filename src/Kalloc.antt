-- ===== src/Kalloc.antt =====
-- kalloc.c: the physical page allocator, a list of free pages linked through the pages themselves.
-- A critical section under `kmem.lock` is one step here; the locks are those of Spinlock.
pub mod Freelist
pub mod Range
use cs461_mlfq_scheduler.Base.{
  ℕ, zero, suc, ◌+◌, ◌-◌, ◌*◌, ◌/◌, ◌%◌, ◌^◌, Bool, true, false, ◌||◌, not, Option, none, some, ltb,
  leb, ◌==◌, if◌then◌else◌, u64, update, Result, ok, panic,
}

abbrev pub pgsize : ℕ
pgsize = 4096

abbrev pub kernbase : ℕ
kernbase = 0xFFFF800000000000

abbrev pub phystop : ℕ
phystop = 0xE000000

-- `V2P(a)`, a subtraction of `addr_t`
abbrev pub v2p : ℕ → ℕ
v2p a = u64 (a + (2 ^ 64 - kernbase))

-- `PGROUNDUP(sz)`: clearing the low 12 bits of `sz + 4095`
abbrev pub pgroundup : ℕ → ℕ
pgroundup sz = u64 (sz + (pgsize - 1)) / pgsize * pgsize

-- `kmem`, with the 64-bit words of memory by their addresses. A free page begins with `run.next`.
pub record Kmem : Type 0 where
  pub use_lock : Bool
  pub freelist : ℕ
  pub mem : ℕ → ℕ

-- `memset(v, 1, PGSIZE)` as words
abbrev pub fill_junk : (ℕ → ℕ) → ℕ → ℕ → ℕ
fill_junk mem v a =
    if ltb a v then mem a else if ltb a (v + pgsize) then 0x0101010101010101 else mem a

unfoldable pub kalloc : Kmem → Result (ℕ × Kmem)
kalloc k =
    let r = k.freelist in
    if r == 0 then panic "Out of memory!" else ok (r, record k { freelist = k.mem r })

-- `end`, the first address behind the kernel, is the linker's.
module _ (kend : ℕ) where
  abbrev pub kfree_refuses : ℕ → Bool
  kfree_refuses v = not (v % pgsize == 0) || (ltb v kend || leb phystop (v2p v))

  unfoldable pub kfree : ℕ → Kmem → Result Kmem
  kfree v k =
      if kfree_refuses v
      then panic "kfree"
      else ok (record k { mem = update (fill_junk k.mem v) v k.freelist; freelist = v })

  -- The loop of `freerange`; `none` means that the fuel ran out.
  pub freerange_loop : ℕ → ℕ → ℕ → Kmem → Option (Result Kmem)
  freerange_loop zero p vend k = none
  freerange_loop (suc fuel) p vend k =
      let rest = λ (k' : Kmem). freerange_loop fuel (u64 (p + pgsize)) vend k' in
      if leb (u64 (p + pgsize)) vend
      then elim (kfree p k) [ ok k' ↦ rest k' | panic m ↦ some (panic m) ]
      else some (ok k)

  pub freerange : ℕ → ℕ → ℕ → Kmem → Option (Result Kmem)
  unfolding freerange_loop
  freerange fuel vstart vend k = freerange_loop fuel (pgroundup vstart) vend k

  pub kinit1 : ℕ → ℕ → ℕ → Kmem → Option (Result Kmem)
  unfolding freerange
  kinit1 fuel vstart vend k =
      freerange fuel vstart vend (record k { use_lock = false; freelist = 0 })

unfoldable pub kinit2 : Kmem → Kmem
kinit2 k = record k { use_lock = true }
