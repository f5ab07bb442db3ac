-- ===== src/Vm.antt =====
-- vm.c: page tables of four levels in memory, as 64-bit words by their addresses.
pub mod Pte
pub mod Tree
pub mod Enter
pub mod Walk
pub mod Stored
pub mod Round
pub mod Mapped
use cs461_mlfq_scheduler.Kalloc.{pgsize, kernbase, v2p, pgroundup, Kmem, kalloc, kfree}
use cs461_mlfq_scheduler.Base.{
  ltb, leb, ◌==◌, if◌then◌else◌, Result, ◌>>=◌, u32, u64, or_bits, update, ok, panic, ℕ, zero, suc,
  ◌+◌, ◌-◌, ◌*◌, ◌/◌, ◌%◌, ◌^◌, Bool, true, false, ◌&&◌, not, Option, none, some,
}

-- `P2V(a)` and `PGROUNDDOWN(a)`
abbrev pub p2v : ℕ → ℕ
p2v a = u64 (a + kernbase)

abbrev pub pgrounddown : ℕ → ℕ
pgrounddown a = a / pgsize * pgsize

-- `pte & PTE_P`, `pte & PTE_U`, `PTE_ADDR(pte)` and `PTE_FLAGS(pte)`
abbrev pub present : ℕ → Bool
present pte = pte % 2 == 1

abbrev pub is_user : ℕ → Bool
is_user pte = pte / 4 % 2 == 1

abbrev pub pte_addr : ℕ → ℕ
pte_addr pte = pte / pgsize * pgsize

abbrev pub pte_flags : ℕ → ℕ
pte_flags pte = pte % pgsize

-- `PTE_P | PTE_W | PTE_U`; with these bits clear in the address of a page, `|` to it is `+`.
abbrev pub table_flags : ℕ
table_flags = 7

-- `PMX(va)`, `PDPX(va)`, `PDX(va)` and `PTX(va)`
abbrev pub pmx : ℕ → ℕ
pmx va = va / 2 ^ 39 % 512

abbrev pub pdpx : ℕ → ℕ
pdpx va = va / 2 ^ 30 % 512

abbrev pub pdx : ℕ → ℕ
pdx va = va / 2 ^ 21 % 512

abbrev pub ptx : ℕ → ℕ
ptx va = va / pgsize % 512

-- `&table[i]`
abbrev pub entry : ℕ → ℕ → ℕ
entry table i = table + 8 * i

-- The table that an entry points to.
abbrev pub points_to : ℕ → ℕ
points_to e = p2v (pte_addr e)

-- `memset(v, 0, PGSIZE)`, and `memmove(dst, src, PGSIZE)` of another page, as words
abbrev pub zero_page : (ℕ → ℕ) → ℕ → (ℕ → ℕ)
zero_page mem v a = if leb v a && ltb a (v + pgsize) then 0 else mem a

abbrev pub copy_page : (ℕ → ℕ) → ℕ → ℕ → (ℕ → ℕ)
copy_page mem dst src a = if leb dst a && ltb a (dst + pgsize) then mem (src + (a - dst)) else mem a

abbrev pub store : ℕ → ℕ → Kmem → Kmem
store a w k = record k { mem = update k.mem a w }

-- One level of `walkpgdir`, at the address of an entry: the next table, or `none`.
unfoldable pub walk_level : Bool → ℕ → Kmem → Result (Option ℕ × Kmem)
walk_level alloc e k =
    if present (k.mem e)
    then ok (some (points_to (k.mem e)), k)
    else if not alloc
    then ok (none, k)
    else kalloc k >>= λ r.
        if r.0 == 0
        then ok (none, r.1)
        else ok (
          some (r.0),
          store e (v2p r.0 + table_flags) (record (r.1) { mem = zero_page r.1.mem r.0 }),
        )

-- What follows a level that has given a table.
abbrev pub then_level :
    (ℕ → Kmem → Result (Option ℕ × Kmem)) → Option ℕ × Kmem → Result (Option ℕ × Kmem)
then_level next r = elim (r.0) [ none ↦ ok (none, r.1) | some table ↦ next table r.1 ]

-- `walkpgdir(pml4, va, alloc)`: the address of the entry, or `none` for 0.
unfoldable pub walkpgdir : ℕ → ℕ → Bool → Kmem → Result (Option ℕ × Kmem)
walkpgdir pml4 va alloc k =
    walk_level alloc (entry pml4 (pmx va)) k
    >>= then_level (λ pdp k1.
      walk_level alloc (entry pdp (pdpx va)) k1
      >>= then_level (λ pd k2.
        walk_level alloc (entry pd (pdx va)) k2
        >>= then_level (λ pgtab k3. ok (some (entry pgtab (ptx va)), k3))))

-- `pa | perm | PTE_P`
unfoldable pub pte_word : ℕ → ℕ → ℕ
pte_word pa perm = or_bits 64 (or_bits 64 pa perm) 1

-- The loop of `mappages`, for at most `fuel` pages; `true` stands for 0 and `false` for -1, and the
-- outer `none` means that the fuel ran out.
unfoldable pub mappages_loop : ℕ → ℕ → ℕ → ℕ → ℕ → ℕ → Kmem → Option (Result (Bool × Kmem))
mappages_loop zero pgdir a last pa perm k = none
mappages_loop (suc fuel) pgdir a last pa perm k =
    let rest =
      λ (k' : Kmem). mappages_loop fuel pgdir (u64 (a + pgsize)) last (u64 (pa + pgsize)) perm k' in
    elim (walkpgdir pgdir a true k) [
      | panic m ↦ some (panic m)
      | ok r ↦ elim (r.0) [
        | none ↦ some (ok (false, r.1))
        | some pte ↦
            if present (r.1.mem pte)
            then some (panic "remap")
            else (let k' = store pte (pte_word pa perm) (r.1) in
                if a == last then some (ok (true, k')) else rest k')
      ]
    ]

unfoldable pub mappages : ℕ → ℕ → ℕ → ℕ → ℕ → ℕ → Kmem → Option (Result (Bool × Kmem))
mappages fuel pgdir va size pa perm k =
    mappages_loop fuel pgdir (pgrounddown va) (pgrounddown (u64 (va + size + 2 ^ 64 - 1))) pa perm k

-- The mapping of one page at a page's address, where the loop has one round.
abbrev pub map_page : ℕ → ℕ → ℕ → ℕ → Kmem → Result (Bool × Kmem)
map_page pgdir a pa perm k = elim (mappages 1 pgdir a pgsize pa perm k) [
  | none ↦ ok (false, k)
  | some r ↦ r
]

-- `setupkvm`, with `kpdpt`
unfoldable pub setupkvm : ℕ → Kmem → Result (ℕ × Kmem)
setupkvm kpdpt k = kalloc k >>= λ r.
    ok (r.0, store (entry r.0 256) (v2p kpdpt + 3) (record (r.1) { mem = zero_page r.1.mem r.0 }))

-- `kvmalloc` up to `switchkvm`: `kpml4` and `kpdpt`
unfoldable pub kvmalloc : Kmem → Result (ℕ × ℕ × Kmem)
kvmalloc k = kalloc k >>= λ r.
    let k1 = record (r.1) { mem = zero_page r.1.mem r.0 } in
    kalloc k1 >>= λ s.
    let k2 = record (s.1) { mem = zero_page s.1.mem s.0 } in
    let k3 = store (entry r.0 (pmx kernbase)) (v2p s.0 + 3) k2 in
    let k4 = store (entry s.0 0) (0x80 + 3) k3 in
    ok (r.0, s.0, store (entry s.0 3) (0xC0000000 + 0x80 + 3 + 0x18) k4)

-- `clearpteu`
unfoldable pub clearpteu : ℕ → ℕ → Kmem → Result Kmem
clearpteu pgdir uva k = walkpgdir pgdir uva false k >>= λ r. elim (r.0) [
  | none ↦ panic "clearpteu"
  | some pte ↦ let w = r.1.mem pte in ok (if is_user w then store pte (w - 4) (r.1) else r.1)
]

-- `uva2ka`, with `none` for 0. The code reads `*pte` even where `walkpgdir` returns 0: that fault is a
-- panic here.
unfoldable pub uva2ka : ℕ → ℕ → Kmem → Result (Option ℕ)
uva2ka pgdir uva k = walkpgdir pgdir uva false k >>= λ r. elim (r.0) [
  | none ↦ panic "page fault"
  | some pte ↦
      let w = r.1.mem pte in ok (if present w && is_user w then some (p2v (pte_addr w)) else none)
]

module _ (kend : ℕ) where
  -- The body of the loop of `deallocuvm` for the page at `a`.
  unfoldable pub dealloc_page : ℕ → ℕ → Kmem → Result Kmem
  dealloc_page pgdir a k = walkpgdir pgdir a false k >>= λ r. elim (r.0) [
    | none ↦ ok (r.1)
    | some pte ↦
        let pa = pte_addr (r.1.mem pte) in
        if present (r.1.mem pte)
        then (if pa == 0
            then panic "kfree"
            else kfree kend (p2v pa) (r.1) >>= λ k'. ok (store pte 0 k'))
        else ok (r.1)
  ]

  -- The loop of `deallocuvm`; user addresses are below KERNBASE, so `a` does not wrap.
  unfoldable pub dealloc_loop : ℕ → ℕ → ℕ → ℕ → Kmem → Result Kmem
  dealloc_loop zero pgdir a oldsz k = ok k
  dealloc_loop (suc fuel) pgdir a oldsz k =
      let rest = λ (k' : Kmem). dealloc_loop fuel pgdir (a + pgsize) oldsz k' in
      if ltb a oldsz then dealloc_page pgdir a k >>= rest else ok k

  unfoldable pub deallocuvm : ℕ → ℕ → ℕ → Kmem → Result (ℕ × Kmem)
  deallocuvm pgdir oldsz newsz k =
      if leb oldsz newsz
      then ok (oldsz, k)
      else dealloc_loop (oldsz / pgsize + 1) pgdir (pgroundup newsz) oldsz k >>= λ k'.
          ok (newsz, k')

  -- The loop of `allocuvm`: `true` when all pages are there.
  unfoldable pub alloc_loop : ℕ → ℕ → ℕ → ℕ → ℕ → Kmem → Result (Bool × Kmem)
  alloc_loop zero pgdir a oldsz newsz k = ok (true, k)
  alloc_loop (suc fuel) pgdir a oldsz newsz k =
      let rest = λ (k' : Kmem). alloc_loop fuel pgdir (a + pgsize) oldsz newsz k' in
      let undo = λ (k' : Kmem). deallocuvm pgdir newsz oldsz k' >>= λ r. ok (r.1) in
      if ltb a newsz
      then (kalloc k >>= λ r.
          if r.0 == 0
          then (undo r.1 >>= λ k'. ok (false, k'))
          else map_page pgdir a (v2p r.0) 6 (record (r.1) { mem = zero_page r.1.mem r.0 }) >>= λ s.
              if s.0
              then rest s.1
              else undo s.1 >>= λ k'. kfree kend (r.0) k' >>= λ k''. ok (false, k''))
      else ok (true, k)

  unfoldable pub allocuvm : ℕ → ℕ → ℕ → Kmem → Result (ℕ × Kmem)
  allocuvm pgdir oldsz newsz k =
      if leb kernbase newsz
      then ok (0, k)
      else if ltb newsz oldsz
      then ok (oldsz, k)
      else alloc_loop (newsz / pgsize + 1) pgdir (pgroundup oldsz) oldsz newsz k >>= λ r.
          ok (if r.0 then newsz else 0, r.1)

  -- One loop of `freevm`, over `n` entries of a table from `i` on: `free` takes what an entry that is
  -- present points to.
  abbrev pub free_entries : (ℕ → Kmem → Result Kmem) → ℕ → ℕ → ℕ → Kmem → Result Kmem
  free_entries free zero i table k = ok k
  free_entries free (suc n) i table k =
      let rest = λ (k' : Kmem). free_entries free n (i + 1) table k' in
      let e = k.mem (entry table i) in if present e then free (points_to e) k >>= rest else rest k

  -- The loops of `freevm` from the inside out: a page table, a page directory, a pointer table.
  unfoldable pub free_pt : ℕ → Kmem → Result Kmem
  free_pt pt k = free_entries (kfree kend) 512 0 pt k >>= kfree kend pt

  unfoldable pub free_pd : ℕ → Kmem → Result Kmem
  free_pd pd k = free_entries free_pt 512 0 pd k >>= kfree kend pd

  unfoldable pub free_pdp : ℕ → Kmem → Result Kmem
  free_pdp pdp k = free_entries free_pd 512 0 pdp k >>= kfree kend pdp

  unfoldable pub freevm : ℕ → Kmem → Result Kmem
  freevm pml4 k =
      if pml4 == 0
      then panic "freevm: no pgdir"
      else free_entries free_pdp 256 0 pml4 k >>= kfree kend pml4

  -- The loop of `copyuvm` into the table `d`: `true` when all pages are copied.
  unfoldable pub copy_loop : ℕ → ℕ → ℕ → ℕ → ℕ → Kmem → Result (Bool × Kmem)
  copy_loop zero pgdir d i sz k = ok (true, k)
  copy_loop (suc fuel) pgdir d i sz k =
      let rest = λ (k' : Kmem). copy_loop fuel pgdir d (i + pgsize) sz k' in
      let copy = λ (w : ℕ) (k' : Kmem). kalloc k' >>= λ r.
      if r.0 == 0
      then ok (false, r.1)
      else map_page d i (v2p r.0) (pte_flags w)
          (record (r.1) { mem = copy_page r.1.mem r.0 (p2v (pte_addr w)) })
        >>= λ s. if s.0 then rest s.1 else ok (false, s.1) in
      if ltb i sz
      then (walkpgdir pgdir i false k >>= λ r. elim (r.0) [
        | none ↦ panic "copyuvm: pte should exist"
        | some pte ↦
            if present (r.1.mem pte)
            then copy (r.1.mem pte) r.1
            else panic "copyuvm: page not present"
      ])
      else ok (true, k)

  -- `copyuvm(pgdir, sz)`; `sz` is a `uint`.
  unfoldable pub copyuvm : ℕ → ℕ → ℕ → Kmem → Result (ℕ × Kmem)
  copyuvm kpdpt pgdir sz k = setupkvm kpdpt k >>= λ d.
      if d.0 == 0
      then ok (0, d.1)
      else copy_loop (u32 sz / pgsize + 1) pgdir (d.0) pgsize (u32 sz) (d.1) >>= λ r.
          if r.0 then ok (d.0, r.1) else freevm (d.0) (r.1) >>= λ k'. ok (0, k')
