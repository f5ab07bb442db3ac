-- ===== src/Icache.antt =====
-- fs.c: the cache of inodes in memory. What runs under `icache.lock` is one step.
pub mod Unique
use cs461_mlfq_scheduler.Sleeplock.{Sleeplock, initsleeplock, holdingsleep}
use cs461_mlfq_scheduler.File.{below_one}
use cs461_mlfq_scheduler.Base.{
  ◌==◌, if◌then◌else◌, Result, u32, update, ok, panic, ℕ, zero, suc, ◌+◌, ◌-◌, ◌^◌, Bool, false,
  ◌&&◌, not, Option, none, some,
}

abbrev pub ninode : ℕ
ninode = 50

-- `struct inode`; `valid` is I_VALID, and `ref` is an `int`.
pub record Inode : Type 0 where
  pub dev : ℕ
  pub inum : ℕ
  pub ref : ℕ
  pub lock : Sleeplock
  pub valid : Bool
  pub type : ℕ
  pub major : ℕ
  pub minor : ℕ
  pub nlink : ℕ
  pub size : ℕ
  pub addrs : ℕ → ℕ

-- The loop of `iinit` over `n` inodes from `i` on.
unfoldable pub iinit : ℕ → ℕ → (ℕ → Inode) → (ℕ → Inode)
iinit zero i inode = inode
iinit (suc n) i inode = iinit n (i + 1) (update inode i (record (inode i) { lock = initsleeplock }))

abbrev pub is_inode : ℕ → ℕ → Inode → Bool
is_inode dev inum ip = not (below_one ip.ref) && (ip.dev == dev && ip.inum == inum)

-- How the loop of `iget` ends: at the inode, or with the first empty slot.
pub data Search : Type 0 where
  hit : ℕ → Search
  miss : Option ℕ → Search

-- `if(empty == 0 && ip->ref == 0) empty = ip;`
abbrev pub remember : Option ℕ → ℕ → Inode → Option ℕ
remember (some e) i ip = some e
remember none i ip = if ip.ref == 0 then some i else none

-- The loop over `n` inodes from `i` on.
unfoldable pub iget_scan : ℕ → ℕ → Option ℕ → ℕ → ℕ → (ℕ → Inode) → Search
iget_scan zero i empty dev inum inode = miss empty
iget_scan (suc n) i empty dev inum inode =
    let next = iget_scan n (i + 1) (remember empty i (inode i)) dev inum inode in
    if is_inode dev inum (inode i) then hit i else next

abbrev pub take_slot : ℕ → ℕ → Inode → Inode
take_slot dev inum ip = record ip { dev = dev; inum = inum; ref = 1; valid = false }

abbrev pub one_more : Inode → Inode
one_more ip = record ip { ref = u32 (ip.ref + 1) }

unfoldable pub iget : ℕ → ℕ → (ℕ → Inode) → Result (ℕ × (ℕ → Inode))
unfolding iget_scan
iget dev inum inode = elim (iget_scan ninode 0 none dev inum inode) [
  | hit i ↦ ok (i, update inode i (one_more (inode i)))
  | miss empty ↦ elim empty [
    | none ↦ panic "iget: no inodes"
    | some i ↦ ok (i, update inode i (take_slot dev inum (inode i)))
  ]
]

unfoldable pub idup : ℕ → (ℕ → Inode) → (ℕ → Inode)
idup i inode = update inode i (one_more (inode i))

-- The test of `iput`: whether it truncates the inode before it drops the reference.
abbrev pub iput_frees : Inode → Bool
iput_frees ip = ip.ref == 1 && (ip.valid && ip.nlink == 0)

-- `iput` behind the truncation; `freed` says whether there was one.
unfoldable pub iput_drop : Bool → ℕ → (ℕ → Inode) → (ℕ → Inode)
iput_drop freed i inode =
    let ip = inode i in
    update inode i
      (record ip { valid = if freed then false else ip.valid; ref = u32 (ip.ref + 2 ^ 32 - 1) })
