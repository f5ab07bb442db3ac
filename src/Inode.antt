-- ===== src/Inode.antt =====
-- fs.c: inodes on the disk and their contents, over the cache of Icache and the blocks of Fs.
pub mod Dinode
use cs461_mlfq_scheduler.Proc.{Chan, Proc}
use cs461_mlfq_scheduler.Sleeplock.{Sleeplock, acquiresleep_round, releasesleep, holdingsleep}
use cs461_mlfq_scheduler.Str.{Memory}
use cs461_mlfq_scheduler.File.{below_one}
use cs461_mlfq_scheduler.Icache.{Inode, iget, iput_frees, iput_drop}
use cs461_mlfq_scheduler.Fs.{
  bsize, Superblock, Blocks, word, half, put_word, put_half, write_block, balloc, bfree,
}
use cs461_mlfq_scheduler.Base.{
  ltb, leb, ◌==◌, if◌then◌else◌, Result, ◌>>=◌, update, ok, panic, ℕ, zero, suc, ◌+◌, ◌-◌, ◌*◌, ◌/◌,
  ◌%◌, true, ◌&&◌, ◌||◌, not, Option, none, some, List,
}

abbrev pub ndirect : ℕ
ndirect = 12

abbrev pub nindirect : ℕ
nindirect = bsize / 4

-- `IPB`, with `sizeof(struct dinode)` = 64
abbrev pub ipb : ℕ
ipb = bsize / 64

-- `IBLOCK(i, sb)`, and where the inode begins in it
abbrev pub iblock : Superblock → ℕ → ℕ
iblock sb i = i / ipb + sb.inodestart

abbrev pub dinode_at : ℕ → ℕ
dinode_at inum = inum % ipb * 64

-- `memset(dip, 0, sizeof(*dip)); dip->type = type;` at offset `o` of a block
abbrev pub fresh_dinode : ℕ → ℕ → (ℕ → ℕ) → (ℕ → ℕ)
fresh_dinode o type bytes = put_half (λ a. if leb o a && ltb a (o + 64) then 0 else bytes a) o type

-- The loop of `ialloc` over `n` inodes from `inum` on, up to the call of `iget`.
unfoldable pub ialloc_loop : ℕ → ℕ → ℕ → Blocks → Result (ℕ × Blocks)
ialloc_loop zero inum type d = panic "ialloc: no inodes"
ialloc_loop (suc n) inum type d =
    let rest = ialloc_loop n (inum + 1) type d in
    let bno = iblock d.sb inum in
    if half (d.block bno) (dinode_at inum) == 0
    then ok (inum, write_block bno (fresh_dinode (dinode_at inum) type (d.block bno)) d)
    else rest

-- The inodes in memory and the disk.
pub record Inodes : Type 0 where
  pub inode : ℕ → Inode
  pub disk : Blocks

-- `ialloc(dev, type)`: the inode in the cache
unfoldable pub ialloc : ℕ → ℕ → Inodes → Result (ℕ × Inodes)
ialloc dev type s = ialloc_loop (s.disk.sb.ninodes - 1) 1 type s.disk >>= λ r.
    iget dev r.0 s.inode >>= λ i. ok (i.0, record { inode = i.1; disk = r.1 })

-- `memmove(dip->addrs, ip->addrs, sizeof(ip->addrs))` for `n` words from `i` on
unfoldable pub put_addrs : ℕ → ℕ → ℕ → (ℕ → ℕ) → (ℕ → ℕ) → (ℕ → ℕ)
put_addrs zero i o addrs bytes = bytes
put_addrs (suc n) i o addrs bytes =
    put_addrs n (i + 1) o addrs (put_word bytes (o + 12 + 4 * i) (addrs i))

-- The fields of an inode as `iupdate` stores them at offset `o`.
unfoldable pub put_dinode : ℕ → Inode → (ℕ → ℕ) → (ℕ → ℕ)
put_dinode o ip bytes =
    let b1 = put_half bytes o ip.type in
    let b2 = put_half b1 (o + 2) ip.major in
    let b3 = put_half b2 (o + 4) ip.minor in
    let b4 = put_half b3 (o + 6) ip.nlink in
    put_addrs (ndirect + 1) 0 o ip.addrs (put_word b4 (o + 8) ip.size)

unfoldable pub iupdate : Inode → Blocks → Blocks
iupdate ip d =
    let bno = iblock d.sb ip.inum in
    write_block bno (put_dinode (dinode_at ip.inum) ip (d.block bno)) d

-- The fields as `ilock` reads them.
unfoldable pub get_dinode : ℕ → (ℕ → ℕ) → Inode → Inode
get_dinode o bytes ip = record ip {
  type = half bytes o;
  major = half bytes (o + 2);
  minor = half bytes (o + 4);
  nlink = half bytes (o + 6);
  size = word bytes (o + 8);
  addrs = λ i. if leb i ndirect then word bytes (o + 12 + 4 * i) else ip.addrs i;
  valid = true;
}

-- `ilock` behind `acquiresleep`
unfoldable pub ilock_load : Blocks → Inode → Result Inode
ilock_load d ip =
    let ip' = get_dinode (dinode_at ip.inum) (d.block (iblock d.sb ip.inum)) ip in
    if ip.valid then ok ip else if ip'.type == 0 then panic "ilock: no type" else ok ip'

-- One round of `ilock` of an inode, or of a null pointer, by process `pid`; `none` means that it
-- sleeps in `acquiresleep`.
unfoldable pub ilock : ℕ → Option ℕ → Inodes → Result (Option Inodes)
ilock pid none s = panic "ilock"
ilock pid (some i) s =
    let ip = s.inode i in
    if below_one ip.ref then panic "ilock" else elim (acquiresleep_round pid ip.lock) [
      | none ↦ ok none
      | some lk ↦ ilock_load s.disk (record ip { lock = lk }) >>= λ ip'.
          ok (some (record s { inode = update s.inode i ip' }))
    ]

-- `iunlock`; `chan i` is what the waiters for the lock of inode `i` sleep on.
unfoldable pub iunlock :
    (ℕ → Chan) → Option ℕ → (ℕ → Inode) → List Proc → Result ((ℕ → Inode) × List Proc)
iunlock chan none inode procs = panic "iunlock"
iunlock chan (some i) inode procs =
    let ip = inode i in
    let freed = releasesleep (chan i) ip.lock procs in
    if not (holdingsleep ip.lock) || below_one ip.ref
    then panic "iunlock"
    else ok (update inode i (record ip { lock = freed.0 }), freed.1)

-- `stati`
pub record Stat : Type 0 where
  pub dev : ℕ
  pub ino : ℕ
  pub type : ℕ
  pub nlink : ℕ
  pub size : ℕ

unfoldable pub stati : Inode → Stat
stati ip = record { dev = ip.dev; ino = ip.inum; type = ip.type; nlink = ip.nlink; size = ip.size }
