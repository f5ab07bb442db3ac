-- ===== src/Content.antt =====
-- fs.c: the contents of inodes, by their block maps.
pub mod Map
pub mod Grow
pub mod Bmap
pub mod Bytes
pub mod Overwrite
pub mod Write
pub mod Calls
pub mod Truncate
pub mod Empty
use cs461_mlfq_scheduler.Str.{Memory}
use cs461_mlfq_scheduler.Icache.{Inode, iput_frees, iput_drop}
use cs461_mlfq_scheduler.Fs.{bsize, Blocks, word, put_word, write_block, balloc, bfree}
use cs461_mlfq_scheduler.Inode.{ndirect, nindirect, Inodes, iupdate}
use cs461_mlfq_scheduler.Base.{
  ltb, leb, ◌==◌, if◌then◌else◌, Result, ◌>>=◌, u32, update, ok, panic, ℕ, zero, suc, ◌+◌, ◌-◌, ◌*◌,
  ◌/◌, ◌%◌, ◌^◌, min, Bool, true, false, ◌&&◌, ◌||◌, not, Option, none, some,
}

-- `maxfile`, in blocks
abbrev pub maxfile : ℕ
maxfile = ndirect + nindirect

abbrev pub set_addr : Inode → ℕ → ℕ → Inode
set_addr ip i addr = record ip { addrs = update ip.addrs i addr }

-- `if((addr = ip->addrs[i]) == 0) ip->addrs[i] = addr = balloc(ip->dev);`
abbrev pub map_slot : ℕ → Inode → Blocks → Result (ℕ × Inode × Blocks)
map_slot i ip d =
    if ip.addrs i == 0
    then (balloc d >>= λ r. ok (r.0, set_addr ip i r.0, r.1))
    else ok (ip.addrs i, ip, d)

-- The same for word `i` of the indirect block `ind`, with `log_write`.
abbrev pub map_word : ℕ → ℕ → Blocks → Result (ℕ × Blocks)
map_word ind i d =
    let addr = word (d.block ind) (4 * i) in
    if addr == 0
    then (balloc d >>= λ r. ok (r.0, write_block ind (put_word (r.1.block ind) (4 * i) r.0) r.1))
    else ok (addr, d)

-- `bmap(ip, bn)`: the number of the block, the inode and the disk
unfoldable pub bmap : ℕ → Inode → Blocks → Result (ℕ × Inode × Blocks)
bmap bn ip d =
    if ltb bn ndirect
    then map_slot bn ip d
    else if ltb (bn - ndirect) nindirect
    then (map_slot ndirect ip d >>= λ r.
        map_word r.0 (bn - ndirect) r.2 >>= λ w. ok (w.0, r.1, w.1))
    else panic "bmap: out of range"

-- The first loop of `itrunc`, over `n` addresses from `i` on.
unfoldable pub free_direct : ℕ → ℕ → Inode → Blocks → Result (Inode × Blocks)
free_direct zero i ip d = ok (ip, d)
free_direct (suc n) i ip d =
    if ip.addrs i == 0
    then free_direct n (i + 1) ip d
    else bfree (ip.addrs i) d >>= λ d'. free_direct n (i + 1) (set_addr ip i 0) d'

-- The second one, over `n` words from `j` on of the indirect block `ind`.
unfoldable pub free_words : ℕ → ℕ → ℕ → Blocks → Result Blocks
free_words zero j ind d = ok d
free_words (suc n) j ind d =
    let addr = word (d.block ind) (4 * j) in
    if addr == 0
    then free_words n (j + 1) ind d
    else bfree addr d >>= λ d'. free_words n (j + 1) ind d'

abbrev pub free_indirect : Inode → Blocks → Result (Inode × Blocks)
free_indirect ip d =
    let ind = ip.addrs ndirect in
    if ind == 0
    then ok (ip, d)
    else free_words nindirect 0 ind d >>= λ d1.
        bfree ind d1 >>= λ d2. ok (set_addr ip ndirect 0, d2)

unfoldable pub itrunc : Inode → Blocks → Result (Inode × Blocks)
itrunc ip d = free_direct ndirect 0 ip d >>= λ r. free_indirect r.0 r.1 >>= λ r'.
    let ip' = record (r'.0) { size = 0 } in ok (ip', iupdate ip' r'.1)

-- The truncation in `iput`, up to its `acquire`.
abbrev pub iput_frees_disk : Inode → Blocks → Result (Inode × Blocks)
iput_frees_disk ip d =
    itrunc ip d >>= λ r. let ip' = record (r.0) { type = 0 } in ok (ip', iupdate ip' r.1)

unfoldable pub iput : ℕ → Inodes → Result Inodes
iput i s =
    if iput_frees (s.inode i)
    then (iput_frees_disk (s.inode i) s.disk >>= λ r.
        ok (record { inode = iput_drop true i (update s.inode i r.0); disk = r.1 }))
    else ok (record s { inode = iput_drop false i s.inode })

-- `memmove` between the memory and a buffer: `m` bytes from offset `k` of the block to `dst`, and
-- `m` bytes from `src` to offset `k`.
abbrev pub from_block : (ℕ → ℕ) → ℕ → Memory → ℕ → ℕ → Memory
from_block bytes k mem dst m a =
    if leb dst a && ltb a (dst + m) then bytes (k + (a - dst)) else mem a

abbrev pub to_block : (ℕ → ℕ) → ℕ → Memory → ℕ → ℕ → (ℕ → ℕ)
to_block bytes k mem src m i = if leb k i && ltb i (k + m) then mem (src + (i - k)) else bytes i

-- `min(n - tot, BSIZE - off%BSIZE)`, with `left` for `n - tot`
abbrev pub chunk : ℕ → ℕ → ℕ
chunk left off = min left (bsize - off % bsize)

-- The loop of `readi`, with `left` for `n - tot`, which each round makes smaller. `off + left` stays
-- below 2 ^ 32, so `off+=m` does not wrap.
unfoldable pub readi_loop :
    ℕ → Memory → ℕ → ℕ → ℕ → Inode → Blocks → Result (Memory × Inode × Blocks)
readi_loop zero mem dst off left ip d = ok (mem, ip, d)
readi_loop (suc fuel) mem dst off left ip d =
    let m = chunk left off in
    let rest = λ (r : ℕ × Inode × Blocks).
      readi_loop fuel (from_block (r.2.block r.0) (off % bsize) mem dst m) (dst + m) (off + m)
        (left - m) r.1 r.2 in
    if left == 0 then ok (mem, ip, d) else bmap (off / bsize) ip d >>= rest

-- The loop of `writei`: the last offset, the inode and the disk.
unfoldable pub writei_loop : ℕ → Memory → ℕ → ℕ → ℕ → Inode → Blocks → Result (ℕ × Inode × Blocks)
writei_loop zero mem src off left ip d = ok (off, ip, d)
writei_loop (suc fuel) mem src off left ip d =
    let m = chunk left off in
    let rest = λ (r : ℕ × Inode × Blocks).
      writei_loop fuel mem (src + m) (off + m) (left - m) r.1
        (write_block r.0 (to_block (r.2.block r.0) (off % bsize) mem src m) r.2) in
    if left == 0 then ok (off, ip, d) else bmap (off / bsize) ip d >>= rest

abbrev pub t_dir : ℕ
t_dir = 1

abbrev pub t_dev : ℕ
t_dev = 3

abbrev pub ndev : ℕ
ndev = 10

-- The functions of `devsw`, by major numbers, with null pointers as `none`: `read(ip, off, dst, n)`
-- and `write(ip, off, src, n)`, where -1 is `none`.
pub record Devsw : Type 0 where
  pub read : ℕ → Option (Inode → ℕ → Memory → ℕ → ℕ → Result (Option ℕ × Memory))
  pub write : ℕ → Option (Inode → ℕ → Memory → ℕ → ℕ → Result (Option ℕ))

-- `ip->major < 0 || ip->major >= NDEV`, for a `short`
abbrev pub bad_major : ℕ → Bool
bad_major major = leb (2 ^ 15) major || leb ndev major

module _ (devsw : Devsw) where
  -- `readi(ip, dst, off, n)`: the result, with `none` for -1; the memory, the inode and the disk.
  unfoldable pub readi :
      Inode → Memory → ℕ → ℕ → ℕ → Blocks → Result (Option ℕ × Memory × Inode × Blocks)
  readi ip mem dst off n d =
      if ip.type == t_dev
      then (if bad_major ip.major then ok (none, mem, ip, d) else elim (devsw.read ip.major) [
        | none ↦ ok (none, mem, ip, d)
        | some read ↦ read ip off mem dst n >>= λ r. ok (r.0, r.1, ip, d)
      ])
      else if ltb ip.size off || ltb (u32 (off + n)) off
      then ok (none, mem, ip, d)
      else (let n' = if ltb ip.size (u32 (off + n)) then ip.size - off else n in
          readi_loop n' mem dst off n' ip d >>= λ r. ok (some n', r.0, r.1, r.2))

  -- `writei(ip, src, off, n)`
  unfoldable pub writei : Inode → Memory → ℕ → ℕ → ℕ → Blocks → Result (Option ℕ × Inode × Blocks)
  writei ip mem src off n d =
      if ip.type == t_dev
      then (if bad_major ip.major then ok (none, ip, d) else elim (devsw.write ip.major) [
        | none ↦ ok (none, ip, d)
        | some write ↦ write ip off mem src n >>= λ r. ok (r, ip, d)
      ])
      else if ltb ip.size off || ltb (u32 (off + n)) off
      then ok (none, ip, d)
      else if ltb (maxfile * bsize) (u32 (off + n))
      then ok (none, ip, d)
      else writei_loop n mem src off n ip d >>= λ r.
          (let grown = record (r.1) { size = r.0 } in
            if not (n == 0) && ltb r.1.size r.0
            then ok (some n, grown, iupdate grown r.2)
            else ok (some n, r.1, r.2))
