-- ===== src/Fs.antt =====
-- fs.h and fs.c: the super block, and the allocator of disk blocks over the bitmap. The disk is what
-- `bread` returns for each block of the one device, as bytes.
pub mod Bits
pub mod Words
pub mod Bitmap
pub mod Alloc
use cs461_mlfq_scheduler.Str.{memset}
use cs461_mlfq_scheduler.Base.{
  ltb, ◌==◌, if◌then◌else◌, Result, update, ok, panic, ℕ, zero, suc, ◌+◌, ◌-◌, ◌*◌, ◌/◌, ◌%◌, ◌^◌,
  Bool, Option, none, some, List, ◌∷◌,
}

abbrev pub bsize : ℕ
bsize = 512

-- `BPB`, the bits of a block
abbrev pub bpb : ℕ
bpb = bsize * 8

pub record Superblock : Type 0 where
  pub size : ℕ
  pub nblocks : ℕ
  pub ninodes : ℕ
  pub nlog : ℕ
  pub logstart : ℕ
  pub inodestart : ℕ
  pub bmapstart : ℕ

-- The blocks as `bread` returns them, `sb` of fs.c, and the blocks that were passed to `log_write`,
-- the last one first.
pub record Blocks : Type 0 where
  pub block : ℕ → ℕ → ℕ
  pub sb : Superblock
  pub logged : List ℕ

-- A little-endian word of 4 bytes, and one of 2.
abbrev pub word : (ℕ → ℕ) → ℕ → ℕ
word bytes i = bytes i + 256 * bytes (i + 1) + 65536 * bytes (i + 2) + 16777216 * bytes (i + 3)

abbrev pub half : (ℕ → ℕ) → ℕ → ℕ
half bytes i = bytes i + 256 * bytes (i + 1)

unfoldable pub put_word : (ℕ → ℕ) → ℕ → ℕ → (ℕ → ℕ)
put_word bytes i v =
    update
      (update (update (update bytes i (v % 256)) (i + 1) (v / 256 % 256)) (i + 2) (v / 65536 % 256))
      (i + 3) (v / 16777216 % 256)

unfoldable pub put_half : (ℕ → ℕ) → ℕ → ℕ → (ℕ → ℕ)
put_half bytes i v = update (update bytes i (v % 256)) (i + 1) (v / 256 % 256)

-- `readsb`, of block 1 into `sb`
unfoldable pub readsb : Blocks → Blocks
readsb d =
    let bytes = d.block 1 in
    record d {
      sb = record {
        size = word bytes 0;
        nblocks = word bytes 4;
        ninodes = word bytes 8;
        nlog = word bytes 12;
        logstart = word bytes 16;
        inodestart = word bytes 20;
        bmapstart = word bytes 24;
      };
    }

-- A block that is changed in its buffer and passed to `log_write`, whose own panics are those of Log
-- and not repeated here.
abbrev pub write_block : ℕ → (ℕ → ℕ) → Blocks → Blocks
write_block b bytes d = record d { block = update d.block b bytes; logged = b ∷ d.logged }

unfoldable pub bzero : ℕ → Blocks → Blocks
bzero b d = write_block b (memset (d.block b) 0 0 bsize) d

-- `BBLOCK(b, sb)`
abbrev pub bblock : Superblock → ℕ → ℕ
bblock sb b = b / bpb + sb.bmapstart

-- `(bytes[bi/8] & m) == 0` for `m = 1 << (bi % 8)`
abbrev pub is_clear : (ℕ → ℕ) → ℕ → Bool
is_clear bytes bi = bytes (bi / 8) / 2 ^ (bi % 8) % 2 == 0

-- `bytes[bi/8] |= m` where the bit is clear, and `bytes[bi/8] &= ~m` where it is set
abbrev pub mark : (ℕ → ℕ) → ℕ → (ℕ → ℕ)
mark bytes bi = update bytes (bi / 8) (bytes (bi / 8) + 2 ^ (bi % 8))

abbrev pub unmark : (ℕ → ℕ) → ℕ → (ℕ → ℕ)
unmark bytes bi = update bytes (bi / 8) (bytes (bi / 8) - 2 ^ (bi % 8))

-- The inner loop of `balloc`, over `n` bits from `bi` on.
unfoldable pub scan_bits : ℕ → (ℕ → ℕ) → ℕ → ℕ → ℕ → Option ℕ
scan_bits zero bytes size b bi = none
scan_bits (suc n) bytes size b bi =
    let rest = scan_bits n bytes size b (bi + 1) in
    if ltb (b + bi) size then if is_clear bytes bi then some bi else rest else none

-- The block `b + bi` is marked in the bitmap and zeroed.
abbrev pub take_bit : ℕ → ℕ → Blocks → Blocks
take_bit b bi d =
    let bno = bblock d.sb b in bzero (b + bi) (write_block bno (mark (d.block bno) bi) d)

-- The outer loop of `balloc` for `n` more groups of blocks, the next one at `b`.
unfoldable pub balloc_loop : ℕ → ℕ → Blocks → Result (ℕ × Blocks)
balloc_loop zero b d = panic "balloc: out of blocks"
balloc_loop (suc n) b d =
    let rest = balloc_loop n (b + bpb) d in
    if ltb b d.sb.size
    then elim (scan_bits bpb (d.block (bblock d.sb b)) d.sb.size b 0) [
      | none ↦ rest
      | some bi ↦ ok (b + bi, take_bit b bi d)
    ]
    else panic "balloc: out of blocks"

-- `balloc`. There are less than 2 ^ 31 blocks, so the `int` counters do not wrap.
unfoldable pub balloc : Blocks → Result (ℕ × Blocks)
balloc d = balloc_loop (d.sb.size / bpb + 1) 0 d

unfoldable pub bfree : ℕ → Blocks → Result Blocks
bfree b d0 =
    let d = readsb d0 in
    let bno = bblock d.sb b in
    if is_clear (d.block bno) (b % bpb)
    then panic "freeing free block"
    else ok (write_block bno (unmark (d.block bno) (b % bpb)) d)
