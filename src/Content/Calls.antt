-- ===== src/Content/Calls.antt =====
-- fs.c: `readi` and `writei` as operations on one sequence of bytes: what is written is read back.
use cs461_mlfq_scheduler.Str.{Memory}
use cs461_mlfq_scheduler.Icache.{Inode}
use cs461_mlfq_scheduler.Fs.{bsize, Blocks, write_block}
use cs461_mlfq_scheduler.Inode.{ndirect, iupdate, put_dinode, dinode_at}
use cs461_mlfq_scheduler.Content.{
  maxfile, bmap, to_block, chunk, writei_loop, t_dev, Devsw, readi, writei, readi_loop,
}
use cs461_mlfq_scheduler.Content.Map.{home, slot, IsFile}
use cs461_mlfq_scheduler.Content.Grow.{slot_of}
use cs461_mlfq_scheduler.Content.Bmap.{slot_byte, byte_at, Mapped, bmap_lem}
use cs461_mlfq_scheduler.Content.Overwrite.{over-IsFile, slot_byte-over_ne}
use cs461_mlfq_scheduler.Content.Bytes.{
  read_in, Read, readi_loop_lem, written, limit, slot_of_bounds, Mapped-contents,
}
use cs461_mlfq_scheduler.Content.Write.{filled_block, round_lem, written_ext}
use cs461_mlfq_scheduler.Base.{
  ltb, leb, ◌==◌, if◌then◌else◌, Bool-cases, Returns, Returns-elim, Returns-weaken, Returns->>=,
  u32, ok, returns, ℕ, zero, suc, ◌+◌, ◌-◌, ◌*◌, ◌/◌, ◌%◌, ◌^◌, ◌≤◌, ◌<◌, min, ◌≡◌, refl, sym, ap,
  ◌∙◌, ◌≢◌, ◌⊎◌, inl, inr, true, false, ◌&&◌, ◌||◌, not, Option, none, some, arith,
}

-- What `writei` leaves.
pub record Wrote (mem : Memory) (src off n : ℕ) (ip : Inode) (d : Blocks) (ip' : Inode)
    (d' : Blocks) : Type 0 where
  pub bytes : (x : ℕ) → x < limit → byte_at ip' d' x ≡ written mem src off n (byte_at ip d) x
  pub kept : ip' ≡ record ip { addrs = ip'.addrs }
  pub file : IsFile ip' d'

-- The first `m` of `left` bytes, and then the others.
written_split :
    (f g h : ℕ → ℕ) (mem : Memory) (src off left m x : ℕ)
    → m ≤ left
    → h x ≡ written mem (src + m) (off + m) (left - m) g x
    → g x ≡ written mem src off m f x
    → h x ≡ written mem src off left f x
written_split f g h mem src off left m x le e e' = elim (Bool-cases (leb (off + m) x)) [
  | inl hi ↦
      let at : src + m + (x - (off + m)) ≡ src + (x - off) = ground arith in
      let at' = ap mem at in ground arith
  | inr lo ↦ ground arith
]

pub writei_loop_lem :
    (fuel : ℕ) (mem : Memory) (src off left : ℕ) (ip : Inode) (d : Blocks)
    → IsFile ip d
    → left ≤ fuel
    → off + left ≤ limit
    → Returns
        (writei_loop fuel mem src off left ip d)
        (λ r. (r.0 ≡ off + left) × Wrote mem src off left ip d r.1 r.2)
unfolding writei_loop
writei_loop_lem zero mem src off left ip d v enough fits =
    returns (off, ip, d) refl
      (omega arith, record { bytes = λ x h. ground arith; kept = refl; file = v })
writei_loop_lem (suc fuel) mem src off left ip d v enough fits = elim (Bool-cases (left == 0)) [
  | inl done ↦ rw done (
      returns (off, ip, d) refl
        (ground arith, record { bytes = λ x h. ground arith; kept = refl; file = v }))
  | inr more ↦ rw more (
      Returns->>= (bmap (off / bsize) ip d) _ (bmap_lem (off / bsize) ip d v) (λ r y.
        let w =
          round_lem mem src off m r.0 r.1 r.2 y.file y.at y.there (omega arith) (ground arith)
            (omega arith) in
        Returns-weaken (λ s z. step r.0 r.1 r.2 s.0 s.1 s.2 y w.1 z)
          (writei_loop_lem fuel mem (src + m) (off + m) (left - m) r.1
            (write_block r.0 (to_block (r.2.block r.0) (off % bsize) mem src m) r.2) w.0
            (ground arith) (omega arith))))
]
  where
    m : ℕ
    m = chunk left off

    step :
        (r : ℕ) (ip1 : Inode) (d1 : Blocks) (off' : ℕ) (ip' : Inode) (d' : Blocks)
        → Mapped (off / bsize) ip d r ip1 d1
        → ((x : ℕ)
            → x < limit
            → byte_at ip1 (filled_block mem src off m r d1) x
              ≡ written mem src off m (byte_at ip1 d1) x)
        → (off' ≡ off + m + (left - m))
          × Wrote mem (src + m) (off + m) (left - m) ip1 (filled_block mem src off m r d1) ip' d'
        → (off' ≡ off + left) × Wrote mem src off left ip d ip' d'
    step r ip1 d1 off' ip' d' y w z = (
      omega (arith, z.0),
      record {
        bytes = λ x h.
            written_split (byte_at ip d) (byte_at ip1 (filled_block mem src off m r d1))
              (byte_at ip' d') mem src off left m x (omega arith) (z.1.bytes x h)
              (w x h
                ∙ written_ext mem src off m (byte_at ip1 d1) (byte_at ip d) x
                    (Mapped-contents (off / bsize) x ip d r ip1 d1 y h));
        kept = z.1.kept ∙ ap {A = Inode} (λ i. record i { addrs = ip'.addrs }) y.kept;
        file = z.1.file;
      },
    )

-- The inode's own block is written, and its size changes.
module _ (ip : Inode) (d : Blocks) (size : ℕ) (bytes : ℕ → ℕ) (v : IsFile ip d) where
  not_home : slot ip d ndirect ≢ 0 → slot ip d ndirect ≢ home ip d
  not_home = v.home_apart ndirect (omega arith)

  at_home-IsFile : IsFile (record ip { size = size }) (write_block (home ip d) bytes d)
  unfolding slot
  at_home-IsFile =
      let f = over-IsFile ip d (home ip d) bytes v v.home_data not_home in
      record {
        fs = f.fs;
        owned = f.owned;
        apart = f.apart;
        home_data = f.home_data;
        home_apart = f.home_apart;
      }

  byte_at-at_home :
      (x : ℕ)
      → x < limit
      → byte_at (record ip { size = size }) (write_block (home ip d) bytes d) x ≡ byte_at ip d x
  unfolding slot slot_byte
  byte_at-at_home x lt =
      let k = slot_of (x / bsize) in
      let h = (slot_of_bounds (x / bsize) (omega arith)).0 in
      slot_byte-over_ne ip d (home ip d) bytes v v.home_data not_home k (x % bsize) h
        (v.home_apart k h)

-- The size behind a write up to `end`.
abbrev pub grown : ℕ → ℕ → ℕ
grown size end = if ltb size end then end else size

-- All that `writei` promises: it returns n; the contents have the bytes at `off`, and the old bytes
-- everywhere else; the size is what the write reaches, if that is more; all is in order again.
pub record Written (mem : Memory) (src off n : ℕ) (ip : Inode) (d : Blocks)
    (r : Option ℕ × Inode × Blocks) : Type 0 where
  pub count : r.0 ≡ some n
  pub bytes : (x : ℕ) → x < limit → byte_at r.1 r.2 x ≡ written mem src off n (byte_at ip d) x
  pub size : r.1.size ≡ grown ip.size (off + n)
  pub type : r.1.type ≡ ip.type
  pub file : IsFile r.1 r.2

module _ (devsw : Devsw) where
  -- What the end of `writei` makes of what its loop left.
  finish :
      (ip : Inode) (mem : Memory) (src off n : ℕ) (d : Blocks) (end : ℕ) (ip1 : Inode) (d1 : Blocks)
      → off ≤ ip.size
      → end ≡ off + n
      → Wrote mem src off n ip d ip1 d1
      → Returns {A = Option ℕ × Inode × Blocks}
          (let larger = record ip1 { size = end } in
            if not (n == 0) && ltb ip1.size end
            then ok (some n, larger, iupdate larger d1)
            else ok (some n, ip1, d1))
          (Written mem src off n ip d)
  unfolding iupdate
  finish ip mem src off n d end ip1 d1 le e w =
      let size : ip1.size ≡ ip.size = ap {A = Inode} (λ i. i.size) w.kept in
      let type : ip1.type ≡ ip.type = ap {A = Inode} (λ i. i.type) w.kept in
      let larger = record ip1 { size = end } in
      let bytes = put_dinode (dinode_at ip1.inum) larger (d1.block (home ip1 d1)) in
      elim (Bool-cases (not (n == 0) && ltb ip1.size end)) [
        | inl more ↦ rw more (
            returns _ refl (record {
              count = refl;
              bytes = λ x h. byte_at-at_home ip1 d1 end bytes w.file x h ∙ w.bytes x h;
              size = ground arith;
              type = type;
              file = at_home-IsFile ip1 d1 end bytes w.file;
            }))
        | inr same ↦ rw same (
            returns _ refl (record {
              count = refl;
              bytes = w.bytes;
              size = ground arith;
              type = type;
              file = w.file;
            }))
      ]

  -- `writei` to a file or directory in order, from an offset inside of it or at its end and within
  -- MAXFILE blocks, if it comes back, has written all `n` bytes: the contents have them at `off` and
  -- are as before everywhere else, whether blocks were there or not; the size is what the write
  -- reaches, if that is more; and the inode and the disk are in order.
  pub writei_lem :
      (ip : Inode) (mem : Memory) (src off n : ℕ) (d : Blocks)
      → IsFile ip d
      → ip.type ≢ t_dev
      → off ≤ ip.size
      → off + n ≤ limit
      → Returns (writei devsw ip mem src off n d) (Written mem src off n ip d)
  unfolding writei
  writei_lem ip mem src off n d v file le fits =
      let t : (ip.type == t_dev) ≡ false = ground arith in
      let in_size : ltb ip.size off || ltb (u32 (off + n)) off ≡ false = ground arith in
      let in_max : ltb (maxfile * bsize) (u32 (off + n)) ≡ false = ground arith in
      rw (t, in_size, in_max)
        (Returns->>= (writei_loop n mem src off n ip d) _
          (writei_loop_lem n mem src off n ip d v (omega arith) fits)
          (λ r w. finish ip mem src off n d r.0 r.1 r.2 le w.0 w.1))

  -- `writei` to a file or directory returns -1 and changes nothing if the offset is behind the end, or
  -- if the write would end behind MAXFILE blocks, also where `off + n` wraps around.
  pub writei_refuses :
      (ip : Inode) (mem : Memory) (src off n : ℕ) (d : Blocks)
      → ip.type ≢ t_dev
      → off < 2 ^ 32
      → n < 2 ^ 32
      → ip.size < off ⊎ limit < off + n
      → writei devsw ip mem src off n d ≡ ok (none, ip, d)
  unfolding writei
  writei_refuses ip mem src off n d file small small' bad =
      let t : (ip.type == t_dev) ≡ false = ground arith in
      elim (Bool-cases (ltb ip.size off || ltb (u32 (off + n)) off)) [
        | inl refused ↦ rw (t, refused) refl
        | inr inside ↦
            let over : ltb (maxfile * bsize) (u32 (off + n)) ≡ true = ground arith in
            rw (t, inside, over) refl
      ]

  pub readi_lem :
      (ip : Inode) (mem : Memory) (dst off n : ℕ) (d : Blocks)
      → IsFile ip d
      → ip.type ≢ t_dev
      → off ≤ ip.size
      → ip.size ≤ limit
      → off + n < 2 ^ 32
      → Returns (readi devsw ip mem dst off n d) (λ r.
        (r.0 ≡ some (min n (ip.size - off)))
        × Read mem dst off (min n (ip.size - off)) ip d r.1 r.2 r.3)
  unfolding readi
  readi_lem ip mem dst off n d v file le fits small =
      let t : (ip.type == t_dev) ≡ false = ground arith in
      let in_size : ltb ip.size off || ltb (u32 (off + n)) off ≡ false = ground arith in
      let len : (if ltb ip.size (u32 (off + n)) then ip.size - off else n) ≡ min n (ip.size - off) =
        ground arith in
      rw (t, in_size, len)
        (Returns->>= (readi_loop (min n (ip.size - off)) mem dst off (min n (ip.size - off)) ip d) _
          (readi_loop_lem (min n (ip.size - off)) mem dst off (min n (ip.size - off)) ip d v
            (omega arith) (omega arith))
          (λ r w. returns _ refl (refl, w)))

  -- What `writei` has written to a file in order, `readi` reads back: if both calls come back, then
  -- `readi` returns n, and the `n` bytes at `dst` are the ones that were at `src`.
  pub readi-writei :
      (ip : Inode) (mem mem' : Memory) (src dst off n : ℕ) (d : Blocks)
      (r : Option ℕ × Inode × Blocks)
      → IsFile ip d
      → ip.type ≢ t_dev
      → off ≤ ip.size
      → ip.size ≤ limit
      → off + n ≤ limit
      → writei devsw ip mem src off n d ≡ ok r
      → Returns
          (readi devsw r.1 mem' dst off n r.2)
          (λ s. (s.0 ≡ some n) × ((i : ℕ) → i < n → s.1 (dst + i) ≡ mem (src + i)))
  readi-writei ip mem mem' src dst off n d r v file le small fits e =
      let w = Returns-elim e (writei_lem ip mem src off n d v file le fits) in
      let whole : min n (r.1.size - off) ≡ n = ground (arith, w.size) in
      Returns-weaken (λ s z. (z.0 ∙ ap some whole, λ i h. z.1.bytes (dst + i) ∙ at r i w whole h))
        (readi_lem r.1 mem' dst off n r.2 w.file (λ q. file (sym w.type ∙ q))
          (ground (arith, w.size)) (ground (arith, w.size)) (omega arith))
    where
      at :
          (r : Option ℕ × Inode × Blocks) (i : ℕ)
          → Written mem src off n ip d r
          → min n (r.1.size - off) ≡ n
          → i < n
          → read_in mem' dst off (min n (r.1.size - off)) (byte_at r.1 r.2) (dst + i)
            ≡ mem (src + i)
      at r i w whole h =
          let b = w.bytes (off + i) (omega arith) in
          let e1 : dst + i - dst ≡ i = omega arith in
          let e2 : off + i - off ≡ i = omega arith in
          let c1 : leb dst (dst + i) && ltb (dst + i) (dst + min n (r.1.size - off)) ≡ true =
            ground arith in
          let c2 : leb off (off + i) && ltb (off + i) (off + n) ≡ true = ground arith in
          rw (c1, e1) (b ∙ rw (c2, e2) refl)
