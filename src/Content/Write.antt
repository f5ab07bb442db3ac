-- ===== src/Content/Write.antt =====
-- fs.c: `writei` changes exactly the bytes that it is given.
use mathlib.Core.Path.{subst}
use native.Mathlib.Decide.{ℕ_discrete}
use cs461_mlfq_scheduler.Str.{Memory}
use cs461_mlfq_scheduler.Icache.{Inode}
use cs461_mlfq_scheduler.Fs.{bsize, Blocks, write_block}
use cs461_mlfq_scheduler.Inode.{ndirect}
use cs461_mlfq_scheduler.Content.{to_block}
use cs461_mlfq_scheduler.Content.Map.{slots, slot, IsData, IsFile}
use cs461_mlfq_scheduler.Content.Grow.{slot_of}
use cs461_mlfq_scheduler.Content.Bmap.{slot_byte, slot_byte_some, byte_at}
use cs461_mlfq_scheduler.Content.Overwrite.{slot-over, over-IsFile, slot_byte-over_ne}
use cs461_mlfq_scheduler.Content.Bytes.{written, limit, slot_of_bounds}
use cs461_mlfq_scheduler.Base.{
  ltb, leb, Bool-cases, update_self, ℕ, ◌+◌, ◌-◌, ◌/◌, ◌%◌, ◌≤◌, ◌<◌, ◌≡◌, refl, sym, ap, ◌∙◌, ◌≢◌,
  inl, inr, true, false, ◌&&◌, arith,
}

-- The block in slot `k` is overwritten.
module _ (ip : Inode) (d : Blocks) (k : ℕ) (bytes : ℕ → ℕ) (v : IsFile ip d) (lt : k < slots)
    (direct : k ≢ ndirect) (nz : slot ip d k ≢ 0) where
  mine : IsData d (slot ip d k)
  mine = v.owned k lt nz

  no_ind : slot ip d ndirect ≢ 0 → slot ip d ndirect ≢ slot ip d k
  no_ind h e = direct (v.apart k ndirect lt (omega arith) nz (sym e))

  abbrev over_slot : Blocks
  over_slot = write_block (slot ip d k) bytes d

  over_slot-IsFile : IsFile ip over_slot
  over_slot-IsFile = over-IsFile ip d (slot ip d k) bytes v mine no_ind

  slot_byte-over : (i : ℕ) → slot_byte ip over_slot k i ≡ bytes i
  slot_byte-over i =
      let same = slot-over ip d (slot ip d k) bytes v mine no_ind k lt in
      slot_byte_some ip over_slot k i (λ z. nz (sym same ∙ z))
      ∙ ap (λ b. over_slot.block b i) same
      ∙ ap (λ f. f i) (update_self d.block (slot ip d k) bytes)

-- One round: the block that `bmap` returned gets `m` bytes.
abbrev pub filled_block : Memory → ℕ → ℕ → ℕ → ℕ → Blocks → Blocks
filled_block mem src off m r d = write_block r (to_block (d.block r) (off % bsize) mem src m) d

slot_of_inj : (a b : ℕ) → slot_of a ≡ slot_of b → a ≡ b
slot_of_inj a b e = ground arith

pub written_ext :
    (mem : Memory) (src off n : ℕ) (f g : ℕ → ℕ) (x : ℕ)
    → f x ≡ g x
    → written mem src off n f x ≡ written mem src off n g x
written_ext mem src off n f g x e = ground arith

-- The bytes in the block of `off`, by their offsets in the block.
to_block-written :
    (mem : Memory) (src off m x : ℕ) (bytes f : ℕ → ℕ)
    → x / bsize ≡ off / bsize
    → bytes (x % bsize) ≡ f x
    → to_block bytes (off % bsize) mem src m (x % bsize) ≡ written mem src off m f x
to_block-written mem src off m x bytes f same e = elim (Bool-cases (leb off x && ltb x (off + m))) [
  | inl in_it ↦
      let at : src + (x % bsize - off % bsize) ≡ src + (x - off) = ground arith in
      let at' = ap mem at in
      let lo : leb (off % bsize) (x % bsize) ≡ true = ground arith in
      let hi : ltb (x % bsize) (off % bsize + m) ≡ true = ground arith in rw (in_it, lo, hi) at'
  | inr out ↦
      let out' : leb (off % bsize) (x % bsize) && ltb (x % bsize) (off % bsize + m) ≡ false =
        ground arith in
      rw (out, out') e
]

written_outside :
    (off m x : ℕ)
    → x / bsize ≢ off / bsize
    → 0 < m
    → off % bsize + m ≤ bsize
    → leb off x && ltb x (off + m) ≡ false
written_outside off m x ne pos inside = ground arith

pub round_lem :
    (mem : Memory) (src off m r : ℕ) (ip : Inode) (d : Blocks)
    → IsFile ip d
    → slot ip d (slot_of (off / bsize)) ≡ r
    → r ≢ 0
    → off + m ≤ limit
    → 0 < m
    → off % bsize + m ≤ bsize
    → IsFile ip (filled_block mem src off m r d)
      × ((x : ℕ)
          → x < limit
          → byte_at ip (filled_block mem src off m r d) x ≡ written mem src off m (byte_at ip d) x)
round_lem mem src off m r ip d v at nz fits pos inside =
    subst
      (λ b.
        IsFile ip (filled_block mem src off m b d)
        × ((x : ℕ)
            → x < limit
            → byte_at ip (filled_block mem src off m b d) x
              ≡ written mem src off m (byte_at ip d) x))
      at (over_slot-IsFile ip d k bytes v b.0 b.1 there, after)
  where
    k : ℕ
    k = slot_of (off / bsize)

    b : (k < slots) × (k ≢ ndirect)
    b = slot_of_bounds (off / bsize) (omega arith)

    there : slot ip d k ≢ 0
    there z = nz (sym at ∙ z)

    bytes : ℕ → ℕ
    bytes = to_block (d.block (slot ip d k)) (off % bsize) mem src m

    after :
        (x : ℕ)
        → x < limit
        → byte_at ip (filled_block mem src off m (slot ip d k) d) x
          ≡ written mem src off m (byte_at ip d) x
    after x lt = elim (ℕ_discrete (x / bsize) (off / bsize)) [
      | yes same ↦
          let to_k = λ (d' : Blocks). ap (λ q. slot_byte ip d' (slot_of q) (x % bsize)) same in
          to_k (over_slot ip d k bytes v b.0 b.1 there)
          ∙ slot_byte-over ip d k bytes v b.0 b.1 there (x % bsize)
          ∙ to_block-written mem src off m x (d.block (slot ip d k)) (byte_at ip d) same
              (sym (to_k d ∙ slot_byte_some ip d k (x % bsize) there))
      | no off_ ↦
          slot_byte-over_ne ip d (slot ip d k) bytes v (mine ip d k bytes v b.0 b.1 there)
            (no_ind ip d k bytes v b.0 b.1 there) (slot_of (x / bsize)) (x % bsize)
            (slot_of_bounds (x / bsize) (omega arith)).0
            (λ q e. off_ (
              slot_of_inj (x / bsize) (off / bsize) (
                v.apart (slot_of (x / bsize)) k (slot_of_bounds (x / bsize) (omega arith)).0 b.0 q
                  e)))
          ∙ (let out = written_outside off m x off_ pos inside in rw out refl)
    ]
