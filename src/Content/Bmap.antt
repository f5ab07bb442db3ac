-- ===== src/Content/Bmap.antt =====
-- fs.c: `bmap` leaves the contents of an inode as they are, where a missing block reads as zeroes.
use mathlib.Core.Path.{subst}
use native.Mathlib.Decide.{ℕ_discrete}
use cs461_mlfq_scheduler.Icache.{Inode}
use cs461_mlfq_scheduler.Fs.{bsize, Blocks, word, put_word, write_block, balloc}
use cs461_mlfq_scheduler.Fs.Alloc.{balloc-returns}
use cs461_mlfq_scheduler.Inode.{ndirect, nindirect}
use cs461_mlfq_scheduler.Content.{map_slot, map_word, bmap}
use cs461_mlfq_scheduler.Content.Map.{
  slots, slot, IsFile, slot_low, slot_high, Extends, Extends-refl,
}
use cs461_mlfq_scheduler.Content.Grow.{map_slot_lem, map_word_new, slot_of}
use cs461_mlfq_scheduler.Base.{
  ltb, ◌==◌, if◌then◌else◌, ltb→lt, ==_iff, Bool-cases, ◌>>=◌, Returns, Returns-intro,
  Returns-weaken, Returns->>=, ok, panics, returns, ℕ, ◌+◌, ◌-◌, ◌*◌, ◌/◌, ◌%◌, ◌<◌, ◌≡◌, refl, sym,
  ap, ◌∙◌, ◌≢◌, inl, inr, false, arith,
}

-- Byte `i` of the block in slot `k`.
unfoldable pub slot_byte : Inode → Blocks → ℕ → ℕ → ℕ
slot_byte ip d k i = if slot ip d k == 0 then 0 else d.block (slot ip d k) i

-- The contents of an inode as one sequence of bytes.
abbrev pub byte_at : Inode → Blocks → ℕ → ℕ
byte_at ip d off = slot_byte ip d (slot_of (off / bsize)) (off % bsize)

pub slot_byte_none : (ip : Inode) (d : Blocks) (k i : ℕ) → slot ip d k ≡ 0 → slot_byte ip d k i ≡ 0
unfolding slot_byte
slot_byte_none ip d k i z = rw z refl

pub slot_byte_some :
    (ip : Inode) (d : Blocks) (k i : ℕ)
    → slot ip d k ≢ 0
    → slot_byte ip d k i ≡ d.block (slot ip d k) i
unfolding slot_byte
slot_byte_some ip d k i nz = let off : (slot ip d k == 0) ≡ false = ground arith in rw off refl

-- A step of `bmap` keeps the contents of every slot but the indirect block's.
Extends-slot_byte :
    (k : ℕ) (ip : Inode) (d : Blocks) (r : ℕ) (ip' : Inode) (d' : Blocks) (j i : ℕ)
    → Extends k ip d r ip' d'
    → j < slots
    → j ≢ ndirect
    → i < bsize
    → slot_byte ip' d' j i ≡ slot_byte ip d j i
Extends-slot_byte k ip d r ip' d' j i x lt ne hi = elim (ℕ_discrete (slot ip d j) 0) [
  | yes z ↦ elim (ℕ_discrete j k) [
    | no off ↦ slot_byte_none ip' d' j i (x.off j lt off ∙ z) ∙ sym (slot_byte_none ip d j i z)
    | yes on ↦
        let e : slot ip' d' j ≡ r = ap (slot ip' d') on ∙ x.at in
        slot_byte_some ip' d' j i (λ q. x.there (sym e ∙ q))
        ∙ ap (λ b. d'.block b i) e
        ∙ x.new (ap (slot ip d) (sym on) ∙ z) i hi
        ∙ sym (slot_byte_none ip d j i z)
  ]
  | no nz ↦
      let same : slot ip' d' j ≡ slot ip d j = kept nz in
      slot_byte_some ip' d' j i (λ q. nz (sym same ∙ q))
      ∙ ap (λ b. d'.block b i) same
      ∙ ap (λ f. f i) (x.blocks j lt ne nz)
      ∙ sym (slot_byte_some ip d j i nz)
]
  where
    kept : slot ip d j ≢ 0 → slot ip' d' j ≡ slot ip d j
    kept nz = elim (ℕ_discrete j k) [
      | no off ↦ x.off j lt off
      | yes on ↦
          ap (slot ip' d') on
          ∙ x.at
          ∙ x.was (λ q. nz (ap (slot ip d) on ∙ q))
          ∙ ap (slot ip d) (sym on)
    ]

-- What `bmap` leaves when it returns block `r` for block `bn` of the inode.
pub record Mapped (bn : ℕ) (ip : Inode) (d : Blocks) (r : ℕ) (ip' : Inode) (d' : Blocks)
    : Type 0 where
  pub kept : ip' ≡ record ip { addrs = ip'.addrs }
  pub at : slot ip' d' (slot_of bn) ≡ r
  pub there : r ≢ 0
  pub same :
      (j i : ℕ) → j < slots → j ≢ ndirect → i < bsize → slot_byte ip' d' j i ≡ slot_byte ip d j i
  pub file : IsFile ip' d'
  pub same_super : d'.sb ≡ d.sb

pub unset : {x : ℕ} → (x == 0) ≡ false → x ≢ 0
unset e z = absurd (ground arith)

map_word_lem :
    (i : ℕ) (ip : Inode) (d : Blocks)
    → i < nindirect
    → IsFile ip d
    → ip.addrs ndirect ≢ 0
    → Returns (map_word (ip.addrs ndirect) i d) (λ w. Extends (i + (ndirect + 1)) ip d w.0 ip w.1)
map_word_lem i ip d lt v nz =
    let k = i + (ndirect + 1) in
    let ind = ip.addrs ndirect in
    let high : slot ip d k ≡ word (d.block ind) (4 * i) =
      slot_high ip d k (omega arith) nz ∙ ap (word (d.block ind)) (omega arith) in
    elim (Bool-cases (word (d.block ind) (4 * i) == 0)) [
      | inr there ↦
          let old = Extends-refl k ip d v (λ z. absurd (unset there (sym high ∙ z))) in
          rw there (
            returns (word (d.block ind) (4 * i), d) refl
              (subst (λ r. Extends k ip d r ip d) high old))
      | inl missing ↦
          let z : slot ip d k ≡ 0 = high ∙ (==_iff (word (d.block ind) (4 * i)) 0).0 missing in
          rw missing (
            Returns->>= (balloc d)
              (λ r. ok (r.0, write_block ind (put_word (r.1.block ind) (4 * i) r.0) r.1))
              (Returns-intro (balloc d) (λ r e. balloc-returns d r.0 r.1 v.fs e))
              (λ r h. returns _ refl (map_word_new i ip d r.0 r.1 lt v nz z h.0 h.1)))
    ]

Extends-Mapped :
    (bn k : ℕ) (ip : Inode) (d : Blocks) (r : ℕ) (ip' : Inode) (d' : Blocks)
    → slot_of bn ≡ k
    → Extends k ip d r ip' d'
    → Mapped bn ip d r ip' d'
Extends-Mapped bn k ip d r ip' d' e x = record {
  kept = x.kept;
  at = ap (slot ip' d') e ∙ x.at;
  there = x.there;
  same = λ j i lt ne hi. Extends-slot_byte k ip d r ip' d' j i x lt ne hi;
  file = x.file;
  same_super = x.same_super;
}

-- A second step behind the first one.
Mapped-Extends :
    (bn k : ℕ) (ip : Inode) (d : Blocks) (ind : ℕ) (ip1 : Inode) (d1 : Blocks) (r : ℕ) (d2 : Blocks)
    → Extends k ip d ind ip1 d1
    → Mapped bn ip1 d1 r ip1 d2
    → Mapped bn ip d r ip1 d2
Mapped-Extends bn k ip d ind ip1 d1 r d2 x y = record {
  kept = x.kept;
  at = y.at;
  there = y.there;
  same = λ j i lt ne hi. y.same j i lt ne hi ∙ Extends-slot_byte k ip d ind ip1 d1 j i x lt ne hi;
  file = y.file;
  same_super = y.same_super ∙ x.same_super;
}

-- `bmap` on the blocks of an inode in order, if it comes back, returns the block in the slot of
-- `bn`, which is now there; it leaves the contents of the inode as they are, and the inode in order.
pub bmap_lem :
    (bn : ℕ) (ip : Inode) (d : Blocks)
    → IsFile ip d
    → Returns (bmap bn ip d) (λ r. Mapped bn ip d r.0 r.1 r.2)
unfolding bmap
bmap_lem bn ip d v = elim (Bool-cases (ltb bn ndirect)) [
  | inl direct ↦
      let low : slot_of bn ≡ bn = ground arith in
      rw direct (
        Returns-weaken (λ r x. Extends-Mapped bn bn ip d r.0 r.1 r.2 low x)
          (map_slot_lem bn ip d (ground arith) v))
  | inr indirect ↦ elim (Bool-cases (ltb (bn - ndirect) nindirect)) [
    | inr out ↦ rw (indirect, out) (panics "bmap: out of range" refl)
    | inl inside ↦
        let high : slot_of bn ≡ bn - ndirect + (ndirect + 1) = ground arith in
        rw (indirect, inside)
          (Returns->>= (map_slot ndirect ip d)
            (λ r. map_word r.0 (bn - ndirect) r.2 >>= λ w. ok (w.0, r.1, w.1))
            (map_slot_lem ndirect ip d (omega arith) v)
            (λ r x. second r.0 r.1 r.2 high (ltb→lt (bn - ndirect) nindirect inside) x))
  ]
]
  where
    second :
        (ind : ℕ) (ip1 : Inode) (d1 : Blocks)
        → slot_of bn ≡ bn - ndirect + (ndirect + 1)
        → bn - ndirect < nindirect
        → Extends ndirect ip d ind ip1 d1
        → Returns {A = ℕ × Inode × Blocks}
            (map_word ind (bn - ndirect) d1 >>= λ w. ok (w.0, ip1, w.1))
            (λ r. Mapped bn ip d r.0 r.1 r.2)
    second ind ip1 d1 high lt x =
        let at : ip1.addrs ndirect ≡ ind = sym (slot_low ip1 d1 ndirect (omega arith)) ∙ x.at in
        Returns->>= (map_word ind (bn - ndirect) d1) (λ w. ok (w.0, ip1, w.1))
          (subst
            (λ y.
              Returns (map_word y (bn - ndirect) d1)
                (λ w. Extends (bn - ndirect + (ndirect + 1)) ip1 d1 w.0 ip1 w.1))
            at (map_word_lem (bn - ndirect) ip1 d1 lt x.file (λ z. x.there (sym at ∙ z))))
          (λ w y.
            returns (w.0, ip1, w.1) refl
              (Mapped-Extends bn ndirect ip d ind ip1 d1 w.0 w.1 x
                (Extends-Mapped bn (bn - ndirect + (ndirect + 1)) ip1 d1 w.0 ip1 w.1 high y)))
