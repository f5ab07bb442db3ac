-- ===== src/Content/Map.antt =====
-- fs.c: the blocks of one inode as slots: 0 to 11 the direct ones, 12 the indirect block, and from 13
-- on the words in it.
use mathlib.Core.Path.{subst}
use native.Mathlib.Decide.{ℕ_discrete}
use cs461_mlfq_scheduler.Icache.{Inode}
use cs461_mlfq_scheduler.Fs.{bsize, bpb, Blocks, word, write_block, bblock, is_clear}
use cs461_mlfq_scheduler.Fs.Bitmap.{used}
use cs461_mlfq_scheduler.Fs.Alloc.{IsFs, IsFs-kept, Fresh, used-ne}
use cs461_mlfq_scheduler.Inode.{iblock, ndirect}
use cs461_mlfq_scheduler.Content.{maxfile}
use cs461_mlfq_scheduler.Base.{
  ltb, ◌==◌, if◌then◌else◌, update_ne, ℕ, ◌+◌, ◌-◌, ◌*◌, ◌%◌, ◌≤◌, ◌<◌, ◌≡◌, refl, sym, ap, ◌∙◌,
  ◌≢◌, true, false, not, arith,
}

abbrev pub slots : ℕ
slots = maxfile + 1

unfoldable pub slot : Inode → Blocks → ℕ → ℕ
slot ip d k =
    if ltb k (ndirect + 1)
    then ip.addrs k
    else if ip.addrs ndirect == 0
    then 0
    else word (d.block (ip.addrs ndirect)) (4 * (k - (ndirect + 1)))

-- A block for data: in use, and neither block 0 or 1 nor in the bitmap.
pub record IsData (d : Blocks) (x : ℕ) : Type 0 where
  pub inside : x < d.sb.size
  pub taken : used d x ≡ true
  pub not_one : x ≢ 1
  pub not_map : (c : ℕ) → c < d.sb.size → x ≢ bblock d.sb c

pub IsData-kept :
    (d d' : Blocks) (x : ℕ)
    → d'.sb ≡ d.sb
    → (used d x ≡ true → used d' x ≡ true)
    → IsData d x
    → IsData d' x
IsData-kept d d' x same h v =
    subst (λ s. IsData (record d' { sb = s }) x) (sym same)
      (record {
        inside = v.inside;
        taken = subst (λ s. used (record d' { sb = s }) x ≡ true) same (h v.taken);
        not_one = v.not_one;
        not_map = v.not_map;
      })

-- The block of the inode itself.
abbrev pub home : Inode → Blocks → ℕ
home ip d = iblock d.sb ip.inum

-- The blocks of an inode are blocks for data, no two slots have the same one, and none is the one of
-- the inode itself.
pub record IsFile (ip : Inode) (d : Blocks) : Type 0 where
  pub fs : IsFs d
  pub owned : (k : ℕ) → k < slots → slot ip d k ≢ 0 → IsData d (slot ip d k)
  pub apart :
      (j k : ℕ) → j < slots → k < slots → slot ip d j ≢ 0 → slot ip d j ≡ slot ip d k → j ≡ k
  pub home_data : IsData d (home ip d)
  pub home_apart : (k : ℕ) → k < slots → slot ip d k ≢ 0 → slot ip d k ≢ home ip d

pub used-write_block :
    (d : Blocks) (x c : ℕ) (bytes : ℕ → ℕ)
    → IsData d x
    → c < d.sb.size
    → used (write_block x bytes d) c ≡ used d c
used-write_block d x c bytes v lt =
    ap (λ y. not (is_clear y (c % bpb)))
      (update_ne d.block x (bblock d.sb c) bytes (v.not_map c lt))

pub write_block-IsFs :
    (d : Blocks) (x : ℕ) (bytes : ℕ → ℕ) → IsData d x → IsFs d → IsFs (write_block x bytes d)
write_block-IsFs d x bytes data_ v =
    let kept = λ (c : ℕ) (h : c < d.sb.size). used-write_block d x c bytes data_ h in
    IsFs-kept d (write_block x bytes d) refl (update_ne d.block x 1 bytes data_.not_one)
      (kept 0 (omega (arith, v.large)) ∙ v.boot_used) (kept 1 v.large ∙ v.super_used)
      (λ c h. kept (bblock d.sb c) (v.within c h) ∙ v.covers c h) v

pub slot_low : (ip : Inode) (d : Blocks) (k : ℕ) → k ≤ ndirect → slot ip d k ≡ ip.addrs k
unfolding slot
slot_low ip d k le = ground arith

pub slot_none :
    (ip : Inode) (d : Blocks) (k : ℕ) → ndirect < k → ip.addrs ndirect ≡ 0 → slot ip d k ≡ 0
unfolding slot
slot_none ip d k lt z = let high : ltb k (ndirect + 1) ≡ false = ground arith in rw (high, z) refl

pub slot_high :
    (ip : Inode) (d : Blocks) (k : ℕ)
    → ndirect < k
    → ip.addrs ndirect ≢ 0
    → slot ip d k ≡ word (d.block (ip.addrs ndirect)) (4 * (k - (ndirect + 1)))
unfolding slot
slot_high ip d k lt nz =
    let high : ltb k (ndirect + 1) ≡ false = ground arith in
    let there : (ip.addrs ndirect == 0) ≡ false = ground arith in rw (high, there) refl

-- What one step of `bmap` does for slot `k`, which then has block `r`: no other slot changes, nor
-- the contents of the blocks for data that the inode has; a block that was missing is all zeroes.
pub record Extends (k : ℕ) (ip : Inode) (d : Blocks) (r : ℕ) (ip' : Inode) (d' : Blocks)
    : Type 0 where
  pub kept : ip' ≡ record ip { addrs = ip'.addrs }
  pub at : slot ip' d' k ≡ r
  pub there : r ≢ 0
  pub off : (j : ℕ) → j < slots → j ≢ k → slot ip' d' j ≡ slot ip d j
  pub was : slot ip d k ≢ 0 → r ≡ slot ip d k
  pub blocks :
      (j : ℕ)
      → j < slots
      → j ≢ ndirect
      → slot ip d j ≢ 0
      → d'.block (slot ip d j) ≡ d.block (slot ip d j)
  pub new : slot ip d k ≡ 0 → (i : ℕ) → i < bsize → d'.block r i ≡ 0
  pub file : IsFile ip' d'
  pub same_super : d'.sb ≡ d.sb

-- A slot that has its block already.
pub Extends-refl :
    (k : ℕ) (ip : Inode) (d : Blocks)
    → IsFile ip d
    → slot ip d k ≢ 0
    → Extends k ip d (slot ip d k) ip d
Extends-refl k ip d v nz = record {
  kept = refl;
  at = refl;
  there = nz;
  off = λ j h ne. refl;
  was = λ h. refl;
  blocks = λ j h ne nz'. refl;
  new = λ z. absurd (nz z);
  file = v;
  same_super = refl;
}

-- A block that `balloc` returned is one for data, as long as it is marked.
Fresh-IsData :
    (d : Blocks) (b : ℕ) (d1 d' : Blocks)
    → IsFs d
    → Fresh d b d1
    → d'.sb ≡ d.sb
    → used d' b ≡ true
    → IsData d' b
Fresh-IsData d b d1 d' v f same h =
    subst (λ s. IsData (record d' { sb = s }) b) (sym same)
      (record {
        inside = f.inside;
        taken = subst (λ s. used (record d' { sb = s }) b ≡ true) same h;
        not_one = λ e. used-ne d 1 b v.super_used f.was_free (sym e);
        not_map = λ c lt e. used-ne d (bblock d.sb c) b (v.covers c lt) f.was_free (sym e);
      })

-- A block that `balloc` returned is none of the inode's.
pub slot-ne-Fresh :
    (ip : Inode) (d : Blocks) (b : ℕ) (d' : Blocks) (j : ℕ)
    → IsFile ip d
    → Fresh d b d'
    → j < slots
    → slot ip d j ≢ 0
    → slot ip d j ≢ b
slot-ne-Fresh ip d b d' j v f lt nz = used-ne d (slot ip d j) b (v.owned j lt nz).taken f.was_free

-- `balloc` changes no block of the inode.
pub slot-block-Fresh :
    (ip : Inode) (d : Blocks) (b : ℕ) (d' : Blocks) (j : ℕ)
    → IsFile ip d
    → Fresh d b d'
    → j < slots
    → slot ip d j ≢ 0
    → d'.block (slot ip d j) ≡ d.block (slot ip d j)
slot-block-Fresh ip d b d' j v f lt nz =
    f.others (slot ip d j) (slot-ne-Fresh ip d b d' j v f lt nz)
      ((v.owned j lt nz).not_map b f.inside)

-- The inode with a new block in slot `k`.
pub IsFile-grow :
    (ip : Inode) (d : Blocks) (b : ℕ) (d1 : Blocks) (ip' : Inode) (d' : Blocks) (k : ℕ)
    → IsFile ip d
    → Fresh d b d1
    → IsFs d'
    → ip'.inum ≡ ip.inum
    → d'.sb ≡ d.sb
    → ((c : ℕ) → c < d.sb.size → used d' c ≡ used d1 c)
    → slot ip' d' k ≡ b
    → ((j : ℕ) → j < slots → j ≢ k → slot ip' d' j ≡ slot ip d j)
    → IsFile ip' d'
IsFile-grow ip d b d1 ip' d' k v f fs' inum same marks at off = record {
  fs = fs';
  owned = λ j lt nz. elim (ℕ_discrete j k) [
    | yes e ↦ subst (IsData d') (sym (here j e)) mine
    | no ne ↦ subst (IsData d') (sym (off j lt ne)) (old j lt (λ z. nz (off j lt ne ∙ z)))
  ];
  apart = λ i j li lj nz e. elim (ℕ_discrete i k) [
    | yes ik ↦ elim (ℕ_discrete j k) [
      | yes jk ↦ ik ∙ sym jk
      | no jk ↦ absurd (other j lj jk (λ z. nz (e ∙ z)) (sym e ∙ here i ik))
    ]
    | no ik ↦ elim (ℕ_discrete j k) [
      | yes jk ↦ absurd (other i li ik nz (e ∙ here j jk))
      | no jk ↦ v.apart i j li lj (λ z. nz (off i li ik ∙ z)) (sym (off i li ik) ∙ e ∙ off j lj jk)
    ]
  ];
  home_data = subst (IsData d') (sym home_same) (kept (home ip d) v.home_data);
  home_apart = λ j lt nz e. elim (ℕ_discrete j k) [
    | yes jk ↦
        used-ne d (home ip d) b v.home_data.taken f.was_free (sym home_same ∙ sym e ∙ here j jk)
    | no ne ↦ v.home_apart j lt (λ z. nz (off j lt ne ∙ z)) (sym (off j lt ne) ∙ e ∙ home_same)
  ];
}
  where
    here : (j : ℕ) → j ≡ k → slot ip' d' j ≡ b
    here j e = ap (slot ip' d') e ∙ at

    other : (j : ℕ) → j < slots → j ≢ k → slot ip' d' j ≢ 0 → slot ip' d' j ≢ b
    other j lt ne nz e =
        slot-ne-Fresh ip d b d1 j v f lt (λ z. nz (off j lt ne ∙ z)) (sym (off j lt ne) ∙ e)

    mine : IsData d' b
    mine = Fresh-IsData d b d1 d' v.fs f same (marks b f.inside ∙ f.marks b f.inside ∙ ground arith)

    kept : (x : ℕ) → IsData d x → IsData d' x
    kept x o = IsData-kept d d' x same (λ h. marks x o.inside ∙ f.marks x o.inside ∙ ground arith) o

    old : (j : ℕ) → j < slots → slot ip d j ≢ 0 → IsData d' (slot ip d j)
    old j lt nz = kept (slot ip d j) (v.owned j lt nz)

    home_same : home ip' d' ≡ home ip d
    home_same = ap (λ n. iblock d'.sb n) inum ∙ ap (λ s. iblock s ip.inum) same
