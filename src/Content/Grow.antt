-- ===== src/Content/Grow.antt =====
-- fs.c: what `bmap` does to the slots of an inode.
use mathlib.Core.Path.{subst}
use native.Mathlib.Decide.{ℕ_discrete}
use cs461_mlfq_scheduler.Icache.{Inode}
use cs461_mlfq_scheduler.Fs.{bsize, Blocks, word, put_word, write_block, balloc}
use cs461_mlfq_scheduler.Fs.Words.{word_put_self, word_put_ne}
use cs461_mlfq_scheduler.Fs.Alloc.{IsFs, Fresh, balloc-returns, used-ne}
use cs461_mlfq_scheduler.Inode.{ndirect, nindirect}
use cs461_mlfq_scheduler.Content.{set_addr, map_slot}
use cs461_mlfq_scheduler.Content.Map.{
  IsData-kept, slot-ne-Fresh, slots, slot, IsData, IsFile, used-write_block, write_block-IsFs,
  slot_low, slot_none, slot_high, Extends, Extends-refl, slot-block-Fresh, IsFile-grow,
}
use cs461_mlfq_scheduler.Base.{
  ltb, leb, ◌==◌, if◌then◌else◌, leb→le, Bool-cases, Returns, Returns-intro, Returns->>=, returns,
  update_self, update_ne, ok, ℕ, ◌+◌, ◌-◌, ◌*◌, ◌≤◌, ◌<◌, ◌≡◌, refl, sym, ap, ◌∙◌, ◌≢◌, inl, inr,
  arith,
}

-- A word of a block that is all zeroes.
zeroed-word :
    (bytes : ℕ → ℕ) (i : ℕ) → ((j : ℕ) → j < bsize → bytes j ≡ 0) → i + 3 < bsize → word bytes i ≡ 0
zeroed-word bytes i z lt =
    omega (arith, z i (omega arith), z (i + 1) (omega arith), z (i + 2) (omega arith), z (i + 3) lt)

-- A new block in slot `k` changes no other slot: a new indirect block has no words yet.
slot-set_addr :
    (k : ℕ) (ip : Inode) (d : Blocks) (b : ℕ) (d1 : Blocks) (j : ℕ)
    → k ≤ ndirect
    → IsFile ip d
    → slot ip d k ≡ 0
    → Fresh d b d1
    → j < slots
    → j ≢ k
    → slot (set_addr ip k b) d1 j ≡ slot ip d j
slot-set_addr k ip d b d1 j le v z f lt ne = elim (Bool-cases (leb j ndirect)) [
  | inl low ↦
      let lo = leb→le j ndirect low in
      slot_low ip1 d1 j lo ∙ update_ne ip.addrs k j b (λ e. ne (sym e)) ∙ sym (slot_low ip d j lo)
  | inr high ↦ above (ground arith)
]
  where
    ip1 : Inode
    ip1 = set_addr ip k b

    above : ndirect < j → slot ip1 d1 j ≡ slot ip d j
    above hi = elim (ℕ_discrete k ndirect) [
      | yes e ↦
          let at : ip1.addrs ndirect ≡ b = ground arith in
          let b_there : b ≢ 0 = λ q. used-ne d 0 b v.fs.boot_used f.was_free (sym q) in
          slot_high ip1 d1 j hi (λ q. b_there (sym at ∙ q))
          ∙ ap (λ x. word (d1.block x) (4 * (j - (ndirect + 1)))) at
          ∙ zeroed-word (d1.block b) (4 * (j - (ndirect + 1))) f.zeroed (omega arith)
          ∙ sym (slot_none ip d j hi (ap ip.addrs (sym e) ∙ sym (slot_low ip d k le) ∙ z))
      | no off ↦
          let at : ip1.addrs ndirect ≡ ip.addrs ndirect = update_ne ip.addrs k ndirect b off in
          elim (ℕ_discrete (ip.addrs ndirect) 0) [
            | yes none_ ↦ slot_none ip1 d1 j hi (at ∙ none_) ∙ sym (slot_none ip d j hi none_)
            | no some_ ↦
                let low = slot_low ip d ndirect (omega arith) in
                let same =
                  slot-block-Fresh ip d b d1 ndirect v f (omega arith) (λ q. some_ (sym low ∙ q)) in
                slot_high ip1 d1 j hi (λ q. some_ (sym at ∙ q))
                ∙ ap (λ x. word (d1.block x) (4 * (j - (ndirect + 1)))) (at ∙ sym low)
                ∙ ap (λ y. word y (4 * (j - (ndirect + 1)))) same
                ∙ ap (λ x. word (d.block x) (4 * (j - (ndirect + 1)))) low
                ∙ sym (slot_high ip d j hi some_)
          ]
    ]

map_slot_new :
    (k : ℕ) (ip : Inode) (d : Blocks) (b : ℕ) (d1 : Blocks)
    → k ≤ ndirect
    → IsFile ip d
    → slot ip d k ≡ 0
    → Fresh d b d1
    → IsFs d1
    → Extends k ip d b (set_addr ip k b) d1
map_slot_new k ip d b d1 le v z f v1 = record {
  kept = refl;
  at = at;
  there = λ e. used-ne d 0 b v.fs.boot_used f.was_free (sym e);
  off = off;
  was = λ nz. absurd (nz z);
  blocks = λ j lt ne nz. slot-block-Fresh ip d b d1 j v f lt nz;
  new = λ _ i lt. f.zeroed i lt;
  file = IsFile-grow ip d b d1 (set_addr ip k b) d1 k v f v1 refl f.same_super (λ c h. refl) at off;
  same_super = f.same_super;
}
  where
    ip1 : Inode
    ip1 = set_addr ip k b

    at : slot ip1 d1 k ≡ b
    at = slot_low ip1 d1 k le ∙ update_self ip.addrs k b

    off : (j : ℕ) → j < slots → j ≢ k → slot ip1 d1 j ≡ slot ip d j
    off j lt ne = slot-set_addr k ip d b d1 j le v z f lt ne

pub map_slot_lem :
    (k : ℕ) (ip : Inode) (d : Blocks)
    → k ≤ ndirect
    → IsFile ip d
    → Returns (map_slot k ip d) (λ r. Extends k ip d r.0 r.1 r.2)
map_slot_lem k ip d le v = elim (Bool-cases (ip.addrs k == 0)) [
  | inr there ↦
      let low = slot_low ip d k le in
      let old = Extends-refl k ip d v (λ z. absurd (ground arith)) in
      rw there (returns (ip.addrs k, ip, d) refl (subst (λ r. Extends k ip d r ip d) low old))
  | inl missing ↦
      let z : slot ip d k ≡ 0 = slot_low ip d k le ∙ ground arith in
      rw missing (
        Returns->>= (balloc d) (λ r. ok (r.0, set_addr ip k r.0, r.1))
          (Returns-intro (balloc d) (λ r e. balloc-returns d r.0 r.1 v.fs e))
          (λ r h.
            returns (r.0, set_addr ip k r.0, r.1) refl
              (map_slot_new k ip d r.0 r.1 le v z h.0 h.1)))
]

-- The address of block `bn` as a slot.
abbrev pub slot_of : ℕ → ℕ
slot_of bn = if ltb bn ndirect then bn else bn + 1

-- A new block in word `i` of the indirect block.
pub map_word_new :
    (i : ℕ) (ip : Inode) (d : Blocks) (b : ℕ) (d1 : Blocks)
    → i < nindirect
    → IsFile ip d
    → ip.addrs ndirect ≢ 0
    → slot ip d (i + (ndirect + 1)) ≡ 0
    → Fresh d b d1
    → IsFs d1
    → Extends
        (i + (ndirect + 1))
        ip
        d
        b
        ip
        (write_block (ip.addrs ndirect) (put_word (d1.block (ip.addrs ndirect)) (4 * i) b) d1)
map_word_new i ip d b d1 lt v nz z f v1 = record {
  kept = refl;
  at = at;
  there = λ e. used-ne d 0 b v.fs.boot_used f.was_free (sym e);
  off = off;
  was = λ q. absurd (q z);
  blocks = λ j h ne q.
      update_ne d1.block ind (slot ip d j) bytes (ind_apart j h ne)
      ∙ slot-block-Fresh ip d b d1 j v f h q;
  new = λ _ j h. ap (λ g. g j) (update_ne d1.block ind b bytes ind_old) ∙ f.zeroed j h;
  file =
      IsFile-grow ip d b d1 ip d2 (i + (ndirect + 1)) v f (write_block-IsFs d1 ind bytes data1 v1)
        refl f.same_super
        (λ c h.
          used-write_block d1 ind c bytes data1 (subst (λ s. c < s.size) (sym f.same_super) h))
        at off;
  same_super = f.same_super;
}
  where
    ind : ℕ
    ind = ip.addrs ndirect

    bytes : ℕ → ℕ
    bytes = put_word (d1.block ind) (4 * i) b

    d2 : Blocks
    d2 = write_block ind bytes d1

    low : slot ip d ndirect ≡ ind
    low = slot_low ip d ndirect (omega arith)

    here : slot ip d ndirect ≢ 0
    here q = nz (sym low ∙ q)

    ind_apart : (j : ℕ) → j < slots → j ≢ ndirect → ind ≢ slot ip d j
    ind_apart j h ne e = ne (sym (v.apart ndirect j (omega arith) h here (low ∙ e)))

    ind_old : ind ≢ b
    ind_old e = slot-ne-Fresh ip d b d1 ndirect v f (omega arith) here (low ∙ e)

    data1 : IsData d1 ind
    data1 =
        let o = v.owned ndirect (omega arith) here in
        subst (IsData d1) low (
          IsData-kept d d1 (slot ip d ndirect) f.same_super
            (λ h. f.marks (slot ip d ndirect) o.inside ∙ ground arith) o)

    at : slot ip d2 (i + (ndirect + 1)) ≡ b
    at =
        slot_high ip d2 (i + (ndirect + 1)) (omega arith) nz
        ∙ ap (λ y. word y (4 * (i + (ndirect + 1) - (ndirect + 1))))
            (update_self d1.block ind bytes)
        ∙ ap (word bytes) (omega arith)
        ∙ word_put_self (d1.block ind) (4 * i) b (omega (arith, f.inside, v.fs.sized))

    off : (j : ℕ) → j < slots → j ≢ i + (ndirect + 1) → slot ip d2 j ≡ slot ip d j
    off j h ne = elim (Bool-cases (leb j ndirect)) [
      | inl low_ ↦ let lo = leb→le j ndirect low_ in slot_low ip d2 j lo ∙ sym (slot_low ip d j lo)
      | inr high ↦
          let hi : ndirect < j = ground arith in
          let o = 4 * (j - (ndirect + 1)) in
          slot_high ip d2 j hi nz
          ∙ ap (λ y. word y o) (update_self d1.block ind bytes)
          ∙ word_put_ne (d1.block ind) (4 * i) b o (omega arith)
          ∙ ap (λ y. word y o)
              (subst (λ x. d1.block x ≡ d.block x) low
                (slot-block-Fresh ip d b d1 ndirect v f (omega arith) here))
          ∙ sym (slot_high ip d j hi nz)
    ]
