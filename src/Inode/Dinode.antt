-- ===== src/Inode/Dinode.antt =====
-- fs.c: an inode that `iupdate` has stored is the one that `ilock` reads.
use mathlib.Core.Path.{subst}
use native.Mathlib.Decide.{ℕ_discrete}
use cs461_mlfq_scheduler.Icache.{Inode}
use cs461_mlfq_scheduler.Fs.{Blocks, word, half, put_word, put_half}
use cs461_mlfq_scheduler.Inode.{
  ndirect, iblock, dinode_at, put_addrs, put_dinode, iupdate, get_dinode, ilock_load,
}
use cs461_mlfq_scheduler.Fs.Words.{
  word_put_self, put_word_ne, half_put_self, put_half_ne, half-same, word-same,
}
use cs461_mlfq_scheduler.Base.{
  leb, ◌==◌, update_self, ok, ℕ, zero, suc, ◌+◌, ◌*◌, ◌^◌, ◌≤◌, ◌<◌, ◌≡◌, refl, sym, ap, ◌∙◌, ◌≢◌,
  inl, true, false, arith,
}

-- The fields fit in their words on the disk.
pub record Fits (ip : Inode) : Type 0 where
  pub type : ip.type < 2 ^ 16
  pub major : ip.major < 2 ^ 16
  pub minor : ip.minor < 2 ^ 16
  pub nlink : ip.nlink < 2 ^ 16
  pub size : ip.size < 2 ^ 32
  pub addrs : (i : ℕ) → i ≤ ndirect → ip.addrs i < 2 ^ 32

put_addrs_below :
    (n i o : ℕ) (addrs bytes : ℕ → ℕ) (j : ℕ)
    → j < o + 12 + 4 * i
    → put_addrs n i o addrs bytes j ≡ bytes j
unfolding put_addrs
put_addrs_below zero i o addrs bytes j h = refl
put_addrs_below (suc n) i o addrs bytes j h =
    put_addrs_below n (i + 1) o addrs (put_word bytes (o + 12 + 4 * i) (addrs i)) j (omega arith)
    ∙ put_word_ne bytes (o + 12 + 4 * i) (addrs i) j (omega arith)

word-put_addrs :
    (n i o : ℕ) (addrs bytes : ℕ → ℕ) (k : ℕ)
    → i ≤ k
    → k < i + n
    → addrs k < 2 ^ 32
    → word (put_addrs n i o addrs bytes) (o + 12 + 4 * k) ≡ addrs k
unfolding put_addrs
word-put_addrs zero i o addrs bytes k lo hi lt = absurd (omega arith)
word-put_addrs (suc n) i o addrs bytes k lo hi lt = elim (ℕ_discrete i k) [
  | yes same ↦
      let b1 = put_word bytes (o + 12 + 4 * i) (addrs i) in
      word-same (put_addrs n (i + 1) o addrs b1) b1 (o + 12 + 4 * k)
        (λ j h. put_addrs_below n (i + 1) o addrs b1 j (omega arith))
      ∙ ap (λ m. word b1 (o + 12 + 4 * m)) (sym same)
      ∙ word_put_self bytes (o + 12 + 4 * i) (addrs i) (subst (λ m. addrs m < 2 ^ 32) (sym same) lt)
      ∙ ap addrs same
  | no ne ↦
      word-put_addrs n (i + 1) o addrs (put_word bytes (o + 12 + 4 * i) (addrs i)) k (omega arith)
        (omega arith) lt
]

-- A block with the inode's fields at offset `o`.
pub record Holds (o : ℕ) (ip : Inode) (f : ℕ → ℕ) : Type 0 where
  pub type : half f o ≡ ip.type
  pub major : half f (o + 2) ≡ ip.major
  pub minor : half f (o + 4) ≡ ip.minor
  pub nlink : half f (o + 6) ≡ ip.nlink
  pub size : word f (o + 8) ≡ ip.size
  pub addrs : (i : ℕ) → i ≤ ndirect → word f (o + 12 + 4 * i) ≡ ip.addrs i

-- The bytes behind each store of `iupdate`, at offset `o` of a block.
module _ (o : ℕ) (ip : Inode) (bytes : ℕ → ℕ) where
  abbrev typed : ℕ → ℕ
  typed = put_half bytes o ip.type

  abbrev with_major : ℕ → ℕ
  with_major = put_half typed (o + 2) ip.major

  abbrev with_minor : ℕ → ℕ
  with_minor = put_half with_major (o + 4) ip.minor

  abbrev with_nlink : ℕ → ℕ
  with_nlink = put_half with_minor (o + 6) ip.nlink

  abbrev sized : ℕ → ℕ
  sized = put_word with_nlink (o + 8) ip.size

  abbrev all : ℕ → ℕ
  all = put_addrs (ndirect + 1) 0 o ip.addrs sized

  -- No store changes the fields before it.
  below_addrs : (j : ℕ) → j < o + 12 → all j ≡ sized j
  below_addrs j h = put_addrs_below (ndirect + 1) 0 o ip.addrs sized j (omega arith)

  below_size : (j : ℕ) → j < o + 8 → all j ≡ with_nlink j
  below_size j h = below_addrs j (omega arith) ∙ put_word_ne with_nlink (o + 8) ip.size j (inl h)

  below_nlink : (j : ℕ) → j < o + 6 → all j ≡ with_minor j
  below_nlink j h = below_size j (omega arith) ∙ put_half_ne with_minor (o + 6) ip.nlink j (inl h)

  below_minor : (j : ℕ) → j < o + 4 → all j ≡ with_major j
  below_minor j h = below_nlink j (omega arith) ∙ put_half_ne with_major (o + 4) ip.minor j (inl h)

  below_major : (j : ℕ) → j < o + 2 → all j ≡ typed j
  below_major j h = below_minor j (omega arith) ∙ put_half_ne typed (o + 2) ip.major j (inl h)

  put_dinode-Holds : Fits ip → Holds o ip (put_dinode o ip bytes)
  unfolding put_dinode
  put_dinode-Holds v = record {
    type = half-same all typed o below_major ∙ half_put_self bytes o ip.type v.type;
    major =
        half-same all with_major (o + 2) (λ j h. below_minor j (omega arith))
        ∙ half_put_self typed (o + 2) ip.major v.major;
    minor =
        half-same all with_minor (o + 4) (λ j h. below_nlink j (omega arith))
        ∙ half_put_self with_major (o + 4) ip.minor v.minor;
    nlink =
        half-same all with_nlink (o + 6) (λ j h. below_size j (omega arith))
        ∙ half_put_self with_minor (o + 6) ip.nlink v.nlink;
    size =
        word-same all sized (o + 8) (λ j h. below_addrs j (omega arith))
        ∙ word_put_self with_nlink (o + 8) ip.size v.size;
    addrs = λ i h.
        word-put_addrs (ndirect + 1) 0 o ip.addrs sized i (omega arith) (omega arith) (v.addrs i h);
  }

-- The fields of an inode that are on the disk.
pub record SameFields (ip ip' : Inode) : Type 0 where
  pub type : ip.type ≡ ip'.type
  pub major : ip.major ≡ ip'.major
  pub minor : ip.minor ≡ ip'.minor
  pub nlink : ip.nlink ≡ ip'.nlink
  pub size : ip.size ≡ ip'.size
  pub addrs : (i : ℕ) → i ≤ ndirect → ip.addrs i ≡ ip'.addrs i

ilock_load-Holds :
    (ip slot : Inode) (d : Blocks)
    → ip.type ≢ 0
    → slot.valid ≡ false
    → Holds (dinode_at slot.inum) ip (d.block (iblock d.sb slot.inum))
    → (ip' : Inode) × (ilock_load d slot ≡ ok ip') × (ip'.valid ≡ true) × SameFields ip' ip
unfolding ilock_load get_dinode
ilock_load-Holds ip slot d alive invalid h =
    let o = dinode_at slot.inum in
    let bytes = d.block (iblock d.sb slot.inum) in
    let typed_ : (half bytes o == 0) ≡ false = ground (arith, h.type) in
    (
      get_dinode o bytes slot,
      rw (invalid, typed_) refl,
      refl,
      record {
        type = h.type;
        major = h.major;
        minor = h.minor;
        nlink = h.nlink;
        size = h.size;
        addrs = λ i le. let low : leb i ndirect ≡ true = ground arith in rw low (h.addrs i le);
      },
    )

-- What `iupdate` stores of an allocated inode, whose fields fit in their words, `ilock` reads back
-- into any slot of the cache with the same inode number that is not valid: it does not panic, it makes
-- the slot valid, and the fields are the ones that were stored.
pub ilock_load-iupdate :
    (ip slot : Inode) (d : Blocks)
    → Fits ip
    → ip.type ≢ 0
    → slot.inum ≡ ip.inum
    → slot.valid ≡ false
    → (ip' : Inode) × (ilock_load (iupdate ip d) slot ≡ ok ip')
      × (ip'.valid ≡ true)
      × SameFields ip' ip
unfolding iupdate
ilock_load-iupdate ip slot d v alive inum invalid =
    let bno = iblock d.sb ip.inum in
    let bytes = put_dinode (dinode_at ip.inum) ip (d.block bno) in
    let stored =
      subst (Holds (dinode_at ip.inum) ip) (sym (update_self d.block bno bytes))
        (put_dinode-Holds (dinode_at ip.inum) ip (d.block bno) v) in
    ilock_load-Holds ip slot (iupdate ip d) alive invalid
      (subst (λ n. Holds (dinode_at n) ip ((iupdate ip d).block (iblock d.sb n))) (sym inum) stored)
