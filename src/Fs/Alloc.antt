-- ===== src/Fs/Alloc.antt =====
-- fs.c: what `balloc` and `bfree` do to the set of blocks in use and to the contents of blocks.
use mathlib.Core.Path.{subst}
use native.Mathlib.Decide.{ℕ_discrete}
use cs461_mlfq_scheduler.Str.{memset}
use cs461_mlfq_scheduler.Str.Move.{memset_lem}
use cs461_mlfq_scheduler.Fs.{
  bsize, bpb, Blocks, readsb, write_block, bzero, bblock, is_clear, mark, unmark, balloc, bfree,
}
use cs461_mlfq_scheduler.Fs.Bitmap.{
  used, is_clear-mark_self, is_clear-mark_ne, is_clear-unmark_self, is_clear-unmark_ne, grab, full,
  fresh, balloc_lem,
}
use cs461_mlfq_scheduler.Base.{
  ◌==◌, if◌then◌else◌, ==_iff, update, update_self, update_ne, ok, panic, ℕ, ◌+◌, ◌/◌, ◌%◌, ◌^◌,
  ◌<◌, ◌≡◌, refl, sym, ap, ◌∙◌, ◌≢◌, ◌⊎◌, inl, inr, Bool, true, false, not, ◌∷◌, arith,
}

-- The disk is in order: `sb` is what block 1 says; blocks 0 and 1 and the blocks of the bitmap
-- are in use, and the bitmap lies on the disk, behind block 1.
pub record IsFs (d : Blocks) : Type 0 where
  pub super_read : (readsb d).sb ≡ d.sb
  pub boot_used : used d 0 ≡ true
  pub super_used : used d 1 ≡ true
  pub covers : (b : ℕ) → b < d.sb.size → used d (bblock d.sb b) ≡ true
  pub within : (b : ℕ) → b < d.sb.size → bblock d.sb b < d.sb.size
  pub behind : 1 < d.sb.bmapstart
  pub large : 1 < d.sb.size
  pub sized : d.sb.size < 2 ^ 32

pub used-ne : (d : Blocks) (x b : ℕ) → used d x ≡ true → used d b ≡ false → x ≢ b
used-ne d x b taken free e =
    let taken' = subst (λ y. used d y ≡ true) e taken in absurd (ground arith)

-- No bit of the bitmap lies in a free block.
free-bblock : (d : Blocks) (b c : ℕ) → IsFs d → c < d.sb.size → used d b ≡ false → b ≢ bblock d.sb c
free-bblock d b c v lt free same = used-ne d (bblock d.sb c) b (v.covers c lt) free (sym same)

not-not : (b : Bool) → not (not b) ≡ b
not-not true = refl
not-not false = refl

-- The bitmap's block of `c` behind a change of bit `b`.
used-update :
    (d : Blocks) (b c : ℕ) (bytes : ℕ → ℕ) (bit : Bool)
    → is_clear bytes (b % bpb) ≡ not bit
    → ((j : ℕ) → b % bpb ≢ j → is_clear bytes j ≡ is_clear (d.block (bblock d.sb b)) j)
    → used (write_block (bblock d.sb b) bytes d) c ≡ (if b == c then bit else used d c)
used-update d b c bytes bit here off = elim (ℕ_discrete (b / bpb) (c / bpb)) [
  | no apart ↦
      let off_ : (b == c) ≡ false = ground arith in
      rw off_ (
        ap (λ x. not (is_clear x (c % bpb)))
          (update_ne d.block (bblock d.sb b) (bblock d.sb c) bytes (omega arith)))
  | yes group ↦
      let at : update d.block (bblock d.sb b) bytes (bblock d.sb c) ≡ bytes = ground arith in
      ap (λ x. not (is_clear x (c % bpb))) at ∙ elim (ℕ_discrete (b % bpb) (c % bpb)) [
        | yes same ↦
            let on : (b == c) ≡ true = (==_iff b c).1 (omega arith) in
            rw on (ap (λ j. not (is_clear bytes j)) (sym same) ∙ ap not here ∙ not-not bit)
        | no ne ↦
            let off_ : (b == c) ≡ false = ground arith in
            rw off_ (
              ap not (
                off (c % bpb) ne
                ∙ ap (λ g. is_clear (d.block (g + d.sb.bmapstart)) (c % bpb)) group))
      ]
]

-- What zeroing a free block leaves.
used-bzero : (d : Blocks) (b c : ℕ) → b ≢ bblock d.sb c → used (bzero b d) c ≡ used d c
unfolding bzero
used-bzero d b c ne =
    ap (λ x. not (is_clear x (c % bpb)))
      (update_ne d.block b (bblock d.sb c) (memset (d.block b) 0 0 bsize) ne)

used-grab :
    (d : Blocks) (b c : ℕ)
    → IsFs d
    → c < d.sb.size
    → used d b ≡ false
    → used (grab b d) c ≡ (if b == c then true else used d c)
used-grab d b c v lt free =
    let bno = bblock d.sb b in
    let clear : is_clear (d.block bno) (b % bpb) ≡ true = ground arith in
    used-bzero (write_block bno (mark (d.block bno) (b % bpb)) d) b c (free-bblock d b c v lt free)
    ∙ used-update d b c (mark (d.block bno) (b % bpb)) true
        (is_clear-mark_self (d.block bno) (b % bpb) clear)
        (λ j ne. is_clear-mark_ne (d.block bno) (b % bpb) j ne clear)

-- Every block but two is as it was.
block-grab : (d : Blocks) (b x : ℕ) → x ≢ b → x ≢ bblock d.sb b → (grab b d).block x ≡ d.block x
unfolding bzero
block-grab d b x off off' = ground arith

-- What `balloc` leaves when it returns block `b`: the first free block, now marked, and no other
-- mark changed; zeroes in it; its own and its bitmap's block logged, and every other block as it was.
pub record Fresh (d : Blocks) (b : ℕ) (d' : Blocks) : Type 0 where
  pub inside : b < d.sb.size
  pub was_free : used d b ≡ false
  pub first : (c : ℕ) → c < b → used d c ≡ true
  pub marks : (c : ℕ) → c < d.sb.size → used d' c ≡ (if b == c then true else used d c)
  pub zeroed : (i : ℕ) → i < bsize → d'.block b i ≡ 0
  pub others : (x : ℕ) → x ≢ b → x ≢ bblock d.sb b → d'.block x ≡ d.block x
  pub same_super : d'.sb ≡ d.sb
  pub log : d'.logged ≡ b ∷ bblock d.sb b ∷ d.logged

zeroed-bzero : (d : Blocks) (b i : ℕ) → i < bsize → (bzero b d).block b i ≡ 0
unfolding bzero
zeroed-bzero d b i lt =
    ap (λ f. f i) (update_self d.block b (memset (d.block b) 0 0 bsize))
    ∙ memset_lem (d.block b) 0 0 bsize i
    ∙ ground arith

grab-Fresh :
    (d : Blocks) (b : ℕ)
    → IsFs d
    → b < d.sb.size
    → used d b ≡ false
    → ((c : ℕ) → c < b → used d c ≡ true)
    → Fresh d b (grab b d)
unfolding bzero
grab-Fresh d b v lt free first = record {
  inside = lt;
  was_free = free;
  first = first;
  marks = λ c h. used-grab d b c v h free;
  zeroed = λ i h.
      zeroed-bzero (write_block (bblock d.sb b) (mark (d.block (bblock d.sb b)) (b % bpb)) d) b i h;
  others = block-grab d b;
  same_super = refl;
  log = refl;
}

-- A change that keeps `sb`, block 1 and the marks of blocks 0 and 1 and of the bitmap.
pub IsFs-kept :
    (d d' : Blocks)
    → d'.sb ≡ d.sb
    → d'.block 1 ≡ d.block 1
    → used d' 0 ≡ true
    → used d' 1 ≡ true
    → ((c : ℕ) → c < d.sb.size → used d' (bblock d.sb c) ≡ true)
    → IsFs d
    → IsFs d'
unfolding readsb
IsFs-kept d d' same one zero_used one_used marks v =
    subst (λ s. IsFs (record d' { sb = s })) (sym same)
      (record {
        super_read = ap (λ b. (readsb (record d { block = λ _. b })).sb) one ∙ v.super_read;
        boot_used = subst (λ s. used (record d' { sb = s }) 0 ≡ true) same zero_used;
        super_used = subst (λ s. used (record d' { sb = s }) 1 ≡ true) same one_used;
        covers =
            λ b h. subst (λ s. used (record d' { sb = s }) (bblock d.sb b) ≡ true) same (marks b h);
        within = v.within;
        behind = v.behind;
        large = v.large;
        sized = v.sized;
      })

pub Fresh-IsFs : (d d' : Blocks) (b : ℕ) → IsFs d → Fresh d b d' → IsFs d'
Fresh-IsFs d d' b v f =
    let stays : (c : ℕ) → c < d.sb.size → used d c ≡ true → used d' c ≡ true =
      λ c lt h. f.marks c lt ∙ ground arith in
    let not_one : 1 ≢ b = used-ne d 1 b v.super_used f.was_free in
    IsFs-kept d d' f.same_super (f.others 1 not_one (λ e. absurd (omega (arith, v.behind))))
      (stays 0 (omega (arith, v.large)) v.boot_used) (stays 1 v.large v.super_used)
      (λ c h. stays (bblock d.sb c) (v.within c h) (v.covers c h)) v

-- `balloc` on a disk in order: it returns the first free block, marked, zeroed and logged, and
-- changes no other mark and no other block but the bitmap's; the disk is in order again. It panics
-- only if all blocks are in use.
pub balloc-Fresh :
    (d : Blocks)
    → IsFs d
    → ((b : ℕ) × (d' : Blocks) × (balloc d ≡ ok (b, d')) × Fresh d b d' × IsFs d')
      ⊎ ((balloc d ≡ panic "balloc: out of blocks") × ((c : ℕ) → c < d.sb.size → used d c ≡ true))
balloc-Fresh d v = elim (balloc_lem d) [
  | full e all ↦ inr (e, all)
  | fresh b lt free first e ↦
      let f = grab-Fresh d b v lt free first in
      inl (b, grab b d, e, f, Fresh-IsFs d (grab b d) b v f)
]

-- What `bfree` leaves: block `b` is free, and nothing else changes but the bitmap's block.
pub record Freed (d : Blocks) (b : ℕ) (d' : Blocks) : Type 0 where
  pub marks : (c : ℕ) → used d' c ≡ (if b == c then false else used d c)
  pub others : (x : ℕ) → x ≢ bblock d.sb b → d'.block x ≡ d.block x
  pub same_super : d'.sb ≡ d.sb
  pub log : d'.logged ≡ bblock d.sb b ∷ d.logged

drop_mark : ℕ → Blocks → Blocks
drop_mark b d = let bno = bblock d.sb b in write_block bno (unmark (d.block bno) (b % bpb)) d

drop_mark-Freed : (d : Blocks) (b : ℕ) → used d b ≡ true → Freed d b (drop_mark b d)
unfolding drop_mark
drop_mark-Freed d b taken =
    let bno = bblock d.sb b in
    let set_ : is_clear (d.block bno) (b % bpb) ≡ false = ground arith in
    record {
      marks = λ c.
          used-update d b c (unmark (d.block bno) (b % bpb)) false
            (is_clear-unmark_self (d.block bno) (b % bpb) set_)
            (λ j ne. is_clear-unmark_ne (d.block bno) (b % bpb) j ne set_);
      others = λ x ne. update_ne d.block bno x (unmark (d.block bno) (b % bpb)) (λ e. ne (sym e));
      same_super = refl;
      log = refl;
    }

bfree_reads : (d : Blocks) → IsFs d → readsb d ≡ d
unfolding readsb
bfree_reads d v = ap (λ s. record d { sb = s }) v.super_read

-- `bfree` of a block on a disk in order: if the block is in use, it is free behind the call, no other
-- mark changes, and no block but the bitmap's; if it is free already, the call panics.
pub bfree_lem :
    (d : Blocks) (b : ℕ)
    → IsFs d
    → (used d b ≡ true → (d' : Blocks) × (bfree b d ≡ ok d') × Freed d b d')
      × (used d b ≡ false → bfree b d ≡ panic "freeing free block")
unfolding bfree drop_mark
bfree_lem d b v = rw (bfree_reads d v) (
  (λ taken.
      let set_ : is_clear (d.block (bblock d.sb b)) (b % bpb) ≡ false = ground arith in
      (drop_mark b d, rw set_ refl, drop_mark-Freed d b taken)),
  (λ free.
      let clear : is_clear (d.block (bblock d.sb b)) (b % bpb) ≡ true = ground arith in
      rw clear refl),
)

pub balloc-returns :
    (d : Blocks) (b : ℕ) (d' : Blocks) → IsFs d → balloc d ≡ ok (b, d') → Fresh d b d' × IsFs d'
balloc-returns d b d' v e = elim (balloc-Fresh d v) [
  | inr (full_, all) ↦ absurd (cc)
  | inl (b1, d1, e1, f, v1) ↦
      let same : ◌≡◌ {A = ℕ × Blocks} (b1, d1) (b, d') = cc in
      subst (λ r. Fresh d r.0 r.1 × IsFs r.1) same (f, v1)
]

-- A block that `balloc` has returned can be given back, and `bfree` then leaves the same blocks in use
-- as there were before the two calls.
pub bfree-balloc :
    (d : Blocks) (b : ℕ) (d' : Blocks)
    → IsFs d
    → balloc d ≡ ok (b, d')
    → (d'' : Blocks) × (bfree b d' ≡ ok d'') × ((c : ℕ) → c < d.sb.size → used d'' c ≡ used d c)
bfree-balloc d b d' v e =
    let (f, v') = balloc-returns d b d' v e in
    let taken : used d' b ≡ true = f.marks b f.inside ∙ ground arith in
    let (d'', e', g) = (bfree_lem d' b v').0 taken in
    (d'', e', λ c h. g.marks c ∙ back c (f.marks c h) f.was_free)
  where
    back :
        (c : ℕ)
        → used d' c ≡ (if b == c then true else used d c)
        → used d b ≡ false
        → (if b == c then false else used d' c) ≡ used d c
    back c m free = elim (ℕ_discrete b c) [
      | yes same ↦
          let on : (b == c) ≡ true = (==_iff b c).1 same in rw on (sym free ∙ ap (used d) same)
      | no ne ↦ let off : (b == c) ≡ false = ground arith in rw off (m ∙ rw off refl)
    ]
