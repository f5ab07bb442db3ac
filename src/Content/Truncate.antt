-- ===== src/Content/Truncate.antt =====
-- fs.c: `itrunc` gives back each block of an inode, once.
use mathlib.Core.Path.{subst}
use native.Mathlib.Decide.{ℕ_discrete}
use cs461_mlfq_scheduler.Icache.{Inode}
use cs461_mlfq_scheduler.Fs.{Blocks, word, bblock, bfree}
use cs461_mlfq_scheduler.Fs.Bitmap.{used}
use cs461_mlfq_scheduler.Fs.Alloc.{IsFs, IsFs-kept, Freed, bfree_lem}
use cs461_mlfq_scheduler.Inode.{ndirect, nindirect}
use cs461_mlfq_scheduler.Content.{set_addr, free_direct, free_words}
use cs461_mlfq_scheduler.Content.Bmap.{unset}
use cs461_mlfq_scheduler.Content.Map.{slots, slot, IsData, IsData-kept, IsFile, slot_low, slot_high}
use cs461_mlfq_scheduler.Base.{
  ltb, ◌==◌, if◌then◌else◌, ==_iff, Bool-cases, update, ok, ℕ, zero, suc, ◌+◌, ◌*◌, ◌≤◌, ◌<◌, ◌≡◌,
  refl, sym, ap, ◌∙◌, ◌≢◌, inl, inr, Bool, true, false, ◌&&◌, ◌||◌, arith,
}

if_eq {ℓ} : {A : Type ℓ} {b c : ℕ} (x y : A) → b ≡ c → (if b == c then x else y) ≡ x
if_eq {b = b} {c = c} x y e = let on : (b == c) ≡ true = (==_iff b c).1 e in rw on refl

if_ne {ℓ} : {A : Type ℓ} {b c : ℕ} (x y : A) → b ≢ c → (if b == c then x else y) ≡ y
if_ne {b = b} {c = c} x y ne = let off : (b == c) ≡ false = ground arith in rw off refl

-- The direct blocks and the first `i` words of the indirect block.
abbrev pub behind_direct : ℕ → ℕ → Bool
behind_direct i j = ltb j ndirect || (ltb ndirect j && ltb j (i + (ndirect + 1)))

module _ (ip : Inode) (d : Blocks) where
  -- The disk with the blocks given back of the slots that are `gone`.
  pub record Cut (gone : ℕ → Bool) (d' : Blocks) : Type 0 where
    pub freed :
        (j : ℕ) → j < slots → gone j ≡ true → slot ip d j ≢ 0 → used d' (slot ip d j) ≡ false
    pub others :
        (c : ℕ)
        → c < d.sb.size
        → ((j : ℕ) → j < slots → gone j ≡ true → slot ip d j ≢ 0 → c ≢ slot ip d j)
        → used d' c ≡ used d c
    pub blocks : (x : ℕ) → ((c : ℕ) → c < d.sb.size → x ≢ bblock d.sb c) → d'.block x ≡ d.block x
    pub same_super : d'.sb ≡ d.sb
    pub fs : IsFs d'

  pub Cut-ext :
      (gone gone' : ℕ → Bool) (d' : Blocks)
      → ((j : ℕ) → j < slots → gone j ≡ gone' j)
      → Cut gone d'
      → Cut gone' d'
  Cut-ext gone gone' d' e v = record {
    freed = λ j lt g. v.freed j lt (e j lt ∙ g);
    others = λ c lt h. v.others c lt (λ j jl g. h j jl (sym (e j jl) ∙ g));
    blocks = v.blocks;
    same_super = v.same_super;
    fs = v.fs;
  }

  -- A slot without a block takes nothing.
  Cut-skip :
      (gone : ℕ → Bool) (d' : Blocks) (k : ℕ)
      → slot ip d k ≡ 0
      → Cut gone d'
      → Cut (λ j. gone j || j == k) d'
  Cut-skip gone d' k z v = record {
    freed = λ j lt g nz. elim (ℕ_discrete j k) [
      | yes same ↦ absurd (nz (ap (slot ip d) same ∙ z))
      | no ne ↦ v.freed j lt (ground arith) nz
    ];
    others = λ c lt h. v.others c lt (λ j jl g nz. h j jl (ground arith) nz);
    blocks = v.blocks;
    same_super = v.same_super;
    fs = v.fs;
  }

  Freed-IsFs : (d1 d2 : Blocks) (b : ℕ) → IsData d1 b → b ≢ 0 → IsFs d1 → Freed d1 b d2 → IsFs d2
  Freed-IsFs d1 d2 b data_ nz v f =
      let stays : (x : ℕ) → b ≢ x → used d1 x ≡ true → used d2 x ≡ true =
        λ x ne h. f.marks x ∙ ground arith in
      IsFs-kept d1 d2 f.same_super (f.others 1 (λ e. absurd (omega (arith, v.behind))))
        (stays 0 nz v.boot_used) (stays 1 data_.not_one v.super_used)
        (λ c h. stays (bblock d1.sb c) (data_.not_map c h) (v.covers c h)) v

  -- A block is given back.
  pub Cut-bfree :
      (gone : ℕ → Bool) (d' : Blocks) (k : ℕ)
      → IsFile ip d
      → k < slots
      → gone k ≡ false
      → slot ip d k ≢ 0
      → Cut gone d'
      → (d'' : Blocks) × (bfree (slot ip d k) d' ≡ ok d'') × Cut (λ j. gone j || j == k) d''
  Cut-bfree gone d' k file lt here nz v =
      let o = file.owned k lt nz in
      let b = slot ip d k in
      let apart : (j : ℕ) → j < slots → gone j ≡ true → slot ip d j ≢ 0 → b ≢ slot ip d j =
        λ j jl g q e.
          let kj : gone k ≡ true = ap gone (file.apart k j lt jl nz e) ∙ g in
          absurd (ground arith) in
      let same = v.others b o.inside apart in
      let (d'', e, f) = (bfree_lem d' b v.fs).0 (same ∙ o.taken) in
      (
        d'',
        e,
        record {
          freed = λ j jl g q. f.marks (slot ip d j) ∙ (elim (ℕ_discrete b (slot ip d j)) [
            | yes e' ↦ if_eq false (used d' (slot ip d j)) e'
            | no ne ↦
                let off : j ≢ k = λ jk. ne (ap (slot ip d) (sym jk)) in
                if_ne false (used d' (slot ip d j)) ne ∙ v.freed j jl (ground arith) q
          ]);
          others = λ c cl h.
              f.marks c
              ∙ if_ne false (used d' c) (λ e'. h k lt (ground arith) nz (sym e'))
              ∙ v.others c cl (λ j jl g. h j jl (ground arith));
          blocks = λ x h.
              f.others x (λ e'. h b o.inside (e' ∙ ap (λ s. bblock s b) v.same_super))
              ∙ v.blocks x h;
          same_super = f.same_super ∙ v.same_super;
          fs = Freed-IsFs d' d'' b (IsData-kept d d' b v.same_super (λ u. same ∙ u) o) nz v.fs f;
        },
      )

  -- The first loop, from slot `i` on.
  pub free_direct_lem :
      (n i : ℕ) (ipi : Inode) (d' : Blocks)
      → IsFile ip d
      → i + n ≡ ndirect
      → ((j : ℕ) → j ≤ ndirect → ipi.addrs j ≡ (if ltb j i then 0 else ip.addrs j))
      → ipi ≡ record ip { addrs = ipi.addrs }
      → Cut (λ j. ltb j i) d'
      → (r : Inode × Blocks) × (free_direct n i ipi d' ≡ ok r)
        × ((j : ℕ) → j ≤ ndirect → r.0.addrs j ≡ (if ltb j ndirect then 0 else ip.addrs j))
        × (r.0 ≡ record ip { addrs = r.0.addrs })
        × Cut (λ j. ltb j ndirect) r.1
  unfolding free_direct
  free_direct_lem zero i ipi d' file sum addrs kept v =
      let e : i ≡ ndirect = omega arith in
      (
        (ipi, d'),
        refl,
        λ j h. addrs j h ∙ ap (λ m. if ltb j m then 0 else ip.addrs j) e,
        kept,
        subst (λ m. Cut (λ j. ltb j m) d') e v,
      )
  free_direct_lem (suc n) i ipi d' file sum addrs kept v =
      let low : slot ip d i ≡ ip.addrs i = slot_low ip d i (omega arith) in
      let at : ipi.addrs i ≡ ip.addrs i = addrs i (omega arith) ∙ ground arith in
      elim (ℕ_discrete (ip.addrs i) 0) [
        | yes z ↦
            let none_ : (ipi.addrs i == 0) ≡ true = ground arith in
            rw none_ (
              free_direct_lem n (i + 1) ipi d' file (omega arith) (λ j h. addrs j h ∙ no_block j z)
                kept
                (Cut-ext (λ j. ltb j i || j == i) (λ j. ltb j (i + 1)) d' (λ j h. ground arith)
                  (Cut-skip (λ j. ltb j i) d' i (low ∙ z) v)))
        | no there ↦
            let some_ : (ipi.addrs i == 0) ≡ false = ground arith in
            let (d'', e, w) =
              Cut-bfree (λ j. ltb j i) d' i file (omega arith) (ground arith)
                (λ z. there (sym low ∙ z)) v in
            let e' : bfree (ipi.addrs i) d' ≡ ok d'' = ap (λ b. bfree b d') (at ∙ sym low) ∙ e in
            rw (some_, e')
              (free_direct_lem n (i + 1) (set_addr ipi i 0) d'' file (omega arith)
                (λ j h. cleared j (addrs j h))
                (ap {A = Inode} (λ p. record p { addrs = update ipi.addrs i 0 }) kept)
                (Cut-ext (λ j. ltb j i || j == i) (λ j. ltb j (i + 1)) d'' (λ j h. ground arith) w))
      ]
    where
      no_block :
          (j : ℕ)
          → ip.addrs i ≡ 0
          → (if ltb j i then 0 else ip.addrs j) ≡ (if ltb j (i + 1) then 0 else ip.addrs j)
      no_block j z = elim (ℕ_discrete j i) [
        | yes e ↦ let q : ip.addrs j ≡ 0 = ap ip.addrs e ∙ z in ground arith
        | no ne ↦ ground arith
      ]

      cleared :
          (j : ℕ)
          → ipi.addrs j ≡ (if ltb j i then 0 else ip.addrs j)
          → update ipi.addrs i 0 j ≡ (if ltb j (i + 1) then 0 else ip.addrs j)
      cleared j e = ground arith

  pub free_words_lem :
      (n i : ℕ) (d' : Blocks)
      → IsFile ip d
      → i + n ≡ nindirect
      → ip.addrs ndirect ≢ 0
      → Cut (behind_direct i) d'
      → (d'' : Blocks) × (free_words n i (ip.addrs ndirect) d' ≡ ok d'')
        × Cut (behind_direct nindirect) d''
  unfolding free_words
  free_words_lem zero i d' file sum nz v =
      let e : i ≡ nindirect = omega arith in (d', refl, subst (λ m. Cut (behind_direct m) d') e v)
  free_words_lem (suc n) i d' file sum nz v =
      let k = i + (ndirect + 1) in
      let high : slot ip d k ≡ word (d.block (ip.addrs ndirect)) (4 * i) =
        slot_high ip d k (omega arith) nz ∙ ap (word (d.block (ip.addrs ndirect))) (omega arith) in
      let low = slot_low ip d ndirect (omega arith) in
      let ind = file.owned ndirect (omega arith) (λ z. nz (sym low ∙ z)) in
      let same : d'.block (ip.addrs ndirect) ≡ d.block (ip.addrs ndirect) =
        v.blocks (ip.addrs ndirect) (λ c h e. ind.not_map c h (low ∙ e)) in
      let at : word (d'.block (ip.addrs ndirect)) (4 * i) ≡ slot ip d k =
        ap (λ f. word f (4 * i)) same ∙ sym high in
      elim (Bool-cases (word (d'.block (ip.addrs ndirect)) (4 * i) == 0)) [
        | inl none_ ↦
            let z = (==_iff (word (d'.block (ip.addrs ndirect)) (4 * i)) 0).0 none_ in
            rw none_ (
              free_words_lem n (i + 1) d' file (omega arith) nz (
                Cut-ext (λ j. behind_direct i j || j == k) (behind_direct (i + 1)) d'
                  (λ j h. ground arith) (Cut-skip (behind_direct i) d' k (sym at ∙ z) v)))
        | inr some_ ↦
            let there : slot ip d k ≢ 0 = λ z. absurd (unset some_ (at ∙ z)) in
            let (d'', e, w) =
              Cut-bfree (behind_direct i) d' k file (omega arith) (ground arith) there v in
            let e' : bfree (word (d'.block (ip.addrs ndirect)) (4 * i)) d' ≡ ok d'' =
              ap (λ b. bfree b d') at ∙ e in
            rw (some_, e')
              (free_words_lem n (i + 1) d'' file (omega arith) nz (
                Cut-ext (λ j. behind_direct i j || j == k) (behind_direct (i + 1)) d''
                  (λ j h. ground arith) w))
      ]
