-- ===== src/Content/Empty.antt =====
-- fs.c: what `itrunc` leaves: an inode without blocks, and its blocks free.
use mathlib.Core.Path.{subst}
use native.Mathlib.Decide.{ℕ_discrete}
use cs461_mlfq_scheduler.Icache.{Inode}
use cs461_mlfq_scheduler.Fs.{Blocks, write_block, bfree}
use cs461_mlfq_scheduler.Fs.Bitmap.{used}
use cs461_mlfq_scheduler.Fs.Alloc.{IsFs}
use cs461_mlfq_scheduler.Inode.{iblock, ndirect, nindirect, iupdate, put_dinode, dinode_at}
use cs461_mlfq_scheduler.Content.{set_addr, free_words, free_indirect, itrunc}
use cs461_mlfq_scheduler.Content.Map.{
  write_block-IsFs, home, slots, slot, IsData, IsData-kept, IsFile, used-write_block, slot_low,
  slot_none,
}
use cs461_mlfq_scheduler.Content.Truncate.{
  Cut, Cut-ext, Cut-bfree, free_direct_lem, behind_direct, free_words_lem,
}
use cs461_mlfq_scheduler.Base.{
  ltb, leb, ◌==◌, if◌then◌else◌, leb→le, Bool-cases, update, ok, ℕ, ◌≤◌, ◌<◌, ◌≡◌, refl, sym, ap,
  ◌∙◌, ◌≢◌, inl, inr, Bool, true, false, ◌||◌, arith,
}

-- What a truncation leaves: the inode is empty, each block that it had is free, and every other block
-- is in use or free as before.
pub record Truncated (ip : Inode) (d : Blocks) (r : Inode × Blocks) : Type 0 where
  pub no_addrs : (i : ℕ) → i ≤ ndirect → r.0.addrs i ≡ 0
  pub size : r.0.size ≡ 0
  pub freed : (k : ℕ) → k < slots → slot ip d k ≢ 0 → used r.1 (slot ip d k) ≡ false
  pub others :
      (c : ℕ)
      → c < d.sb.size
      → ((k : ℕ) → k < slots → slot ip d k ≢ 0 → c ≢ slot ip d k)
      → used r.1 c ≡ used d c
  pub file : IsFile r.0 r.1

-- Without addresses no slot has a block.
pub empty-IsFile :
    (ip' : Inode) (d' : Blocks)
    → ((j : ℕ) → j ≤ ndirect → ip'.addrs j ≡ 0)
    → IsFs d'
    → IsData d' (home ip' d')
    → IsFile ip' d'
empty-IsFile ip' d' z fs own = record {
  fs = fs;
  owned = λ k lt nz. absurd (nz (none_ k));
  apart = λ j k hj hk nz e. absurd (nz (none_ j));
  home_data = own;
  home_apart = λ k lt nz. absurd (nz (none_ k));
}
  where
    none_ : (k : ℕ) → slot ip' d' k ≡ 0
    none_ k = elim (Bool-cases (leb k ndirect)) [
      | inl low ↦ let lo = leb→le k ndirect low in slot_low ip' d' k lo ∙ z k lo
      | inr high ↦ slot_none ip' d' k (ground arith) (z ndirect (omega arith))
    ]

abbrev everything : ℕ → Bool
everything j = true

module _ (ip : Inode) (d : Blocks) (file : IsFile ip d) where
  -- A slot that has no block may count as given back.
  Cut-all :
      (gone : ℕ → Bool) (d' : Blocks)
      → ((j : ℕ) → j < slots → slot ip d j ≢ 0 → gone j ≡ true)
      → Cut ip d gone d'
      → Cut ip d everything d'
  Cut-all gone d' h v = record {
    freed = λ j lt g nz. v.freed j lt (h j lt nz) nz;
    others = λ c lt q. v.others c lt (λ j jl g nz. q j jl refl nz);
    blocks = v.blocks;
    same_super = v.same_super;
    fs = v.fs;
  }

  -- The indirect block and its words.
  free_indirect_lem :
      (ip1 : Inode) (d1 : Blocks)
      → ((j : ℕ) → j ≤ ndirect → ip1.addrs j ≡ (if ltb j ndirect then 0 else ip.addrs j))
      → ip1 ≡ record ip { addrs = ip1.addrs }
      → Cut ip d (λ j. ltb j ndirect) d1
      → (r : Inode × Blocks) × (free_indirect ip1 d1 ≡ ok r)
        × ((j : ℕ) → j ≤ ndirect → r.0.addrs j ≡ 0)
        × (r.0 ≡ record ip { addrs = r.0.addrs })
        × Cut ip d everything r.1
  free_indirect_lem ip1 d1 addrs kept v =
      let at : ip1.addrs ndirect ≡ ip.addrs ndirect = addrs ndirect (omega arith) in
      let low = slot_low ip d ndirect (omega arith) in
      elim (ℕ_discrete (ip.addrs ndirect) 0) [
        | yes z ↦
            let none_ : (ip1.addrs ndirect == 0) ≡ true = ground arith in
            (
              (ip1, d1),
              rw none_ refl,
              (λ j h. no_addr j h z),
              kept,
              Cut-all (λ j. ltb j ndirect) d1 (λ j lt nz. only_direct j z nz) v,
            )
        | no there ↦
            let some_ : (ip1.addrs ndirect == 0) ≡ false = ground arith in
            let (d2, e2, v2) =
              free_words_lem ip d nindirect 0 d1 file (omega arith) there
                (Cut-ext ip d (λ j. ltb j ndirect) (behind_direct 0) d1 (λ j h. ground arith) v) in
            let (d3, e3, v3) =
              Cut-bfree ip d (behind_direct nindirect) d2 ndirect file (omega arith) (ground arith)
                (λ z. there (sym low ∙ z)) v2 in
            let e2' : free_words nindirect 0 (ip1.addrs ndirect) d1 ≡ ok d2 =
              ap (λ b. free_words nindirect 0 b d1) at ∙ e2 in
            let e3' : bfree (ip1.addrs ndirect) d2 ≡ ok d3 =
              ap (λ b. bfree b d2) (at ∙ sym low) ∙ e3 in
            (
              (set_addr ip1 ndirect 0, d3),
              rw (some_, e2', e3') refl,
              (λ j h. ground (arith, addrs j h)),
              ap {A = Inode} (λ p. record p { addrs = update ip1.addrs ndirect 0 }) kept,
              Cut-all (λ j. behind_direct nindirect j || j == ndirect) d3 (λ j lt nz. ground arith)
                  v3,
            )
      ]
    where
      no_addr : (j : ℕ) → j ≤ ndirect → ip.addrs ndirect ≡ 0 → ip1.addrs j ≡ 0
      no_addr j h z = elim (ℕ_discrete j ndirect) [
        | yes e ↦ ap ip1.addrs e ∙ addrs ndirect (omega arith) ∙ z
        | no ne ↦ addrs j h ∙ ground arith
      ]

      only_direct : (j : ℕ) → ip.addrs ndirect ≡ 0 → slot ip d j ≢ 0 → ltb j ndirect ≡ true
      only_direct j z nz = elim (Bool-cases (ltb ndirect j)) [
        | inl high ↦ absurd (nz (slot_none ip d j (ground arith) z))
        | inr low ↦ elim (ℕ_discrete j ndirect) [
          | yes e ↦ absurd (nz (slot_low ip d j (omega arith) ∙ ap ip.addrs e ∙ z))
          | no ne ↦ ground arith
        ]
      ]

  -- The inode, its size 0 now, is stored.
  stored :
      (ip2 : Inode) (d2 : Blocks)
      → ((j : ℕ) → j ≤ ndirect → ip2.addrs j ≡ 0)
      → ip2 ≡ record ip { addrs = ip2.addrs }
      → Cut ip d everything d2
      → Truncated ip d (record ip2 { size = 0 }, iupdate (record ip2 { size = 0 }) d2)
  unfolding iupdate
  stored ip2 d2 z kept v =
      let inum : ip2.inum ≡ ip.inum = ap {A = Inode} (λ i. i.inum) kept in
      let same : home ip2 d2 ≡ home ip d =
        ap (λ n. iblock d2.sb n) inum ∙ ap (λ s. iblock s ip.inum) v.same_super in
      let untouched =
        v.others (home ip d) file.home_data.inside
          (λ j lt g nz e. file.home_apart j lt nz (sym e)) in
      let own =
        subst (IsData d2) (sym same)
          (IsData-kept d d2 (home ip d) v.same_super (λ u. untouched ∙ u) file.home_data) in
      let ip3 = record ip2 { size = 0 } in
      let bytes = put_dinode (dinode_at ip2.inum) ip3 (d2.block (home ip2 d2)) in
      let d3 = write_block (home ip2 d2) bytes d2 in
      let size : (c : ℕ) → c < d.sb.size → c < d2.sb.size =
        λ c h. subst (λ s. c < s.size) (sym v.same_super) h in
      let marks =
        λ (c : ℕ) (h : c < d.sb.size). used-write_block d2 (home ip2 d2) c bytes own (size c h) in
      record {
        no_addrs = z;
        size = refl;
        freed = λ k lt nz. marks (slot ip d k) (file.owned k lt nz).inside ∙ v.freed k lt refl nz;
        others = λ c lt h. marks c lt ∙ v.others c lt (λ j jl g nz. h j jl nz);
        file = empty-IsFile ip3 d3 z (write_block-IsFs d2 (home ip2 d2) bytes own v.fs) (
            IsData-kept d2 d3 (home ip2 d2) refl
              (λ u. used-write_block d2 (home ip2 d2) (home ip2 d2) bytes own own.inside ∙ u) own);
      }

  -- `itrunc` of an inode in order always comes back, so it frees no block twice: each block that the
  -- inode had, the indirect one included, is free, every other block is in use or free as before,
  -- the inode has no blocks and size 0, and all is in order again.
  pub itrunc_lem : (r : Inode × Blocks) × (itrunc ip d ≡ ok r) × Truncated ip d r
  unfolding itrunc
  itrunc_lem =
      let (r1, e1, z1, k1, v1) =
        free_direct_lem ip d ndirect 0 ip d file refl (λ j h. ground arith) refl start in
      let (r2, e2, z2, k2, v2) = free_indirect_lem r1.0 r1.1 z1 k1 v1 in
      (
        (record (r2.0) { size = 0 }, iupdate (record (r2.0) { size = 0 }) r2.1),
        rw (e1, e2) refl,
        stored r2.0 r2.1 z2 k2 v2,
      )
    where
      start : Cut ip d (λ j. ltb j 0) d
      start = record {
        freed = λ j lt g nz. absurd (ground arith);
        others = λ c lt h. refl;
        blocks = λ x h. refl;
        same_super = refl;
        fs = file.fs;
      }
