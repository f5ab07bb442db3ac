-- ===== src/Content/Overwrite.antt =====
-- fs.c: what overwriting a block leaves of the contents of an inode.
use mathlib.Core.Path.{subst}
use native.Mathlib.Decide.{ℕ_discrete}
use cs461_mlfq_scheduler.Icache.{Inode}
use cs461_mlfq_scheduler.Fs.{Blocks, word, write_block}
use cs461_mlfq_scheduler.Inode.{ndirect}
use cs461_mlfq_scheduler.Content.Map.{
  home, slots, slot, IsData, IsData-kept, IsFile, used-write_block, write_block-IsFs, slot_low,
  slot_none, slot_high,
}
use cs461_mlfq_scheduler.Content.Bmap.{slot_byte, slot_byte_some, slot_byte_none}
use cs461_mlfq_scheduler.Base.{
  leb, leb→le, Bool-cases, update_ne, ℕ, ◌+◌, ◌-◌, ◌*◌, ◌<◌, ◌≡◌, refl, sym, ap, ◌∙◌, ◌≢◌, inl, inr,
  arith,
}

-- A block for data, but not the indirect block.
module _ (ip : Inode) (d : Blocks) (b : ℕ) (bytes : ℕ → ℕ) (v : IsFile ip d) (mine : IsData d b)
    (no_ind : slot ip d ndirect ≢ 0 → slot ip d ndirect ≢ b) where
  abbrev pub over : Blocks
  over = write_block b bytes d

  -- No slot changes, since the block is not the indirect one.
  pub slot-over : (j : ℕ) → j < slots → slot ip over j ≡ slot ip d j
  slot-over j h = elim (Bool-cases (leb j ndirect)) [
    | inl low ↦ let lo = leb→le j ndirect low in slot_low ip over j lo ∙ sym (slot_low ip d j lo)
    | inr high ↦
        let hi : ndirect < j = ground arith in
        elim (ℕ_discrete (ip.addrs ndirect) 0) [
          | yes z ↦ slot_none ip over j hi z ∙ sym (slot_none ip d j hi z)
          | no there ↦
              let low = slot_low ip d ndirect (omega arith) in
              let off : b ≢ ip.addrs ndirect =
                λ e. no_ind (λ z. there (sym low ∙ z)) (low ∙ sym e) in
              slot_high ip over j hi there
              ∙ ap (λ y. word y (4 * (j - (ndirect + 1))))
                  (update_ne d.block b (ip.addrs ndirect) bytes off)
              ∙ sym (slot_high ip d j hi there)
        ]
  ]

  pub over-IsFile : IsFile ip over
  over-IsFile = record {
    fs = write_block-IsFs d b bytes mine v.fs;
    owned = λ j h q.
        let o = v.owned j h (λ z. q (slot-over j h ∙ z)) in
        subst (IsData over) (sym (slot-over j h)) (
          IsData-kept d over (slot ip d j) refl
            (λ u. used-write_block d b (slot ip d j) bytes mine o.inside ∙ u) o);
    apart = λ i j hi hj q e.
        v.apart i j hi hj (λ z. q (slot-over i hi ∙ z)) (sym (slot-over i hi) ∙ e ∙ slot-over j hj);
    home_data =
        IsData-kept d over (home ip d) refl
          (λ u. used-write_block d b (home ip d) bytes mine v.home_data.inside ∙ u) v.home_data;
    home_apart = λ j h q e. v.home_apart j h (λ z. q (slot-over j h ∙ z)) (sym (slot-over j h) ∙ e);
  }

  pub slot_byte-over_ne :
      (j i : ℕ)
      → j < slots
      → (slot ip d j ≢ 0 → slot ip d j ≢ b)
      → slot_byte ip over j i ≡ slot_byte ip d j i
  slot_byte-over_ne j i h ne = elim (ℕ_discrete (slot ip d j) 0) [
    | yes z ↦ slot_byte_none ip over j i (slot-over j h ∙ z) ∙ sym (slot_byte_none ip d j i z)
    | no there ↦
        slot_byte_some ip over j i (λ z. there (sym (slot-over j h) ∙ z))
        ∙ ap (λ x. over.block x i) (slot-over j h)
        ∙ ap (λ f. f i) (update_ne d.block b (slot ip d j) bytes (λ e. ne there (sym e)))
        ∙ sym (slot_byte_some ip d j i there)
  ]
