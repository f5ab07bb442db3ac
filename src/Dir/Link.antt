-- ===== src/Dir/Link.antt =====
-- fs.c: the entry that `dirlink` writes.
use mathlib.Core.Path.{subst}
use native.Mathlib.Decide.{ℕ_discrete}
use cs461_mlfq_scheduler.Str.{Memory, strncpy}
use cs461_mlfq_scheduler.Str.Copy.{padded, strncpy_lem}
use cs461_mlfq_scheduler.Icache.{Inode}
use cs461_mlfq_scheduler.Fs.{Blocks, half, put_half}
use cs461_mlfq_scheduler.Fs.Words.{half_put_self, put_half_ne}
use cs461_mlfq_scheduler.Inode.{Inodes}
use cs461_mlfq_scheduler.Content.{t_dev, Devsw, writei}
use cs461_mlfq_scheduler.Content.Map.{IsFile}
use cs461_mlfq_scheduler.Content.Bmap.{byte_at}
use cs461_mlfq_scheduler.Content.Bytes.{limit, written}
use cs461_mlfq_scheduler.Content.Calls.{Written, writei_lem, writei_refuses, grown}
use cs461_mlfq_scheduler.Dir.{dirsiz, direntsize, read_entry, find_empty, write_entry}
use cs461_mlfq_scheduler.Dir.Entries.{
  IsDir, contents, Still, Still-refl, Still-trans, Still-size, Still-IsDir, read_entry_lem,
  half-entry,
}
use cs461_mlfq_scheduler.Dir.Lookup.{Outside}
use cs461_mlfq_scheduler.Base.{
  ltb, leb, ◌==◌, if◌then◌else◌, ltb→lt, leb→le, ==_iff, Bool-cases, Returns, Returns-weaken,
  Returns->>=, update, update_self, ok, panics, returns, ℕ, zero, suc, ◌+◌, ◌-◌, ◌*◌, ◌%◌, ◌^◌, ◌≤◌,
  ◌<◌, ◌≡◌, refl, sym, ap, ◌∙◌, ◌≢◌, ◌⊎◌, inl, inr, true, false, ◌&&◌, Option, some, arith,
}

-- Where the loop of `dirlink` from `from` on stops: at the first empty entry, or at the end.
pub record Room (de dp from : ℕ) (mem : Memory) (s : Inodes) (r : ℕ × Memory × Inodes)
    : Type 0 where
  pub aligned : r.0 % direntsize ≡ 0
  pub inside : r.0 ≤ (s.inode dp).size
  pub empty : r.0 < (s.inode dp).size → half (contents dp s) r.0 ≡ 0
  pub first : (o : ℕ) → o % direntsize ≡ 0 → from ≤ o → o < r.0 → half (contents dp s) o ≢ 0
  pub names : (a : ℕ) → Outside de a → r.1 a ≡ mem a
  pub still : Still dp s r.2

module _ (devsw : Devsw) (de dp : ℕ) where
  pub Room-later :
      (from : ℕ) (mem mem1 : Memory) (s s1 : Inodes) (r : ℕ × Memory × Inodes)
      → IsDir (s.inode dp)
      → ((a : ℕ) → Outside de a → mem1 a ≡ mem a)
      → Still dp s s1
      → Room de dp from mem1 s1 r
      → Room de dp from mem s r
  Room-later from mem mem1 s s1 r dir same still l =
      let size1 = Still-size dp s s1 still in
      record {
        aligned = l.aligned;
        inside = omega (arith, l.inside);
        empty = λ lt.
            number r.0 (omega (arith, dir.bounded, dir.whole, l.aligned)) ∙ l.empty (omega arith);
        first = λ o al lo hi z.
            l.first o al lo hi
              (sym (number o (omega (arith, dir.bounded, dir.whole, l.aligned, l.inside))) ∙ z);
        names = λ a out. l.names a out ∙ same a out;
        still = Still-trans dp s s1 r.2 still l.still;
      }
    where
      number : (o : ℕ) → o + direntsize ≤ limit → half (contents dp s) o ≡ half (contents dp s1) o
      number o h = omega (arith, still.bytes o (omega arith), still.bytes (o + 1) (omega arith))

  pub find_empty_lem :
      (fuel off : ℕ) (mem : Memory) (s : Inodes)
      → IsFile (s.inode dp) s.disk
      → IsDir (s.inode dp)
      → off % direntsize ≡ 0
      → off ≤ (s.inode dp).size
      → (s.inode dp).size < off + direntsize * fuel
      → Returns (find_empty devsw de fuel dp off mem s) (Room de dp off mem s)
  unfolding find_empty
  find_empty_lem zero off mem s v dir al le enough = absurd (omega arith)
  find_empty_lem (suc fuel) off mem s v dir al le enough =
      elim (Bool-cases (ltb off (s.inode dp).size)) [
        | inr end ↦ rw end (
            returns (off, mem, s) refl
              (record {
                aligned = al;
                inside = le;
                empty = λ lt. absurd (ground arith);
                first = λ o al lo hi. absurd (omega arith);
                names = λ a out. refl;
                still = Still-refl dp s v;
              }))
        | inl more ↦
            let lt = ltb→lt off (s.inode dp).size more in
            rw more (
              Returns->>= (read_entry devsw de "dirlink read" dp off mem s) _
                (read_entry_lem devsw de "dirlink read" dp off mem s v dir
                  (omega (arith, dir.whole)))
                (λ r h.
                  let size1 = Still-size dp s r.1 h.1 in
                  next r.0 r.1 (λ a out. h.0 a ∙ ground arith)
                    (half-entry de mem r.0 (de + direntsize) off (contents dp s) (inr (omega arith))
                      h.0)
                    h.1
                    (find_empty_lem fuel (off + direntsize) r.0 r.1 h.1.file
                      (Still-IsDir dp s r.1 h.1 dir) (omega arith) (omega (arith, dir.whole))
                      (omega arith))))
      ]
    where
      past :
          (mem1 : Memory)
          → half mem1 de ≡ half (contents dp s) off
          → (half mem1 de == 0) ≡ false
          → (r : ℕ × Memory × Inodes) → Room de dp (off + direntsize) mem s r
          → Room de dp off mem s r
      past mem1 number used_ r l = record {
        aligned = l.aligned;
        inside = l.inside;
        empty = l.empty;
        first = λ o al' lo hi z. elim (ℕ_discrete o off) [
          | yes e ↦ let z' = number ∙ ap (half (contents dp s)) (sym e) ∙ z in absurd (ground arith)
          | no ne ↦ l.first o al' (omega arith) hi z
        ];
        names = l.names;
        still = l.still;
      }

      next :
          (mem1 : Memory) (s1 : Inodes)
          → ((a : ℕ) → Outside de a → mem1 a ≡ mem a)
          → half mem1 de ≡ half (contents dp s) off
          → Still dp s s1
          → Returns
              (find_empty devsw de fuel dp (off + direntsize) mem1 s1)
              (Room de dp (off + direntsize) mem1 s1)
          → Returns
              (if half mem1 de == 0
                then ok (off, mem1, s1)
                else find_empty devsw de fuel dp (off + direntsize) mem1 s1)
              (Room de dp off mem s)
      next mem1 s1 same number still rest = elim (Bool-cases (half mem1 de == 0)) [
        | inr used_ ↦ rw used_ (
            Returns-weaken
              (λ r l.
                past mem1 number used_ r
                  (Room-later (off + direntsize) mem mem1 s s1 r dir same still l))
              rest)
        | inl free ↦ rw free (
            returns (off, mem1, s1) refl
              (record {
                aligned = al;
                inside = le;
                empty = λ lt. sym number ∙ (==_iff (half mem1 de) 0).0 free;
                first = λ o al lo hi. absurd (omega arith);
                names = same;
                still = still;
              }))
      ]

-- The bytes of a name are stored as they are, as far as its first 0.
padded_plain :
    (i : ℕ) (mem : Memory) (t : ℕ)
    → ((j : ℕ) → j < i → mem (t + j) ≢ 0)
    → padded mem t i ≡ mem (t + i)
padded_plain zero mem t pre = ap mem (omega arith)
padded_plain (suc i) mem t pre =
    let e : (t + 0 ≡ t) × (t + 1 + i ≡ t + suc i) = omega arith in
    let more : (mem t == 0) ≡ false =
      (let nz = pre 0 (omega arith) in let z = ap mem e.0 in ground arith) in
    rw more (
      padded_plain i mem (t + 1) (λ j h z. pre (suc j) (omega arith) (ap mem (omega arith) ∙ z))
      ∙ ap mem e.1)

-- What `dirlink` leaves when it returns 0: the entry at `off`, which was the first empty one or at the
-- end, with no empty one before it, has the name and the number now; all other bytes are as they were.
pub record Linked (de dp name inum : ℕ) (mem : Memory) (s : Inodes) (off : ℕ) (s' : Inodes)
    : Type 0 where
  pub aligned : off % direntsize ≡ 0
  pub inside : off ≤ (s.inode dp).size
  pub unused : off < (s.inode dp).size → half (contents dp s) off ≡ 0
  pub first : (o : ℕ) → o % direntsize ≡ 0 → o < off → half (contents dp s) o ≢ 0
  pub others :
      (x : ℕ) → x < limit → x < off ⊎ off + direntsize ≤ x → contents dp s' x ≡ contents dp s x
  pub number : half (contents dp s') off ≡ inum
  pub named :
      (i : ℕ)
      → i < dirsiz
      → ((j : ℕ) → j < i → mem (name + j) ≢ 0)
      → mem (name + i) ≡ contents dp s' (off + 2 + i)
  pub size : (s'.inode dp).size ≡ grown (s.inode dp).size (off + direntsize)
  pub dir : IsDir (s'.inode dp)
  pub file : IsFile (s'.inode dp) s'.disk

module _ (devsw : Devsw) (de dp name inum : ℕ) (apart : name + dirsiz ≤ de ⊎ de + direntsize ≤ name)
    (small : inum < 2 ^ 16) where
  -- The local entry with the name and the number.
  abbrev filled_entry : Memory → Memory
  filled_entry mem = put_half (strncpy mem (de + 2) name dirsiz) de inum

  filled_number : (mem : Memory) → half (filled_entry mem) de ≡ inum
  filled_number mem = half_put_self (strncpy mem (de + 2) name dirsiz) de inum small

  filled_name :
      (mem : Memory) (i : ℕ)
      → i < dirsiz
      → ((j : ℕ) → j < i → mem (name + j) ≢ 0)
      → filled_entry mem (de + 2 + i) ≡ mem (name + i)
  filled_name mem i lt pre =
      put_half_ne (strncpy mem (de + 2) name dirsiz) de inum (de + 2 + i) (omega arith)
      ∙ (strncpy_lem dirsiz mem (de + 2) name (omega arith)).0 i lt
      ∙ padded_plain i mem name pre

  -- What the bytes of the written entry say.
  filled_byte :
      (mem1 : Memory) (s1 : Inodes) (off x : ℕ)
      → x < direntsize
      → written (filled_entry mem1) de off direntsize (contents dp s1) (off + x)
        ≡ filled_entry mem1 (de + x)
  filled_byte mem1 s1 off x lt =
      let inside : leb off (off + x) && ltb (off + x) (off + direntsize) ≡ true = ground arith in
      let at : off + x - off ≡ x = omega arith in rw (inside, at) refl

  Linked-intro :
      (mem mem1 : Memory) (s s1 : Inodes) (off : ℕ) (r : Option ℕ × Inode × Blocks)
      → IsDir (s.inode dp)
      → Room de dp 0 mem s (off, mem1, s1)
      → off + direntsize ≤ limit
      → Written (filled_entry mem1) de off direntsize (s1.inode dp) s1.disk r
      → Linked de dp name inum mem s off (record { inode = update s1.inode dp r.1; disk = r.2 })
  Linked-intro mem mem1 s s1 off r dir room fits w =
      let size1 = Still-size dp s s1 room.still in
      let type1 = (Still-IsDir dp s s1 room.still dir).dir in
      let size : (update s1.inode dp r.1 dp).size ≡ grown (s.inode dp).size (off + direntsize) =
        ap {A = Inode} (λ i. i.size) at ∙ w.size ∙ ap (λ n. grown n (off + direntsize)) size1 in
      record {
        aligned = room.aligned;
        inside = room.inside;
        unused = room.empty;
        first = λ o al lt. room.first o al (omega arith) lt;
        others = λ x h out. bytes x h ∙ outside x out ∙ room.still.bytes x h;
        number = omega (arith, first, stored 1 (omega arith), filled_number mem1);
        named = λ i h pre.
            let pre1 : (j : ℕ) → j < i → mem1 (name + j) ≢ 0 =
              λ j hj z. pre j hj (sym (room.names (name + j) (ground arith)) ∙ z) in
            let e : (de + (2 + i) ≡ de + 2 + i) × (off + (2 + i) ≡ off + 2 + i) = omega arith in
            sym (room.names (name + i) (ground arith))
            ∙ sym (filled_name mem1 i h pre1)
            ∙ sym (ap (filled_entry mem1) e.0)
            ∙ sym (stored (2 + i) (omega arith))
            ∙ ap (contents dp s2) e.1;
        size = size;
        dir = record {
          dir = ap {A = Inode} (λ i. i.type) at ∙ w.type ∙ type1;
          bounded = ground (arith, dir.bounded);
          whole = ground (arith, dir.whole, room.aligned);
        };
        file = subst (λ i. IsFile i r.2) (sym at) w.file;
      }
    where
      at : update s1.inode dp r.1 dp ≡ r.1
      at = update_self s1.inode dp r.1

      bytes :
          (x : ℕ)
          → x < limit
          → byte_at (update s1.inode dp r.1 dp) r.2 x
            ≡ written (filled_entry mem1) de off direntsize (contents dp s1) x
      bytes x h = ap (λ i. byte_at i r.2 x) at ∙ w.bytes x h

      s2 : Inodes
      s2 = record { inode = update s1.inode dp r.1; disk = r.2 }

      stored : (x : ℕ) → x < direntsize → contents dp s2 (off + x) ≡ filled_entry mem1 (de + x)
      stored x h = bytes (off + x) (omega arith) ∙ filled_byte mem1 s1 off x h

      first : contents dp s2 off ≡ filled_entry mem1 de
      first =
          ap (contents dp s2) (omega arith)
          ∙ stored 0 (omega arith)
          ∙ ap (filled_entry mem1) (omega arith)

      outside :
          (x : ℕ)
          → x < off ⊎ off + direntsize ≤ x
          → written (filled_entry mem1) de off direntsize (contents dp s1) x ≡ contents dp s1 x
      outside x out = ground arith

  pub write_entry_lem :
      (mem mem1 : Memory) (s s1 : Inodes) (off : ℕ)
      → IsDir (s.inode dp)
      → Room de dp 0 mem s (off, mem1, s1)
      → Returns
          (write_entry devsw de dp name inum off mem1 s1)
          (λ r. (r.0 ≡ some 0) × Linked de dp name inum mem s off r.2)
  unfolding write_entry
  write_entry_lem mem mem1 s s1 off dir room =
      let dir1 = Still-IsDir dp s s1 room.still dir in
      let size1 = Still-size dp s s1 room.still in
      let file : (s1.inode dp).type ≢ t_dev = λ e. absurd (omega (arith, dir1.dir)) in
      let entry = filled_entry mem1 in
      elim (Bool-cases (leb (off + direntsize) limit)) [
        | inl fits ↦
            let le = leb→le (off + direntsize) limit fits in
            Returns->>= (writei devsw (s1.inode dp) entry de off direntsize s1.disk) _
              (writei_lem devsw (s1.inode dp) entry de off direntsize s1.disk room.still.file file
                (omega (arith, room.inside)) le)
              (λ r w.
                rw w.count (returns _ refl (refl, Linked-intro mem mem1 s s1 off r dir room le w)))
        | inr over ↦
            rw
              (writei_refuses devsw (s1.inode dp) entry de off direntsize s1.disk file
                (omega (arith, room.inside, dir.bounded)) (omega arith) (inr (ground arith)))
              (panics "dirlink" refl)
      ]
