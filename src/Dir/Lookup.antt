-- ===== src/Dir/Lookup.antt =====
-- fs.c: what `dirlookup` finds.
use mathlib.Core.Path.{subst}
use native.Mathlib.Decide.{ℕ_discrete}
use cs461_mlfq_scheduler.Str.{Memory}
use cs461_mlfq_scheduler.Icache.{Inode, iget}
use cs461_mlfq_scheduler.Fs.{half}
use cs461_mlfq_scheduler.Inode.{Inodes}
use cs461_mlfq_scheduler.Content.{t_dir, Devsw}
use cs461_mlfq_scheduler.Content.Bmap.{unset}
use cs461_mlfq_scheduler.Content.Map.{IsFile}
use cs461_mlfq_scheduler.Content.Bytes.{read_in, limit}
use cs461_mlfq_scheduler.Dir.{
  dirsiz, direntsize, same_name, read_entry, check_entry, dirlookup_loop, dirlookup,
}
use cs461_mlfq_scheduler.Dir.Entries.{
  IsDir, contents, Still, Still-refl, Still-trans, Still-size, Still-IsDir, read_entry_lem, Matches,
  half-entry, same_name_iff,
}
use cs461_mlfq_scheduler.Base.{
  ltb, ◌==◌, ltb→lt, ==_iff, Bool-cases, Result, Returns, Returns-intro, Returns-weaken,
  Returns->>=, ok, returns, ℕ, zero, suc, ◌+◌, ◌*◌, ◌/◌, ◌%◌, ◌≤◌, ◌<◌, ◌≡◌, refl, sym, ap, ◌∙◌,
  ◌≢◌, ◌⊎◌, inl, inr, true, Option, none, some, arith,
}

-- The same name and the same entry, in other memories and states.
pub Matches-same :
    (mem mem' : Memory) (name : ℕ) (f g : ℕ → ℕ) (off : ℕ)
    → ((i : ℕ) → i < dirsiz → mem' (name + i) ≡ mem (name + i))
    → ((x : ℕ) → off ≤ x → x < off + direntsize → f x ≡ g x)
    → Matches mem' name f off
    → Matches mem name g off
Matches-same mem mem' name f g off names bytes m = record {
  alive = λ z. m.alive (
      omega (
        arith,
        bytes off (omega arith) (omega arith),
        bytes (off + 1) (omega arith) (omega arith),
      ));
  named = λ i lt pre.
      sym (names i lt)
      ∙ m.named i lt (λ j h z. pre j h (sym (names j (omega arith)) ∙ z))
      ∙ bytes (off + 2 + i) (omega arith) (omega arith);
}

-- An address outside of `de`.
abbrev pub Outside : ℕ → ℕ → Type 0
Outside de a = a < de ⊎ de + direntsize ≤ a

-- What `dirlookup` returns, as seen from offset `off` on: nothing, if no entry matches; or the inode
-- of the first entry that matches, from `iget`, and the entry's offset.
pub data Looked (de dp name off : ℕ) (mem : Memory) (s : Inodes)
    (r : Option (ℕ × ℕ) × Memory × Inodes) : Type 0 where
  absent :
      r.0 ≡ none
      → ((o : ℕ)
          → off ≤ o
          → o % direntsize ≡ 0
          → o < (s.inode dp).size
          → Matches mem name (contents dp s) o
          → ⊥)
      → Still dp s r.2
      → ((a : ℕ) → Outside de a → r.1 a ≡ mem a)
      → Looked de dp name off mem s r
  found :
      (i o : ℕ)
      → r.0 ≡ some (i, o)
      → o % direntsize ≡ 0
      → o < (s.inode dp).size
      → Matches mem name (contents dp s) o
      → ((o' : ℕ)
          → off ≤ o'
          → o' < o
          → o' % direntsize ≡ 0
          → Matches mem name (contents dp s) o'
          → ⊥)
      → (s' : Inodes) → Still dp s s'
      → iget (s.inode dp).dev (half (contents dp s) o) s'.inode ≡ ok (i, r.2.inode)
      → r.2.disk ≡ s'.disk
      → Looked de dp name off mem s r

module _ (de dp name : ℕ) (apart : name + dirsiz ≤ de ⊎ de + direntsize ≤ name) (mem mem1 : Memory)
    (s s1 : Inodes) (dir : IsDir (s.inode dp)) (same : (a : ℕ) → Outside de a → mem1 a ≡ mem a)
    (still : Still dp s s1) where
  same_in_name : (i : ℕ) → i < dirsiz → mem1 (name + i) ≡ mem (name + i)
  same_in_name i lt = same (name + i) (ground arith)

  Matches-back :
      (o : ℕ)
      → o % direntsize ≡ 0
      → o < (s.inode dp).size
      → Matches mem1 name (contents dp s1) o
      → Matches mem name (contents dp s) o
  Matches-back o al lt =
      Matches-same mem mem1 name (contents dp s1) (contents dp s) o same_in_name
        (λ x lo hi. still.bytes x (omega (arith, dir.bounded, dir.whole)))

  Matches-on :
      (o : ℕ)
      → o % direntsize ≡ 0
      → o < (s.inode dp).size
      → Matches mem name (contents dp s) o
      → Matches mem1 name (contents dp s1) o
  Matches-on o al lt =
      Matches-same mem1 mem name (contents dp s) (contents dp s1) o (λ i h. sym (same_in_name i h))
        (λ x lo hi. sym (still.bytes x (omega (arith, dir.bounded, dir.whole))))

  size1 : (s1.inode dp).size ≡ (s.inode dp).size
  size1 = Still-size dp s s1 still

  -- What a later round finds, behind a first one that passes its entry.
  Looked-later :
      (off : ℕ) (r : Option (ℕ × ℕ) × Memory × Inodes)
      → off % direntsize ≡ 0
      → off < (s.inode dp).size
      → (Matches mem name (contents dp s) off → ⊥)
      → Looked de dp name (off + direntsize) mem1 s1 r
      → Looked de dp name off mem s r
  Looked-later off r al inside not_here (absent e none_ st names) =
      absent e
        (λ o lo oal lt m. elim (ℕ_discrete off o) [
          | yes eq ↦ not_here (subst (Matches mem name (contents dp s)) (sym eq) m)
          | no ne ↦ none_ o (omega arith) oal (omega (arith, size1)) (Matches-on o oal lt m)
        ])
        (Still-trans dp s s1 r.2 still st) (λ a out. names a out ∙ same a out)
  Looked-later off r al inside not_here (found i o e oal lt m none_ s' st g disk) =
      let lt' : o < (s.inode dp).size = omega (arith, size1) in
      found i o e oal lt' (Matches-back o oal lt' m)
        (λ o' lo hi al' m'. elim (ℕ_discrete off o') [
          | yes eq ↦ not_here (subst (Matches mem name (contents dp s)) (sym eq) m')
          | no ne ↦ none_ o' (omega arith) hi al' (Matches-on o' al' (omega arith) m')
        ])
        s' (Still-trans dp s s1 s' still st) (same_iget ∙ g) disk
    where
      same_iget :
          iget (s.inode dp).dev (half (contents dp s) o) s'.inode
          ≡ iget (s1.inode dp).dev (half (contents dp s1) o) s'.inode
      same_iget =
          let fits : o + direntsize ≤ limit = omega (arith, dir.bounded, dir.whole, size1) in
          let h : half (contents dp s) o ≡ half (contents dp s1) o =
            omega (arith, still.bytes o (omega arith), still.bytes (o + 1) (omega arith)) in
          let dev : (s.inode dp).dev ≡ (s1.inode dp).dev =
            sym (ap {A = Inode} (λ i. i.dev) still.kept) in
          ap (λ v. iget v (half (contents dp s) o) s'.inode) dev
          ∙ ap (λ n. iget (s1.inode dp).dev n s'.inode) h

module _ (devsw : Devsw) (de dp name : ℕ)
    (apart : name + dirsiz ≤ de ⊎ de + direntsize ≤ name) where
  -- The entry that was read, with `rest` for the rounds behind it.
  check_entry_lem :
      (rest : Memory × Inodes → Result (Option (ℕ × ℕ) × Memory × Inodes)) (off : ℕ)
      (mem mem1 : Memory) (s s1 : Inodes)
      → IsDir (s.inode dp)
      → off % direntsize ≡ 0
      → off < (s.inode dp).size
      → ((a : ℕ) → mem1 a ≡ read_in mem de off direntsize (contents dp s) a)
      → Still dp s s1
      → Returns (rest (mem1, s1)) (Looked de dp name (off + direntsize) mem1 s1)
      → Returns (check_entry devsw de rest dp name off (mem1, s1)) (Looked de dp name off mem s)
  check_entry_lem rest off mem mem1 s s1 dir al lt read still next =
      let number = half-entry de mem mem1 name off (contents dp s) apart read in
      elim (Bool-cases (half mem1 de == 0)) [
        | inl empty ↦
            rw empty (later (λ m. m.alive (sym number ∙ (==_iff (half mem1 de) 0).0 empty)))
        | inr alive ↦
            let there : half (contents dp s) off ≢ 0 = λ z. unset alive (number ∙ z) in
            let (to, from) = same_name_iff de mem mem1 name off (contents dp s) apart read there in
            elim (Bool-cases (same_name mem1 name (de + 2))) [
              | inr other ↦
                  rw (alive, other) (later (λ m. let yes_ = from m in absurd (ground arith)))
              | inl same ↦
                  rw (alive, same)
                    (Returns->>= (iget (s1.inode dp).dev (half mem1 de) s1.inode) _
                      (Returns-intro (iget (s1.inode dp).dev (half mem1 de) s1.inode) (λ i e. e))
                      (λ i e.
                        returns (some (i.0, off), mem1, record s1 { inode = i.1 }) refl
                          (found i.0 off refl al lt (to same)
                            (λ o lo hi oal m. absurd (omega arith)) s1 still (at i e) refl)))
            ]
      ]
    where
      same_out : (a : ℕ) → Outside de a → mem1 a ≡ mem a
      same_out a out = read a ∙ ground arith

      later :
          (Matches mem name (contents dp s) off → ⊥)
          → Returns (rest (mem1, s1)) (Looked de dp name off mem s)
      later not_here =
          Returns-weaken
            (λ r l.
              Looked-later de dp name apart mem mem1 s s1 dir same_out still off r al lt not_here l)
            next

      at :
          (i : ℕ × (ℕ → Inode))
          → iget (s1.inode dp).dev (half mem1 de) s1.inode ≡ ok i
          → iget (s.inode dp).dev (half (contents dp s) off) s1.inode ≡ ok i
      at i e =
          let dev : (s.inode dp).dev ≡ (s1.inode dp).dev =
            sym (ap {A = Inode} (λ i. i.dev) still.kept) in
          ap (λ v. iget v (half (contents dp s) off) s1.inode) dev
          ∙ ap (λ n. iget (s1.inode dp).dev n s1.inode)
              (sym (half-entry de mem mem1 name off (contents dp s) apart read))
          ∙ e

  dirlookup_loop_lem :
      (fuel off : ℕ) (mem : Memory) (s : Inodes)
      → IsFile (s.inode dp) s.disk
      → IsDir (s.inode dp)
      → off % direntsize ≡ 0
      → (s.inode dp).size < off + direntsize * fuel
      → Returns (dirlookup_loop devsw de fuel dp name off mem s) (Looked de dp name off mem s)
  unfolding dirlookup_loop
  dirlookup_loop_lem zero off mem s v dir al enough =
      returns (none, mem, s) refl
        (absent refl (λ o lo oal lt m. absurd (omega arith)) (Still-refl dp s v) (λ a out. refl))
  dirlookup_loop_lem (suc fuel) off mem s v dir al enough =
      elim (Bool-cases (ltb off (s.inode dp).size)) [
        | inr end ↦ rw end (
            returns (none, mem, s) refl
              (absent refl (λ o lo oal lt m. absurd (ground arith)) (Still-refl dp s v)
                (λ a out. refl)))
        | inl more ↦
            let lt = ltb→lt off (s.inode dp).size more in
            rw more (
              Returns->>= (read_entry devsw de "dirlookup read" dp off mem s) _
                (read_entry_lem devsw de "dirlookup read" dp off mem s v dir
                  (omega (arith, dir.whole)))
                (λ r h.
                  let size1 = Still-size dp s r.1 h.1 in
                  check_entry_lem
                    (λ q. dirlookup_loop devsw de fuel dp name (off + direntsize) q.0 q.1) off mem
                    r.0 s r.1 dir al lt h.0 h.1
                    (dirlookup_loop_lem fuel (off + direntsize) r.0 r.1 h.1.file
                      (Still-IsDir dp s r.1 h.1 dir) (omega arith) (omega arith))))
      ]

  -- `dirlookup` in a directory in order, of a name that does not lie in the local entry, if it comes
  -- back: it has returned the inode, from `iget`, and the offset of the first entry that is in use and
  -- has the name, as far as the first 0 and at most 14 bytes; or nothing, if there is no such entry.
  pub dirlookup_lem :
      (mem : Memory) (s : Inodes)
      → IsFile (s.inode dp) s.disk
      → IsDir (s.inode dp)
      → Returns (dirlookup devsw de dp name mem s) (Looked de dp name 0 mem s)
  unfolding dirlookup
  dirlookup_lem mem s v dir =
      let is_dir : ((s.inode dp).type == t_dir) ≡ true =
        (==_iff (s.inode dp).type t_dir).1 dir.dir in
      rw is_dir (
        dirlookup_loop_lem ((s.inode dp).size / direntsize + 1) 0 mem s v dir (omega arith)
          (omega arith))
