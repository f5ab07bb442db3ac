-- ===== src/Dir/Found.antt =====
-- fs.c: what `dirlink` enters, `dirlookup` finds.
use cs461_mlfq_scheduler.Str.{Memory}
use cs461_mlfq_scheduler.Icache.{iget}
use cs461_mlfq_scheduler.Fs.{half}
use cs461_mlfq_scheduler.Inode.{Inodes}
use cs461_mlfq_scheduler.Content.{iput, Devsw}
use cs461_mlfq_scheduler.Content.Map.{IsFile}
use cs461_mlfq_scheduler.Dir.{dirsiz, direntsize, find_empty, dirlookup, dirlink}
use cs461_mlfq_scheduler.Dir.Entries.{IsDir, contents, Still-IsDir, Matches}
use cs461_mlfq_scheduler.Dir.Lookup.{Looked, absent, found, dirlookup_lem, Matches-same}
use cs461_mlfq_scheduler.Dir.Link.{Room-later, find_empty_lem, Linked, write_entry_lem}
use cs461_mlfq_scheduler.Base.{
  ltb, ltb→lt, Bool-cases, Returns, Returns-intro, Returns-elim, Returns-weaken, Returns->>=, ok,
  returns, ℕ, ◌+◌, ◌/◌, ◌%◌, ◌^◌, ◌≤◌, ◌<◌, ◌≡◌, refl, sym, ap, ◌∙◌, ◌≢◌, ◌⊎◌, inl, inr, Option,
  none, some, arith,
}

-- How `dirlink` ends.
pub data LinkResult (de dp name inum : ℕ) (mem : Memory) (s : Inodes)
    (r : Option ℕ × Memory × Inodes) : Type 0 where
  exists :
      (o : ℕ)
      → r.0 ≡ none
      → o % direntsize ≡ 0
      → o < (s.inode dp).size
      → Matches mem name (contents dp s) o
      → LinkResult de dp name inum mem s r
  linked :
      (o : ℕ)
      → r.0 ≡ some 0
      → ((o' : ℕ)
          → o' % direntsize ≡ 0
          → o' < (s.inode dp).size
          → Matches mem name (contents dp s) o'
          → ⊥)
      → Linked de dp name inum mem s o r.2
      → LinkResult de dp name inum mem s r

module _ (devsw : Devsw) (de dp name inum : ℕ) (apart : name + dirsiz ≤ de ⊎ de + direntsize ≤ name)
    (small : inum < 2 ^ 16) where
  -- `dirlink` of a name into a directory in order, if it comes back: it returns -1 and an entry has
  -- the name already; or it returns 0, no entry had the name, and the first empty entry, or a new
  -- one at the end, has it now, with the number; all other entries are as they were.
  pub dirlink_lem :
      (mem : Memory) (s : Inodes)
      → IsFile (s.inode dp) s.disk
      → IsDir (s.inode dp)
      → Returns (dirlink devsw de dp name inum mem s) (LinkResult de dp name inum mem s)
  unfolding dirlink
  dirlink_lem mem s v dir =
      Returns->>= (dirlookup devsw de dp name mem s) _
        (dirlookup_lem devsw de dp name apart mem s v dir)
        (λ r l. elim l [
          | found i o e al lt m first s' st g disk ↦ rw e (
              Returns->>= (iput i r.2) _ (Returns-intro (iput i r.2) (λ a q. q))
                (λ a q. returns (none, r.1, a) refl (exists o refl al lt m)))
          | absent e none_ st names ↦ rw e (
              Returns->>= (find_empty devsw de ((r.2.inode dp).size / direntsize + 1) dp 0 r.1 r.2)
                _
                (find_empty_lem devsw de dp ((r.2.inode dp).size / direntsize + 1) 0 r.1 r.2 st.file
                  (Still-IsDir dp s r.2 st dir) (omega arith) (omega arith) (omega arith))
                (λ q room.
                  let room' = Room-later devsw de dp 0 mem r.1 s r.2 q dir names st room in
                  Returns-weaken (λ w h. linked q.0 h.0 (λ o' al. none_ o' (omega arith) al) h.1)
                    (write_entry_lem devsw de dp name inum apart small mem q.1 s q.2 q.0 dir
                      room')))
        ])

  -- A name that `dirlink` has entered, with a number that is not 0, `dirlookup` finds: if both calls
  -- come back, the second one has returned what `iget` returns for the number.
  pub dirlookup-dirlink :
      (mem mem2 : Memory) (s : Inodes) (r : Option ℕ × Memory × Inodes)
      → IsFile (s.inode dp) s.disk
      → IsDir (s.inode dp)
      → inum ≢ 0
      → dirlink devsw de dp name inum mem s ≡ ok r
      → r.0 ≡ some 0
      → ((i : ℕ) → i < dirsiz → mem2 (name + i) ≡ mem (name + i))
      → Returns (dirlookup devsw de dp name mem2 r.2) (λ q.
        (i o : ℕ) × (q.0 ≡ some (i, o))
        × (s' : Inodes) × (iget (r.2.inode dp).dev inum s'.inode ≡ ok (i, q.2.inode)))
  dirlookup-dirlink mem mem2 s r v dir nz e zero_ names =
      elim (Returns-elim e (dirlink_lem mem s v dir)) [
        | exists o e' al lt m ↦ absurd (cc)
        | linked o e' none_ l ↦
            Returns-weaken (λ q h. which o none_ l q h)
              (dirlookup_lem devsw de dp name apart mem2 r.2 l.file l.dir)
      ]
    where
      here : (o : ℕ) → Linked de dp name inum mem s o r.2 → Matches mem2 name (contents dp r.2) o
      here o l = record {
        alive = λ z. nz (sym l.number ∙ z);
        named =
            λ i lt pre. names i lt ∙ l.named i lt (λ j h z. pre j h (names j (omega arith) ∙ z));
      }

      old :
          (o o' : ℕ)
          → Linked de dp name inum mem s o r.2
          → o' % direntsize ≡ 0
          → o' < o
          → Matches mem2 name (contents dp r.2) o'
          → Matches mem name (contents dp s) o'
      old o o' l al lt =
          Matches-same mem mem2 name (contents dp r.2) (contents dp s) o' names (λ x lo hi.
            l.others x (omega (arith, l.inside, dir.bounded, l.aligned))
              (inl (omega (arith, l.aligned))))

      which :
          (o : ℕ)
          → ((o' : ℕ)
              → o' % direntsize ≡ 0
              → o' < (s.inode dp).size
              → Matches mem name (contents dp s) o'
              → ⊥)
          → Linked de dp name inum mem s o r.2
          → (q : Option (ℕ × ℕ) × Memory × Inodes) → Looked de dp name 0 mem2 r.2 q
          → (i o : ℕ) × (q.0 ≡ some (i, o))
            × (s' : Inodes) × (iget (r.2.inode dp).dev inum s'.inode ≡ ok (i, q.2.inode))
      which o none_ l q (absent e' all st keep) =
          absurd (all o (omega arith) l.aligned (ground (arith, l.size)) (here o l))
      which o none_ l q (found i o' e' al lt m first s' st g disk) =
          let same : o' ≡ o = elim (Bool-cases (ltb o o')) [
            | inl later ↦ absurd (first o (omega arith) (ltb→lt o o' later) l.aligned (here o l))
            | inr not_later ↦ elim (Bool-cases (ltb o' o)) [
              | inl earlier ↦
                  let before = ltb→lt o' o earlier in
                  absurd (none_ o' al (omega (arith, l.inside)) (old o o' l al before m))
              | inr not_earlier ↦ ground arith
            ]
          ] in
          let number : half (contents dp r.2) o' ≡ inum =
            ap (half (contents dp r.2)) same ∙ l.number in
          (i, o', e', s', sym (ap (λ n. iget (r.2.inode dp).dev n s'.inode) number) ∙ g)
