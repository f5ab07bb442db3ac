-- ===== src/Dir/Entries.antt =====
-- fs.c: the entries of a directory, one at a time.
use mathlib.Core.Path.{subst}
use Prim.Native.String.{String}
use cs461_mlfq_scheduler.Str.{Memory, strncmp}
use cs461_mlfq_scheduler.Str.Compare.{strncmp-eq_iff}
use cs461_mlfq_scheduler.Icache.{Inode}
use cs461_mlfq_scheduler.Fs.{Blocks, half}
use cs461_mlfq_scheduler.Inode.{Inodes}
use cs461_mlfq_scheduler.Content.{t_dir, Devsw, readi}
use cs461_mlfq_scheduler.Content.Map.{IsFile}
use cs461_mlfq_scheduler.Content.Bmap.{byte_at}
use cs461_mlfq_scheduler.Content.Bytes.{read_in, Read, limit}
use cs461_mlfq_scheduler.Content.Calls.{readi_lem}
use cs461_mlfq_scheduler.Dir.{dirsiz, direntsize, namecmp, same_name, read_entry}
use cs461_mlfq_scheduler.Base.{
  ltb, leb, ==_iff, Returns, Returns->>=, update, update_self, update_ne, returns, ℕ, ◌+◌, ◌-◌, ◌%◌,
  ◌≤◌, ◌<◌, min, ◌≡◌, refl, sym, ap, ◌∙◌, ◌≢◌, ◌↔◌, ◌⊎◌, true, ◌&&◌, some, arith,
}

-- A directory in order: whole entries, in at most MAXFILE blocks.
pub record IsDir (ip : Inode) : Type 0 where
  pub dir : ip.type ≡ t_dir
  pub bounded : ip.size ≤ limit
  pub whole : ip.size % direntsize ≡ 0

abbrev pub contents : ℕ → Inodes → ℕ → ℕ
contents dp s = byte_at (s.inode dp) s.disk

-- Inode `dp` as it was, but for blocks that are all zeroes.
pub record Still (dp : ℕ) (s s' : Inodes) : Type 0 where
  pub bytes : (x : ℕ) → x < limit → contents dp s' x ≡ contents dp s x
  pub kept : s'.inode dp ≡ record (s.inode dp) { addrs = (s'.inode dp).addrs }
  pub rest : (i : ℕ) → i ≢ dp → s'.inode i ≡ s.inode i
  pub file : IsFile (s'.inode dp) s'.disk

pub Still-refl : (dp : ℕ) (s : Inodes) → IsFile (s.inode dp) s.disk → Still dp s s
Still-refl dp s v = record { bytes = λ x h. refl; kept = refl; rest = λ i ne. refl; file = v }

pub Still-trans : (dp : ℕ) (s s' s'' : Inodes) → Still dp s s' → Still dp s' s'' → Still dp s s''
Still-trans dp s s' s'' a b = record {
  bytes = λ x h. b.bytes x h ∙ a.bytes x h;
  kept = b.kept ∙ ap {A = Inode} (λ i. record i { addrs = (s''.inode dp).addrs }) a.kept;
  rest = λ i ne. b.rest i ne ∙ a.rest i ne;
  file = b.file;
}

pub Still-size : (dp : ℕ) (s s' : Inodes) → Still dp s s' → (s'.inode dp).size ≡ (s.inode dp).size
Still-size dp s s' h = ap {A = Inode} (λ i. i.size) h.kept

pub Still-IsDir :
    (dp : ℕ) (s s' : Inodes) → Still dp s s' → IsDir (s.inode dp) → IsDir (s'.inode dp)
Still-IsDir dp s s' h v =
    let size = Still-size dp s s' h in
    record {
      dir = ap {A = Inode} (λ i. i.type) h.kept ∙ v.dir;
      bounded = omega (arith, v.bounded);
      whole = ap (λ n. n % direntsize) size ∙ v.whole;
    }

-- One inode is replaced by what `readi` leaves of it.
Still-update :
    (dp : ℕ) (s : Inodes) (ip' : Inode) (d' : Blocks)
    → ((x : ℕ) → x < limit → byte_at ip' d' x ≡ contents dp s x)
    → ip' ≡ record (s.inode dp) { addrs = ip'.addrs }
    → IsFile ip' d'
    → Still dp s (record { inode = update s.inode dp ip'; disk = d' })
Still-update dp s ip' d' bytes kept file =
    let at = update_self s.inode dp ip' in
    record {
      bytes = λ x h. ap (λ i. byte_at i d' x) at ∙ bytes x h;
      kept = at ∙ kept ∙ ap {A = Inode} (λ i. record (s.inode dp) { addrs = i.addrs }) (sym at);
      rest = λ i ne. update_ne s.inode dp i ip' (λ e. ne (sym e));
      file = subst (λ i. IsFile i d') (sym at) file;
    }

module _ (devsw : Devsw) (de : ℕ) where
  -- Reading the entry at `off` never fails inside of a directory in order; it puts the entry's bytes
  -- at `de`, and leaves everything else as it was.
  pub read_entry_lem :
      (msg : String) (dp off : ℕ) (mem : Memory) (s : Inodes)
      → IsFile (s.inode dp) s.disk
      → IsDir (s.inode dp)
      → off + direntsize ≤ (s.inode dp).size
      → Returns (read_entry devsw de msg dp off mem s) (λ r.
        ((a : ℕ) → r.0 a ≡ read_in mem de off direntsize (contents dp s) a) × Still dp s r.1)
  unfolding read_entry
  read_entry_lem msg dp off mem s v dir inside =
      Returns->>= (readi devsw (s.inode dp) mem de off direntsize s.disk) _
        (readi_lem devsw (s.inode dp) mem de off direntsize s.disk v
          (λ e. absurd (omega (arith, dir.dir))) (omega arith) dir.bounded
          (omega (arith, dir.bounded)))
        (λ r h.
          let len : min direntsize ((s.inode dp).size - off) ≡ direntsize = omega arith in
          let count : r.0 ≡ some direntsize = h.0 ∙ ap some len in
          let read = subst (λ n. Read mem de off n (s.inode dp) s.disk r.1 r.2 r.3) len h.1 in
          rw count (
            returns (r.1, record { inode = update s.inode dp r.2; disk = r.3 }) refl
              (read.bytes, Still-update dp s r.2 r.3 read.contents read.kept read.file)))

-- The entry at offset `off` of a directory is in use and has the name that is at `name` in memory, as
-- far as its first 0.
pub record Matches (mem : Memory) (name : ℕ) (bytes : ℕ → ℕ) (off : ℕ) : Type 0 where
  pub alive : half bytes off ≢ 0
  pub named :
      (i : ℕ)
      → i < dirsiz
      → ((j : ℕ) → j < i → mem (name + j) ≢ 0)
      → mem (name + i) ≡ bytes (off + 2 + i)

-- The memory with an entry in `de`; the name that is looked for is not there.
module _ (de : ℕ) (mem mem' : Memory) (name off : ℕ) (bytes : ℕ → ℕ)
    (apart : name + dirsiz ≤ de ⊎ de + direntsize ≤ name)
    (read : (a : ℕ) → mem' a ≡ read_in mem de off direntsize bytes a) where
  in_name : (i : ℕ) → i < dirsiz → mem' (name + i) ≡ mem (name + i)
  in_name i lt = read (name + i) ∙ ground arith

  in_entry : (i : ℕ) → i < direntsize → mem' (de + i) ≡ bytes (off + i)
  in_entry i lt =
      read (de + i)
      ∙ (let inside : leb de (de + i) && ltb (de + i) (de + direntsize) ≡ true = ground arith in
          let at : de + i - de ≡ i = omega arith in rw (inside, at) refl)

  first_byte : mem' de ≡ bytes off
  first_byte =
      let e : de ≡ de + 0 = omega arith in
      let e' : off + 0 ≡ off = omega arith in ap mem' e ∙ in_entry 0 (omega arith) ∙ ap bytes e'

  pub half-entry : half mem' de ≡ half bytes off
  half-entry = omega (arith, first_byte, in_entry 1 (omega arith))

  name_byte : (i : ℕ) → i < dirsiz → mem' (de + 2 + i) ≡ bytes (off + 2 + i)
  name_byte i lt =
      let e : de + 2 + i ≡ de + (2 + i) = omega arith in
      let e' : off + (2 + i) ≡ off + 2 + i = omega arith in
      ap mem' e ∙ in_entry (2 + i) (omega arith) ∙ ap bytes e'

  pub same_name_iff :
      half bytes off ≢ 0 → (same_name mem' name (de + 2) ≡ true) ↔ Matches mem name bytes off
  unfolding namecmp
  same_name_iff alive =
      let (to, from) = strncmp-eq_iff mem' dirsiz name (de + 2) in
      let diff = (strncmp mem' name (de + 2) dirsiz).1 in
      (
        λ e. record {
          alive = alive;
          named = λ i lt pre.
              sym (in_name i lt)
              ∙ to ((==_iff diff 0).0 e) i lt (λ j h z. pre j h (sym (in_name j (omega arith)) ∙ z))
              ∙ name_byte i lt;
        },
        λ m. (==_iff diff 0).1 (
            from (λ i lt pre.
              in_name i lt
              ∙ m.named i lt (λ j h z. pre j h (in_name j (omega arith) ∙ z))
              ∙ sym (name_byte i lt))),
      )
