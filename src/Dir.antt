-- ===== src/Dir.antt =====
-- fs.c: directories, which are inodes whose contents are entries of 16 bytes. `de`, the local variable
-- that an entry is read into, has an address in memory.
pub mod Entries
pub mod Lookup
pub mod Link
pub mod Found
use Prim.Native.String.{String}
use cs461_mlfq_scheduler.Str.{Memory, strncmp, strncpy}
use cs461_mlfq_scheduler.Icache.{iget}
use cs461_mlfq_scheduler.Fs.{half, put_half}
use cs461_mlfq_scheduler.Inode.{Inodes}
use cs461_mlfq_scheduler.Content.{t_dir, Devsw, readi, writei, iput}
use cs461_mlfq_scheduler.Base.{
  ltb, ◌==◌, if◌then◌else◌, Result, ◌>>=◌, update, ok, panic, ℕ, zero, suc, ◌+◌, ◌/◌, Bool, not,
  Option, none, some,
}

abbrev pub dirsiz : ℕ
dirsiz = 14

-- `sizeof(struct dirent)`; the number of the inode is in front of the name.
abbrev pub direntsize : ℕ
direntsize = 2 + dirsiz

unfoldable pub namecmp : Memory → ℕ → ℕ → Bool × ℕ
namecmp mem s t = strncmp mem s t dirsiz

-- `namecmp(s, t) == 0`
abbrev pub same_name : Memory → ℕ → ℕ → Bool
same_name mem s t = (namecmp mem s t).1 == 0

module _ (devsw : Devsw) (de : ℕ) where
  -- `readi(dp, (char*)&de, off, sizeof(de))`, and `panic(msg)` if it does not return 16.
  unfoldable pub read_entry : String → ℕ → ℕ → Memory → Inodes → Result (Memory × Inodes)
  read_entry msg dp off mem s = readi devsw (s.inode dp) mem de off direntsize s.disk >>= λ r.
      elim (r.0) [
        | none ↦ panic msg
        | some n ↦
            if n == direntsize
            then ok (r.1, record { inode = update s.inode dp r.2; disk = r.3 })
            else panic msg
      ]

  -- The entry that was read from `off`: it is the one, or the loop goes on with `rest`.
  abbrev pub check_entry :
      (Memory × Inodes → Result (Option (ℕ × ℕ) × Memory × Inodes))
      → ℕ
      → ℕ
      → ℕ
      → Memory × Inodes
      → Result (Option (ℕ × ℕ) × Memory × Inodes)
  check_entry rest dp name off r =
      if half r.0 de == 0
      then rest r
      else if same_name r.0 name (de + 2)
      then (iget (r.1.inode dp).dev (half r.0 de) r.1.inode >>= λ i.
          ok (some (i.0, off), r.0, record (r.1) { inode = i.1 }))
      else rest r

  -- The loop of `dirlookup` from offset `off` on, over at most `fuel` entries: the inode that was
  -- found and the offset of its entry.
  unfoldable pub dirlookup_loop :
      ℕ → ℕ → ℕ → ℕ → Memory → Inodes → Result (Option (ℕ × ℕ) × Memory × Inodes)
  dirlookup_loop zero dp name off mem s = ok (none, mem, s)
  dirlookup_loop (suc fuel) dp name off mem s =
      let rest = λ (r : Memory × Inodes). dirlookup_loop fuel dp name (off + direntsize) r.0 r.1 in
      if ltb off (s.inode dp).size
      then read_entry "dirlookup read" dp off mem s >>= check_entry rest dp name off
      else ok (none, mem, s)

  -- `dirlookup(dp, name, poff)`. A directory has at most MAXFILE blocks, so `off` does not wrap.
  unfoldable pub dirlookup : ℕ → ℕ → Memory → Inodes → Result (Option (ℕ × ℕ) × Memory × Inodes)
  dirlookup dp name mem s =
      if (s.inode dp).type == t_dir
      then dirlookup_loop ((s.inode dp).size / direntsize + 1) dp name 0 mem s
      else panic "dirlookup not DIR"

  -- The loop of `dirlink`: the offset of the first empty entry, or of the end.
  unfoldable pub find_empty : ℕ → ℕ → ℕ → Memory → Inodes → Result (ℕ × Memory × Inodes)
  find_empty zero dp off mem s = ok (off, mem, s)
  find_empty (suc fuel) dp off mem s =
      let rest = λ (r : Memory × Inodes). find_empty fuel dp (off + direntsize) r.0 r.1 in
      if ltb off (s.inode dp).size
      then (read_entry "dirlink read" dp off mem s >>= λ r.
          if half r.0 de == 0 then ok (off, r.0, r.1) else rest r)
      else ok (off, mem, s)

  -- `strncpy(de.name, name, DIRSIZ); de.inum = inum;` and the `writei`
  unfoldable pub write_entry : ℕ → ℕ → ℕ → ℕ → Memory → Inodes → Result (Option ℕ × Memory × Inodes)
  write_entry dp name inum off mem s =
      let mem' = put_half (strncpy mem (de + 2) name dirsiz) de inum in
      writei devsw (s.inode dp) mem' de off direntsize s.disk >>= λ r. elim (r.0) [
        | none ↦ panic "dirlink"
        | some n ↦
            if n == direntsize
            then ok (some 0, mem', record { inode = update s.inode dp r.1; disk = r.2 })
            else panic "dirlink"
      ]

  -- `dirlink(dp, name, inum)`: `some 0`, or `none` for -1
  unfoldable pub dirlink : ℕ → ℕ → ℕ → Memory → Inodes → Result (Option ℕ × Memory × Inodes)
  dirlink dp name inum mem s = dirlookup dp name mem s >>= λ r. elim (r.0) [
    | some found ↦ iput found.0 r.2 >>= λ s'. ok (none, r.1, s')
    | none ↦ find_empty ((r.2.inode dp).size / direntsize + 1) dp 0 r.1 r.2 >>= λ e.
        write_entry dp name inum e.0 e.1 e.2
  ]
