-- ===== src/Names.antt =====
-- fs.c: path names. Strings in memory end at a 0; the loops over them run on fuel.
pub mod Elements
pub mod Skip
use cs461_mlfq_scheduler.Proc.{Chan, Proc}
use cs461_mlfq_scheduler.Str.{Memory, memmove}
use cs461_mlfq_scheduler.Icache.{Inode, iget, idup}
use cs461_mlfq_scheduler.Inode.{Inodes, ilock, iunlock}
use cs461_mlfq_scheduler.Content.{t_dir, Devsw, iput}
use cs461_mlfq_scheduler.Dir.{dirsiz, dirlookup}
use cs461_mlfq_scheduler.Base.{
  leb, ◌==◌, if◌then◌else◌, Result, ◌>>=◌, update, ok, ℕ, zero, suc, ◌+◌, ◌-◌, Bool, true, false,
  ◌&&◌, not, Option, none, some, List,
}

abbrev pub rootdev : ℕ
rootdev = 1

abbrev pub rootino : ℕ
rootino = 1

-- `while(*path == '/') path++;`
unfoldable pub skip_slashes : ℕ → Memory → ℕ → Option ℕ
skip_slashes zero mem path = none
skip_slashes (suc fuel) mem path =
    let rest = skip_slashes fuel mem (path + 1) in if mem path == b'/' then rest else some path

-- `while(*path != '/' && *path != 0) path++;`
unfoldable pub skip_name : ℕ → Memory → ℕ → Option ℕ
skip_name zero mem path = none
skip_name (suc fuel) mem path =
    let rest = skip_name fuel mem (path + 1) in
    if not (mem path == b'/') && not (mem path == 0) then rest else some path

-- The element from `s` to `path` is copied to `name`.
abbrev pub store_name : Memory → ℕ → ℕ → ℕ → Memory
store_name mem s path name =
    let len = path - s in
    if leb dirsiz len
    then memmove mem name s dirsiz
    else update (memmove mem name s len) (name + len) 0

-- The rest of `skipelem`, with the element at `s`.
unfoldable pub take_elem : ℕ → Memory → ℕ → ℕ → Option (Option ℕ × Memory)
take_elem fuel mem s name = elim (skip_name fuel mem s) [
  | none ↦ none
  | some end ↦
      let mem' = store_name mem s end name in
      elim (skip_slashes fuel mem' end) [ none ↦ none | some next ↦ some (some next, mem') ]
]

-- `skipelem(path, name)`: the memory, and the path behind the element or `none` for 0. The outer
-- `none` means that the fuel ran out.
unfoldable pub skipelem : ℕ → Memory → ℕ → ℕ → Option (Option ℕ × Memory)
skipelem fuel mem path name = elim (skip_slashes fuel mem path) [
  | none ↦ none
  | some s ↦ if mem s == 0 then some (none, mem) else take_elem fuel mem s name
]

-- The state of a walk along a path.
pub record Walk : Type 0 where
  pub mem : Memory
  pub inodes : Inodes
  pub procs : List Proc

-- How a call ends: with an inode or `none` for 0; in `acquiresleep` of an inode, which it waits for;
-- or for lack of fuel.
pub data Walked : Type 0 where
  arrives : Option ℕ → Walk → Walked
  waits : ℕ → Walk → Walked
  unfinished : Walked

module _ (devsw : Devsw) (de : ℕ) (chan : ℕ → Chan) (pid : ℕ) where
  abbrev pub unlock : ℕ → Walk → Result Walk
  unlock ip w = iunlock chan (some ip) w.inodes.inode w.procs >>= λ r.
      ok (record w { inodes = record (w.inodes) { inode = r.0 }; procs = r.1 })

  abbrev pub drop_inode : ℕ → Walk → Result Walk
  drop_inode ip w = iput ip w.inodes >>= λ s. ok (record w { inodes = s })

  unfoldable pub iunlockput : ℕ → Walk → Result Walk
  iunlockput ip w = unlock ip w >>= λ w'. drop_inode ip w'

  -- The body of the loop of `namex` with the inode `ip` locked: `next` is the rest of the loop.
  abbrev pub enter : (ℕ → Walk → Result Walked) → Bool → ℕ → ℕ → ℕ → Walk → Result Walked
  enter next parent ip path name w =
      if not ((w.inodes.inode ip).type == t_dir)
      then (iunlockput ip w >>= λ w'. ok (arrives none w'))
      else if parent && w.mem path == 0
      then (unlock ip w >>= λ w'. ok (arrives (some ip) w'))
      else dirlookup devsw de ip name w.mem w.inodes >>= λ r. elim (r.0) [
        | none ↦ iunlockput ip (record w { mem = r.1; inodes = r.2 }) >>= λ w'. ok (arrives none w')
        | some found ↦
            iunlockput ip (record w { mem = r.1; inodes = r.2 }) >>= λ w'. next found.0 w'
      ]

  -- The loop of `namex` and what follows it, over at most `fuel` elements, with `sfuel` for strings.
  unfoldable pub namex_loop : ℕ → ℕ → Bool → ℕ → ℕ → ℕ → Walk → Result Walked
  namex_loop zero sfuel parent ip path name w = ok unfinished
  namex_loop (suc fuel) sfuel parent ip path name w =
      let rest = λ (path' next : ℕ) (w' : Walk). namex_loop fuel sfuel parent next path' name w' in
      elim (skipelem sfuel w.mem path name) [
        | none ↦ ok unfinished
        | some e ↦ elim (e.0) [
          | none ↦
              if parent
              then (drop_inode ip (record w { mem = e.1 }) >>= λ w'. ok (arrives none w'))
              else ok (arrives (some ip) (record w { mem = e.1 }))
          | some path' ↦ ilock pid (some ip) w.inodes >>= λ l. elim l [
            | none ↦ ok (waits ip (record w { mem = e.1 }))
            | some s ↦ enter (rest path') parent ip path' name (record w { mem = e.1; inodes = s })
          ]
        ]
      ]

  -- `namex(path, nameiparent, name)` of a process in the directory `cwd`
  unfoldable pub namex : ℕ → ℕ → Bool → ℕ → ℕ → ℕ → Walk → Result Walked
  namex fuel sfuel parent cwd path name w =
      let go = λ (ip : ℕ) (inode : ℕ → Inode).
        namex_loop fuel sfuel parent ip path name
          (record w { inodes = record (w.inodes) { inode = inode } }) in
      if w.mem path == b'/'
      then (iget rootdev rootino w.inodes.inode >>= λ r. go r.0 r.1)
      else go cwd (idup cwd w.inodes.inode)

  -- `namei(path)`, with its local `name`, and `nameiparent(path, name)`
  unfoldable pub namei : ℕ → ℕ → ℕ → ℕ → ℕ → Walk → Result Walked
  namei fuel sfuel name cwd path w = namex fuel sfuel false cwd path name w

  unfoldable pub nameiparent : ℕ → ℕ → ℕ → ℕ → ℕ → Walk → Result Walked
  nameiparent fuel sfuel cwd path name w = namex fuel sfuel true cwd path name w
