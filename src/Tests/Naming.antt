-- ===== src/Tests/Naming.antt =====
-- Tests of the directories and the path names of fs.c.
use cs461_mlfq_scheduler.Str.{Memory}
use cs461_mlfq_scheduler.Icache.{Inode, iget}
use cs461_mlfq_scheduler.Fs.{balloc, balloc_loop, scan_bits}
use cs461_mlfq_scheduler.Inode.{Inodes}
use cs461_mlfq_scheduler.Content.{bmap, writei, writei_loop}
use cs461_mlfq_scheduler.Content.Map.{IsFile}
use cs461_mlfq_scheduler.Content.Empty.{empty-IsFile}
use cs461_mlfq_scheduler.Dir.{dirlookup, dirlookup_loop, dirlink, find_empty, write_entry}
use cs461_mlfq_scheduler.Dir.Entries.{IsDir}
use cs461_mlfq_scheduler.Dir.Lookup.{Looked, dirlookup_lem}
use cs461_mlfq_scheduler.Dir.Found.{LinkResult, dirlink_lem, dirlookup-dirlink}
use cs461_mlfq_scheduler.Names.{skipelem}
use cs461_mlfq_scheduler.Names.Skip.{Skipped, skipelem_lem}
use cs461_mlfq_scheduler.Tests.Files.{no_inode}
use cs461_mlfq_scheduler.Tests.Volume.{volume, volume-IsFs, block_three, value, no_devices}
use cs461_mlfq_scheduler.Base.{
  Returns, update, ok, ℕ, ◌≡◌, refl, inl, inr, true, Option, none, some, [], ◌∷◌, arith,
}

-- An empty directory is inode 1, in slot 0.
abbrev empty_dir : Inode
empty_dir = record no_inode { inum = 1; ref = 1; type = 1; nlink = 1; valid = true }

abbrev tree : Inodes
tree = record { inode = update (λ _. no_inode) 0 empty_dir; disk = volume }

tree-IsFile : IsFile (tree.inode 0) tree.disk
tree-IsFile = empty-IsFile empty_dir volume (λ j h. refl) volume-IsFs block_three

tree-IsDir : IsDir (tree.inode 0)
tree-IsDir = record { dir = refl; bounded = omega arith; whole = refl }

-- "a" at 200; the local entry is at 100.
abbrev name_a : Memory
name_a = update (λ _. 0) 200 97

dirlookup_lem_example :
    Returns (dirlookup no_devices 100 0 200 name_a tree) (Looked 100 0 200 0 name_a tree)
dirlookup_lem_example =
    dirlookup_lem no_devices 100 0 200 (inr (omega arith)) name_a tree tree-IsFile tree-IsDir

dirlink_lem_example :
    Returns (dirlink no_devices 100 0 200 5 name_a tree) (LinkResult 100 0 200 5 name_a tree)
dirlink_lem_example =
    dirlink_lem no_devices 100 0 200 5 (inr (omega arith)) (omega arith) name_a tree tree-IsFile
      tree-IsDir

abbrev after_link : Option ℕ × Memory × Inodes
after_link = value (none, name_a, tree) (dirlink no_devices 100 0 200 5 name_a tree)

links_a : dirlink no_devices 100 0 200 5 name_a tree ≡ ok after_link
unfolding dirlink dirlookup dirlookup_loop find_empty write_entry writei writei_loop bmap balloc
    balloc_loop scan_bits
links_a = refl

returns_zero : after_link.0 ≡ some 0
unfolding dirlink dirlookup dirlookup_loop find_empty write_entry writei writei_loop bmap balloc
    balloc_loop scan_bits
returns_zero = refl

dirlookup-dirlink_example : Returns (dirlookup no_devices 100 0 200 name_a after_link.2) (λ q.
    (i o : ℕ) × (q.0 ≡ some (i, o))
    × (s' : Inodes) × (iget (after_link.2.inode 0).dev 5 s'.inode ≡ ok (i, q.2.inode)))
dirlookup-dirlink_example =
    dirlookup-dirlink no_devices 100 0 200 5 (inr (omega arith)) (omega arith) name_a name_a tree
      after_link tree-IsFile tree-IsDir (λ e. absurd (omega arith)) links_a returns_zero
      (λ i h. refl)

-- "//b/c" at 300
abbrev path : Memory
path = update (update (update (update (update (λ _. 0) 300 b'/') 301 b'/') 302 98) 303 b'/') 304 99

skipelem_lem_example :
    (r : Option ℕ × Memory) × (skipelem 9 path 300 400 ≡ some r)
    × Skipped (b'/' ∷ b'/' ∷ 98 ∷ b'/' ∷ 99 ∷ []) 400 path r
skipelem_lem_example =
    skipelem_lem 9 path 300 400 (b'/' ∷ b'/' ∷ 98 ∷ b'/' ∷ 99 ∷ [])
      ((
        refl,
        (λ e. absurd (omega arith)),
        (
          refl,
          (λ e. absurd (omega arith)),
          (
            refl,
            (λ e. absurd (omega arith)),
            (refl, (λ e. absurd (omega arith)), (refl, (λ e. absurd (omega arith)), refl)),
          ),
        ),
      ))
      (omega arith) (inl (omega arith))
