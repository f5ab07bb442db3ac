-- ===== src/Tests/Volume.antt =====
-- Tests of the blocks, inodes, contents and directories of fs.c, on a disk of 16 blocks: the bitmap is
-- block 2, the inodes are in block 3, and blocks 4 to 15 are free.
use mathlib.Core.Path.{subst}
use cs461_mlfq_scheduler.Str.{Memory}
use cs461_mlfq_scheduler.Icache.{Inode}
use cs461_mlfq_scheduler.Fs.{Blocks, readsb, bblock, balloc, balloc_loop, scan_bits, bfree}
use cs461_mlfq_scheduler.Fs.Bitmap.{used}
use cs461_mlfq_scheduler.Fs.Alloc.{IsFs, Fresh, balloc-Fresh, bfree-balloc}
use cs461_mlfq_scheduler.Inode.{iupdate, ilock_load}
use cs461_mlfq_scheduler.Inode.Dinode.{Fits, SameFields, ilock_load-iupdate}
use cs461_mlfq_scheduler.Content.{Devsw, bmap, writei, writei_loop, readi, itrunc, t_dev}
use cs461_mlfq_scheduler.Content.Map.{IsData, IsFile}
use cs461_mlfq_scheduler.Content.Bmap.{Mapped, bmap_lem}
use cs461_mlfq_scheduler.Content.Calls.{Written, writei_lem, writei_refuses, readi-writei}
use cs461_mlfq_scheduler.Content.Empty.{empty-IsFile, Truncated, itrunc_lem}
use cs461_mlfq_scheduler.File.{File}
use cs461_mlfq_scheduler.File.Transfer.{Transfers}
use cs461_mlfq_scheduler.File.Written.{OnDisk, over_inode}
use cs461_mlfq_scheduler.Tests.Files.{no_inode}
use cs461_mlfq_scheduler.Base.{
  Result, Returns, Returns-elim, update, ok, panic, ℕ, ◌+◌, ◌<◌, ◌≡◌, refl, sym, ◌≢◌, ◌⊎◌, inr,
  true, Option, none, some, [], arith,
}

abbrev super_bytes : ℕ → ℕ
super_bytes = update (update (update (update (λ _. 0) 0 16) 8 8) 20 3) 24 2

abbrev pub volume : Blocks
volume = record {
  block = update (update (λ _ _. 0) 1 super_bytes) 2 (update (λ _. 0) 0 15);
  sb = record {
    size = 16;
    nblocks = 0;
    ninodes = 8;
    nlog = 0;
    logstart = 0;
    inodestart = 3;
    bmapstart = 2;
  };
  logged = [];
}

in_bitmap : (b : ℕ) → b < 16 → bblock volume.sb b ≡ 2
in_bitmap b h = omega arith

pub volume-IsFs : IsFs volume
unfolding readsb
volume-IsFs = record {
  super_read = refl;
  boot_used = refl;
  super_used = refl;
  covers = λ b h. subst (λ x. used volume x ≡ true) (sym (in_bitmap b h)) refl;
  within = λ b h. omega arith;
  behind = omega arith;
  large = omega arith;
  sized = omega arith;
}

balloc-Fresh_example :
    ((b : ℕ) × (d' : Blocks) × (balloc volume ≡ ok (b, d')) × Fresh volume b d' × IsFs d')
    ⊎ ((balloc volume ≡ panic "balloc: out of blocks") × ((c : ℕ) → c < 16 → used volume c ≡ true))
balloc-Fresh_example = balloc-Fresh volume volume-IsFs

-- The value of a call that comes back.
abbrev pub value {ℓ} : {A : Type ℓ} → A → Result A → A
value d (panic msg) = d
value d (ok a) = a

abbrev first_free : ℕ × Blocks
first_free = value (0, volume) (balloc volume)

takes_first : balloc volume ≡ ok (4, first_free.1)
unfolding balloc balloc_loop scan_bits
takes_first = refl

bfree-balloc_example :
    (d'' : Blocks) × (bfree 4 first_free.1 ≡ ok d'')
    × ((c : ℕ) → c < 16 → used d'' c ≡ used volume c)
bfree-balloc_example = bfree-balloc volume 4 first_free.1 volume-IsFs takes_first

-- Inode 1, a file without blocks.
abbrev pub empty_file : Inode
empty_file = record no_inode { inum = 1; ref = 1; type = 2; nlink = 1; valid = true }

pub block_three : IsData volume 3
block_three = record {
  inside = omega arith;
  taken = refl;
  not_one = λ e. absurd (omega arith);
  not_map = λ c h e. absurd (omega arith);
}

empty_file-IsFile : IsFile empty_file volume
empty_file-IsFile = empty-IsFile empty_file volume (λ j h. refl) volume-IsFs block_three

bmap_lem_example : Returns (bmap 2 empty_file volume) (λ r. Mapped 2 empty_file volume r.0 r.1 r.2)
bmap_lem_example = bmap_lem 2 empty_file volume empty_file-IsFile

empty_file-Fits : Fits empty_file
empty_file-Fits = record {
  type = omega arith;
  major = omega arith;
  minor = omega arith;
  nlink = omega arith;
  size = omega arith;
  addrs = λ i h. omega arith;
}

-- A slot of the cache that has just been taken for inode 1.
abbrev stale : Inode
stale = record no_inode { inum = 1; ref = 1; nlink = 7 }

ilock_load-iupdate_example :
    (ip' : Inode) × (ilock_load (iupdate empty_file volume) stale ≡ ok ip')
    × (ip'.valid ≡ true)
    × SameFields ip' empty_file
ilock_load-iupdate_example =
    ilock_load-iupdate empty_file stale volume empty_file-Fits (λ e. absurd (omega arith)) refl refl

abbrev pub no_devices : Devsw
no_devices = record { read = λ _. none; write = λ _. none }

-- "ok" at 100
abbrev message : Memory
message = update (update (λ _. 0) 100 111) 101 107

is_file : empty_file.type ≢ t_dev
is_file e = absurd (omega arith)

writei_lem_example :
    Returns
      (writei no_devices empty_file message 100 0 2 volume)
      (Written message 100 0 2 empty_file volume)
writei_lem_example =
    writei_lem no_devices empty_file message 100 0 2 volume empty_file-IsFile is_file (omega arith)
      (omega arith)

abbrev no_pipes : Transfers OnDisk
no_pipes = record {
  piperead = λ p addr n w. ok (none, w);
  pipewrite = λ p addr n w. ok (none, w);
  readi = λ ip addr off n w. ok (none, w);
  writei = λ ip addr off n w. ok (none, w);
}

abbrev calls : Transfers OnDisk
calls = over_inode no_devices message no_pipes

writei_refuses_example :
    writei no_devices empty_file message 100 0 80000 volume ≡ ok (none, empty_file, volume)
writei_refuses_example =
    writei_refuses no_devices empty_file message 100 0 80000 volume is_file (omega arith)
      (omega arith) (inr (omega arith))

abbrev after_write : Option ℕ × Inode × Blocks
after_write = value (none, empty_file, volume) (writei no_devices empty_file message 100 0 2 volume)

writes_two : writei no_devices empty_file message 100 0 2 volume ≡ ok after_write
unfolding writei writei_loop bmap balloc balloc_loop scan_bits
writes_two = refl

readi-writei_example :
    Returns
      (readi no_devices after_write.1 (λ _. 0) 50 0 2 after_write.2)
      (λ s. (s.0 ≡ some 2) × ((i : ℕ) → i < 2 → s.1 (50 + i) ≡ message (100 + i)))
readi-writei_example =
    readi-writei no_devices empty_file message (λ _. 0) 100 50 0 2 volume after_write
      empty_file-IsFile is_file (omega arith) (omega arith) (omega arith) writes_two

written-IsFile : IsFile after_write.1 after_write.2
written-IsFile =
    (Returns-elim writes_two (
      writei_lem no_devices empty_file message 100 0 2 volume empty_file-IsFile is_file
        (omega arith) (omega arith))).file

itrunc_lem_example :
    (r : Inode × Blocks) × (itrunc after_write.1 after_write.2 ≡ ok r)
    × Truncated after_write.1 after_write.2 r
itrunc_lem_example = itrunc_lem after_write.1 after_write.2 written-IsFile
