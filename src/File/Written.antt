-- ===== src/File/Written.antt =====
-- file.c and fs.c: `filewrite` over the `writei` of the file system.
use cs461_mlfq_scheduler.Str.{Memory}
use cs461_mlfq_scheduler.Icache.{Inode}
use cs461_mlfq_scheduler.Fs.{Blocks}
use cs461_mlfq_scheduler.Content.{t_dev, Devsw, writei}
use cs461_mlfq_scheduler.Content.Map.{IsFile}
use cs461_mlfq_scheduler.Content.Bytes.{limit}
use cs461_mlfq_scheduler.Content.Calls.{Written}
use cs461_mlfq_scheduler.File.{File}
use cs461_mlfq_scheduler.File.Transfer.{Transfers}
use cs461_mlfq_scheduler.Base.{◌>>=◌, ok, ℕ, ◌+◌, ◌≤◌, ◌≢◌, some}

-- The inode of the file and the disk.
pub record OnDisk : Type 0 where
  pub inode : Inode
  pub disk : Blocks

abbrev pub on_disk : Inode → Blocks → OnDisk
on_disk ip d = record { inode = ip; disk = d }

-- The calls of `filewrite`, with the `writei` of the inode and the blocks in the state, for data in the
-- memory `mem`.
abbrev pub over_inode : Devsw → Memory → Transfers OnDisk → Transfers OnDisk
over_inode devsw mem t = record t {
  writei = λ ip addr off n w.
      writei devsw w.inode mem addr off n w.disk >>= λ r. ok (r.0, on_disk r.1 r.2);
}

module _ (devsw : Devsw) (mem : Memory) (addr off n : ℕ) (ip : Inode) (d : Blocks) (v : IsFile ip d)
    (plain : ip.type ≢ t_dev) (inside : off ≤ ip.size) (fits : off + n ≤ limit) where
  -- The first `i` bytes are written.
  abbrev Prefix : ℕ → OnDisk → Type 0
  Prefix i w = Written mem addr off i ip d (some i, w.inode, w.disk)
