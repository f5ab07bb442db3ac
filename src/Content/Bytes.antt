-- ===== src/Content/Bytes.antt =====
-- fs.c: `readi` and `writei` as operations on one sequence of bytes.
use cs461_mlfq_scheduler.Str.{Memory}
use cs461_mlfq_scheduler.Icache.{Inode}
use cs461_mlfq_scheduler.Fs.{bsize, Blocks}
use cs461_mlfq_scheduler.Inode.{ndirect}
use cs461_mlfq_scheduler.Content.{maxfile, bmap, from_block, chunk, readi_loop}
use cs461_mlfq_scheduler.Content.Map.{slots, IsFile}
use cs461_mlfq_scheduler.Content.Grow.{slot_of}
use cs461_mlfq_scheduler.Content.Bmap.{slot_byte, slot_byte_some, byte_at, Mapped, bmap_lem}
use cs461_mlfq_scheduler.Base.{
  ltb, leb, ◌==◌, if◌then◌else◌, Bool-cases, Returns, Returns-weaken, Returns->>=, returns, ℕ, zero,
  suc, ◌+◌, ◌-◌, ◌*◌, ◌/◌, ◌%◌, ◌≤◌, ◌<◌, ◌≡◌, refl, sym, ap, ◌∙◌, ◌≢◌, inl, inr, ◌&&◌, arith,
}

-- What the loop of `readi` leaves in memory.
abbrev pub read_in : Memory → ℕ → ℕ → ℕ → (ℕ → ℕ) → ℕ → ℕ
read_in mem dst off n bytes a =
    if leb dst a && ltb a (dst + n) then bytes (off + (a - dst)) else mem a

-- And the one of `writei` in the contents.
abbrev pub written : Memory → ℕ → ℕ → ℕ → (ℕ → ℕ) → ℕ → ℕ
written mem src off n bytes x =
    if leb off x && ltb x (off + n) then mem (src + (x - off)) else bytes x

abbrev pub limit : ℕ
limit = maxfile * bsize

-- A byte near `off` is in the block of `off`.
pub near :
    (off x : ℕ)
    → off % bsize + x < bsize
    → ((off + x) / bsize ≡ off / bsize) × ((off + x) % bsize ≡ off % bsize + x)
near off x h = omega arith

pub slot_of_bounds : (bn : ℕ) → bn < maxfile → (slot_of bn < slots) × (slot_of bn ≢ ndirect)
slot_of_bounds bn lt = ground arith

-- What `bmap` returns holds the bytes of the contents around `off`.
pub Mapped-byte_at :
    (off x : ℕ) (ip : Inode) (d : Blocks) (r : ℕ) (ip' : Inode) (d' : Blocks)
    → Mapped (off / bsize) ip d r ip' d'
    → off < limit
    → off % bsize + x < bsize
    → d'.block r (off % bsize + x) ≡ byte_at ip d (off + x)
Mapped-byte_at off x ip d r ip' d' y lt h =
    let k = slot_of (off / bsize) in
    let b = slot_of_bounds (off / bsize) (omega arith) in
    let n = near off x h in
    ap (λ z. d'.block z (off % bsize + x)) (sym y.at)
    ∙ sym (slot_byte_some ip' d' k (off % bsize + x) (λ z. y.there (sym y.at ∙ z)))
    ∙ y.same k (off % bsize + x) b.0 b.1 h
    ∙ sym (ap (λ q. slot_byte ip d (slot_of q) ((off + x) % bsize)) n.0 ∙ ap (slot_byte ip d k) n.1)

pub Mapped-contents :
    (bn x : ℕ) (ip : Inode) (d : Blocks) (r : ℕ) (ip' : Inode) (d' : Blocks)
    → Mapped bn ip d r ip' d'
    → x < limit
    → byte_at ip' d' x ≡ byte_at ip d x
Mapped-contents bn x ip d r ip' d' y lt =
    let b = slot_of_bounds (x / bsize) (omega arith) in
    y.same (slot_of (x / bsize)) (x % bsize) b.0 b.1 (omega arith)

-- What `readi` promises of its loop, and what a call leaves.
pub record Read (mem : Memory) (dst off n : ℕ) (ip : Inode) (d : Blocks) (mem' : Memory)
    (ip' : Inode) (d' : Blocks) : Type 0 where
  pub bytes : (a : ℕ) → mem' a ≡ read_in mem dst off n (byte_at ip d) a
  pub contents : (x : ℕ) → x < limit → byte_at ip' d' x ≡ byte_at ip d x
  pub kept : ip' ≡ record ip { addrs = ip'.addrs }
  pub file : IsFile ip' d'

-- The first `m` of `left` bytes, and then the others.
read_in_split :
    (f g blk : ℕ → ℕ) (k : ℕ) (mem : Memory) (dst off left m a : ℕ)
    → m ≤ left
    → off + left ≤ limit
    → ((x : ℕ) → x < m → blk (k + x) ≡ g (off + x))
    → ((x : ℕ) → x < limit → f x ≡ g x)
    → read_in (from_block blk k mem dst m) (dst + m) (off + m) (left - m) f a
      ≡ read_in mem dst off left g a
read_in_split f g blk k mem dst off left m a le fits first others =
    elim (Bool-cases (leb (dst + m) a)) [
      | inl hi ↦ elim (Bool-cases (ltb a (dst + left))) [
        | inl lo ↦
            let e : off + m + (a - (dst + m)) ≡ off + (a - dst) = ground arith in
            let h = others (off + m + (a - (dst + m))) (ground arith) ∙ ap g e in ground arith
        | inr out ↦ ground arith
      ]
      | inr lo ↦ elim (Bool-cases (leb dst a)) [
        | inl over ↦ let h = first (a - dst) (ground arith) in ground arith
        | inr under ↦ ground arith
      ]
    ]

pub readi_loop_lem :
    (fuel : ℕ) (mem : Memory) (dst off left : ℕ) (ip : Inode) (d : Blocks)
    → IsFile ip d
    → left ≤ fuel
    → off + left ≤ limit
    → Returns (readi_loop fuel mem dst off left ip d) (λ r. Read mem dst off left ip d r.0 r.1 r.2)
unfolding readi_loop
readi_loop_lem zero mem dst off left ip d v enough fits =
    returns (mem, ip, d) refl
      (record { bytes = λ a. ground arith; contents = λ x h. refl; kept = refl; file = v })
readi_loop_lem (suc fuel) mem dst off left ip d v enough fits = elim (Bool-cases (left == 0)) [
  | inl done ↦ rw done (
      returns (mem, ip, d) refl
        (record { bytes = λ a. ground arith; contents = λ x h. refl; kept = refl; file = v }))
  | inr more ↦ rw more (
      Returns->>= (bmap (off / bsize) ip d) _ (bmap_lem (off / bsize) ip d v) (λ r y.
        Returns-weaken (λ s z. step r.0 r.1 r.2 s.0 s.1 s.2 y z)
          (readi_loop_lem fuel (from_block (r.2.block r.0) (off % bsize) mem dst m) (dst + m)
            (off + m) (left - m) r.1 r.2 y.file (ground arith) (ground arith))))
]
  where
    m : ℕ
    m = chunk left off

    step :
        (r : ℕ) (ip1 : Inode) (d1 : Blocks) (mem' : Memory) (ip' : Inode) (d' : Blocks)
        → Mapped (off / bsize) ip d r ip1 d1
        → Read
            (from_block (d1.block r) (off % bsize) mem dst m)
            (dst + m)
            (off + m)
            (left - m)
            ip1
            d1
            mem'
            ip'
            d'
        → Read mem dst off left ip d mem' ip' d'
    step r ip1 d1 mem' ip' d' y z = record {
      bytes = λ a.
          z.bytes a
          ∙ read_in_split (byte_at ip1 d1) (byte_at ip d) (d1.block r) (off % bsize) mem dst off
              left m a (omega arith) fits
              (λ x h. Mapped-byte_at off x ip d r ip1 d1 y (omega arith) (omega arith))
              (λ x h. Mapped-contents (off / bsize) x ip d r ip1 d1 y h);
      contents = λ x h. z.contents x h ∙ Mapped-contents (off / bsize) x ip d r ip1 d1 y h;
      kept = z.kept ∙ ap {A = Inode} (λ i. record i { addrs = ip'.addrs }) y.kept;
      file = z.file;
    }
