-- ===== src/File/Transfer.antt =====
-- file.c: `fileread` and `filewrite`, over the inode layer and the pipes.
use mathlib.Core.Path.{subst}
use cs461_mlfq_scheduler.Log.{logsize}
use cs461_mlfq_scheduler.File.{fd_none, fd_pipe, fd_inode, File}
use cs461_mlfq_scheduler.Base.{
  ltb, ◌==◌, if◌then◌else◌, ltb→lt, ==_iff, Bool-cases, Result, ◌>>=◌, Returns, Returns->>=, u32,
  ok, panic, panics, returns, ℕ, zero, suc, ◌+◌, ◌-◌, ◌*◌, ◌/◌, ◌^◌, ◌≤◌, ◌<◌, ◌≡◌, refl, ap, ◌∙◌,
  inl, inr, Bool, true, ◌&&◌, not, Option, none, some, arith,
}

-- What `fileread` and `filewrite` call. `W` is the state behind them; `none` stands for -1, and a
-- call of `writei` is a whole transaction with the inode locked.
pub record Transfers (W : Type 0) : Type 0 where
  pub piperead : ℕ → ℕ → ℕ → W → Result (Option ℕ × W)
  pub pipewrite : ℕ → ℕ → ℕ → W → Result (Option ℕ × W)
  pub readi : ℕ → ℕ → ℕ → ℕ → W → Result (Option ℕ × W)
  pub writei : ℕ → ℕ → ℕ → ℕ → W → Result (Option ℕ × W)

-- `max`, in bytes
abbrev pub max_write : ℕ
max_write = (logsize - 1 - 1 - 2) / 2 * 512

abbrev pub or_zero : Option ℕ → ℕ
or_zero none = 0
or_zero (some r) = r

-- The size of the next piece, with `left` bytes to go.
abbrev pub piece : ℕ → ℕ
piece left = if ltb max_write left then max_write else left

module _ {W : Type 0} (transfers : Transfers W) where
  open transfers use {piperead, pipewrite, readi, writei}

  -- `fileread` of `n` bytes to `addr`: the result, the file and the state.
  unfoldable pub fileread : File → ℕ → ℕ → W → Result (Option ℕ × File × W)
  fileread f addr n w = if not f.readable then ok (none, f, w) else elim (f.type) [
    | fd_none ↦ panic "fileread"
    | fd_pipe p ↦ piperead p addr n w >>= λ r. ok (r.0, f, r.1)
    | fd_inode ip ↦
        readi ip addr f.off n w >>= λ r. ok (r.0, record f { off = u32 (f.off + or_zero r.0) }, r.1)
  ]

  -- The loop of `filewrite` from byte `i` on and what it returns; `n` is an `int`, so from 2 ^ 31 on
  -- it is negative. The outer `none` means that the fuel ran out.
  unfoldable pub write_pieces : ℕ → ℕ → ℕ → ℕ → ℕ → ℕ → W → Option (Result (Option ℕ × ℕ × W))
  write_pieces zero ip addr n i off w = none
  write_pieces (suc fuel) ip addr n i off w =
      let rest = λ (off' : ℕ) (w' : W). write_pieces fuel ip addr n (i + piece (n - i)) off' w' in
      if ltb i n && ltb n (2 ^ 31)
      then elim (writei ip (addr + i) off (piece (n - i)) w) [
        | panic m ↦ some (panic m)
        | ok r ↦ elim (r.0) [
          | none ↦ some (ok (none, off, r.1))
          | some m ↦
              if m == piece (n - i)
              then rest (u32 (off + m)) r.1
              else some (panic "short filewrite")
        ]
      ]
      else some (ok (if i == n then some n else none, off, w))

  unfoldable pub filewrite : ℕ → File → ℕ → ℕ → W → Option (Result (Option ℕ × File × W))
  unfolding write_pieces
  filewrite fuel f addr n w = if not f.writable then some (ok (none, f, w)) else elim (f.type) [
    | fd_none ↦ some (panic "filewrite")
    | fd_pipe p ↦ some (pipewrite p addr n w >>= λ r. ok (r.0, f, r.1))
    | fd_inode ip ↦ elim (write_pieces fuel ip addr n 0 f.off w) [
      | none ↦ none
      | some r ↦ some (r >>= λ s. ok (s.0, record f { off = s.1 }, s.2))
    ]
  ]

  -- `writei` writes whole the pieces of the `n` bytes at `addr`, one behind the other from `off` on, if
  -- it comes back; `P i` holds when the first `i` bytes are written.
  abbrev pub WritesPieces : ℕ → ℕ → ℕ → ℕ → (ℕ → W → Type 0) → Type 0
  WritesPieces ip addr off n P =
      (i m : ℕ) (w : W)
      → i + m ≤ n
      → P i w
      → Returns (writei ip (addr + i) (off + i) m w) (λ r. (r.0 ≡ some m) × P (i + m) r.1)

  -- The loop of `filewrite` writes all pieces, by such a `writei`.
  module _ (ip addr off n : ℕ) (P : ℕ → W → Type 0) (whole : WritesPieces ip addr off n P)
      (nonneg : n < 2 ^ 31) (small : off + n < 2 ^ 32) where
    abbrev Done : Option ℕ × ℕ × W → Type 0
    Done s = (s.0 ≡ some n) × (s.1 ≡ off + n) × P n s.2

    pub write_pieces_lem :
        (fuel i : ℕ) (w : W)
        → n - i < fuel
        → i ≤ n
        → P i w
        → (r : Result (Option ℕ × ℕ × W)) × (write_pieces fuel ip addr n i (off + i) w ≡ some r)
          × Returns r Done
    unfolding write_pieces
    write_pieces_lem zero i w enough le p = absurd (omega arith)
    write_pieces_lem (suc fuel) i w enough le p = elim (Bool-cases (ltb i n)) [
      | inr done ↦
          let end : i ≡ n = ground arith in
          let same : (i == n) ≡ true = ground arith in
          (
            ok (some n, off + i, w),
            rw (done, same) refl,
            returns (some n, off + i, w) refl (refl, omega arith, subst (λ x. P x w) end p),
          )
      | inl more ↦
          let left = ltb→lt i n more in
          let short : ltb n (2 ^ 31) ≡ true = ground arith in
          let bound : (0 < piece (n - i)) × (piece (n - i) ≤ n - i) = ground arith in
          elim (whole i (piece (n - i)) w (omega arith) p) [
            | panics msg e ↦ (panic msg, rw (more, short, e) refl, panics msg refl)
            | returns a e (count, p') ↦
                let m = piece (n - i) in
                let sum : u32 (off + i + m) ≡ off + (i + m) = omega arith in
                let (r, e', d) =
                  write_pieces_lem fuel (i + m) (a.1) (omega arith) (omega arith) p' in
                (
                  r,
                  rw (more, short, e, count, (==_iff m m).1 refl)
                      (ap (λ o. write_pieces fuel ip addr n (i + m) o (a.1)) sum ∙ e'),
                  d,
                )
          ]
    ]

  -- A file of an inode that is open for writing.
  abbrev pub open_file : ℕ → ℕ → Bool → ℕ → File
  open_file ip ref readable off = record {
    type = fd_inode ip;
    ref = ref;
    readable = readable;
    writable = true;
    off = off;
  }

  -- A `filewrite` over such a `writei`.
  pub filewrite_pieces :
      (fuel ip addr n ref off : ℕ) (readable : Bool) (w : W) (P : ℕ → W → Type 0)
      → WritesPieces ip addr off n P
      → n < 2 ^ 31
      → off + n < 2 ^ 32
      → n < fuel
      → P 0 w
      → (r : Result (Option ℕ × File × W)) × (filewrite fuel
            (open_file ip ref readable off)
            addr
            n
            w
          ≡ some r)
        × Returns r (λ s. (s.0 ≡ some n) × (s.1 ≡ open_file ip ref readable (off + n)) × P n s.2)
  unfolding filewrite
  filewrite_pieces fuel ip addr n ref off readable w P whole nonneg small enough p =
      let (r, e, d) =
        write_pieces_lem ip addr off n P whole nonneg small fuel 0 w (omega arith) (omega arith)
          p in
      let e' : write_pieces fuel ip addr n 0 off w ≡ some r =
        ap (λ o. write_pieces fuel ip addr n 0 o w) (omega arith) ∙ e in
      (
        (r >>= λ s. ok (s.0, record (open_file ip ref readable off) { off = s.1 }, s.2)),
        rw e' refl,
        Returns->>= r _ d
            (λ a h. returns _ refl (h.0, ap (λ o. open_file ip ref readable o) h.1, h.2)),
      )
