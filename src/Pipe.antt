-- ===== src/Pipe.antt =====
-- pipe.c: a ring of 512 bytes between a writer and a reader, with counters that wrap at 2^32.
-- An operation runs with `p->lock` held up to its return or to its next `sleep`; a caller that
-- sleeps goes on with what is left to do.
pub mod Ring
pub mod Fifo
use cs461_mlfq_scheduler.Kalloc.{Kmem, kfree}
use cs461_mlfq_scheduler.Proc.{Proc, Chan, word}
use cs461_mlfq_scheduler.Proc.Sleep.{wakeup, sleep_enter}
use cs461_mlfq_scheduler.Base.{
  ◌==◌, if◌then◌else◌, get_elem?, set, get_or, Result, ◌>>=◌, u32, ok, ℕ, zero, suc, ◌+◌, ◌%◌, Bool,
  true, false, ◌&&◌, ◌||◌, not, Option, none, some, List, [], ◌∷◌,
}

abbrev pub pipesize : ℕ
pipesize = 512

-- `struct pipe` at the address `addr`.
pub record Pipe : Type 0 where
  pub addr : ℕ
  pub bytes : List ℕ
  pub nread : ℕ
  pub nwrite : ℕ
  pub readopen : Bool
  pub writeopen : Bool

-- The channels `&p->nread` and `&p->nwrite`: a spin lock of 104 bytes and the data come before.
abbrev pub nread_chan : Pipe → Chan
nread_chan p = word (p.addr + 616)

abbrev pub nwrite_chan : Pipe → Chan
nwrite_chan p = word (p.addr + 620)

abbrev pub is_full : Pipe → Bool
is_full p = p.nwrite == u32 (p.nread + pipesize)

abbrev pub is_empty : Pipe → Bool
is_empty p = p.nread == p.nwrite

-- `p->data[p->nwrite++ % PIPESIZE] = c`
abbrev pub put : ℕ → Pipe → Pipe
put c p = record p { bytes = set p.bytes (p.nwrite % pipesize) c; nwrite = u32 (p.nwrite + 1) }

-- `p->data[p->nread++ % PIPESIZE]`: the byte, and the pipe behind it.
abbrev pub peek : Pipe → ℕ
peek p = get_or p.bytes (p.nread % pipesize) 0

abbrev pub advance : Pipe → Pipe
advance p = record p { nread = u32 (p.nread + 1) }

-- `proc->killed`
abbrev pub killed_at : ℕ → List Proc → Bool
killed_at cur procs = elim (get_elem? procs cur) [ none ↦ false | some p ↦ p.killed ]

-- How `pipewrite` stops: it returns n, or -1, or sleeps on `nwrite` with bytes left.
pub data Write : Type 0 where
  wrote broken : Write
  write_sleeps : List ℕ → Write

-- The loop of `pipewrite` over the bytes that are left.
unfoldable pub write_loop : ℕ → List ℕ → Pipe → List Proc → Result (Write × Pipe × List Proc)
write_loop cur [] p procs = ok (wrote, p, wakeup (nread_chan p) procs)
write_loop cur (c ∷ cs) p procs =
    let next = write_loop cur cs (put c p) procs in
    if is_full p
    then (if not p.readopen || killed_at cur procs
        then ok (broken, p, procs)
        else (sleep_enter (some cur) (nwrite_chan p) true (wakeup (nread_chan p) procs) >>= λ slept.
            ok (write_sleeps (c ∷ cs), p, slept)))
    else next

unfoldable pub pipewrite : ℕ → List ℕ → Pipe → List Proc → Result (Write × Pipe × List Proc)
unfolding write_loop
pipewrite cur src p procs = write_loop cur src p procs

-- How `piperead` stops: it returns the bytes copied, or -1, or sleeps on `nread`.
pub data Read : Type 0 where
  got : List ℕ → Read
  read_killed read_sleeps : Read

-- The copying loop of `piperead`, for `n` more bytes.
unfoldable pub read_copy : ℕ → Pipe → List ℕ × Pipe
read_copy zero p = ([], p)
read_copy (suc n) p =
    let (cs, p') = read_copy n (advance p) in if is_empty p then ([], p) else (peek p ∷ cs, p')

unfoldable pub piperead : ℕ → ℕ → Pipe → List Proc → Result (Read × Pipe × List Proc)
unfolding read_copy
piperead cur n p procs =
    if is_empty p && p.writeopen
    then (if killed_at cur procs
        then ok (read_killed, p, procs)
        else (sleep_enter (some cur) (nread_chan p) true procs >>= λ slept.
            ok (read_sleeps, p, slept)))
    else (let (cs, p') = read_copy n p in ok (got cs, p', wakeup (nwrite_chan p) procs))

-- `pipeclose`: `none` for a pipe whose page was freed, since both ends are closed.
unfoldable pub pipeclose :
    ℕ → Bool → Pipe → List Proc → Kmem → Result (Option Pipe × List Proc × Kmem)
pipeclose kend writable p procs mem =
    let closed =
      if writable then record p { writeopen = false } else record p { readopen = false } in
    let woken = if writable then wakeup (nread_chan p) procs else wakeup (nwrite_chan p) procs in
    if not closed.readopen && not closed.writeopen
    then (kfree kend p.addr mem >>= λ mem'. ok (none, woken, mem'))
    else ok (some closed, woken, mem)

-- The pipe that `pipealloc` makes of a fresh page; the page's old bytes stay in `data`.
unfoldable pub new_pipe : ℕ → List ℕ → Pipe
new_pipe page old = record {
  addr = page;
  bytes = old;
  nread = 0;
  nwrite = 0;
  readopen = true;
  writeopen = true;
}
