-- ===== src/Pipe/Fifo.antt =====
-- A pipe delivers the bytes written, in order, each once.
use mathlib.Core.List.{append_assoc, append-nil}
use cs461_mlfq_scheduler.Proc.{Proc, modify}
use cs461_mlfq_scheduler.Proc.Sleep.{wakeup, sleep_enter, go_to_sleep}
use cs461_mlfq_scheduler.Pipe.{
  Pipe, is_full, is_empty, put, peek, advance, killed_at, Write, wrote, broken, write_sleeps,
  write_loop, pipewrite, got, read_copy, piperead, nread_chan, nwrite_chan,
}
use cs461_mlfq_scheduler.Pipe.Ring.{
  IsPipe, held, contents, length-contents, contents-put, contents-advance, contents-empty,
}
use cs461_mlfq_scheduler.Base.{
  Bool-cases, length, length-append, take, ok, ℕ, zero, suc, ◌-◌, min, ◌≡◌, refl, sym, ap, ◌∙◌, ◌⊎◌,
  inl, inr, true, false, ◌&&◌, ◌||◌, not, List, [], ◌∷◌, ◌++◌, arith,
}

-- `read_copy` takes the oldest bytes, as many as there are, up to `n`.
pub read_copy_lem :
    (n : ℕ) (p : Pipe)
    → IsPipe p
    → let (cs, p') = read_copy n p in
      (contents p ≡ cs ++ contents p') × (length cs ≡ min n (held p)) × IsPipe p'
unfolding read_copy
read_copy_lem zero p v = (refl, omega arith, v)
read_copy_lem (suc n) p v = elim (Bool-cases (is_empty p)) [
  | inl none_left ↦
      let e = contents-empty p v none_left in
      let l = length-contents p in rw none_left (refl, ground (arith), v)
  | inr some_left ↦
      let (c, v') = contents-advance p v some_left in
      let (c', l, v'') = read_copy_lem n (advance p) v' in
      let l1 = length-contents p in
      let l2 = length-contents (advance p) in
      rw some_left (c ∙ ap (λ xs. peek p ∷ xs) c', omega (arith, l, l1, l2, ap length c), v'')
]

-- What `pipewrite` leaves unwritten, and why: it gives up for want of a reader or as its process is
-- killed, and sleeps on a full pipe.
abbrev pub Leaves : ℕ → List Proc → Write → List ℕ → Pipe → Type 0
Leaves cur procs wrote rest p = rest ≡ []
Leaves cur procs broken rest p = (p.readopen ≡ false) ⊎ (killed_at cur procs ≡ true)
Leaves cur procs (write_sleeps left) rest p = (rest ≡ left) × (is_full p ≡ true)

-- The loop of `pipewrite` always comes to an end: it appends a first part of its bytes, all of
-- them if it returns n, and all but those that it keeps if it goes to sleep on a full pipe; it
-- returns -1 only if the read end is closed or its process is killed.
pub write_loop_lem :
    (cur : ℕ) (cs : List ℕ) (p : Pipe) (procs : List Proc)
    → IsPipe p
    → (w : Write) × (p' : Pipe) × (procs' : List Proc) × (taken : List ℕ) × (rest : List ℕ)
      × (write_loop cur cs p procs ≡ ok (w, p', procs'))
      × (cs ≡ taken ++ rest)
      × (contents p' ≡ contents p ++ taken)
      × Leaves cur procs w rest p'
      × IsPipe p'
unfolding write_loop sleep_enter
write_loop_lem cur [] p procs v = (
  wrote,
  p,
  wakeup (nread_chan p) procs,
  [],
  [],
  refl,
  refl,
  sym (append-nil (contents p)),
  refl,
  v,
)
write_loop_lem cur (c ∷ cs) p procs v = elim (Bool-cases (is_full p)) [
  | inr room ↦
      let (c', v') = contents-put p c v room in
      let (w, p', procs', taken, rest, e, split, more, leaves, v'') =
        write_loop_lem cur cs (put c p) procs v' in
      (
        w,
        p',
        procs',
        c ∷ taken,
        rest,
        rw room e,
        ap (λ xs. c ∷ xs) split,
        more ∙ ap (λ xs. xs ++ taken) c' ∙ append_assoc (contents p) (c ∷ []) taken,
        leaves,
        v'',
      )
  | inl full ↦ elim (Bool-cases (not p.readopen || killed_at cur procs)) [
    | inl hopeless ↦ (
      broken,
      p,
      procs,
      [],
      c ∷ cs,
      rw (full, hopeless) refl,
      refl,
      sym (append-nil (contents p)),
      ground (arith, hopeless),
      v,
    )
    | inr hope ↦ (
      write_sleeps (c ∷ cs),
      p,
      modify (wakeup (nread_chan p) procs) cur (go_to_sleep (nwrite_chan p)),
      [],
      c ∷ cs,
      rw (full, hope) refl,
      refl,
      sym (append-nil (contents p)),
      (refl, full),
      v,
    )
  ]
]

-- The bytes of `cs` that went into the pipe.
abbrev pub accepted : Pipe → Pipe → List ℕ → List ℕ
accepted p p' cs = take (held p' - held p) cs

-- Calls of `pipewrite` and `piperead`, and what they do after a sleep, one after the other, with
-- any table of processes at each: the bytes accepted since `p0`, and those delivered.
pub data Traffic (p0 : Pipe) : List ℕ → List ℕ → Pipe → Type 0 where
  start : Traffic p0 [] [] p0
  writes :
      {sent received : List ℕ} {p : Pipe} (cur : ℕ) (cs : List ℕ) (procs : List Proc) (w : Write)
      (p' : Pipe) (procs' : List Proc)
      → Traffic p0 sent received p
      → pipewrite cur cs p procs ≡ ok (w, p', procs')
      → Traffic p0 (sent ++ accepted p p' cs) received p'
  reads :
      {sent received : List ℕ} {p : Pipe} (cur n : ℕ) (procs : List Proc) (cs : List ℕ) (p' : Pipe)
      (procs' : List Proc)
      → Traffic p0 sent received p
      → piperead cur n p procs ≡ ok (got cs, p', procs')
      → Traffic p0 sent (received ++ cs) p'

take-length : (xs ys : List ℕ) → take (length xs) (xs ++ ys) ≡ xs
take-length [] ys = refl
take-length (x ∷ xs) ys = ap (λ zs. x ∷ zs) (take-length xs ys)

-- A call of `pipewrite` appends the bytes accepted, and keeps the pipe valid.
pub pipewrite_appends :
    (cur : ℕ) (cs : List ℕ) (p : Pipe) (procs : List Proc) (w : Write) (p' : Pipe)
    (procs' : List Proc)
    → IsPipe p
    → pipewrite cur cs p procs ≡ ok (w, p', procs')
    → (contents p' ≡ contents p ++ accepted p p' cs) × IsPipe p'
unfolding pipewrite
pipewrite_appends cur cs p procs w p' procs' v e =
    let (w1, p1, procs1, taken, rest, e1, split, more, leaves, v1) =
      write_loop_lem cur cs p procs v in
    let same : p' ≡ p1 = cc in
    let count : held p1 - held p ≡ length taken = omega (
      arith,
      length-contents p,
      length-contents p1,
      ap length more,
      length-append (contents p) taken,
    ) in
    let part : accepted p p1 cs ≡ taken =
      ap (λ n. take n cs) count ∙ ap (take (length taken)) split ∙ take-length taken rest in
    rw same (more ∙ ap (λ xs. contents p ++ xs) (sym part), v1)

-- A call of `piperead` that returns bytes removes them from the front.
pub piperead_removes :
    (cur n : ℕ) (p : Pipe) (procs : List Proc) (cs : List ℕ) (p' : Pipe) (procs' : List Proc)
    → IsPipe p
    → piperead cur n p procs ≡ ok (got cs, p', procs')
    → (contents p ≡ cs ++ contents p') × IsPipe p'
unfolding piperead sleep_enter
piperead_removes cur n p procs cs p' procs' v e =
    let (c, l, v') = read_copy_lem n p v in
    elim (Bool-cases (is_empty p && p.writeopen)) [
      | inl blocked ↦ elim (Bool-cases (killed_at cur procs)) [
        | inl dying ↦ absurd (cc (rw (blocked, dying, piperead) at e))
        | inr well ↦ absurd (cc (rw (blocked, well, piperead) at e))
      ]
      | inr free ↦
          let done : ok (got (read_copy n p).0, (read_copy n p).1, wakeup (nwrite_chan p) procs)
              ≡ ok (got cs, p', procs') =
            rw (free, piperead) at e in
          let same : p' ≡ (read_copy n p).1 = cc in
          let all : cs ≡ (read_copy n p).0 = cc in rw (same, all) (c, v')
    ]

-- First in, first out: whatever calls are made in whatever order, and however often the counters
-- wrap, what was in the pipe and then was accepted is what was delivered and then is in the pipe.
pub first_in_first_out :
    {p0 : Pipe} {sent received : List ℕ} {p : Pipe}
    → IsPipe p0
    → Traffic p0 sent received p
    → (contents p0 ++ sent ≡ received ++ contents p) × IsPipe p
first_in_first_out {p0} v start = (append-nil (contents p0), v)
first_in_first_out {p0} v
      (writes {sent = sent} {received = received} {p = p} cur cs procs w p' procs' t e) =
    let (ih, v1) = first_in_first_out v t in
    let (more, v') = pipewrite_appends cur cs p procs w p' procs' v1 e in
    (
      sym (append_assoc (contents p0) sent (accepted p p' cs))
          ∙ ap (λ xs. xs ++ accepted p p' cs) ih
          ∙ append_assoc received (contents p) (accepted p p' cs)
          ∙ ap (λ xs. received ++ xs) (sym more),
      v',
    )
first_in_first_out {p0} v
      (reads {sent = sent} {received = received} {p = p} cur n procs cs p' procs' t e) =
    let (ih, v1) = first_in_first_out v t in
    let (less, v') = piperead_removes cur n p procs cs p' procs' v1 e in
    (ih ∙ ap (λ xs. received ++ xs) less ∙ sym (append_assoc received cs (contents p')), v')
