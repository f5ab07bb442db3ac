-- ===== src/Tests/Bytes.antt =====
-- Tests of pipe.c.
use cs461_mlfq_scheduler.Proc.{running, Proc}
use cs461_mlfq_scheduler.Proc.Sleep.{wakeup}
use cs461_mlfq_scheduler.Pipe.{Pipe, wrote, put, nread_chan, pipewrite}
use cs461_mlfq_scheduler.Pipe.Ring.{IsPipe, contents}
use cs461_mlfq_scheduler.Pipe.Fifo.{accepted, Traffic, start, writes, first_in_first_out}
use cs461_mlfq_scheduler.Tests.Data.{process}
use cs461_mlfq_scheduler.Base.{
  replicate, length-replicate, ok, ℕ, ◌≡◌, refl, true, List, [], ◌∷◌, ◌++◌, arith,
}

abbrev buffer : List ℕ
buffer = replicate 512 0

-- An empty pipe whose counters are about to wrap.
abbrev wrapping : Pipe
wrapping = record {
  addr = 8192;
  bytes = buffer;
  nread = 4294967295;
  nwrite = 4294967295;
  readopen = true;
  writeopen = true;
}

wrapping-IsPipe : IsPipe wrapping
wrapping-IsPipe = record {
  whole = length-replicate {A = ℕ} 512 0;
  read_in = omega arith;
  write_in = omega arith;
  apart = omega arith;
}

abbrev writer : List Proc
writer = process running 1 ∷ []

abbrev written : Pipe
written = put 9 (put 8 wrapping)

writes_two :
    pipewrite 0 (8 ∷ 9 ∷ []) wrapping writer
    ≡ ok (wrote, written, wakeup (nread_chan written) writer)
unfolding pipewrite
writes_two = refl

traffic : Traffic wrapping (accepted wrapping written (8 ∷ 9 ∷ [])) [] written
traffic =
    writes 0 (8 ∷ 9 ∷ []) writer wrote written (wakeup (nread_chan written) writer) start writes_two

first_in_first_out_example :
    (contents wrapping ++ accepted wrapping written (8 ∷ 9 ∷ []) ≡ [] ++ contents written)
    × IsPipe written
first_in_first_out_example = first_in_first_out wrapping-IsPipe traffic
