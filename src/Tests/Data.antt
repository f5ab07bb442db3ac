-- ===== src/Tests/Data.antt =====
-- A small process table, and services that do nothing.
use cs461_mlfq_scheduler.Kalloc.{Kmem, kernbase, pgsize}
use cs461_mlfq_scheduler.Kalloc.Freelist.{IsFreelist}
use cs461_mlfq_scheduler.Proc.{ProcState, unused, null, Proc, Kernel, nproc, nofile}
use cs461_mlfq_scheduler.Proc.Alloc.{Symbols}
use cs461_mlfq_scheduler.Proc.Services.{Services}
use cs461_mlfq_scheduler.Base.{
  length, replicate, ok, ℕ, ◌+◌, ◌-◌, ◌*◌, refl, true, false, none, some, List, [], ◌∷◌, ◌++◌,
  arith,
}

abbrev pub process : ProcState → ℕ → Proc
process state pid = record {
  sz = 4096;
  pgdir = 8192;
  kstack = kernbase + 2 * pgsize;
  state = state;
  pid = pid;
  parent = none;
  tf = λ _. 0;
  trapret = 0;
  context = record { r15 = 0; r14 = 0; r13 = 0; r12 = 0; rbx = 0; rbp = 0; rip = 0 };
  chan = null;
  killed = false;
  ofile = replicate nofile none;
  cwd = none;
  name = λ _. 0;
}

-- The table with the given processes first.
abbrev pub table : List Proc → List Proc
table ps = ps ++ replicate (nproc - length ps) (process unused 0)

abbrev pub kend : ℕ
kend = kernbase + pgsize

abbrev pub page : ℕ
page = kernbase + 3 * pgsize

abbrev pub one_page : Kmem
one_page = record { use_lock = true; freelist = page; mem = λ _. 0 }

pub one_page-IsFreelist : IsFreelist kend one_page (page ∷ [])
one_page-IsFreelist = (
  refl,
  record { word = omega arith; aligned = omega arith; behind = omega arith; below = omega arith },
  tt,
  refl,
)

abbrev pub kernel : List Proc → ℕ → Kernel (Unit {0})
kernel ps nextpid = record {
  procs = ps;
  nextpid = nextpid;
  initproc = some 0;
  kmem = one_page;
  world = tt;
}

abbrev pub symbols : Symbols
symbols = record { forkret = 0x1000; syscall_trapret = 0x2000 }

abbrev pub services : Services (Unit {0})
services = record {
  copyuvm = λ pgdir sz m. ok (pgdir + 1, m);
  freevm = λ pgdir m. ok m;
  setupkvm = λ m. ok (8192, m);
  inituvm = λ pgdir m. ok m;
  allocuvm = λ pgdir old new m. ok (new, m);
  deallocuvm = λ pgdir old new m. ok (new, m);
  filedup = λ f w. ok w;
  idup = λ d w. ok w;
  namei_root = λ w. ok (some 1, w);
  fileclose = λ cur f k. ok k;
  put_cwd = λ cur d k. ok k;
}
