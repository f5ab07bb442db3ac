-- ===== src/Sysproc.antt =====
-- sysproc.c and `syscall` of syscall.c: the system calls on processes. `sys_fork`, `sys_exit` and
-- `sys_wait` are the functions of `Proc.Family` themselves.
pub mod Ticks
use cs461_mlfq_scheduler.Proc.{Proc, Kernel}
use cs461_mlfq_scheduler.Proc.Alloc.{Symbols}
use cs461_mlfq_scheduler.Proc.Services.{Services}
use cs461_mlfq_scheduler.Proc.Sleep.{kill}
use cs461_mlfq_scheduler.Proc.Setup.{Resize, grow, shrink, same, growproc}
use cs461_mlfq_scheduler.Syscall.{argint, argaddr}
use cs461_mlfq_scheduler.Base.{
  ltb, ◌==◌, if◌then◌else◌, get_elem?, Result, ◌>>=◌, u32, ok, ℕ, zero, suc, ◌+◌, ◌-◌, ◌^◌, sym,
  Bool, Option, none, some, List, [], ◌∷◌,
}

-- -1 as the value of a call, in `rax`.
abbrev pub minus_one : ℕ
minus_one = 2 ^ 64 - 1

unfoldable pub sys_kill : (ℕ → ℕ) → List Proc → Result (ℕ × List Proc)
unfolding argint
sys_kill tf procs = argint tf 0 >>= λ pid.
    (let (found, procs') = kill pid procs in ok (if found then 0 else minus_one, procs'))

abbrev pub sys_getpid : Proc → ℕ
sys_getpid p = p.pid

-- An `addr_t` as the `int64` of `growproc`.
abbrev pub as_resize : ℕ → Resize
as_resize n = if n == 0 then same else if ltb n (2 ^ 63) then grow n else shrink (2 ^ 64 - n)

module _ {W : Type 0} (sym : Symbols) (services : Services W) where
  -- `sys_sbrk` by the process `p` in slot `cur`.
  unfoldable pub sys_sbrk : ℕ → Proc → Kernel W → Result (ℕ × Kernel W)
  unfolding argaddr
  sys_sbrk cur p k = argaddr p.tf 0 >>= λ n.
      growproc sym services cur (as_resize n) k >>= λ r. ok (if r.0 then p.sz else minus_one, r.1)

-- How one test of the loop of `sys_sleep` ends: with 0, with -1, or with `sleep`.
pub data Nap : Type 0 where
  woke gave_up still_asleep : Nap

-- `ticks` and `ticks0` are `uint`, and `n` is compared as one.
unfoldable pub sleep_round : ℕ → ℕ → ℕ → Bool → Nap
sleep_round ticks ticks0 n killed =
    if ltb (u32 (ticks + 2 ^ 32 - ticks0)) n
    then (if killed then gave_up else still_asleep)
    else woke

-- `sys_sleep` when it comes to its loop for the first time: `ticks0` and `n`.
unfoldable pub sleep_begin : (ℕ → ℕ) → ℕ → Result (ℕ × ℕ)
unfolding argint
sleep_begin tf ticks = argint tf 0 >>= λ n. ok (ticks, n)

abbrev pub sys_uptime : ℕ → ℕ
sys_uptime ticks = u32 ticks

-- The entries of `syscalls`, by the number of the call.
pub data Call : Type 0 where
  call_fork call_exit call_wait call_pipe call_read call_kill call_exec call_fstat call_chdir
        call_dup call_getpid :
      Call
  call_sbrk call_sleep call_uptime call_open call_write call_mknod call_unlink call_link call_mkdir
        call_close :
      Call

abbrev pub syscalls : List Call
syscalls =
    call_fork ∷ call_exit ∷ call_wait ∷ call_pipe ∷ call_read ∷ call_kill ∷ call_exec ∷ call_fstat
    ∷ call_chdir ∷ call_dup ∷ call_getpid ∷ call_sbrk ∷ call_sleep ∷ call_uptime ∷ call_open
    ∷ call_write ∷ call_mknod ∷ call_unlink ∷ call_link ∷ call_mkdir ∷ call_close ∷ []

-- `syscalls[num]`; entry 0 of the array is null.
abbrev pub handler : ℕ → Option Call
handler zero = none
handler (suc num) = get_elem? syscalls num

-- `syscall` up to the test of `killed`: what it leaves in `rax`, with the state that the handlers
-- change.
unfoldable pub syscall : {S : Type 0} → (Call → S → Result (ℕ × S)) → ℕ → S → Result (ℕ × S)
syscall run num s = elim (handler num) [ none ↦ ok (minus_one, s) | some c ↦ run c s ]
