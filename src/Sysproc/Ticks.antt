-- ===== src/Sysproc/Ticks.antt =====
-- sysproc.c: when `sys_sleep` returns.
use cs461_mlfq_scheduler.Sysproc.{woke, gave_up, still_asleep, sleep_round}
use cs461_mlfq_scheduler.Base.{
  if◌then◌else◌, u32, ℕ, ◌+◌, ◌-◌, ◌^◌, ◌≤◌, ◌<◌, ◌≡◌, ◌↔◌, Bool, arith,
}

-- With `e` ticks since it began, a call of `sys_sleep` for `n` ticks returns 0 exactly if `n` ticks
-- have passed, although the counter wraps; before that it returns -1 if its process is killed, and
-- else sleeps.
pub sleep_round_lem :
    (ticks0 e n : ℕ) (killed : Bool)
    → ticks0 < 2 ^ 32
    → e < 2 ^ 32
    → ((sleep_round (u32 (ticks0 + e)) ticks0 n killed ≡ woke) ↔ (n ≤ e))
      × (e < n
          → sleep_round (u32 (ticks0 + e)) ticks0 n killed
            ≡ (if killed then gave_up else still_asleep))
unfolding sleep_round
sleep_round_lem ticks0 e n killed low few =
    let passed : u32 (u32 (ticks0 + e) + 2 ^ 32 - ticks0) ≡ e = omega arith in
    ((λ h. ground arith, λ h. ground arith), λ h. ground arith)
