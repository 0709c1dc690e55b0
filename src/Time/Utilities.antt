-- ===== src/Time/Utilities.antt =====
-- stk::time::PeriodicTrigger and stk::time::Stopwatch of stk/include/time/stk_time_util.h. Ticks are int64_t values, as
-- integers; Cycles are uint64_t values and keep their wrap-around. `ticks` is GetTicks() and `now` what the caller's
-- counter gives at the call; `none` is a failed STK_ASSERT.
pub mod Triggers
pub mod Tests
use bare_metal_rtos.Base.{
  ℕ, ◌+◌, ◌-◌, ◌%◌, ◌^◌, Bool, true, false, Option, none, some, ◌==◌, if◌then◌else◌,
}
use bare_metal_rtos.Base.Int.{ℤ, pos, ltb_ℤ, ◌+ℤ◌, ◌-ℤ◌}

pub record PeriodicTrigger : Type 0 where
  pub next : ℤ
  pub period : ℕ

unfoldable pub restart : ℤ → PeriodicTrigger → PeriodicTrigger
restart ticks p = record p { next = ticks +ℤ pos p.period }

unfoldable pub init : ℕ → Bool → ℤ → PeriodicTrigger
unfolding restart
init period start ticks =
    let p : PeriodicTrigger = record { next = pos 0; period = period } in
    if start then restart ticks p else p

unfoldable pub set_period : ℕ → PeriodicTrigger → PeriodicTrigger
set_period period p = record { next = (p.next -ℤ pos p.period) +ℤ pos period; period = period }

unfoldable pub poll : ℤ → PeriodicTrigger → Option (Bool × PeriodicTrigger)
poll ticks p =
    if ltb_ℤ (pos 0) p.next
    then some (
        if ltb_ℤ (ticks -ℤ p.next) (pos 0)
        then (false, p)
        else (true, record p { next = p.next +ℤ pos p.period }))
    else none

-- The state of a Stopwatch is its reference point, which is 0 where it is not started.
abbrev pub not_started : ℕ
not_started = 0

unfoldable pub start_watch : ℕ → ℕ
start_watch now = now

-- Update(): the cycles since the reference point, and the new one.
unfoldable pub update_watch : ℕ → ℕ → ℕ × ℕ
update_watch now prev =
    let from = if prev == not_started then now else prev in ((now + 2 ^ 64 - from) % 2 ^ 64, now)
