-- ===== src/Sync/EventFlags/Deadline.antt =====
-- A timed wait near the end of the range of int32_t.
use bare_metal_rtos.Base.{true, Bool, ℕ, ◌+◌, ◌-◌, ◌^◌, ◌≡◌, ◌≤◌, ◌<◌, arith, false, some}
use bare_metal_rtos.Base.Int.{ℤ, pos, ◌+ℤ◌}
use bare_metal_rtos.Sync.ConditionVariable
use bare_metal_rtos.Sync.EventFlags.{
  is_timed, EventFlags, returns, is_satisfied, is_valid_flags, wait, wait_loop, int32,
  error_timeout, remaining, deadline_at,
}

-- The deadline wraps to a negative value.
deadline_wraps :
    (timeout now : ℕ)
    → 0 < timeout
    → timeout < 2 ^ 31 - 1
    → now < 2 ^ 31
    → 2 ^ 31 ≤ now + timeout
    → remaining Bool.true (deadline_at (pos timeout) (pos now)) (pos now) ≡ pos 0
unfolding int32 ◌+ℤ◌
deadline_wraps timeout now p q l w = ground arith

loop_times_out :
    (tid flags options : ℕ) (deadline now : ℤ) (timed : Bool) (s : EventFlags)
    → is_satisfied flags options s ≡ false
    → remaining timed deadline now ≡ pos 0
    → wait_loop tid flags options timed deadline false now s ≡ some (returns error_timeout, s)
unfolding wait_loop ConditionVariable.wait
loop_times_out tid flags options deadline now timed s n e = ground arith

-- A timed Wait() of a task for valid flags whose condition does not hold, which starts while the tick count
-- fits int32_t and whose deadline does not, returns ERROR_TIMEOUT at once, without waiting at all.
pub wait_times_out_early :
    (tid flags options timeout now : ℕ) (s : EventFlags)
    → is_valid_flags flags ≡ true
    → is_satisfied flags options s ≡ false
    → 0 < timeout
    → timeout < 2 ^ 31 - 1
    → now < 2 ^ 31
    → 2 ^ 31 ≤ now + timeout
    → wait tid flags options (pos timeout) false (pos now) s ≡ some (returns error_timeout, s)
unfolding wait
wait_times_out_early tid flags options timeout now s ok n p q l w =
    let timed : is_timed (pos timeout) ≡ true = ground arith in
    let e = deadline_wraps timeout now p q l w in
    let done =
      loop_times_out tid flags options (deadline_at (pos timeout) (pos now)) (pos now) true s n e in
    ground (arith, done)
