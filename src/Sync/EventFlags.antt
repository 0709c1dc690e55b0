-- ===== src/Sync/EventFlags.antt =====
-- stk::sync::EventFlags of stk/include/sync/stk_sync_eventflags.h. The waiting loop of Wait() is split where
-- it suspends: `wait_loop` goes from the test of the loop on, at the call and whenever Set() has woken the
-- task, and `suspends` means that the task has joined the wait list; a task that the kernel times out
-- returns ERROR_TIMEOUT. `now` is GetTicks() at the step, and `none` a failed STK_ASSERT.
pub mod Matched
pub mod Deadline
pub mod Tests
use bare_metal_rtos.Base.{
  ℕ, ◌+◌, ◌-◌, ◌%◌, ◌^◌, ◌≡◌, Bool, true, false, not, ◌&&◌, ◌||◌, Option, none, some, List, [],
  ◌==◌, ltb, if◌then◌else◌, bit_and, bit_or,
}
use bare_metal_rtos.Base.Bits.{bit_not}
use bare_metal_rtos.Base.Int.{ℤ, pos, negsuc, ltb_ℤ, ◌+ℤ◌, ◌-ℤ◌}
use bare_metal_rtos.Sync.WaitList.{Waiter, eq_ℤ, no_wait, wait_infinite}
use bare_metal_rtos.Sync.Semaphore.{Outcome, acquired, refused, blocks}
use bare_metal_rtos.Sync.ConditionVariable
use bare_metal_rtos.Sync.ConditionVariable.{notify_all}

pub record EventFlags : Type 0 where
  pub flags : ℕ
  pub cv : List Waiter

abbrev pub opt_wait_all : ℕ
opt_wait_all = 1

abbrev pub opt_no_clear : ℕ
opt_no_clear = 2

abbrev pub error_parameter : ℕ
error_parameter = 2147483649

abbrev pub error_timeout : ℕ
error_timeout = 2147483650

abbrev pub error_isr : ℕ
error_isr = 2147483652

abbrev pub error_mask : ℕ
error_mask = 2147483648

unfoldable pub init : ℕ → Option EventFlags
init initial_flags =
    if bit_and initial_flags error_mask == 0
    then some (record { flags = initial_flags; cv = [] })
    else none

abbrev pub is_satisfied : ℕ → ℕ → EventFlags → Bool
is_satisfied flags options s =
    if bit_and options opt_wait_all == opt_wait_all
    then bit_and s.flags flags == flags
    else not (bit_and s.flags flags == 0)

-- The flags argument is not zero and has no error bit.
abbrev pub is_valid_flags : ℕ → Bool
is_valid_flags flags = not (flags == 0) && (bit_and flags error_mask == 0)

-- The result, the tasks that are woken, and the flags after it.
unfoldable pub set : ℕ → EventFlags → ℕ × List ℕ × EventFlags
set flags s =
    if is_valid_flags flags
    then (let (woken, ws) = notify_all s.cv in
        (bit_or s.flags flags, woken, record { flags = bit_or s.flags flags; cv = ws }))
    else (error_parameter, [], s)

unfoldable pub clear : ℕ → EventFlags → ℕ × EventFlags
clear flags s =
    if is_valid_flags flags
    then (s.flags, record s { flags = bit_and s.flags (bit_not 32 flags) })
    else (error_parameter, s)

-- static_cast<int32_t>
unfoldable pub int32 : ℤ → ℤ
int32 (pos n) = let w = n % 2 ^ 32 in if ltb w (2 ^ 31) then pos w else negsuc (2 ^ 32 - 1 - w)
int32 (negsuc n) = let w = n % 2 ^ 32 in if ltb w (2 ^ 31) then negsuc w else pos (2 ^ 32 - 1 - w)

pub data Reply : Type 0 where
  returns : ℕ → Reply
  suspends : Reply

-- Wait() after its loop has ended with the condition satisfied.
unfoldable pub take : ℕ → ℕ → EventFlags → ℕ × EventFlags
take flags options s =
    let matched =
      if bit_and options opt_wait_all == opt_wait_all then flags else bit_and s.flags flags in
    (
      matched,
      if bit_and options opt_no_clear == 0
          then record s { flags = bit_and s.flags (bit_not 32 matched) }
          else s,
    )

abbrev pub remaining : Bool → ℤ → ℤ → ℤ
remaining timed_wait deadline now =
    if timed_wait
    then (if ltb_ℤ (int32 now) deadline then int32 (deadline -ℤ int32 now) else no_wait)
    else deadline

unfoldable pub wait_loop :
    ℕ → ℕ → ℕ → Bool → ℤ → Bool → ℤ → EventFlags → Option (Reply × EventFlags)
wait_loop tid flags options timed_wait deadline in_isr now s =
    if is_satisfied flags options s
    then (let (r, s') = take flags options s in some (returns r, s'))
    else (elim (ConditionVariable.wait tid (remaining timed_wait deadline now) in_isr s.cv) [
      | none ↦ none
      | some (acquired, ws) ↦ none
      | some (refused, ws) ↦ some (returns error_timeout, s)
      | some (blocks, ws) ↦ some (suspends, record s { cv = ws })
    ])

abbrev pub is_timed : ℤ → Bool
is_timed timeout_ticks = not (eq_ℤ timeout_ticks wait_infinite) && not (eq_ℤ timeout_ticks no_wait)

-- The deadline of a timed wait that starts at `now`.
abbrev pub deadline_at : ℤ → ℤ → ℤ
deadline_at timeout_ticks now =
    if is_timed timeout_ticks then int32 (now +ℤ timeout_ticks) else timeout_ticks

unfoldable pub wait : ℕ → ℕ → ℕ → ℤ → Bool → ℤ → EventFlags → Option (Reply × EventFlags)
wait tid flags options timeout_ticks in_isr now s =
    if not (is_valid_flags flags)
    then some (returns error_parameter, s)
    else (if in_isr && not (eq_ℤ timeout_ticks no_wait)
        then some (returns error_isr, s)
        else wait_loop tid flags options (is_timed timeout_ticks) (deadline_at timeout_ticks now)
            in_isr now s)
