-- ===== src/Time/TimerHost.antt =====
-- stk::time::TimerHost of stk/include/time/stk_time_timer.h: the list of active timers that the tick task keeps,
-- the commands that tasks send it, and the queue of expired timers that the handler task reads. A timer is a
-- number, the address of its Timer. Ticks are int64_t values, as integers. `none` is a failed STK_ASSERT; the one on
-- a full command queue is left out, so that the result of a release build is there. A method here runs as one step;
-- Preempted has the calls in parts, between which other tasks run.
-- A queue is the sequence of what is in it, the command queue with its capacity; where the queue of expired
-- timers is full the tick task waits in Write() until there is room, and the model writes.
pub mod Commands
pub mod TickTask
pub mod Consistent
pub mod Rearming
pub mod Frame
pub mod Runs
pub mod Lifetime
pub mod Preempted
pub mod Safety
pub mod Racing
pub mod Stuck
pub mod Expiry
pub mod Rounds
pub mod Waking
pub mod Overslept
pub mod Tests
use bare_metal_rtos.Base.{
  ◌%◌, ℕ, ◌^◌, Bool, true, false, not, ◌&&◌, ◌||◌, Option, none, some, List, [], ◌∷◌, ◌++◌, ◌==◌,
  leb, if◌then◌else◌, update, length, count,
}
use bare_metal_rtos.Base.Int.{ℤ, pos, ◌-ℤ◌}
use bare_metal_rtos.Sync.WaitList.{int32_max}

-- STK_TIMER_THREADS_COUNT
abbrev pub timer_threads_count : ℕ
timer_threads_count = 1

-- STK_TIMER_COUNT_MAX
abbrev pub timer_count_max : ℕ
timer_count_max = 32

pub record Timer : Type 0 where
  pub deadline : ℤ
  pub timestamp : ℤ
  pub period : ℕ
  pub is_active : Bool
  pub is_pending : Bool
  pub is_rearming : Bool

pub data CommandId : Type 0 where
  cmd_shutdown cmd_start cmd_stop cmd_reset cmd_restart cmd_start_or_reset cmd_set_period :
      CommandId

-- `none` is a null pointer to the timer.
pub record TimerCommand : Type 0 where
  pub cmd : CommandId
  pub timer : Option ℕ
  pub timestamp : ℤ
  pub delay : ℕ
  pub period : ℕ

abbrev pub command : CommandId → Option ℕ → ℤ → ℕ → ℕ → TimerCommand
command cmd timer timestamp delay period = record {
  cmd = cmd;
  timer = timer;
  timestamp = timestamp;
  delay = delay;
  period = period;
}

-- In `queue`, `none` is the null pointer that ends a handler.
pub record TimerHost : Type 0 where
  pub timers : ℕ → Timer
  pub active : List ℕ
  pub queue : List (Option ℕ)
  pub commands : List TimerCommand
  pub now : ℤ

unfoldable pub new_timer : Timer
new_timer = record {
  deadline = pos 0;
  timestamp = pos 0;
  period = 0;
  is_active = false;
  is_pending = false;
  is_rearming = false;
}

unfoldable pub init : TimerHost
unfolding new_timer
init = record { timers = λ t. new_timer; active = []; queue = []; commands = []; now = pos 0 }

unfoldable pub get_remaining_ticks : ℤ → Timer → ℕ
get_remaining_ticks ticks r =
    if r.is_active then elim (r.deadline -ℤ ticks) [ ℤ.pos n ↦ n % 2 ^ 32 | ℤ.negsuc n ↦ 0 ] else 0

abbrev pub with_timer : TimerHost → ℕ → Timer → TimerHost
with_timer h t r = record h { timers = update h.timers t r }

abbrev pub is_linked : ℕ → TimerHost → Bool
is_linked t h = not (count t h.active == 0)

-- The commands that tasks send.
abbrev pub is_rearm : CommandId → Bool
is_rearm CommandId.cmd_restart = true
is_rearm CommandId.cmd_start_or_reset = true
is_rearm _ = false

-- The write to the command queue, which does not wait.
unfoldable pub write_command : TimerCommand → TimerHost → Bool × TimerHost
write_command c h =
    if leb timer_count_max (length h.commands)
    then (false, h)
    else (true, record h { commands = h.commands ++ c ∷ [] })

-- PushCommand() of a CMD_RESTART or CMD_START_OR_RESET for the timer `t` tests m_rearming, sets it, and writes the
-- command, with no critical section around these parts: other tasks may run in between.
abbrev pub mark_rearming : ℕ → TimerHost → TimerHost
mark_rearming t h = with_timer h t (record (h.timers t) { is_rearming = true })

abbrev pub write_rearm : ℕ → TimerCommand → TimerHost → Bool × TimerHost
write_rearm t c h =
    let (success, h') = write_command c h in
    if success
    then (true, h')
    else (false, with_timer h' t (record (h'.timers t) { is_rearming = false }))

-- The parts, where no other task runs in between.
unfoldable pub push_rearm : ℕ → TimerCommand → TimerHost → Bool × TimerHost
unfolding write_command
push_rearm t c h =
    if (h.timers t).is_rearming then (true, h) else write_rearm t c (mark_rearming t h)

unfoldable pub push_command : TimerCommand → TimerHost → Bool × TimerHost
unfolding write_command push_rearm
push_command c h = elim c.timer [
  | none ↦ write_command c h
  | some t ↦ if is_rearm c.cmd then push_rearm t c h else write_command c h
]

-- The assertions of Start(), Restart() and StartOrReset() on their arguments.
abbrev pub is_valid_time : ℕ → ℕ → Bool
is_valid_time delay period = leb delay int32_max && ((period == 0) || leb period int32_max)

unfoldable pub start : ℕ → ℕ → ℕ → ℤ → TimerHost → Option (Bool × TimerHost)
unfolding push_command
start t delay period ticks h =
    if is_valid_time delay period
    then some (
        if (h.timers t).is_active
        then (true, h)
        else push_command (command CommandId.cmd_start (some t) ticks delay period) h)
    else none

unfoldable pub stop : ℕ → TimerHost → Bool × TimerHost
unfolding push_command
stop t h =
    if (h.timers t).is_active
    then push_command (command CommandId.cmd_stop (some t) (pos 0) 0 0) h
    else (true, h)

unfoldable pub reset : ℕ → ℤ → TimerHost → Bool × TimerHost
unfolding push_command
reset t ticks h =
    if (h.timers t).is_active && not ((h.timers t).period == 0)
    then push_command (command CommandId.cmd_reset (some t) ticks 0 0) h
    else (false, h)

unfoldable pub restart : ℕ → ℕ → ℕ → ℤ → TimerHost → Option (Bool × TimerHost)
unfolding push_command
restart t delay period ticks h =
    if is_valid_time delay period
    then some (push_command (command CommandId.cmd_restart (some t) ticks delay period) h)
    else none

unfoldable pub start_or_reset : ℕ → ℕ → ℕ → ℤ → TimerHost → Option (Bool × TimerHost)
unfolding push_command
start_or_reset t delay period ticks h =
    if is_valid_time delay period
    then some (push_command (command CommandId.cmd_start_or_reset (some t) ticks delay period) h)
    else none

unfoldable pub set_period : ℕ → ℕ → TimerHost → Bool × TimerHost
unfolding push_command
set_period t period h =
    if ((h.timers t).is_active && not ((h.timers t).period == 0))
      && (not (period == 0) && leb period int32_max)
    then push_command (command CommandId.cmd_set_period (some t) (pos 0) 0 period) h
    else (false, h)

unfoldable pub shutdown : TimerHost → Bool × TimerHost
unfolding push_command
shutdown h = push_command (command CommandId.cmd_shutdown none (pos 0) 0 0) h
