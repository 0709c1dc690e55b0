-- ===== src/Time/TimerHost/Frame.antt =====
-- The command queue and the flags m_rearming of stk/include/time/stk_time_timer.h under the commands and the visits of
-- the tick task.
use bare_metal_rtos.Base.{ℕ, ◌≡◌, arith, true, some}
use bare_metal_rtos.Base.Int.{ℤ}
use bare_metal_rtos.Time.TimerHost.{TimerHost, TimerCommand, CommandId}
use bare_metal_rtos.Time.TimerHost.Commands.{
  execute_start, execute_stop, execute_reset, execute_restart, execute_start_or_reset,
  execute_set_period, execute,
}
use bare_metal_rtos.Time.TimerHost.TickTask.{visit}
use bare_metal_rtos.Time.TimerHost.Rearming.{rearms}

module _ (c : TimerCommand) (t : ℕ) (n n' : ℤ) (h h' : TimerHost) where
  pub execute-commands :
      (id : CommandId) → execute id c t n h ≡ some (n', h') → h'.commands ≡ h.commands
  unfolding execute execute_start execute_stop execute_reset execute_restart execute_start_or_reset
      execute_set_period
  execute-commands CommandId.cmd_shutdown k = ground arith
  execute-commands CommandId.cmd_start k = ground arith
  execute-commands CommandId.cmd_stop k = ground arith
  execute-commands CommandId.cmd_reset k = ground arith
  execute-commands CommandId.cmd_restart k = ground arith
  execute-commands CommandId.cmd_start_or_reset k = ground arith
  execute-commands CommandId.cmd_set_period k = ground arith

  pub execute-is_rearming :
      (id : CommandId) (u : ℕ)
      → execute id c t n h ≡ some (n', h')
      → rearms u id (some t) ≡ 0
      → (h'.timers u).is_rearming ≡ (h.timers u).is_rearming
  unfolding execute execute_start execute_stop execute_reset execute_restart execute_start_or_reset
      execute_set_period
  execute-is_rearming CommandId.cmd_shutdown u k z = ground arith
  execute-is_rearming CommandId.cmd_start u k z = ground arith
  execute-is_rearming CommandId.cmd_stop u k z = ground arith
  execute-is_rearming CommandId.cmd_reset u k z = ground arith
  execute-is_rearming CommandId.cmd_restart u k z = ground arith
  execute-is_rearming CommandId.cmd_start_or_reset u k z = ground arith
  execute-is_rearming CommandId.cmd_set_period u k z = ground arith

  -- A CMD_START_OR_RESET for an active timer leaves its mark.
  pub start_or_reset-is_rearming :
      (h.timers t).is_active ≡ true
      → execute CommandId.cmd_start_or_reset c t n h ≡ some (n', h')
      → (h'.timers t).is_rearming ≡ (h.timers t).is_rearming
  unfolding execute execute_start_or_reset
  start_or_reset-is_rearming on k = ground arith

module _ (now : ℤ) (t : ℕ) (n n' : ℤ) (h h' : TimerHost) (k : visit now t n h ≡ some (n', h')) where
  pub visit-commands : h'.commands ≡ h.commands
  unfolding visit
  visit-commands = ground arith

  pub visit-is_rearming : (u : ℕ) → (h'.timers u).is_rearming ≡ (h.timers u).is_rearming
  unfolding visit
  visit-is_rearming u = ground arith
