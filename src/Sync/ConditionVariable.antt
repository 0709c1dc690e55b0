-- ===== src/Sync/ConditionVariable.antt =====
-- stk::sync::ConditionVariable of stk/include/sync/stk_sync_cv.h: a wait list. Wait() is split where it
-- suspends: `blocks` means that the task has joined the list.
use bare_metal_rtos.Base.{ℕ, Bool, Option, none, some, List, if◌then◌else◌}
use bare_metal_rtos.Base.Int.{ℤ}
use bare_metal_rtos.Sync.WaitList.{Waiter, setup_wait, wake_one, wake_all, eq_ℤ, no_wait}
use bare_metal_rtos.Sync.Semaphore.{Outcome, refused, blocks}

unfoldable pub wait : ℕ → ℤ → Bool → List Waiter → Option (Outcome × List Waiter)
wait tid timeout_ticks in_isr ws =
    if eq_ℤ timeout_ticks no_wait
    then some (refused, ws)
    else (if in_isr then none else some (blocks, setup_wait tid timeout_ticks ws))

unfoldable pub notify_one : List Waiter → Option ℕ × List Waiter
unfolding wake_one
notify_one ws = wake_one ws

unfoldable pub notify_all : List Waiter → List ℕ × List Waiter
unfolding wake_all
notify_all ws = wake_all ws
