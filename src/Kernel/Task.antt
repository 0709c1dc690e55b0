-- ===== src/Kernel/Task.antt =====
-- Kernel::KernelTask of stk/include/stk.h, without the hard real-time mode and for a strategy with
-- SLEEP_EVENT_API. `user` is the user task bound to the slot, 0 for a free slot; the two flags of m_state are
-- `sleep_pending` and `remove_pending`; `time_sleep` is an int32_t, negative while the task sleeps. `none` is a
-- failed STK_ASSERT. Unbind() has one more assertion with KERNEL_SYNC, which is in Waiting.
use bare_metal_rtos.Base.{ℕ, Bool, true, false, not, ◌||◌, Option, none, some, ◌==◌, if◌then◌else◌}
use bare_metal_rtos.Base.Int.{ℤ, pos, negsuc, ltb_ℤ, ◌-ℤ◌}
use bare_metal_rtos.Sync.WaitList.{wait_infinite}

pub record KernelTask : Type 0 where
  pub user : ℕ
  pub sleep_pending : Bool
  pub remove_pending : Bool
  pub time_sleep : ℤ

abbrev pub free_slot : KernelTask
free_slot = record { user = 0; sleep_pending = false; remove_pending = false; time_sleep = pos 0 }

abbrev pub is_busy : KernelTask → Bool
is_busy t = not (t.user == 0)

abbrev pub is_sleeping : KernelTask → Bool
is_sleeping t = ltb_ℤ t.time_sleep (pos 0)

unfoldable pub wake : KernelTask → Option KernelTask
wake t = if is_sleeping t then some (record t { time_sleep = negsuc 0 }) else none

unfoldable pub schedule_sleep : ℤ → KernelTask → Option KernelTask
schedule_sleep ticks t =
    if ltb_ℤ (pos 0) ticks
    then some (record t {
      sleep_pending = t.sleep_pending || not (is_sleeping t);
      time_sleep = pos 0 -ℤ ticks;
    })
    else none

unfoldable pub schedule_removal : KernelTask → Option KernelTask
schedule_removal t = elim (schedule_sleep wait_infinite t) [
  | none ↦ none
  | some t' ↦ some (record t' { remove_pending = true })
]

unfoldable pub bind : ℕ → KernelTask → KernelTask
bind user_task t = record t { user = user_task }

unfoldable pub unbind : KernelTask → KernelTask
unbind t = free_slot

abbrev pub max_ℤ : ℤ → ℤ → ℤ
max_ℤ a b = if ltb_ℤ a b then b else a

abbrev pub min_ℤ : ℤ → ℤ → ℤ
min_ℤ a b = if ltb_ℤ b a then b else a

-- The ticks until the task needs the kernel, of a task that waits for no synchronization object.
unfoldable pub get_sleep_ticks : ℤ → KernelTask → ℤ
get_sleep_ticks sleep_ticks t =
    max_ℤ (pos 1) (min_ℤ sleep_ticks (max_ℤ (pos 0) (pos 0 -ℤ t.time_sleep)))
