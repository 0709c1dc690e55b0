-- ===== src/Sync/Semaphore.antt =====
-- stk::sync::Semaphore of stk/include/sync/stk_sync_semaphore.h. A call runs under the critical section
-- up to the point where it blocks: `blocks` means that the task has joined the wait list, and it
-- returns later, true when Signal() wakes it and false when the kernel times it out. `in_isr` is
-- hw::IsInsideISR(), and `none` a failed STK_ASSERT.
pub mod Tokens
pub mod Tests
use bare_metal_rtos.Base.{
  ℕ, zero, suc, ◌+◌, ◌-◌, ◌%◌, ◌^◌, ◌≡◌, Bool, true, false, not, ◌&&◌, ◌||◌, Option, none, some,
  List, [], ◌∷◌, ◌++◌, ◌==◌, ltb, if◌then◌else◌,
}
use bare_metal_rtos.Base.Int.{ℤ}
use bare_metal_rtos.Sync.WaitList.{Waiter, setup_wait, wake_one, tick, eq_ℤ, no_wait}

pub record Semaphore : Type 0 where
  pub count : ℕ
  pub count_max : ℕ
  pub wait_list : List Waiter

pub data Outcome : Type 0 where
  acquired refused blocks : Outcome

-- static_cast<uint16_t>
abbrev pub u16 : ℕ → ℕ
u16 n = n % 2 ^ 16

-- The assertion of the constructor is strict.
pub init : ℕ → ℕ → Option Semaphore
init initial_count max_count =
    if ltb initial_count max_count
    then some (record { count = initial_count; count_max = max_count; wait_list = [] })
    else none

pub wait : ℕ → ℤ → Bool → Semaphore → Option (Outcome × Semaphore)
wait tid timeout_ticks in_isr s =
    if not (s.count == 0)
    then some (acquired, record s { count = u16 (s.count + 2 ^ 16 - 1) })
    else (if not (eq_ℤ timeout_ticks no_wait)
        then (if in_isr
            then none
            else some (blocks, record s { wait_list = setup_wait tid timeout_ticks s.wait_list }))
        else some (refused, s))

-- The task that Signal() wakes, if any waits.
pub signal : Semaphore → Option (Option ℕ × Semaphore)
signal s = elim s.wait_list [
  | [] ↦
      if ltb s.count s.count_max then some (none, record s { count = u16 (s.count + 1) }) else none
  | w ∷ ws ↦ let (woken, left) = wake_one (w ∷ ws) in some (woken, record s { wait_list = left })
]

-- The kernel's tick on the semaphore: the tasks whose Wait() returns false.
pub expire : ℕ → Semaphore → List ℕ × Semaphore
expire elapsed s =
    let (woken, left) = tick elapsed s.wait_list in (woken, record s { wait_list = left })
