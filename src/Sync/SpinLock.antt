-- ===== src/Sync/SpinLock.antt =====
-- stk::sync::SpinLock of stk/include/sync/stk_sync_spinlock.h over the low-level lock hw::SpinLock of stk/include/stk_arch.h,
-- of which `is_locked` is the state. No critical section guards a call, so it is split where the low-level lock is
-- taken or given back: other threads may run between these parts. `tid` is GetTid(), and `none` a failed STK_ASSERT or
-- a STK_KERNEL_PANIC.
pub mod Threads
pub mod Tests
use bare_metal_rtos.Base.{
  ℕ, suc, ◌+◌, ◌-◌, Bool, true, false, not, ◌&&◌, ◌||◌, Option, none, some, ◌==◌, ltb,
  if◌then◌else◌,
}
use bare_metal_rtos.Sync.Mutex.{tid_none}

pub record SpinLock : Type 0 where
  pub owner_tid : ℕ
  pub recursion_count : ℕ
  pub is_locked : Bool

abbrev pub recursion_max : ℕ
recursion_max = 65534

unfoldable pub init : SpinLock
init = record { owner_tid = tid_none; recursion_count = 0; is_locked = false }

unfoldable pub lock_recursively : ℕ → SpinLock → Option (Bool × SpinLock)
lock_recursively tid s =
    if (s.owner_tid == tid) && not (s.recursion_count == 0)
    then (if ltb s.recursion_count recursion_max
        then some (true, record s { recursion_count = s.recursion_count + 1 })
        else none)
    else some (false, s)

unfoldable pub make_locked : ℕ → SpinLock → Option SpinLock
make_locked tid s =
    if not (s.owner_tid == tid_none) || not (s.recursion_count == 0)
    then none
    else some (record s { owner_tid = tid; recursion_count = 1 })

pub data Attempt : Type 0 where
  nested entering refused : Attempt

-- Lock() and TryLock() up to the low-level lock: `nested` returns at once, `entering` has the low-level lock and goes
-- on with MakeLocked(), and `refused` tries again in Lock() and returns false in TryLock().
unfoldable pub try_lock : ℕ → SpinLock → Option (Attempt × SpinLock)
unfolding lock_recursively
try_lock tid s = elim (lock_recursively tid s) [
  | none ↦ none
  | some (success, s') ↦ some (
      if success
      then (nested, s')
      else (if s'.is_locked then (refused, s') else (entering, record s' { is_locked = true })))
]

-- Unlock() up to the low-level unlock: true where that follows.
unfoldable pub unlock : ℕ → Bool → SpinLock → Option (Bool × SpinLock)
unlock tid in_isr s =
    if not in_isr && ((s.owner_tid == tid) && not (s.recursion_count == 0))
    then some (
        if s.recursion_count - 1 == 0
        then (true, record s { owner_tid = tid_none; recursion_count = 0 })
        else (false, record s { recursion_count = s.recursion_count - 1 }))
    else none

-- hw::SpinLock::Unlock()
unfoldable pub unlock_low : SpinLock → SpinLock
unlock_low s = record s { is_locked = false }
