-- ===== src/Sync/Mutex.antt =====
-- stk::sync::Mutex of stk/include/sync/stk_sync_mutex.h. A call runs under the critical section up to
-- the point where it blocks; `blocks` means that the task has joined the wait list. The rest of
-- TimedLock() runs as `lock_signalled` when Unlock() has woken the task, and as `lock_timed_out` when the
-- kernel has. `current_tid` is the calling task, `in_isr` hw::IsInsideISR(), `weights` the run-time
-- weights of the tasks, and `none` a failed STK_ASSERT or a STK_KERNEL_PANIC.
pub mod Ownership
pub mod Handover
pub mod Runs
pub mod Lifetime
pub mod Tests
use bare_metal_rtos.Base.{
  ℕ, zero, suc, ◌+◌, ◌-◌, ◌%◌, ◌^◌, ◌≡◌, Bool, true, false, not, ◌&&◌, ◌||◌, Option, none, some,
  List, [], ◌∷◌, ◌++◌, ◌==◌, ltb, if◌then◌else◌,
}
use bare_metal_rtos.Base.Int.{ℤ}
use bare_metal_rtos.Sync.WaitList.{Waiter, setup_wait, tick, eq_ℤ, no_wait, find_weight_higher_than}
use bare_metal_rtos.Sync.Inheritance.{inherit_weight, restore_weight, get_weight}
use bare_metal_rtos.Sync.Semaphore.{Outcome, acquired, refused, blocks, u16}

pub record Mutex : Type 0 where
  pub owner_tid : ℕ
  pub recursion_count : ℕ
  pub wait_list : List Waiter
  pub weights : ℕ → ℤ

abbrev pub tid_none : ℕ
tid_none = 0

abbrev pub recursion_max : ℕ
recursion_max = 65534

pub init : (ℕ → ℤ) → Mutex
init weights = record {
  owner_tid = tid_none;
  recursion_count = 0;
  wait_list = [];
  weights = weights;
}

module _ (base : ℕ → ℤ) where
  pub timed_lock : ℕ → ℤ → Bool → Mutex → Option (Outcome × Mutex)
  timed_lock current_tid timeout_ticks in_isr m =
      if not (m.recursion_count == 0) && m.owner_tid == current_tid
      then (if ltb m.recursion_count recursion_max
          then some (acquired, record m { recursion_count = u16 (m.recursion_count + 1) })
          else none)
      else (if m.recursion_count == 0
          then (if m.owner_tid == tid_none
              then some (acquired, record m { recursion_count = 1; owner_tid = current_tid })
              else none)
          else (if not (eq_ℤ timeout_ticks no_wait)
              then (if in_isr
                  then none
                  else some (
                    blocks,
                    record m {
                      wait_list = setup_wait current_tid timeout_ticks m.wait_list;
                      weights = inherit_weight base m.owner_tid (base current_tid) m.weights;
                    },
                  ))
              else some (refused, m)))

  -- TimedLock() after Wait() has returned WAIT_RESULT_SIGNAL.
  pub lock_signalled : ℕ → Mutex → Option Mutex
  lock_signalled current_tid m =
      if not (m.owner_tid == current_tid) || not (m.recursion_count == 1) then none else some m

  -- TimedLock() after Wait() has returned WAIT_RESULT_TIMEOUT, with the owner that it found at its call.
  pub lock_timed_out : ℕ → Mutex → Mutex
  lock_timed_out owner_tid m =
      if owner_tid == m.owner_tid
      then record m { weights = restore_weight base owner_tid (some m.wait_list) m.weights }
      else m

  -- The last Unlock(): the task that it wakes, if any waits.
  pub release : Mutex → Option ℕ × Mutex
  release m =
      let restored = restore_weight base m.owner_tid none m.weights in
      elim m.wait_list [
        | [] ↦ (none, record m { recursion_count = 0; owner_tid = tid_none; weights = restored })
        | w ∷ ws ↦ (
          some w.tid,
          record m {
            recursion_count = 1;
            owner_tid = w.tid;
            wait_list = ws;
            weights =
                inherit_weight base w.tid (find_weight_higher_than base (base w.tid) ws) restored;
          },
        )
      ]

  pub unlock : ℕ → Mutex → Option (Option ℕ × Mutex)
  unfolding release
  unlock current_tid m =
      if m.owner_tid == current_tid && not (m.recursion_count == 0)
      then (let left = u16 (m.recursion_count + 2 ^ 16 - 1) in
          if left == 0 then some (release m) else some (none, record m { recursion_count = left }))
      else none

-- The kernel's tick on the mutex: the tasks whose Wait() returns WAIT_RESULT_TIMEOUT.
pub expire : ℕ → Mutex → List ℕ × Mutex
expire elapsed m =
    let (woken, left) = tick elapsed m.wait_list in (woken, record m { wait_list = left })
