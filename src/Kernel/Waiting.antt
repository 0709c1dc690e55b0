-- ===== src/Kernel/Waiting.antt =====
-- The kernel of stk/include/stk.h with KERNEL_SYNC: the synchronization objects that tasks wait for, OnTaskWait(),
-- UpdateSyncObjects() and OnTick() with these, in a kernel that is not tickless. `sync_list` is m_sync_list, each object
-- with its number and its wait list; an object that is not in the list has no waiters. What an object does to its own
-- state in RemoveWaitObject(), and the mutex that OnTaskWait() unlocks for the wait, are in the object's module.
-- `none` is a failed STK_ASSERT or a STK_KERNEL_PANIC.
use bare_metal_rtos.Base.{
  ℕ, Bool, true, false, not, ◌||◌, Option, none, some, List, [], ◌∷◌, ◌++◌, ◌==◌, ◌&&◌, zero, suc,
  if◌then◌else◌, count,
}
use bare_metal_rtos.Base.Int.{ℤ}
use bare_metal_rtos.Sync.WaitList.{Waiter, setup_wait, tick, wait_infinite, no_wait, eq_ℤ}
use bare_metal_rtos.Sync.WaitList.Found.{tids}
use bare_metal_rtos.Kernel.Task.{KernelTask, is_busy, schedule_sleep, wake}
use bare_metal_rtos.Kernel.Strategy.{Strategy}
use bare_metal_rtos.Kernel.Machine.{Kernel, Contexts, and_then, on_tick}
use bare_metal_rtos.Kernel.Calls.{change}

abbrev pub SyncList : Type 0
SyncList = List (ℕ × List Waiter)

pub record SyncKernel (S : Type 0) : Type 0 where
  pub kernel : Kernel S
  pub sync_list : SyncList

-- All waiters, object by object.
unfoldable pub waiters : SyncList → List Waiter
waiters [] = []
waiters ((id, ws) ∷ objects) = ws ++ waiters objects

-- IsWaiting() of the slot's wait object
unfoldable pub is_waiting : ℕ → SyncList → Bool
unfolding waiters tids
is_waiting i objects = not (count i (tids (waiters objects)) == 0)

-- AddWaitObject() of the object, which joins the list of the kernel if it is not there.
unfoldable pub add_waiter : ℕ → ℕ → ℤ → SyncList → SyncList
unfolding setup_wait
add_waiter id i timeout [] = (id, setup_wait i timeout []) ∷ []
add_waiter id i timeout ((id', ws) ∷ objects) =
    if id' == id
    then (id', setup_wait i timeout ws) ∷ objects
    else (id', ws) ∷ add_waiter id i timeout objects

abbrev pub is_empty : List Waiter → Bool
is_empty [] = true
is_empty (w ∷ ws) = false

-- Unbind() of a slot that waits, among the first `n`, between two states of the slots: an assertion that fails.
unfoldable pub unbinds_waiting : ℕ → (ℕ → KernelTask) → (ℕ → KernelTask) → SyncList → Bool
unfolding is_waiting
unbinds_waiting zero was now l = false
unbinds_waiting (suc n) was now l =
    (is_waiting n l && (is_busy (was n) && not (is_busy (now n)))) || unbinds_waiting n was now l

module _ {S : Type 0} (o : Strategy S) (tasks_max : ℕ) where
  -- OnTaskWait() of the slot `i` up to where the task waits.
  unfoldable pub on_task_wait : ℕ → ℕ → ℤ → SyncKernel S → Option (SyncKernel S)
  unfolding is_waiting add_waiter schedule_sleep
  on_task_wait i id timeout k =
      if eq_ℤ timeout no_wait || is_waiting i k.sync_list
      then none
      else and_then (change o tasks_max i (schedule_sleep wait_infinite) k.kernel)
          (λ k'. some (record { kernel = k'; sync_list = add_waiter id i timeout k.sync_list }))

  -- Wake() of the slots, one after the other.
  unfoldable pub wakes : List ℕ → Kernel S → Option (Kernel S)
  unfolding wake
  wakes [] k = some k
  wakes (t ∷ ts) k = and_then (change o tasks_max t wake k) (λ k'. wakes ts k')

  -- An object without waiters leaves the list.
  unfoldable pub update_sync_objects : ℕ → SyncList → Kernel S → Option (SyncList × Kernel S)
  unfolding tick wakes
  update_sync_objects elapsed_ticks [] k = some ([], k)
  update_sync_objects elapsed_ticks ((id, ws) ∷ objects) k =
      let (woken, left) = tick elapsed_ticks ws in
      and_then (wakes woken k) (λ k'.
        and_then (update_sync_objects elapsed_ticks objects k')
          (λ r. some (if is_empty left then r.0 else (id, left) ∷ r.0, r.1)))

  -- OnTick() with no request pending.
  unfoldable pub on_sync_tick : Bool → ℤ → ℕ → SyncKernel S → Option (Contexts × SyncKernel S)
  unfolding update_sync_objects unbinds_waiting
  on_sync_tick is_dynamic ticks_max elapsed_ticks k =
      and_then (update_sync_objects elapsed_ticks k.sync_list k.kernel) (λ r.
        and_then (on_tick o tasks_max is_dynamic false ticks_max elapsed_ticks r.1) (λ q.
          if unbinds_waiting tasks_max r.1.tasks q.2.tasks r.0
          then none
          else some (q.0, record { kernel = q.2; sync_list = r.0 })))
