-- ===== src/Kernel/WaitCalls.antt =====
-- OnTaskWait() of the kernel of stk/include/stk.h and the ticks that follow.
use bare_metal_rtos.Base.{
  ℕ, ◌≡◌, ◌≢◌, ◌<◌, ◌≤◌, ◌+◌, refl, arith, ltb, Bool, true, false, some, none, List, count,
  update_same,
}
use bare_metal_rtos.Base.Int.{ℤ, pos, ◌≤ℤ◌}
use bare_metal_rtos.Sync.WaitList.{int32_max, wait_infinite}
use bare_metal_rtos.Sync.WaitList.Found.{tids}
use bare_metal_rtos.Kernel.Task.{is_sleeping}
use bare_metal_rtos.Kernel.Strategy.{Strategy, IsSleepAware}
use bare_metal_rtos.Kernel.Machine.{Contexts}
use bare_metal_rtos.Kernel.Sleep.{total}
use bare_metal_rtos.Kernel.Waiting.{SyncKernel, waiters, is_waiting, on_sync_tick, on_task_wait}
use bare_metal_rtos.Kernel.TimedWaits.{AllPositive, Waits, run_sync_ticks, wait_lasts}
use bare_metal_rtos.Kernel.Endless.{endless_ends}
use bare_metal_rtos.Kernel.Joining.{
  joined, waiting, sleeper, joins, joins-Waits, sleeper-neg_part, waiter_of-add_waiter,
}

module _ {S : Type 0} {o : Strategy S} (law : IsSleepAware o) (tasks_max : ℕ) (is_dynamic : Bool)
    (ticks_max : ℤ) where
  -- What a task of the slot `u` can rely on when it calls OnTaskWait() and `b` ticks follow: it has no wait yet and is not to be
  -- removed.
  pub record CanWait (b u : ℕ) (k : SyncKernel S) : Type 0 where
    pub waits : Waits law tasks_max is_dynamic ticks_max b k
    pub int32 : b < int32_max
    pub slot : u < tasks_max
    pub bound : (k.kernel.tasks u).user ≢ 0
    pub stays : (k.kernel.tasks u).remove_pending ≡ false
    pub free : count u (tids (waiters k.sync_list)) ≡ 0

  -- In a started kernel that is not tickless, where each task waits at most once and every waiting task sleeps and is
  -- not to be removed, let a bound task that does not wait and is not to be removed call OnTaskWait() with a timeout of
  -- n ticks, n positive and not WAIT_INFINITE, and let only ticks follow, less than INT32_MAX of them and less than
  -- what is left of the sleep of every task that waits. The call and the ticks fail no assertion, and after the ticks
  -- the task sleeps, and is in the wait list, exactly if less than n ticks have passed in all.
  pub timed_wait :
      (es : List ℕ) (u id n : ℕ) (k : SyncKernel S)
      → pos 1 ≤ℤ ticks_max
      → AllPositive es
      → CanWait (total es) u k
      → 0 < n
      → n < int32_max
      → (k0 : SyncKernel S) × (k' : SyncKernel S) × (on_task_wait o tasks_max u id (pos n) k
          ≡ some k0)
        × (run_sync_ticks law tasks_max is_dynamic ticks_max es k0 ≡ some k')
        × (is_sleeping (k'.kernel.tasks u) ≡ ltb (total es) n)
        × (is_waiting u k'.sync_list ≡ ltb (total es) n)
  timed_wait es u id n k p q c h i =
      let k0 = waiting law tasks_max is_dynamic ticks_max u id (pos n) k in
      let same =
        update_same k.kernel.tasks u
          (sleeper law tasks_max is_dynamic ticks_max (k.kernel.tasks u)) in
      let (k', a, s, w) =
        wait_lasts law tasks_max is_dynamic ticks_max es u n (joined u (pos n)) k0 p q
          (joins-Waits law tasks_max is_dynamic ticks_max (total es) u id (pos n) k c.waits c.int32
            c.slot c.bound c.stays c.free)
          (rw same c.bound) (waiter_of-add_waiter id u (pos n) k.sync_list c.free) refl refl h i in
      (
        k0,
        k',
        joins law tasks_max is_dynamic ticks_max u id (pos n) k (ground (arith, h)) c.free,
        a,
        s,
        w,
      )

  -- In such a kernel let the task call OnTaskWait() with WAIT_INFINITE, and let a tick with which INT32_MAX or more
  -- ticks have passed follow these. The task sleeps until that tick and is awake after it, though nobody has signalled:
  -- it is still in the wait list, and the next OnTaskWait() of the task fails an assertion.
  pub endless_wait_ends :
      (es : List ℕ) (e u id : ℕ) (k : SyncKernel S)
      → pos 1 ≤ℤ ticks_max
      → AllPositive es
      → 0 < e
      → CanWait (total es) u k
      → int32_max ≤ total es + e
      → (k0 : SyncKernel S) × (k1 : SyncKernel S) × (c : Contexts) × (k2 : SyncKernel S)
        × (on_task_wait o tasks_max u id wait_infinite k ≡ some k0)
        × (run_sync_ticks law tasks_max is_dynamic ticks_max es k0 ≡ some k1)
        × (on_sync_tick o tasks_max is_dynamic ticks_max e k1 ≡ some (c, k2))
        × (is_sleeping (k1.kernel.tasks u) ≡ true)
        × (is_sleeping (k2.kernel.tasks u) ≡ false)
        × (is_waiting u k2.sync_list ≡ true)
        × ((id' : ℕ) (timeout : ℤ) → on_task_wait o tasks_max u id' timeout k2 ≡ none)
  endless_wait_ends es e u id k p q pe c m =
      let k0 = waiting law tasks_max is_dynamic ticks_max u id wait_infinite k in
      let task = k.kernel.tasks u in
      let same = update_same k.kernel.tasks u (sleeper law tasks_max is_dynamic ticks_max task) in
      let (k1, x, k2, d, a, s1, s2, w, j) =
        endless_ends law tasks_max is_dynamic ticks_max es e u (joined u wait_infinite) k0 p q pe
          (joins-Waits law tasks_max is_dynamic ticks_max (total es) u id wait_infinite k c.waits
            c.int32 c.slot c.bound c.stays c.free)
          (rw same c.bound) (waiter_of-add_waiter id u wait_infinite k.sync_list c.free) refl refl
          (rw (same, sleeper-neg_part law tasks_max is_dynamic ticks_max task) m) in
      (
        k0,
        k1,
        x,
        k2,
        joins law tasks_max is_dynamic ticks_max u id wait_infinite k refl c.free,
        d,
        a,
        s1,
        s2,
        w,
        j,
      )
