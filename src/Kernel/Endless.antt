-- ===== src/Kernel/Endless.antt =====
-- A task of the kernel of stk/include/stk.h that waits for a synchronization object with WAIT_INFINITE: its wait object
-- has no timeout, but OnTaskWait() lets it sleep for WAIT_INFINITE ticks.
use bare_metal_rtos.Base.{
  ℕ, ◌≡◌, ◌≢◌, ◌<◌, ◌≤◌, ◌+◌, ◌-◌, ◌∙◌, refl, arith, Bool, true, false, some, none, List, [], ◌∷◌,
}
use bare_metal_rtos.Base.Int.{ℤ, pos, neg_part, ◌≤ℤ◌}
use bare_metal_rtos.Sync.WaitList.{Waiter, tick, tick_waiter, wait_infinite}
use bare_metal_rtos.Sync.WaitList.Found.{waiter_of, waiter_of-count, left_lem}
use bare_metal_rtos.Kernel.Task.{is_sleeping}
use bare_metal_rtos.Kernel.Strategy.{Strategy, IsSleepAware}
use bare_metal_rtos.Kernel.Machine.{Contexts}
use bare_metal_rtos.Kernel.Sleep.{total, is_sleeping-neg_part}
use bare_metal_rtos.Kernel.Waiting.{SyncKernel, waiters, is_waiting, on_sync_tick, on_task_wait}
use bare_metal_rtos.Kernel.Timeouts.{on_sync_tick-Timed}
use bare_metal_rtos.Kernel.TimedWaits.{
  AllPositive, Waits, run_sync_ticks, tick-Waits, timed-user, timed-kept,
}

tick_waiter-endless : (e : ℕ) (w : Waiter) → w.time_wait ≡ wait_infinite → tick_waiter e w ≡ w
unfolding tick_waiter
tick_waiter-endless e w t = rw t refl

module _ {S : Type 0} {o : Strategy S} (law : IsSleepAware o) (tasks_max : ℕ) (is_dynamic : Bool)
    (ticks_max : ℤ) where
  -- What is left of the kernel for a task that waits and sleeps through `b` ticks.
  abbrev WaitsOn : ℕ → ℕ → Waiter → SyncKernel S → SyncKernel S → Type 0
  WaitsOn b u w k k' =
      Waits law tasks_max is_dynamic ticks_max 0 k'
      × (waiter_of u (waiters k'.sync_list) ≡ some w)
      × ((k'.kernel.tasks u).user ≡ (k.kernel.tasks u).user)
      × (neg_part (k'.kernel.tasks u).time_sleep ≡ neg_part (k.kernel.tasks u).time_sleep - b)

  endless_lem :
      (es : List ℕ) (u : ℕ) (w : Waiter) (k : SyncKernel S)
      → pos 1 ≤ℤ ticks_max
      → AllPositive es
      → Waits law tasks_max is_dynamic ticks_max (total es) k
      → (k.kernel.tasks u).user ≢ 0
      → waiter_of u (waiters k.sync_list) ≡ some w
      → w.time_wait ≡ wait_infinite
      → w.timeout ≡ false
      → (k' : SyncKernel S) × (run_sync_ticks law tasks_max is_dynamic ticks_max es k ≡ some k')
        × WaitsOn (total es) u w k k'
  unfolding run_sync_ticks
  endless_lem [] u w k p q v h f t r = (k, refl, (v, f, refl, omega arith))
  endless_lem (e ∷ es) u w k p q v h f t r =
      let woken = (tick e (waiters k.sync_list)).0 in
      let slot = k.kernel.tasks u in
      let (x0, s, g) = v.asleep u (waiter_of-count u (waiters k.sync_list) w f) in
      let (c, k1, a, v1, x, y) =
        tick-Waits law tasks_max is_dynamic ticks_max e (total es) u k p q.0 v x0 h g in
      let i = tick_waiter-endless e w t in
      let (z, l) = left_lem e u (waiters k.sync_list) w (v.once u) f (rw i r) in
      let same_user : (k1.kernel.tasks u).user ≡ slot.user = rw y (timed-user e u woken slot) in
      let (k2, d, (v2, f2, n2, s2)) =
        endless_lem es u w k1 p q.1 v1 (rw same_user h) (rw x (rw i at l)) t r in
      (
        k2,
        rw (a, d) refl,
        (v2, f2, n2 ∙ same_user, s2 ∙ rw (y, timed-kept e u woken slot z) (omega arith)),
      )

  -- In a started kernel where each task waits at most once and every waiting task sleeps, is not to be removed and has
  -- more ticks of its sleep left than the ticks `es` are in all, let a task wait with WAIT_INFINITE, and let the tick
  -- after these be of at least as many ticks as are then left of its sleep. The task sleeps until that tick and is
  -- awake after it, though nobody has signalled: its wait object has not timed out and is still in the wait list, and
  -- its next OnTaskWait() fails.
  pub endless_ends :
      (es : List ℕ) (e u : ℕ) (w : Waiter) (k : SyncKernel S)
      → pos 1 ≤ℤ ticks_max
      → AllPositive es
      → 0 < e
      → Waits law tasks_max is_dynamic ticks_max (total es) k
      → (k.kernel.tasks u).user ≢ 0
      → waiter_of u (waiters k.sync_list) ≡ some w
      → w.time_wait ≡ wait_infinite
      → w.timeout ≡ false
      → neg_part (k.kernel.tasks u).time_sleep ≤ total es + e
      → (k1 : SyncKernel S) × (c : Contexts) × (k2 : SyncKernel S) × (run_sync_ticks law tasks_max
            is_dynamic ticks_max es k
          ≡ some k1)
        × (on_sync_tick o tasks_max is_dynamic ticks_max e k1 ≡ some (c, k2))
        × (is_sleeping (k1.kernel.tasks u) ≡ true)
        × (is_sleeping (k2.kernel.tasks u) ≡ false)
        × (is_waiting u k2.sync_list ≡ true)
        × ((id : ℕ) (timeout : ℤ) → on_task_wait o tasks_max u id timeout k2 ≡ none)
  unfolding on_task_wait is_waiting
  endless_ends es e u w k p q pe v h f t r m =
      let (k1, d, (v1, f1, n1, s1)) = endless_lem es u w k p q v h f t r in
      let slot = k1.kernel.tasks u in
      let (x0, s, g) = v1.asleep u (waiter_of-count u (waiters k1.sync_list) w f1) in
      let (c, k2, a, v2, x, y) =
        on_sync_tick-Timed law tasks_max is_dynamic e u ticks_max k1 p pe v1.started x0 (rw n1 h) g
          v1.once
          (λ t' j. (
            (v1.asleep t' j).0,
            is_sleeping-neg_part (k1.kernel.tasks t') ∙ ground (arith, (v1.asleep t' j).1),
            (v1.asleep t' j).2,
          )) in
      let i = tick_waiter-endless e w t in
      let (z, l) = left_lem e u (waiters k1.sync_list) w (v1.once u) f1 (rw i r) in
      let f2 : waiter_of u (waiters k2.sync_list) ≡ some w = rw x (rw i at l) in
      let y2 : neg_part (k2.kernel.tasks u).time_sleep ≡ 0 =
        rw (y u x0 g, timed-kept e u (tick e (waiters k1.sync_list)).0 slot z, s1)
          (omega (arith, m)) in
      let j = waiter_of-count u (waiters k2.sync_list) w f2 in
      (
        k1,
        c,
        k2,
        d,
        a,
        is_sleeping-neg_part slot ∙ ground (arith, s),
        is_sleeping-neg_part (k2.kernel.tasks u) ∙ ground (arith, y2),
        ground (arith, j),
        λ id timeout. ground (arith, j),
      )
