-- ===== src/Kernel/TimedWaits.antt =====
-- How long a task of the kernel of stk/include/stk.h waits for a synchronization object when only ticks follow.
use bare_metal_rtos.Base.{
  ℕ, ◌≡◌, ◌≢◌, ◌<◌, ◌≤◌, ◌+◌, ◌-◌, ◌∙◌, refl, arith, Bool, Bool-cases, true, false, Option, some,
  List, [], ◌∷◌, inl, inr, count, ltb,
}
use bare_metal_rtos.Base.Int.{ℤ, pos, negsuc, neg_part, ◌≤ℤ◌}
use bare_metal_rtos.Sync.WaitList.{Waiter, tick, tick_waiter, int32_max}
use bare_metal_rtos.Sync.WaitList.Found.{
  tids, waiter_of, waiter_of-count, count-tick, woken_lem, left_lem, tick_waiter-timed,
}
use bare_metal_rtos.Kernel.Task.{KernelTask, is_sleeping}
use bare_metal_rtos.Kernel.Strategy.{Strategy, IsSleepAware}
use bare_metal_rtos.Kernel.Machine.{and_then, Contexts}
use bare_metal_rtos.Kernel.Reach.{Started}
use bare_metal_rtos.Kernel.Sleep.{total, ticked_lem, is_sleeping-neg_part}
use bare_metal_rtos.Kernel.Waiting.{SyncKernel, waiters, is_waiting, on_sync_tick}
use bare_metal_rtos.Kernel.Timeouts.{on_sync_tick-Timed, timed}

abbrev pub AllPositive : List ℕ → Type 0
AllPositive [] = Unit {0}
AllPositive (w ∷ ws) = (0 < w) × AllPositive ws

pub timed-user : (e u : ℕ) (ts : List ℕ) (t : KernelTask) → (timed e ts u t).user ≡ t.user
timed-user e u ts t = ground arith

pub timed-remove_pending :
    (e u : ℕ) (ts : List ℕ) (t : KernelTask) → (timed e ts u t).remove_pending ≡ t.remove_pending
timed-remove_pending e u ts t = ground arith

-- A task that is not woken sleeps on.
pub timed-kept :
    (e u : ℕ) (ts : List ℕ) (t : KernelTask)
    → count u ts ≡ 0
    → neg_part (timed e ts u t).time_sleep ≡ neg_part t.time_sleep - e
timed-kept e u ts t z = rw z ((ticked_lem e t).2)

-- A task that is woken does not sleep after the tick.
timed-woken :
    (e u : ℕ) (ts : List ℕ) (t : KernelTask)
    → count u ts ≡ 1
    → 0 < e
    → neg_part (timed e ts u t).time_sleep ≡ 0
timed-woken e u ts t z p =
    rw z ((ticked_lem e (record t { time_sleep = negsuc 0 })).2 ∙ omega (arith, p))

module _ {S : Type 0} {o : Strategy S} (law : IsSleepAware o) (tasks_max : ℕ) (is_dynamic : Bool)
    (ticks_max : ℤ) where
  -- OnTick() for one number of elapsed ticks after the other.
  unfoldable pub run_sync_ticks : List ℕ → SyncKernel S → Option (SyncKernel S)
  run_sync_ticks [] k = some k
  run_sync_ticks (w ∷ ws) k =
      and_then (on_sync_tick o tasks_max is_dynamic ticks_max w k) (λ r. run_sync_ticks ws r.1)

  -- Every task waits at most once, and one that waits sleeps for more than the next `b` ticks.
  pub record Waits (b : ℕ) (k : SyncKernel S) : Type 0 where
    pub started : Started law tasks_max is_dynamic k.kernel
    pub once : (t : ℕ) → count t (tids (waiters k.sync_list)) ≤ 1
    pub asleep :
        (t : ℕ)
        → 0 < count t (tids (waiters k.sync_list))
        → (t < tasks_max)
          × (b < neg_part (k.kernel.tasks t).time_sleep)
          × ((k.kernel.tasks t).remove_pending ≡ false)

  -- Who waits on after a tick still sleeps, for the ticks that are left.
  still :
      (e b t : ℕ) (k k' : SyncKernel S)
      → Waits (e + b) k
      → waiters k'.sync_list ≡ (tick e (waiters k.sync_list)).1
      → ((t : ℕ)
          → t < tasks_max
          → (k.kernel.tasks t).remove_pending ≡ false
          → k'.kernel.tasks t ≡ timed e (tick e (waiters k.sync_list)).0 t (k.kernel.tasks t))
      → 0 < count t (tids (waiters k'.sync_list))
      → (t < tasks_max)
        × (b < neg_part (k'.kernel.tasks t).time_sleep)
        × ((k'.kernel.tasks t).remove_pending ≡ false)
  still e b t k k' v x y m =
      let woken = (tick e (waiters k.sync_list)).0 in
      let l : 0 < count t (tids (tick e (waiters k.sync_list)).1) = rw x at m in
      let s = count-tick e t (waiters k.sync_list) in
      let (h, d, r) = v.asleep t (omega (arith, l, s)) in
      let z : count t woken ≡ 0 = omega (arith, l, s, v.once t) in
      (
        h,
        rw (y t h r, timed-kept e t woken (k.kernel.tasks t) z) (omega (arith, d)),
        rw (y t h r, timed-remove_pending e t woken (k.kernel.tasks t)) r,
      )

  pub tick-Waits :
      (e b u : ℕ) (k : SyncKernel S)
      → pos 1 ≤ℤ ticks_max
      → 0 < e
      → Waits (e + b) k
      → u < tasks_max
      → (k.kernel.tasks u).user ≢ 0
      → (k.kernel.tasks u).remove_pending ≡ false
      → (c : Contexts) × (k' : SyncKernel S) × (on_sync_tick o tasks_max is_dynamic ticks_max e k
          ≡ some (c, k'))
        × Waits b k'
        × (waiters k'.sync_list ≡ (tick e (waiters k.sync_list)).1)
        × (k'.kernel.tasks u ≡ timed e (tick e (waiters k.sync_list)).0 u (k.kernel.tasks u))
  tick-Waits e b u k p pe v h n f =
      let (c, k', a, v', x, y) =
        on_sync_tick-Timed law tasks_max is_dynamic e u ticks_max k p pe v.started h n f v.once
          (λ t m. (
            (v.asleep t m).0,
            is_sleeping-neg_part (k.kernel.tasks t) ∙ ground (arith, (v.asleep t m).1),
            (v.asleep t m).2,
          )) in
      (
        c,
        k',
        a,
        record {
          started = v';
          once = λ t. rw x (omega (arith, v.once t, count-tick e t (waiters k.sync_list)));
          asleep = λ t m. still e b t k k' v x y m;
        },
        x,
        y u h f,
      )

  -- A task that neither waits nor sleeps goes on so.
  awake_lem :
      (es : List ℕ) (u : ℕ) (k : SyncKernel S)
      → pos 1 ≤ℤ ticks_max
      → AllPositive es
      → Waits (total es) k
      → u < tasks_max
      → (k.kernel.tasks u).user ≢ 0
      → (k.kernel.tasks u).remove_pending ≡ false
      → count u (tids (waiters k.sync_list)) ≡ 0
      → neg_part (k.kernel.tasks u).time_sleep ≡ 0
      → (k' : SyncKernel S) × (run_sync_ticks es k ≡ some k')
        × (count u (tids (waiters k'.sync_list)) ≡ 0)
        × (neg_part (k'.kernel.tasks u).time_sleep ≡ 0)
  unfolding run_sync_ticks
  awake_lem [] u k p q v h n f z s = (k, refl, z, s)
  awake_lem (e ∷ es) u k p q v h n f z s =
      let woken = (tick e (waiters k.sync_list)).0 in
      let t = k.kernel.tasks u in
      let (c, k1, a, v1, x, y) = tick-Waits e (total es) u k p q.0 v h n f in
      let d = count-tick e u (waiters k.sync_list) in
      let (k2, b, z2, s2) =
        awake_lem es u k1 p q.1 v1 h (rw (y, timed-user e u woken t) n)
          (rw (y, timed-remove_pending e u woken t) f) (rw x (omega (arith, d, z)))
          (rw (y, timed-kept e u woken t (omega (arith, d, z))) (omega (arith, s))) in
      (k2, rw (a, b) refl, z2, s2)

  -- In a started kernel where each task waits at most once and every waiting task sleeps, is not to be removed and has
  -- more ticks of its sleep left than the ticks `es` are in all, let a task wait with a timeout of n ticks, n positive
  -- and not WAIT_INFINITE. OnTick() fails in none of the ticks `es`, of at least one elapsed tick each, and after them
  -- the task sleeps exactly if less than n ticks have passed in all, and it is in the wait list exactly then, whatever
  -- the other tasks wait for.
  pub wait_lasts :
      (es : List ℕ) (u n : ℕ) (w : Waiter) (k : SyncKernel S)
      → pos 1 ≤ℤ ticks_max
      → AllPositive es
      → Waits (total es) k
      → (k.kernel.tasks u).user ≢ 0
      → waiter_of u (waiters k.sync_list) ≡ some w
      → w.time_wait ≡ pos n
      → w.timeout ≡ false
      → 0 < n
      → n < int32_max
      → (k' : SyncKernel S) × (run_sync_ticks es k ≡ some k')
        × (is_sleeping (k'.kernel.tasks u) ≡ ltb (total es) n)
        × (is_waiting u k'.sync_list ≡ ltb (total es) n)
  unfolding run_sync_ticks is_waiting
  wait_lasts [] u n w k p q v h f t r m i =
      let c = waiter_of-count u (waiters k.sync_list) w f in
      let s = (v.asleep u c).1 in
      (
        k,
        refl,
        is_sleeping-neg_part (k.kernel.tasks u) ∙ ground (arith, s, m),
        ground (arith, c, m),
      )
  wait_lasts (e ∷ es) u n w k p q v h f t r m i =
      let woken = (tick e (waiters k.sync_list)).0 in
      let slot = k.kernel.tasks u in
      let (x0, s, g) = v.asleep u (waiter_of-count u (waiters k.sync_list) w f) in
      let (c, k1, a, v1, x, y) = tick-Waits e (total es) u k p q.0 v x0 h g in
      let n1 : (k1.kernel.tasks u).user ≢ 0 = rw (y, timed-user e u woken slot) h in
      let g1 : (k1.kernel.tasks u).remove_pending ≡ false =
        rw (y, timed-remove_pending e u woken slot) g in
      let (b, j) = tick_waiter-timed e n w i m t r in
      elim (Bool-cases (ltb e n)) [
        | inl z ↦
            let o' : (tick_waiter e w).timeout ≡ false = b ∙ rw z refl in
            let (l, y2) = left_lem e u (waiters k.sync_list) w (v.once u) f o' in
            let (k2, d, s2, w2) =
              wait_lasts es u (n - e) (tick_waiter e w) k1 p q.1 v1 n1 (rw x y2)
                (j (ground (arith, z))) o' (ground (arith, z)) (omega (arith, i)) in
            (k2, rw (a, d) refl, s2 ∙ ground (arith, z), w2 ∙ ground (arith, z))
        | inr z ↦
            let o' : (tick_waiter e w).timeout ≡ true = b ∙ rw z refl in
            let l = woken_lem e u (waiters k.sync_list) w (v.once u) f o' in
            let (k2, d, z2, s2) =
              awake_lem es u k1 p q.1 v1 x0 n1 g1
                (rw x (omega (arith, l, count-tick e u (waiters k.sync_list), v.once u)))
                (rw (y, timed-woken e u woken slot l q.0) refl) in
            (
              k2,
              rw (a, d) refl,
              is_sleeping-neg_part (k2.kernel.tasks u) ∙ ground (arith, s2, z),
              ground (arith, z2, z),
            )
      ]
