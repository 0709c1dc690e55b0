-- ===== src/Kernel/Sleep.antt =====
-- How long a task of the kernel of stk/include/stk.h sleeps when only ticks follow.
use bare_metal_rtos.Kernel.Tick.{on_tick_lem}
use bare_metal_rtos.Kernel.Passed.{Passed}
use bare_metal_rtos.Kernel.Dispatch.{IsRunning, Outcome}
use bare_metal_rtos.Kernel.Reach.{Outcome-current, Started}
use bare_metal_rtos.Kernel.Machine.{on_tick, and_then, Contexts, FsmState, Kernel}
use bare_metal_rtos.Kernel.Slots.{ticked}
use bare_metal_rtos.Kernel.Strategy.{IsSleepAware, Strategy}
use bare_metal_rtos.Kernel.Task.{is_sleeping, KernelTask}
use bare_metal_rtos.Base.{
  inr, inl, refl, ap, ◌∙◌, false, ◌&&◌, ◌≢◌, ◌<◌, some, Option, arith, ◌-◌, ltb, Bool, ◌≡◌, ◌+◌,
  List, ℕ, [], ◌∷◌,
}
use bare_metal_rtos.Base.Int.{◌≤ℤ◌, neg_part, ℤ, pos, ◌+ℤ◌}

-- The ticks that pass in all.
abbrev pub total : List ℕ → ℕ
total [] = 0
total (w ∷ ws) = w + total ws

pub is_sleeping-neg_part : (t : KernelTask) → is_sleeping t ≡ ltb 0 (neg_part t.time_sleep)
is_sleeping-neg_part t = ground arith

pub ticked_lem :
    (w : ℕ) (t : KernelTask)
    → ((ticked w t).user ≡ t.user)
      × ((ticked w t).remove_pending ≡ t.remove_pending)
      × (neg_part (ticked w t).time_sleep ≡ neg_part t.time_sleep - w)
unfolding ◌+ℤ◌
ticked_lem w t = ground arith

module _ {S : Type 0} {o : Strategy S} (law : IsSleepAware o) (tasks_max : ℕ)
    (is_dynamic is_tickless : Bool) (ticks_max : ℤ) where
  -- OnTick() for one number of elapsed ticks after the other.
  unfoldable pub run_ticks : List ℕ → Kernel S → Option (Kernel S)
  run_ticks [] k = some k
  run_ticks (w ∷ ws) k =
      and_then (on_tick o tasks_max is_dynamic is_tickless ticks_max w k) (λ r. run_ticks ws r.2)

  -- The kernel runs on while it has a task.
  Outcome-IsRunning :
      {s : FsmState} {was : Option ℕ} {c : Contexts} {k : Kernel S} (u : ℕ)
      → Outcome law tasks_max s was c k
      → u < tasks_max
      → (k.tasks u).user ≢ 0
      → IsRunning k.fsm_state
  Outcome-IsRunning u (Outcome.stays t r e x y) h n = rw y IsRunning.switching
  Outcome-IsRunning u (Outcome.switches a t r e x z y) h n = rw y IsRunning.switching
  Outcome-IsRunning u (Outcome.wakes t r e y) h n = rw y IsRunning.waking
  Outcome-IsRunning u (Outcome.sleeps a t e x z w y) h n = rw y IsRunning.sleeping
  Outcome-IsRunning u (Outcome.idles e x z y) h n = rw y IsRunning.sleeping
  Outcome-IsRunning u (Outcome.exits e x y) h n = absurd (n (ap KernelTask.user (e u h)))

  -- One tick, for the slots whose task it does not remove; `u` is one of these.
  pub tick_slots :
      (w u : ℕ) (k : Kernel S)
      → pos 1 ≤ℤ ticks_max
      → Started law tasks_max is_dynamic k
      → u < tasks_max
      → (k.tasks u).user ≢ 0
      → (is_sleeping (k.tasks u) && (k.tasks u).remove_pending) ≡ false
      → (c : Contexts) × (ticks : ℤ) × (k' : Kernel S) × (on_tick o tasks_max is_dynamic is_tickless
            ticks_max w k
          ≡ some (c, ticks, k'))
        × Started law tasks_max is_dynamic k'
        × ((u : ℕ)
            → u < tasks_max
            → (is_sleeping (k.tasks u) && (k.tasks u).remove_pending) ≡ false
            → k'.tasks u ≡ ticked w (k.tasks u))
  tick_slots w u k p v h n f =
      let (c, left, k1, e, t) =
        on_tick_lem law tasks_max is_dynamic is_tickless ticks_max w v.now k p v.coherent v.running
          v.current v.has_task in
      let g = kept u (k1.tasks u) f (t.passed u h) in
      let r = Outcome-IsRunning u t.outcome h (rw (g, (ticked_lem w (k.tasks u)).0) n) in
      let (now, q) =
        Outcome-current law tasks_max is_dynamic k.fsm_state k.task_now c k1 v.now t.outcome
          v.current r in
      (
        c,
        left,
        k1,
        e,
        record { coherent = t.keeps; running = r; now = now; current = q; has_task = t.has_task },
        λ x a b. kept x (k1.tasks x) b (t.passed x a),
      )
    where
      kept :
          (u : ℕ) (t' : KernelTask)
          → (is_sleeping (k.tasks u) && (k.tasks u).remove_pending) ≡ false
          → Passed is_dynamic w k.task_now k.fsm_state u (k.tasks u) t'
          → t' ≡ ticked w (k.tasks u)
      kept u t' f (inl (e, x)) = e
      kept u t' f (inr (x, y, z, a, e)) = absurd (ground arith)

  tick_slot :
      (w u : ℕ) (k : Kernel S)
      → pos 1 ≤ℤ ticks_max
      → Started law tasks_max is_dynamic k
      → u < tasks_max
      → (k.tasks u).user ≢ 0
      → (is_sleeping (k.tasks u) && (k.tasks u).remove_pending) ≡ false
      → (c : Contexts) × (ticks : ℤ) × (k' : Kernel S) × (on_tick o tasks_max is_dynamic is_tickless
            ticks_max w k
          ≡ some (c, ticks, k'))
        × Started law tasks_max is_dynamic k'
        × (k'.tasks u ≡ ticked w (k.tasks u))
  tick_slot w u k p v h n f =
      let (c, left, k', e, s, g) = tick_slots w u k p v h n f in (c, left, k', e, s, g u h f)

  -- A task that is not to be removed and sleeps for n more ticks stays bound and sleeps after the ticks `ws` exactly
  -- if less than n ticks have passed in all, whatever the other tasks do in these ticks; one that does not sleep goes
  -- on not to sleep. OnTick() fails in none of them.
  pub sleep_lasts :
      (ws : List ℕ) (u : ℕ) (k : Kernel S)
      → pos 1 ≤ℤ ticks_max
      → Started law tasks_max is_dynamic k
      → u < tasks_max
      → (k.tasks u).user ≢ 0
      → (k.tasks u).remove_pending ≡ false
      → (k' : Kernel S) × (run_ticks ws k ≡ some k')
        × ((k'.tasks u).user ≡ (k.tasks u).user)
        × (is_sleeping (k'.tasks u) ≡ ltb (total ws) (neg_part (k.tasks u).time_sleep))
  unfolding run_ticks
  sleep_lasts [] u k p v h n f = (k, refl, refl, is_sleeping-neg_part (k.tasks u))
  sleep_lasts (w ∷ ws) u k p v h n f =
      let (c, left, k1, e, v1, g) = tick_slot w u k p v h n (rw f (ground arith)) in
      let (a, b, d) = ticked_lem w (k.tasks u) in
      let (k2, e2, x, y) = sleep_lasts ws u k1 p v1 h (rw (g, a) n) (rw (g, b) f) in
      (k2, rw (e, e2), x ∙ rw g a, y ∙ rw (g, d) (ground arith))

  -- A task that does not sleep keeps its slot as it is through all ticks, also when it is to be removed.
  pub awake_stays :
      (ws : List ℕ) (u : ℕ) (k : Kernel S)
      → pos 1 ≤ℤ ticks_max
      → Started law tasks_max is_dynamic k
      → u < tasks_max
      → (k.tasks u).user ≢ 0
      → is_sleeping (k.tasks u) ≡ false
      → (k' : Kernel S) × (run_ticks ws k ≡ some k') × (k'.tasks u ≡ k.tasks u)
  unfolding run_ticks
  awake_stays [] u k p v h n f = (k, refl, refl)
  awake_stays (w ∷ ws) u k p v h n f =
      let (c, left, k1, e, v1, g) = tick_slot w u k p v h n (rw f refl) in
      let same_slot : k1.tasks u ≡ k.tasks u = g ∙ rw f refl in
      let (k2, e2, x) = awake_stays ws u k1 p v1 h (rw same_slot n) (rw same_slot f) in
      (k2, rw (e, e2), x ∙ same_slot)
