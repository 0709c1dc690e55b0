-- ===== src/Kernel/Reach.antt =====
-- The kernel of stk/include/stk.h between ticks and calls, in any order.
use bare_metal_rtos.Kernel.CallSlots.{
  and_then_inv, find_from_lem, schedule_removal-Slot, schedule_sleep-Slot, wake-Slot,
}
use bare_metal_rtos.Kernel.Tick.{Tick, on_tick_lem}
use bare_metal_rtos.Kernel.NextState.{exit_state, HasTask}
use bare_metal_rtos.Kernel.Dispatch.{Outcome, IsRunning}
use bare_metal_rtos.Kernel.Machine.{FsmState, on_tick, Contexts, Kernel}
use bare_metal_rtos.Kernel.Strategy.{IsSleepAware, Strategy}
use bare_metal_rtos.Kernel.Slots.{Coherent-with_task, Coherent, Slot}
use bare_metal_rtos.Kernel.Calls.{
  yield_ticks, find_task_by_user_task, wake_sleeping, resume_task, suspend_task,
  schedule_task_removal, on_task_exit, on_task_sleep_cancel, on_task_sleep_until, change,
  on_task_switch, on_task_sleep,
}
use bare_metal_rtos.Kernel.Task.{is_sleeping, KernelTask, schedule_removal, schedule_sleep, wake}
use bare_metal_rtos.Base.{
  sym, not, ◌&&◌, ◌∙◌, refl, count, Option, Bool, some_eq, inr, subst, inl, ◌==◌, Bool-cases,
  Option-cases, arith, ap, ◌<◌, some, ◌≢◌, ◌≡◌, ℕ,
}
use bare_metal_rtos.Base.Int.{ltb_ℤ, ◌≤ℤ◌, ℤ, ◌-ℤ◌, pos}

module _ {S : Type 0} {o : Strategy S} (law : IsSleepAware o) (tasks_max : ℕ)
    (is_dynamic : Bool) where
  -- A kernel that has been started: its current task is a slot.
  pub record Started (k : Kernel S) : Type 0 where
    pub coherent : Coherent law tasks_max k
    pub running : IsRunning k.fsm_state
    pub now : ℕ
    pub current : k.task_now ≡ some now
    pub has_task : HasTask law tasks_max is_dynamic k

  -- One call of a task or one tick, whose assertions hold. The slot that calls is bound.
  pub data Step (k k' : Kernel S) : Type 0 where
    sleeps :
        (i : ℕ) (ticks : ℤ)
        → i < tasks_max
        → (k.tasks i).user ≢ 0
        → on_task_sleep o tasks_max i ticks k ≡ some k'
        → Step k k'
    switches :
        (i : ℕ)
        → i < tasks_max
        → (k.tasks i).user ≢ 0
        → on_task_switch o tasks_max i k ≡ some k'
        → Step k k'
    sleeps_until :
        (i : ℕ) (timestamp now : ℤ) (done : Bool)
        → i < tasks_max
        → (k.tasks i).user ≢ 0
        → on_task_sleep_until o tasks_max i timestamp now k ≡ some (done, k')
        → Step k k'
    cancels : (user_task : ℕ) → on_task_sleep_cancel o tasks_max user_task k ≡ some k' → Step k k'
    leaves :
        (i : ℕ)
        → i < tasks_max
        → (k.tasks i).user ≢ 0
        → on_task_exit o tasks_max is_dynamic i k ≡ some k'
        → Step k k'
    removes :
        (user_task : ℕ)
        → schedule_task_removal o tasks_max is_dynamic user_task k ≡ some k'
        → Step k k'
    suspends :
        (user_task : ℕ) (done : Bool)
        → suspend_task o tasks_max user_task k ≡ some (done, k')
        → Step k k'
    resumes : (user_task : ℕ) → resume_task o tasks_max user_task k ≡ some k' → Step k k'
    ticks :
        (is_tickless : Bool) (ticks_max left : ℤ) (elapsed_ticks : ℕ) (c : Contexts)
        → pos 1 ≤ℤ ticks_max
        → on_tick o tasks_max is_dynamic is_tickless ticks_max elapsed_ticks k ≡ some (c, left, k')
        → IsRunning k'.fsm_state
        → Step k k'

  pub change_lem :
      (i : ℕ) (f : KernelTask → Option KernelTask) (k k' : Kernel S)
      → Started k
      → i < tasks_max
      → ((t' : KernelTask)
          → f (k.tasks i) ≡ some t'
          → Slot t' (count i (law.awake k.strategy)) (count i (law.asleep k.strategy)))
      → change o tasks_max i f k ≡ some k'
      → Started k'
  change_lem i f k k' v h s e = elim (Option-cases (f (k.tasks i))) [
    | inl z ↦ absurd (ground arith)
    | inr (t, z) ↦ subst Started (some_eq (rw z at e)) (record {
      coherent =
          Coherent-with_task law tasks_max k i k.strategy t v.coherent h v.coherent.valid
            (λ u ne. (refl, refl)) (s t z);
      running = v.running;
      now = v.now;
      current = v.current;
      has_task = v.has_task;
    })
  ]

  asleep_lem :
      (i : ℕ) (ticks : ℤ) (k k' : Kernel S)
      → Started k
      → i < tasks_max
      → (k.tasks i).user ≢ 0
      → change o tasks_max i (schedule_sleep ticks) k ≡ some k'
      → Started k'
  asleep_lem i w k k' v h n e =
      change_lem i (schedule_sleep w) k k' v h
        (λ t z. schedule_sleep-Slot w (k.tasks i) t (v.coherent.slots i h) n z) e

  leaving_lem :
      (i : ℕ) (k k' : Kernel S)
      → Started k
      → i < tasks_max
      → (k.tasks i).user ≢ 0
      → change o tasks_max i schedule_removal k ≡ some k'
      → Started k'
  leaving_lem i k k' v h n e =
      change_lem i schedule_removal k k' v h
        (λ t z. schedule_removal-Slot (k.tasks i) t (v.coherent.slots i h) n z) e

  wake_sleeping_lem :
      (i : ℕ) (k k' : Kernel S)
      → Started k
      → i < tasks_max
      → wake_sleeping o tasks_max i k ≡ some k'
      → Started k'
  wake_sleeping_lem i k k' v h e = elim (Bool-cases (is_sleeping (k.tasks i))) [
    | inl z ↦
        change_lem i wake k k' v h (λ t y. wake-Slot (k.tasks i) t (v.coherent.slots i h) y)
          (rw z at e)
    | inr z ↦ subst Started (some_eq (rw z at e)) v
  ]

  found :
      (user_task i : ℕ) (k : Kernel S)
      → find_task_by_user_task o tasks_max user_task k ≡ some i
      → (i < tasks_max) × ((k.tasks i).user ≡ user_task)
  unfolding find_task_by_user_task
  found u i k e = let (p, q, r) = find_from_lem tasks_max 0 u i k.tasks e in (omega arith, r)

  pub Outcome-current :
      (s : FsmState) (was : Option ℕ) (c : Contexts) (k : Kernel S) (now : ℕ)
      → Outcome law tasks_max s was c k
      → was ≡ some now
      → IsRunning k.fsm_state
      → (t : ℕ) × (k.task_now ≡ some t)
  Outcome-current s was c k now (Outcome.stays t r x y z) e v = (t, r.current)
  Outcome-current s was c k now (Outcome.switches n t r x y z w) e v = (t, r.current)
  Outcome-current s was c k now (Outcome.wakes t r x y) e v = (t, r.current)
  Outcome-current s was c k now (Outcome.sleeps n t x y z w u) e v = (t, w)
  Outcome-current s was c k now (Outcome.idles x y z w) e v = (now, z ∙ e)
  Outcome-current s was c k now (Outcome.exits x y z) e v =
      absurd (let y' = exit_state (subst IsRunning z v) in cc)

  pub Step-Started : (k k' : Kernel S) → Started k → Step k k' → Started k'
  unfolding on_task_sleep on_task_switch on_task_sleep_until on_task_sleep_cancel on_task_exit
      schedule_task_removal suspend_task resume_task
  Step-Started k k' v (Step.sleeps i w h n e) = elim (Bool-cases (ltb_ℤ (pos 0) w)) [
    | inl z ↦ asleep_lem i w k k' v h n (rw z at e)
    | inr z ↦ subst Started (some_eq (rw z at e)) v
  ]
  Step-Started k k' v (Step.switches i h n e) = asleep_lem i yield_ticks k k' v h n e
  Step-Started k k' v (Step.sleeps_until i ts now d h n e) =
      elim (Bool-cases (ltb_ℤ (pos 0) (ts -ℤ now))) [
        | inl z ↦
            let (k1, x, y) = and_then_inv _ _ (rw z at e) in
            subst Started (ap (λ r. r.1) (some_eq y)) (asleep_lem i _ k k1 v h n x)
        | inr z ↦ subst Started (ap (λ r. r.1) (some_eq (rw z at e))) v
      ]
  Step-Started k k' v (Step.cancels u e) =
      elim (Option-cases (find_task_by_user_task o tasks_max u k)) [
        | inl z ↦ subst Started (some_eq (rw (z, on_task_sleep_cancel) at e)) v
        | inr (i, z) ↦
            wake_sleeping_lem i k k' v (found u i k z).0 (rw (z, on_task_sleep_cancel) at e)
      ]
  Step-Started k k' v (Step.leaves i h n e) = elim (Bool-cases is_dynamic) [
    | inl z ↦ leaving_lem i k k' v h n (rw z at e)
    | inr z ↦ absurd (ground arith)
  ]
  Step-Started k k' v (Step.removes u e) = elim (Bool-cases (is_dynamic && not (u == 0))) [
    | inr z ↦ absurd (ground arith)
    | inl z ↦ elim (Option-cases (find_task_by_user_task o tasks_max u k)) [
      | inl y ↦ subst Started (some_eq (rw (z, y, schedule_task_removal) at e)) v
      | inr (i, y) ↦
          let (h, g) = found u i k y in
          leaving_lem i k k' v h (rw g (ground arith)) (rw (z, y, schedule_task_removal) at e)
    ]
  ]
  Step-Started k k' v (Step.suspends u d e) = elim (Bool-cases (u == 0)) [
    | inl z ↦ absurd (ground arith)
    | inr z ↦
        let (i, x, y) = and_then_inv _ _ (rw z at e) in
        let (h, g) = found u i k x in
        elim (Bool-cases (is_sleeping (k.tasks i))) [
          | inl a ↦ subst Started (ap (λ r. r.1) (some_eq (rw a at y))) v
          | inr a ↦
              let (k1, b, c) = and_then_inv _ _ (rw a at y) in
              subst Started (ap (λ r. r.1) (some_eq c))
                (asleep_lem i _ k k1 v h (rw g (ground arith)) b)
        ]
  ]
  Step-Started k k' v (Step.resumes u e) = elim (Bool-cases (u == 0)) [
    | inl z ↦ absurd (ground arith)
    | inr z ↦
        let (i, x, y) = and_then_inv _ _ (rw z at e) in
        wake_sleeping_lem i k k' v (found u i k x).0 y
  ]
  Step-Started k k' v (Step.ticks tl m left w c p e r) =
      let (c1, left1, k1, y, t) =
        on_tick_lem law tasks_max is_dynamic tl m w v.now k p v.coherent v.running v.current
          v.has_task in
      let same = ap (λ q. q.2) (some_eq (sym y ∙ e)) in
      let (n, f) =
        Outcome-current k.fsm_state k.task_now c1 k1 v.now t.outcome v.current
          (subst (λ q. IsRunning q.fsm_state) (sym same) r) in
      subst Started same (record {
        coherent = t.keeps;
        running = subst (λ q. IsRunning q.fsm_state) (sym same) r;
        now = n;
        current = f;
        has_task = t.has_task;
      })

  -- What these calls and ticks lead to, in any order and number.
  pub data Reach (k : Kernel S) : Kernel S → Type 0 where
    here : Reach k k
    then_step : {l m : Kernel S} → Reach k l → Step l m → Reach k m

  pub Reach-Started : (k m : Kernel S) → Started k → Reach k m → Started m
  Reach-Started k m v Reach.here = v
  Reach-Started k m v (Reach.then_step {l = l} r s) = Step-Started l m (Reach-Started k l v r) s

  -- In a kernel without KERNEL_SYNC: from a started one, whatever of OnTaskSleep(), OnTaskSwitch(), OnTaskSleepUntil(),
  -- OnTaskSleepCancel(), OnTaskExit(), ScheduleTaskRemoval(), SuspendTask(), ResumeTask() and ticks that leave it running
  -- follow, in any order, no assertion of the next OnTick() fails. It agrees with the strategy again, lets the time
  -- pass in every slot, and either goes on with, switches to or wakes up for a task that does not sleep, or sleeps as
  -- all tasks sleep, or exits as no task is left, and the contexts given to the platform lead from where the processor
  -- was to there. The ticks to the next call are between 1 and the maximum, and let no task run late.
  pub Reach-on_tick :
      (k m : Kernel S) (is_tickless : Bool) (ticks_max : ℤ) (elapsed_ticks : ℕ)
      → Started k
      → Reach k m
      → pos 1 ≤ℤ ticks_max
      → (c : Contexts) × (ticks : ℤ) × (m' : Kernel S) × (on_tick o tasks_max is_dynamic is_tickless
            ticks_max elapsed_ticks m
          ≡ some (c, ticks, m'))
        × Tick law tasks_max is_dynamic is_tickless ticks_max elapsed_ticks m c ticks m'
  Reach-on_tick k m tl w e v r p =
      let s = Reach-Started k m v r in
      on_tick_lem law tasks_max is_dynamic tl w e s.now m p s.coherent s.running s.current
        s.has_task
