-- ===== src/Kernel/Dispatch.antt =====
-- UpdateFsmState() of stk/include/stk.h, once the slots have been updated.
use bare_metal_rtos.Kernel.Task.{KernelTask, is_sleeping, free_slot}
use bare_metal_rtos.Kernel.Slots.{Slot, Coherent}
use bare_metal_rtos.Kernel.Strategy.{SameTasks, IsSleepAware, Strategy}
use bare_metal_rtos.Kernel.Machine.{
  exit_event, sleep_event, switch_event, fsm, is_valid_fsm_state, exit_trap, sleep_trap, task_stack,
  no_switch, with_strategy, is_sleeping_state, Contexts, Kernel, FsmState,
}
use bare_metal_rtos.Base.{
  inr, inl, refl, Option, ◌⊎◌, ap, ◌∙◌, none, arith, true, dec_lt, ◌+◌, count, false, some, ◌≢◌,
  ◌<◌, ◌≡◌, ℕ,
}

-- The states of a kernel that has been started and has not exited.
pub data IsRunning : FsmState → Type 0 where
  switching : IsRunning FsmState.switching
  sleeping : IsRunning FsmState.sleeping
  waking : IsRunning FsmState.waking

-- The states in which a task has the processor.
pub record HasProcessor (s : FsmState) : Type 0 where
  pub no_trap : is_sleeping_state s ≡ false
  pub on_switch : fsm s switch_event ≡ FsmState.switching
  pub on_sleep : fsm s sleep_event ≡ FsmState.sleeping
  pub on_exit : fsm s exit_event ≡ FsmState.exiting

pub IsRunning-cases : {s : FsmState} → IsRunning s → HasProcessor s ⊎ (s ≡ FsmState.sleeping)
IsRunning-cases IsRunning.switching =
    inl (record { no_trap = refl; on_switch = refl; on_sleep = refl; on_exit = refl })
IsRunning-cases IsRunning.sleeping = inr refl
IsRunning-cases IsRunning.waking =
    inl (record { no_trap = refl; on_switch = refl; on_sleep = refl; on_exit = refl })

pub IsRunning-valid : {s : FsmState} → IsRunning s → is_valid_fsm_state s ≡ true
IsRunning-valid IsRunning.switching = refl
IsRunning-valid IsRunning.sleeping = refl
IsRunning-valid IsRunning.waking = refl

module _ {S : Type 0} {o : Strategy S} (law : IsSleepAware o) (tasks_max : ℕ) where
  -- No task has called sleep since the last update.
  abbrev pub Settled : Kernel S → Type 0
  Settled k = (u : ℕ) → u < tasks_max → (k.tasks u).sleep_pending ≡ false

  -- The task `t` is the current one, and it is ready to run.
  pub record Runs (t : ℕ) (k : Kernel S) : Type 0 where
    pub current : k.task_now ≡ some t
    pub inside : t < tasks_max
    pub busy : (k.tasks t).user ≢ 0
    pub awake : is_sleeping (k.tasks t) ≡ false

  abbrev pub AllSleep : Kernel S → Type 0
  AllSleep k = (u : ℕ) → u < tasks_max → (k.tasks u).user ≢ 0 → is_sleeping (k.tasks u) ≡ true

  abbrev pub NoTask : Kernel S → Type 0
  NoTask k = (u : ℕ) → u < tasks_max → k.tasks u ≡ free_slot

  -- What a dispatch makes of a kernel in the state `s` with the current task `was`, and the contexts that it
  -- hands to the platform.
  pub data Outcome (s : FsmState) (was : Option ℕ) : Contexts → Kernel S → Type 0 where
    stays :
        {k' : Kernel S} (t : ℕ)
        → Runs t k'
        → is_sleeping_state s ≡ false
        → was ≡ some t
        → k'.fsm_state ≡ FsmState.switching
        → Outcome s was no_switch k'
    switches :
        {k' : Kernel S} (now t : ℕ)
        → Runs t k'
        → is_sleeping_state s ≡ false
        → was ≡ some now
        → now ≢ t
        → k'.fsm_state ≡ FsmState.switching
        → Outcome s was
            (record {
              switch_context = true;
              idle = some (task_stack now);
              active = some (task_stack t);
            })
            k'
    wakes :
        {k' : Kernel S} (t : ℕ)
        → Runs t k'
        → s ≡ FsmState.sleeping
        → k'.fsm_state ≡ FsmState.waking
        → Outcome s was
            (record { switch_context = true; idle = some sleep_trap; active = some (task_stack t) })
            k'
    sleeps :
        {k' : Kernel S} (now t : ℕ)
        → AllSleep k'
        → is_sleeping_state s ≡ false
        → was ≡ some now
        → k'.task_now ≡ some t
        → k'.fsm_state ≡ FsmState.sleeping
        → Outcome s was
            (record {
              switch_context = true;
              idle = some (task_stack now);
              active = some sleep_trap;
            })
            k'
    idles :
        {k' : Kernel S}
        → AllSleep k'
        → s ≡ FsmState.sleeping
        → k'.task_now ≡ was
        → k'.fsm_state ≡ FsmState.sleeping
        → Outcome s was no_switch k'
    exits :
        {k' : Kernel S}
        → NoTask k'
        → k'.task_now ≡ none
        → k'.fsm_state ≡ FsmState.exiting
        → Outcome s was (record { switch_context = false; idle = none; active = some exit_trap }) k'

  pub Coherent-with_strategy :
      (k : Kernel S) (s : S)
      → Coherent law tasks_max k
      → law.valid s
      → SameTasks (law.awake k.strategy) (law.awake s)
      → SameTasks (law.asleep k.strategy) (law.asleep s)
      → Coherent law tasks_max (with_strategy o k s)
  Coherent-with_strategy k s c v a b = record {
    valid = v;
    slots = λ u h. rw (← a u, ← b u) (c.slots u h);
    outside = λ u h. rw (← a u, ← b u) (c.outside u h);
  }

  -- The agreement does not depend on the state or on the current task.
  pub Coherent-state :
      (k : Kernel S) (now : Option ℕ) (s : FsmState)
      → Coherent law tasks_max k
      → Coherent law tasks_max (record k { task_now = now; fsm_state = s })
  Coherent-state k now s c = record { valid = c.valid; slots = c.slots; outside = c.outside }

  pub awake-Runs :
      (k : Kernel S) (t : ℕ)
      → Coherent law tasks_max k
      → Settled k
      → 0 < count t (law.awake k.strategy)
      → k.task_now ≡ some t
      → Runs t k
  awake-Runs k t c q h e = elim (dec_lt t tasks_max) [
    | no out ↦ absurd (omega (arith, c.outside t (omega arith)))
    | yes i ↦ elim (c.slots t i) [
      | Slot.unused x y z ↦ absurd (omega arith)
      | Slot.runnable x y z w ↦ record { current = e; inside = i; busy = x; awake = w ∙ q t i }
      | Slot.dormant x y z w v ↦ absurd (omega arith)
    ]
  ]

  pub none-AllSleep :
      (k : Kernel S)
      → Coherent law tasks_max k
      → ((u : ℕ) → count u (law.awake k.strategy) ≡ 0)
      → AllSleep k
  none-AllSleep k c e u h b = elim (c.slots u h) [
    | Slot.unused x y z ↦ absurd (b (ap KernelTask.user x))
    | Slot.runnable x y z w ↦ absurd (omega (arith, e u))
    | Slot.dormant x y z w v ↦ w
  ]

  pub size-NoTask :
      (k : Kernel S)
      → Coherent law tasks_max k
      → ((u : ℕ) → count u (law.awake k.strategy) + count u (law.asleep k.strategy) ≡ 0)
      → NoTask k
  size-NoTask k c e u h = elim (c.slots u h) [
    | Slot.unused x y z ↦ x
    | Slot.runnable x y z w ↦ absurd (omega (arith, e u))
    | Slot.dormant x y z w v ↦ absurd (omega (arith, e u))
  ]
