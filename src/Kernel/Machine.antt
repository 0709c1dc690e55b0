-- ===== src/Kernel/Machine.antt =====
-- Kernel of stk/include/stk.h, without the hard real-time mode and without the kernel's own list of
-- synchronization objects, for a strategy with SLEEP_EVENT_API. The slots are m_task_storage, a task the index
-- of its slot. What the user's code and the platform do in a callback (OnExit, InitStack, Stop) has no effect
-- on this state. The assertions on the stack memory filler, which tell a stack overflow, are not modelled.
-- `none` is a failed STK_ASSERT or a STK_KERNEL_PANIC.
use bare_metal_rtos.Base.{
  ℕ, zero, suc, Bool, true, false, not, ◌&&◌, ◌||◌, Option, none, some, ◌==◌, if◌then◌else◌, update,
}
use bare_metal_rtos.Base.Int.{ℤ, pos, ltb_ℤ, ◌+ℤ◌}
use bare_metal_rtos.Strategy.TaskList.{same_task}
use bare_metal_rtos.Kernel.Task.{KernelTask, is_busy, is_sleeping, unbind, get_sleep_ticks}
use bare_metal_rtos.Kernel.Strategy.{Strategy}

pub data FsmState : Type 0 where
  no_state switching sleeping waking exiting : FsmState

pub data FsmEvent : Type 0 where
  switch_event sleep_event wake_event exit_event : FsmEvent

-- The table m_fsm.
abbrev pub fsm : FsmState → FsmEvent → FsmState
fsm switching switch_event = switching
fsm switching sleep_event = sleeping
fsm switching wake_event = no_state
fsm switching exit_event = exiting
fsm sleeping switch_event = no_state
fsm sleeping sleep_event = no_state
fsm sleeping wake_event = waking
fsm sleeping exit_event = exiting
fsm waking switch_event = switching
fsm waking sleep_event = sleeping
fsm waking wake_event = no_state
fsm waking exit_event = exiting
fsm exiting e = no_state
fsm no_state e = no_state

abbrev pub is_valid_fsm_state : FsmState → Bool
is_valid_fsm_state no_state = false
is_valid_fsm_state s = true

abbrev pub is_sleeping_state : FsmState → Bool
is_sleeping_state sleeping = true
is_sleeping_state s = false

-- What a context is of.
pub data Stack : Type 0 where
  task_stack : ℕ → Stack
  sleep_trap exit_trap : Stack

-- The stacks that a state change sets, and whether the context is switched.
pub record Contexts : Type 0 where
  pub switch_context : Bool
  pub idle : Option Stack
  pub active : Option Stack

abbrev pub no_switch : Contexts
no_switch = record { switch_context = false; idle = none; active = none }

pub record Kernel (S : Type 0) : Type 0 where
  pub strategy : S
  pub tasks : ℕ → KernelTask
  pub task_now : Option ℕ
  pub fsm_state : FsmState

abbrev pub and_then : {A B : Type 0} → Option A → (A → Option B) → Option B
and_then none f = none
and_then (some a) f = f a

module _ {S : Type 0} (o : Strategy S) where
  abbrev pub with_strategy : Kernel S → S → Kernel S
  with_strategy k s = record k { strategy = s }

  abbrev pub with_task : Kernel S → ℕ → KernelTask → Kernel S
  with_task k i t = record k { tasks = update k.tasks i t }

  unfoldable pub remove_task : ℕ → Kernel S → Option (Kernel S)
  remove_task i k =
      and_then (o.remove_task i k.strategy)
        (λ s. some (with_task (with_strategy k s) i (unbind (k.tasks i))))

  unfoldable pub deliver_sleep : ℕ → Kernel S → Option (Kernel S)
  deliver_sleep i k =
      if (k.tasks i).sleep_pending
      then and_then (o.on_task_sleep i (is_sleeping (k.tasks i)) k.strategy) (λ s.
        some (with_task (with_strategy k s) i (record (k.tasks i) { sleep_pending = false })))
      else some k

  unfoldable pub advance_sleep : ℕ → ℕ → Kernel S → Kernel S
  advance_sleep i elapsed_ticks k =
      with_task k i
        (record (k.tasks i) { time_sleep = (k.tasks i).time_sleep +ℤ pos elapsed_ticks })

  unfoldable pub deliver_wake : ℕ → Kernel S → Option (Kernel S)
  deliver_wake i k =
      if is_sleeping (k.tasks i)
      then some k
      else and_then (o.on_task_wake i (is_sleeping (k.tasks i)) k.strategy)
          (λ s. some (with_strategy k s))

  module _ (tasks_max : ℕ) (is_dynamic : Bool) where
    -- A task that is pending removal is removed once it is switched out, or is the last one.
    abbrev pub is_removed : ℕ → Kernel S → Bool
    is_removed i k =
        is_dynamic
        && ((k.tasks i).remove_pending
            && (not (same_task (some i) k.task_now)
                || ((o.get_size k.strategy == 1) && is_sleeping_state k.fsm_state)))

    -- The body of the loop of UpdateTaskState() for a task.
    unfoldable pub update_task : ℕ → ℕ → Kernel S → Option (Kernel S)
    update_task i elapsed_ticks k =
        if is_sleeping (k.tasks i)
        then (if is_removed i k
            then remove_task i k
            else and_then (deliver_sleep i k)
                (λ k'. deliver_wake i (advance_sleep i elapsed_ticks k')))
        else some k

    -- What the body does to `sleep_ticks`, unless it has removed the task (continue).
    abbrev pub next_sleep_ticks : Bool → ℕ → Kernel S → ℤ → ℤ
    next_sleep_ticks is_tickless i k sleep_ticks =
        if is_tickless && (ltb_ℤ (pos 1) sleep_ticks && is_busy (k.tasks i))
        then get_sleep_ticks sleep_ticks (k.tasks i)
        else sleep_ticks

    -- The rounds for the `n` slots from `i` on.
    unfoldable pub update_from : Bool → ℕ → ℕ → ℕ → Kernel S → ℤ → Option (Kernel S × ℤ)
    update_from is_tickless zero i elapsed_ticks k sleep_ticks = some (k, sleep_ticks)
    update_from is_tickless (suc n) i elapsed_ticks k sleep_ticks =
        and_then (update_task i elapsed_ticks k) (λ k'.
          update_from is_tickless n (suc i) elapsed_ticks k' (
            if is_sleeping (k.tasks i) && is_removed i k
            then sleep_ticks
            else next_sleep_ticks is_tickless i k' sleep_ticks))

    unfoldable pub update_task_state : Bool → ℤ → ℕ → Kernel S → Option (Kernel S × ℤ)
    update_task_state is_tickless ticks_max elapsed_ticks k =
        update_from is_tickless tasks_max 0 elapsed_ticks k
          (if is_tickless then ticks_max else pos 1)

    unfoldable pub fetched : Option ℕ → Kernel S → Option (FsmEvent × Option ℕ × Kernel S)
    fetched (some t) k =
        if is_sleeping (k.tasks t)
        then none
        else some (if is_sleeping_state k.fsm_state then wake_event else switch_event, some t, k)
    fetched none k =
        some
          (if is_dynamic && (o.get_size k.strategy == 0) then exit_event else sleep_event, none, k)

    unfoldable pub fetch_next_event : Kernel S → Option (FsmEvent × Option ℕ × Kernel S)
    fetch_next_event k = and_then (o.get_next k.strategy) (λ r. fetched r.0 (with_strategy k r.1))

    unfoldable pub get_new_fsm_state : Kernel S → Option (FsmState × Option ℕ × Kernel S)
    get_new_fsm_state k =
        if is_valid_fsm_state k.fsm_state
        then and_then (fetch_next_event k) (λ r. some (fsm k.fsm_state r.0, r.1, r.2))
        else none

    unfoldable pub state_switch : Option ℕ → Option ℕ → Kernel S → Option (Contexts × Kernel S)
    state_switch none next k = none
    state_switch (some now) none k = none
    state_switch (some now) (some next) k =
        if next == now
        then some (no_switch, k)
        else some (
          record {
            switch_context = true;
            idle = some (task_stack now);
            active = some (task_stack next);
          },
          record k { task_now = some next },
        )

    unfoldable pub state_wake : Option ℕ → Kernel S → Option (Contexts × Kernel S)
    state_wake none k = none
    state_wake (some next) k = some (
      record { switch_context = true; idle = some sleep_trap; active = some (task_stack next) },
      record k { task_now = some next },
    )

    unfoldable pub state_sleep : Option ℕ → Kernel S → Option (Contexts × Kernel S)
    state_sleep none k = none
    state_sleep (some now) k = and_then (o.get_first k.strategy) (λ t. some (
      record { switch_context = true; idle = some (task_stack now); active = some sleep_trap },
      record k { task_now = some t },
    ))

    unfoldable pub state_exit : Kernel S → Contexts × Kernel S
    state_exit k =
        if is_dynamic
        then (
          record { switch_context = false; idle = none; active = some exit_trap },
          record k { task_now = none },
        )
        else (no_switch, k)

    -- The switch of UpdateFsmState(), and the new state.
    unfoldable pub enter_state : FsmState → Option ℕ → Kernel S → Option (Contexts × Kernel S)
    enter_state switching next k =
        and_then (state_switch k.task_now next k)
          (λ r. some (r.0, record r.1 { fsm_state = switching }))
    enter_state sleeping next k =
        and_then (state_sleep k.task_now k) (λ r. some (r.0, record r.1 { fsm_state = sleeping }))
    enter_state waking next k =
        and_then (state_wake next k) (λ r. some (r.0, record r.1 { fsm_state = waking }))
    enter_state exiting next k =
        let (c, k') = state_exit k in some (c, record k' { fsm_state = exiting })
    enter_state no_state next k = some (no_switch, k)

    unfoldable pub update_fsm_state : Kernel S → Option (Contexts × Kernel S)
    update_fsm_state k = and_then (get_new_fsm_state k) (λ r. enter_state r.0 r.1 r.2)

    -- OnTick() with no request pending: the contexts, the ticks until the next one, and the kernel.
    unfoldable pub on_tick : Bool → ℤ → ℕ → Kernel S → Option (Contexts × ℤ × Kernel S)
    on_tick is_tickless ticks_max elapsed_ticks k =
        and_then (update_task_state is_tickless ticks_max elapsed_ticks k)
          (λ r. and_then (update_fsm_state r.0) (λ q. some (q.0, r.1, q.1)))
