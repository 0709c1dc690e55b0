-- ===== src/Kernel/Start.antt =====
-- OnStart() of stk/include/stk.h, and the kernel before it. The kernel's own state m_kstate, which only guards the
-- public calls, is not modelled. `none` is a failed STK_ASSERT.
use bare_metal_rtos.Kernel.Machine.{switching, sleeping, waking, exiting, no_state}
use bare_metal_rtos.Kernel.Task.{is_sleeping, free_slot}
use bare_metal_rtos.Kernel.Machine.{
  deliver_sleep, switching, get_new_fsm_state, sleep_trap, and_then, task_stack, Stack, no_state,
  FsmState, Kernel,
}
use bare_metal_rtos.Kernel.Strategy.{Strategy}
use bare_metal_rtos.Base.{◌==◌, some, Option, if◌then◌else◌, none, Bool, ℕ, zero, suc}

module _ {S : Type 0} (o : Strategy S) where
  -- The loop over the tasks that sleep already: `n` slots from `i` on.
  unfoldable pub start_from : ℕ → ℕ → Kernel S → Option (Kernel S)
  start_from zero i k = some k
  start_from (suc n) i k =
      and_then (if is_sleeping (k.tasks i) then deliver_sleep o i k else some k)
        (λ k'. start_from n (suc i) k')

  -- The first state and task.
  unfoldable pub first_state : FsmState → Option ℕ → Kernel S → Option (Stack × Kernel S)
  first_state switching (some t) k =
      some (task_stack t, record k { task_now = some t; fsm_state = switching })
  first_state switching none k = none
  first_state sleeping next k =
      and_then (o.get_first k.strategy)
        (λ t. some (sleep_trap, record k { task_now = some t; fsm_state = sleeping }))
  first_state no_state next k = none
  first_state waking next k = none
  first_state exiting next k = none

  unfoldable pub on_start : ℕ → Bool → Kernel S → Option (Stack × Kernel S)
  on_start tasks_max is_dynamic k =
      if o.get_size k.strategy == 0
      then none
      else and_then (start_from tasks_max 0 k) (λ k1.
        and_then (get_new_fsm_state o tasks_max is_dynamic (record k1 { fsm_state = switching }))
          (λ r. first_state r.0 r.1 r.2))

unfoldable pub on_stop : {S : Type 0} → Bool → Kernel S → Kernel S
on_stop is_dynamic k = if is_dynamic then record k { fsm_state = no_state } else k

-- The kernel as it is constructed.
abbrev pub init : {S : Type 0} → S → Kernel S
init s = record { strategy = s; tasks = λ i. free_slot; task_now = none; fsm_state = no_state }
