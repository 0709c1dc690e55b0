-- ===== src/Kernel/Calls.antt =====
-- What tasks ask of the kernel of stk/include/stk.h. A task that calls is the slot found by its stack pointer
-- (FindTaskBySP), which the caller of these definitions gives. The busy waiting of the task itself
-- (BusyWaitWhileSleeping) changes no state. `none` is a failed STK_ASSERT or a STK_KERNEL_PANIC.
use bare_metal_rtos.Base.Int.{ℤ, pos, ltb_ℤ, ◌-ℤ◌}
use bare_metal_rtos.Sync.WaitList.{wait_infinite}
use bare_metal_rtos.Kernel.Machine.{with_strategy, remove_task, with_task, and_then, Kernel}
use bare_metal_rtos.Kernel.Strategy.{Strategy}
use bare_metal_rtos.Kernel.Task.{
  min_ℤ, bind, schedule_sleep, wake, is_busy, is_sleeping, schedule_removal, KernelTask,
}
use bare_metal_rtos.Base.{
  not, true, ◌||◌, false, zero, ◌&&◌, some, ◌==◌, if◌then◌else◌, none, suc, Bool, Option, ℕ,
}

-- The first slot from `i` on, of `n` slots, that is bound to the user task.
unfoldable pub find_from : ℕ → ℕ → ℕ → (ℕ → KernelTask) → Option ℕ
find_from zero i user_task tasks = none
find_from (suc n) i user_task tasks =
    let rest = find_from n (suc i) user_task tasks in
    if (tasks i).user == user_task then some i else rest

abbrev pub yield_ticks : ℤ
yield_ticks = pos 2

module _ {S : Type 0} (o : Strategy S) (tasks_max : ℕ) where
  unfoldable pub find_task_by_user_task : ℕ → Kernel S → Option ℕ
  find_task_by_user_task user_task k = find_from tasks_max 0 user_task k.tasks

  -- A change of one slot, which may fail.
  abbrev pub change : ℕ → (KernelTask → Option KernelTask) → Kernel S → Option (Kernel S)
  change i f k = and_then (f (k.tasks i)) (λ t. some (with_task o k i t))

  unfoldable pub on_task_sleep : ℕ → ℤ → Kernel S → Option (Kernel S)
  on_task_sleep i ticks k =
      if ltb_ℤ (pos 0) ticks then change i (schedule_sleep ticks) k else some k

  unfoldable pub on_task_switch : ℕ → Kernel S → Option (Kernel S)
  on_task_switch i k = on_task_sleep i yield_ticks k

  -- `now` is the kernel's tick counter.
  unfoldable pub on_task_sleep_until : ℕ → ℤ → ℤ → Kernel S → Option (Bool × Kernel S)
  on_task_sleep_until i timestamp now k =
      if ltb_ℤ (pos 0) (timestamp -ℤ now)
      then and_then (change i (schedule_sleep (min_ℤ (timestamp -ℤ now) wait_infinite)) k)
          (λ k'. some (true, k'))
      else some (false, k)

  -- Wake() of a slot that sleeps.
  abbrev pub wake_sleeping : ℕ → Kernel S → Option (Kernel S)
  wake_sleeping i k = if is_sleeping (k.tasks i) then change i wake k else some k

  unfoldable pub on_task_sleep_cancel : ℕ → Kernel S → Option (Kernel S)
  on_task_sleep_cancel user_task k = elim (find_task_by_user_task user_task k) [
    | none ↦ some k
    | some i ↦ wake_sleeping i k
  ]

  unfoldable pub on_task_exit : Bool → ℕ → Kernel S → Option (Kernel S)
  on_task_exit is_dynamic i k = if is_dynamic then change i schedule_removal k else none

  unfoldable pub schedule_task_removal : Bool → ℕ → Kernel S → Option (Kernel S)
  schedule_task_removal is_dynamic user_task k =
      if is_dynamic && not (user_task == 0)
      then elim (find_task_by_user_task user_task k) [
        | none ↦ some k
        | some i ↦ change i schedule_removal k
      ]
      else none

  -- Whether the task has been suspended, and the kernel.
  unfoldable pub suspend_task : ℕ → Kernel S → Option (Bool × Kernel S)
  suspend_task user_task k =
      if user_task == 0
      then none
      else (and_then (find_task_by_user_task user_task k) (λ i.
          if is_sleeping (k.tasks i)
          then some (false, k)
          else and_then (change i (schedule_sleep wait_infinite) k) (λ k'. some (true, k'))))

  unfoldable pub resume_task : ℕ → Kernel S → Option (Kernel S)
  resume_task user_task k =
      if user_task == 0
      then none
      else (and_then (find_task_by_user_task user_task k) (λ i. wake_sleeping i k))

  -- RemoveTask() before the start.
  unfoldable pub remove_user_task : Bool → ℕ → Kernel S → Option (Kernel S)
  remove_user_task is_dynamic user_task k =
      if is_dynamic && not (user_task == 0)
      then elim (find_task_by_user_task user_task k) [ none ↦ some k | some i ↦ remove_task o i k ]
      else none

  -- AllocateNewTask() up to Bind(): the first free slot, and no busy slot has the task or its stack.
  module _ (stack_of : ℕ → ℕ) where
    unfoldable pub free_from : ℕ → ℕ → ℕ → Option ℕ → (ℕ → KernelTask) → Option ℕ
    free_from zero i user_task new_task tasks = new_task
    free_from (suc n) i user_task new_task tasks =
        let rest =
          free_from n (suc i) user_task
            (if is_busy (tasks i)
              then new_task
              else elim new_task [ none ↦ some i | some j ↦ some j ])
            tasks in
        if is_busy (tasks i)
          && ((tasks i).user == user_task || (stack_of (tasks i).user == stack_of user_task))
        then none
        else rest

    unfoldable pub allocate_and_add_new_task : ℕ → Kernel S → Option (Kernel S)
    allocate_and_add_new_task user_task k =
        and_then (free_from tasks_max 0 user_task none k.tasks) (λ i.
          and_then (o.add_task i k.strategy)
            (λ s. some (with_task o (with_strategy o k s) i (bind user_task (k.tasks i)))))
