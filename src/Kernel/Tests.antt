-- ===== src/Kernel/Tests.antt =====
-- The theorems on the kernel at concrete inputs: two tasks in two slots, under the round-robin strategy.
use bare_metal_rtos.Strategy.RoundRobin.Turns.{Cursor}
use bare_metal_rtos.Kernel.Tick.{Tick}
use bare_metal_rtos.Kernel.Dispatch.{IsRunning, Coherent-state, Coherent-with_strategy}
use bare_metal_rtos.Kernel.Sleep.{sleep_lasts, awake_stays, run_ticks}
use bare_metal_rtos.Kernel.Reach.{Step-Started, Step, Reach, Reach-on_tick, Started}
use bare_metal_rtos.Strategy.RoundRobin.Events.{init-IsValid}
use bare_metal_rtos.Kernel.Boot.{on_start_lem, Begins}
use bare_metal_rtos.Kernel.Adding.{allocate_and_add_new_task-Coherent, init-Coherent}
use bare_metal_rtos.Kernel.RoundRobin.{strategy, is_sleep_aware}
use bare_metal_rtos.Kernel.Calls.{on_task_sleep, free_from, allocate_and_add_new_task}
use bare_metal_rtos.Kernel.Slots.{Coherent}
use bare_metal_rtos.Kernel.Machine.{on_tick, Contexts, Stack, FsmState, Kernel}
use bare_metal_rtos.Kernel.Task.{is_sleeping, schedule_sleep, bind, free_slot, KernelTask}
use bare_metal_rtos.Base.{
  arith, ◌≢◌, ◌<◌, ◌≡◌, count, update, ℕ, [], ◌∷◌, true, false, some, none, refl,
}
use bare_metal_rtos.Base.Int.{◌-ℤ◌, ℤ, pos, negsuc}
use bare_metal_rtos.Strategy.RoundRobin.{get_size, add_task, RoundRobin, init}
use bare_metal_rtos.Kernel.Start.{on_start, init as empty_kernel}

abbrev ready : ℕ → KernelTask
ready user_task = record {
  user = user_task;
  sleep_pending = false;
  remove_pending = false;
  time_sleep = pos 0;
}

abbrev no_tasks : Kernel RoundRobin
no_tasks = empty_kernel init

abbrev one_task : Kernel RoundRobin
one_task = record {
  strategy = record { tasks = 0 ∷ []; sleep = []; prev = some 0 };
  tasks = update (λ i. free_slot) 0 (ready 1);
  task_now = none;
  fsm_state = FsmState.no_state;
}

abbrev two_tasks : Kernel RoundRobin
two_tasks = record {
  strategy = record { tasks = 0 ∷ 1 ∷ []; sleep = []; prev = some 1 };
  tasks = update (update (λ i. free_slot) 0 (ready 1)) 1 (ready 2);
  task_now = none;
  fsm_state = FsmState.no_state;
}

no_tasks-Coherent : Coherent is_sleep_aware 2 no_tasks
unfolding is_sleep_aware
no_tasks-Coherent = init-Coherent is_sleep_aware 2 init init-IsValid (unfold get_size in refl)

add_first : allocate_and_add_new_task strategy 2 (λ t. t) 1 no_tasks ≡ some one_task
unfolding allocate_and_add_new_task free_from bind add_task count
add_first = refl

add_second : allocate_and_add_new_task strategy 2 (λ t. t) 2 one_task ≡ some two_tasks
unfolding allocate_and_add_new_task free_from bind add_task count
add_second = refl

-- The kernel after OnStart(), and after the first task has called Sleep(5).
abbrev pub started : Kernel RoundRobin
started = record {
  strategy = record { tasks = 0 ∷ 1 ∷ []; sleep = []; prev = some 0 };
  tasks = update (update (λ i. free_slot) 0 (ready 1)) 1 (ready 2);
  task_now = some 0;
  fsm_state = FsmState.switching;
}

abbrev asleep : Kernel RoundRobin
asleep = record started {
  tasks = update started.tasks 0 (record (ready 1) { sleep_pending = true; time_sleep = negsuc 4 });
}

two_tasks-Coherent : Coherent is_sleep_aware 2 two_tasks
two_tasks-Coherent =
    (allocate_and_add_new_task-Coherent is_sleep_aware 2 (λ t. t) 2 one_task two_tasks
      (allocate_and_add_new_task-Coherent is_sleep_aware 2 (λ t. t) 1 no_tasks one_task
        no_tasks-Coherent (omega arith) add_first).0
      (omega arith) add_second).0

pub started-Started : Started is_sleep_aware 2 false started
unfolding is_sleep_aware count
started-Started = record {
  coherent =
      Coherent-with_strategy is_sleep_aware 2
        (record two_tasks { task_now = some 0; fsm_state = FsmState.switching })
        (record { tasks = 0 ∷ 1 ∷ []; sleep = []; prev = some 0 })
        (Coherent-state is_sleep_aware 2 two_tasks (some 0) FsmState.switching two_tasks-Coherent)
        (record {
          distinct = (Coherent.valid two_tasks-Coherent).distinct;
          cursor = Cursor.on 0 [] (1 ∷ []) refl refl;
        })
        (λ u. refl) (λ u. refl);
  running = IsRunning.switching;
  now = 0;
  current = refl;
  has_task = λ e. (0, omega arith);
}

allocate_and_add_new_task-Coherent_example :
    Coherent is_sleep_aware 2 two_tasks
    × ((i : ℕ) × (i < 2)
        × (one_task.tasks i ≡ free_slot)
        × ((two_tasks.tasks i).user ≡ 2)
        × ((u : ℕ) → i ≢ u → two_tasks.tasks u ≡ one_task.tasks u))
allocate_and_add_new_task-Coherent_example =
    allocate_and_add_new_task-Coherent is_sleep_aware 2 (λ t. t) 2 one_task two_tasks
      (allocate_and_add_new_task-Coherent is_sleep_aware 2 (λ t. t) 1 no_tasks one_task
        no_tasks-Coherent (omega arith) add_first).0
      (omega arith) add_second

on_start_example :
    (a : Stack) × (k' : Kernel RoundRobin) × (on_start strategy 2 false two_tasks ≡ some (a, k'))
    × Started is_sleep_aware 2 false k'
    × Begins is_sleep_aware 2 a k'
unfolding get_size
on_start_example = on_start_lem is_sleep_aware 2 false two_tasks two_tasks-Coherent (omega arith)

sleep_call : on_task_sleep strategy 2 0 (pos 5) started ≡ some asleep
unfolding on_task_sleep schedule_sleep ◌-ℤ◌
sleep_call = refl

Reach-on_tick_example :
    (c : Contexts) × (ticks : ℤ) × (m' : Kernel RoundRobin) × (on_tick strategy 2 false true
        (pos 100)
        1
        asleep
      ≡ some (c, ticks, m'))
    × Tick is_sleep_aware 2 false true (pos 100) 1 asleep c ticks m'
Reach-on_tick_example =
    Reach-on_tick is_sleep_aware 2 false started asleep true (pos 100) 1 started-Started
      (Reach.then_step Reach.here (Step.sleeps 0 (pos 5) (omega arith) (omega arith) sleep_call))
      (omega arith)

asleep-Started : Started is_sleep_aware 2 false asleep
asleep-Started =
    Step-Started is_sleep_aware 2 false started asleep started-Started
      (Step.sleeps 0 (pos 5) (omega arith) (omega arith) sleep_call)

sleep_lasts_example :
    (k' : Kernel RoundRobin) × (run_ticks is_sleep_aware 2 false false
        (pos 1)
        (1 ∷ 1 ∷ 1 ∷ 1 ∷ 1 ∷ [])
        asleep
      ≡ some k')
    × ((k'.tasks 0).user ≡ 1)
    × (is_sleeping (k'.tasks 0) ≡ false)
sleep_lasts_example =
    sleep_lasts is_sleep_aware 2 false false (pos 1) (1 ∷ 1 ∷ 1 ∷ 1 ∷ 1 ∷ []) 0 asleep (omega arith)
      asleep-Started (omega arith) (omega arith) refl

awake_stays_example :
    (k' : Kernel RoundRobin) × (run_ticks is_sleep_aware 2 false false (pos 1) (1 ∷ 1 ∷ []) asleep
      ≡ some k')
    × (k'.tasks 1 ≡ ready 2)
awake_stays_example =
    awake_stays is_sleep_aware 2 false false (pos 1) (1 ∷ 1 ∷ []) 1 asleep (omega arith)
      asleep-Started (omega arith) (omega arith) refl
