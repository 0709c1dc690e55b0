-- ===== src/Strategy/RoundRobin/Events.antt =====
-- The events that reach a round-robin strategy, in any order.
use bare_metal_rtos.Base.{
  counting, refl, some_eq, ℕ, ◌≡◌, Option, none, some, List, [], ◌∷◌, Bool, subst, arith, inl, inr,
  Option-cases,
}
use bare_metal_rtos.Strategy.RoundRobin.{
  RoundRobin, init, get_next, add_task, remove_task, on_task_sleep, on_task_wake,
}
use bare_metal_rtos.Strategy.RoundRobin.Turns.{IsValid, Cursor}
use bare_metal_rtos.Strategy.RoundRobin.Order.{get_next-Serves}
use bare_metal_rtos.Strategy.RoundRobin.Invariant.{on_task_sleep-IsValid, remove_task-IsValid}
use bare_metal_rtos.Strategy.RoundRobin.Joining.{on_task_wake-IsValid, add_task-IsValid}

-- What the kernel does to the strategy: the boolean is the task's IsSleeping() at the call.
pub data Event : Type 0 where
  add remove : ℕ → Event
  sleeps wakes : ℕ → Bool → Event
  next : Event

unfoldable pub step : Event → RoundRobin → Option RoundRobin
step (add t) s = add_task t s
step (remove t) s = remove_task t s
step (sleeps t asleep) s = on_task_sleep t asleep s
step (wakes t asleep) s = on_task_wake t asleep s
step next s = some (get_next s).1

pub init-IsValid : IsValid init
unfolding init
init-IsValid = record { distinct = λ u. omega counting; cursor = Cursor.idle refl refl }

-- The events in order, up to a failed assertion.
unfoldable pub run : List Event → RoundRobin → Option RoundRobin
run [] s = some s
run (e ∷ es) s = elim (step e s) [ none ↦ none | some s' ↦ run es s' ]

pub step-IsValid : (e : Event) (s s' : RoundRobin) → IsValid s → step e s ≡ some s' → IsValid s'
unfolding step
step-IsValid (add t) s s' v h = (add_task-IsValid t s s' v h).0
step-IsValid (remove t) s s' v h = (remove_task-IsValid t s s' v h).0
step-IsValid (sleeps t a) s s' v h = (on_task_sleep-IsValid t a s s' v h).0
step-IsValid (wakes t a) s s' v h = (on_task_wake-IsValid t a s s' v h).0
step-IsValid next s s' v h = subst IsValid (some_eq h) (get_next-Serves s v).keeps

-- From a valid strategy, every sequence of events whose assertions hold leads to a valid one: no
-- task is in two places, and the cursor is null exactly if no task is runnable, and else stands on
-- a runnable task.
pub run-IsValid :
    (es : List Event) (s s' : RoundRobin) → IsValid s → run es s ≡ some s' → IsValid s'
unfolding run
run-IsValid [] s s' v h = subst IsValid (some_eq h) v
run-IsValid (e ∷ es) s s' v h = elim (Option-cases (step e s)) [
  | inl stop ↦ ground arith
  | inr (m, more) ↦ run-IsValid es m s' (step-IsValid e s m v more) (ground arith)
]
