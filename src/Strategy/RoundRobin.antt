-- ===== src/Strategy/RoundRobin.antt =====
-- SwitchStrategyRoundRobin of stk/include/strategy/stk_strategy_rrobin.h. A method that has an
-- STK_ASSERT returns `none` where the assertion fails; `asleep` is what task->IsSleeping() says at
-- the call. A task is in no list if it is in neither list of the strategy.
pub mod Turns
pub mod Order
pub mod Moves
pub mod Invariant
pub mod Joining
pub mod Events
pub mod Tests
pub mod Rounds
use bare_metal_rtos.Base.{
  ℕ, zero, suc, ◌+◌, ◌≡◌, Bool, true, false, not, ◌&&◌, ◌||◌, Option, none, some, List, [], ◌∷◌,
  ◌++◌, ◌==◌, ltb, if◌then◌else◌, count, erase, head_or, last_or, length,
}
use bare_metal_rtos.Strategy.TaskList
use bare_metal_rtos.Strategy.TaskList.{is_linked, get_last, same_task}

pub record RoundRobin : Type 0 where
  pub tasks : List ℕ
  pub sleep : List ℕ
  pub prev : Option ℕ

abbrev pub init : RoundRobin
init = record { tasks = []; sleep = []; prev = none }

unfoldable pub get_size : RoundRobin → ℕ
get_size s = length s.tasks + length s.sleep

-- The cursor goes to the new task if it was at the tail.
unfoldable pub add_task : ℕ → RoundRobin → Option RoundRobin
add_task t s =
    if is_linked t s.tasks || is_linked t s.sleep
    then none
    else some (record s {
      tasks = s.tasks ++ t ∷ [];
      prev = if same_task s.prev (get_last s.tasks) then some t else s.prev;
    })

unfoldable pub add_active : ℕ → RoundRobin → RoundRobin
add_active t s = record s {
  tasks = s.tasks ++ t ∷ [];
  prev = elim s.prev [ none ↦ some t | some c ↦ some c ];
}

-- `next` is read before the unlinking, its predecessor after it.
unfoldable pub remove_active : ℕ → RoundRobin → RoundRobin
remove_active t s =
    let next = TaskList.get_next t s.tasks in
    let rest = erase t s.tasks in
    record s { tasks = rest; prev = if next == t then none else some (TaskList.get_prev next rest) }

unfoldable pub remove_task : ℕ → RoundRobin → Option RoundRobin
remove_task t s =
    if get_size s == 0 || not (is_linked t s.tasks || is_linked t s.sleep)
    then none
    else some
        (if is_linked t s.tasks then remove_active t s else record s { sleep = erase t s.sleep })

unfoldable pub advance : Option ℕ → RoundRobin → Option ℕ × RoundRobin
advance none s = (none, s)
advance (some c) s =
    let next = TaskList.get_next c s.tasks in (some next, record s { prev = some next })

unfoldable pub get_next : RoundRobin → Option ℕ × RoundRobin
unfolding advance
get_next s = advance s.prev s

unfoldable pub get_first : RoundRobin → Option ℕ
get_first s = elim s.tasks [ x ∷ xs ↦ some x | [] ↦ elim s.sleep [ x ∷ xs ↦ some x | [] ↦ none ] ]

unfoldable pub on_task_sleep : ℕ → Bool → RoundRobin → Option RoundRobin
on_task_sleep t asleep s =
    if asleep && is_linked t s.tasks
    then (let r = remove_active t s in some (record r { sleep = r.sleep ++ t ∷ [] }))
    else none

unfoldable pub on_task_wake : ℕ → Bool → RoundRobin → Option RoundRobin
on_task_wake t asleep s =
    if not asleep && is_linked t s.sleep
    then some (add_active t (record s { sleep = erase t s.sleep }))
    else none
