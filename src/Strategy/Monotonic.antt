-- ===== src/Strategy/Monotonic.antt =====
-- SwitchStrategyMonotonic of stk/include/strategy/stk_strategy_monotonic.h, for both strategy types. `periodicity`
-- and `deadline` are what GetHrtPeriodicity() and GetHrtDeadline() say of a task, `asleep` what IsSleeping() says.
-- `none` is a failed STK_ASSERT. OnTaskSleep() and OnTaskWake() always assert.
pub mod Sorted
pub mod Response
pub mod LeastResponse
pub mod Verdict
pub mod Tests
use bare_metal_rtos.Base.{
  ℕ, Bool, Option, none, some, List, [], ◌∷◌, not, ◌||◌, ◌==◌, if◌then◌else◌, erase, length,
}
use bare_metal_rtos.Base.Int.{ℤ, ltb_ℤ}
use bare_metal_rtos.Strategy.TaskList.{is_linked}

pub data StrategyType : Type 0 where
  rate deadline : StrategyType

pub record Monotonic : Type 0 where
  pub tasks : List ℕ

abbrev pub init : Monotonic
init = record { tasks = [] }

pub get_size : Monotonic → ℕ
get_size s = length s.tasks

-- What the tasks are sorted by.
abbrev pub sort_key : StrategyType → (ℕ → ℤ) → (ℕ → ℤ) → ℕ → ℤ
sort_key rate periodicity due = periodicity
sort_key deadline periodicity due = due

-- The rounds of the loop from the entry `itr` on: Link() before `itr`, or LinkBack() behind the last one.
unfoldable pub link_sorted : (ℕ → ℤ) → ℕ → List ℕ → List ℕ
link_sorted key t [] = t ∷ []
link_sorted key t (itr ∷ rest) =
    if ltb_ℤ (key t) (key itr) then t ∷ itr ∷ rest else itr ∷ link_sorted key t rest

unfoldable pub add_task : (ℕ → ℤ) → ℕ → Monotonic → Option Monotonic
add_task key t s =
    if is_linked t s.tasks then none else some (record s { tasks = link_sorted key t s.tasks })

unfoldable pub remove_task : ℕ → Monotonic → Option Monotonic
unfolding get_size
remove_task t s =
    if get_size s == 0 || not (is_linked t s.tasks)
    then none
    else some (record s { tasks = erase t s.tasks })

-- The loop from the entry `itr` on.
unfoldable pub first_awake : (ℕ → Bool) → List ℕ → Option ℕ
first_awake asleep [] = none
first_awake asleep (itr ∷ rest) = if not (asleep itr) then some itr else first_awake asleep rest

unfoldable pub get_next : (ℕ → Bool) → Monotonic → Option ℕ
get_next asleep s = first_awake asleep s.tasks

unfoldable pub get_first : Monotonic → Option ℕ
get_first s = elim s.tasks [ [] ↦ none | x ∷ xs ↦ some x ]
