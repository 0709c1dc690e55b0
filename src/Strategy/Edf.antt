-- ===== src/Strategy/Edf.antt =====
-- SwitchStrategyEDF of stk/include/strategy/stk_strategy_edf.h. `deadline` is what
-- GetHrtRelativeDeadline() says of each task at the call, `asleep` what IsSleeping() says, and `none`
-- is a failed STK_ASSERT.
pub mod Earliest
pub mod Tests
use bare_metal_rtos.Base.{
  ℕ, zero, suc, ◌+◌, ◌≡◌, Bool, true, false, not, ◌&&◌, ◌||◌, Option, none, some, List, [], ◌∷◌,
  ◌++◌, ◌==◌, ltb, if◌then◌else◌, count, erase, length,
}
use bare_metal_rtos.Base.Int.{ℤ, ltb_ℤ}
use bare_metal_rtos.Strategy.TaskList.{is_linked}

pub record Edf : Type 0 where
  pub tasks : List ℕ
  pub sleep : List ℕ

pub init : Edf
init = record { tasks = []; sleep = [] }

pub get_size : Edf → ℕ
get_size s = length s.tasks + length s.sleep

pub add_task : ℕ → Edf → Option Edf
add_task t s =
    if is_linked t s.tasks || is_linked t s.sleep
    then none
    else some (record s { tasks = s.tasks ++ t ∷ [] })

pub remove_task : ℕ → Edf → Option Edf
unfolding get_size
remove_task t s =
    if get_size s == 0 || not (is_linked t s.tasks || is_linked t s.sleep)
    then none
    else some (
        if is_linked t s.tasks
        then record s { tasks = erase t s.tasks }
        else record s { sleep = erase t s.sleep })

-- The rounds of the loop over the entries from `itr` on: an entry with a strictly smaller relative
-- deadline replaces the earliest one found so far.
pub scan : (ℕ → ℤ) → ℕ → List ℕ → ℕ
scan deadline next [] = next
scan deadline next (itr ∷ rest) =
    scan deadline (if ltb_ℤ (deadline itr) (deadline next) then itr else next) rest

-- The loop starts at the first entry and goes once round the closed list.
pub get_next : (ℕ → ℤ) → Edf → Option ℕ
unfolding scan
get_next deadline s = elim s.tasks [ [] ↦ none | x ∷ xs ↦ some (scan deadline x (x ∷ xs)) ]

pub get_first : Edf → Option ℕ
get_first s = elim s.tasks [ x ∷ xs ↦ some x | [] ↦ elim s.sleep [ x ∷ xs ↦ some x | [] ↦ none ] ]

pub on_task_sleep : ℕ → Bool → Edf → Option Edf
on_task_sleep t asleep s =
    if asleep && is_linked t s.tasks
    then some (record s { tasks = erase t s.tasks; sleep = s.sleep ++ t ∷ [] })
    else none

pub on_task_wake : ℕ → Bool → Edf → Option Edf
on_task_wake t asleep s =
    if not asleep && is_linked t s.sleep
    then some (record s { tasks = s.tasks ++ t ∷ []; sleep = erase t s.sleep })
    else none
