-- ===== src/Strategy/SmoothWeighted.antt =====
-- SwitchStrategySmoothWeightedRoundRobin of stk/include/strategy/stk_strategy_swrrobin.h. `weight` is what
-- GetWeight() says of a task, `current` the current weights that the strategy sets, `asleep` what IsSleeping()
-- says, and `none` a failed STK_ASSERT. Weights are int32_t values, as integers.
pub mod Selection
pub mod Winner
pub mod Tests
use bare_metal_rtos.Base.{
  ℕ, ◌+◌, ◌≡◌, Bool, true, false, not, ◌&&◌, ◌||◌, Option, none, some, List, [], ◌∷◌, ◌++◌, ◌==◌,
  if◌then◌else◌, count, erase, length, update,
}
use bare_metal_rtos.Base.Int.{ℤ, pos, negsuc, ltb_ℤ, ◌+ℤ◌, ◌-ℤ◌}
use bare_metal_rtos.Sync.WaitList.{no_weight}
use bare_metal_rtos.Strategy.TaskList.{is_linked}

pub record SmoothWeighted : Type 0 where
  pub tasks : List ℕ
  pub sleep : List ℕ
  pub total_weight : ℤ
  pub current : ℕ → ℤ

abbrev pub int32_min : ℤ
int32_min = negsuc 2147483647

abbrev pub weight_max : ℤ
weight_max = pos 8388607

pub init : (ℕ → ℤ) → SmoothWeighted
init current = record { tasks = []; sleep = []; total_weight = pos 0; current = current }

pub get_size : SmoothWeighted → ℕ
get_size s = length s.tasks + length s.sleep

-- The state of the loop of GetNext().
pub record Scan : Type 0 where
  pub weights : ℕ → ℤ
  pub max_weight : ℤ
  pub next : Option ℕ

module _ (weight : ℕ → ℤ) where
  unfoldable pub add_active : ℕ → SmoothWeighted → SmoothWeighted
  add_active t s = record s { tasks = s.tasks ++ t ∷ []; total_weight = s.total_weight +ℤ weight t }

  unfoldable pub remove_active : ℕ → SmoothWeighted → SmoothWeighted
  remove_active t s = record s {
    tasks = erase t s.tasks;
    total_weight = s.total_weight -ℤ weight t;
  }

  -- The list asserts that the task is in none.
  pub add_task : ℕ → SmoothWeighted → Option SmoothWeighted
  add_task t s =
      if ltb_ℤ (pos 0) (weight t)
        && not (ltb_ℤ weight_max (weight t))
        && not (is_linked t s.tasks || is_linked t s.sleep)
      then some (add_active t (record s { current = update s.current t no_weight }))
      else none

  pub remove_task : ℕ → SmoothWeighted → Option SmoothWeighted
  remove_task t s =
      if is_linked t s.tasks || is_linked t s.sleep
      then some
          (if is_linked t s.tasks then remove_active t s else record s { sleep = erase t s.sleep })
      else none

  -- A round of the loop.
  unfoldable pub scan_one : ℕ → Scan → Scan
  scan_one itr r =
      let candidate_weight = r.weights itr +ℤ weight itr in
      let raised = update r.weights itr candidate_weight in
      if ltb_ℤ r.max_weight candidate_weight
      then record { weights = raised; max_weight = candidate_weight; next = some itr }
      else record r { weights = raised }

  unfoldable pub scan : List ℕ → Scan → Scan
  scan [] r = r
  scan (itr ∷ rest) r = scan rest (scan_one itr r)

  unfoldable pub scanned : SmoothWeighted → Scan
  scanned s = scan s.tasks (record { weights = s.current; max_weight = int32_min; next = none })

  -- GetNext() after its loop.
  unfoldable pub selected : SmoothWeighted → Scan → Option (Option ℕ × SmoothWeighted)
  selected s r = elim r.next [
    | none ↦ none
    | some n ↦
        some (some n, record s { current = update r.weights n (r.max_weight -ℤ s.total_weight) })
  ]

  unfoldable pub get_next : SmoothWeighted → Option (Option ℕ × SmoothWeighted)
  get_next s = elim s.tasks [ [] ↦ some (none, s) | x ∷ xs ↦ selected s (scanned s) ]

  pub on_task_sleep : ℕ → Bool → SmoothWeighted → Option SmoothWeighted
  on_task_sleep t asleep s =
      if asleep && is_linked t s.tasks
      then (let r = remove_active t s in some (record r { sleep = r.sleep ++ t ∷ [] }))
      else none

  -- The task is raised to the total weight before it joins.
  pub on_task_wake : ℕ → Bool → SmoothWeighted → Option SmoothWeighted
  on_task_wake t asleep s =
      if not asleep && is_linked t s.sleep
      then some (
          add_active t
            (record s { sleep = erase t s.sleep; current = update s.current t s.total_weight }))
      else none

pub get_first : SmoothWeighted → Option ℕ
get_first s = elim s.tasks [ x ∷ xs ↦ some x | [] ↦ elim s.sleep [ x ∷ xs ↦ some x | [] ↦ none ] ]
