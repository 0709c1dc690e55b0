-- ===== src/Strategy/FixedPriority.antt =====
-- SwitchStrategyFixedPriority<MAX_PRIORITIES> of stk/include/strategy/stk_strategy_fpriority.h. The
-- arrays are functions of the priority level. `weight` is what GetWeight() says of a task at the
-- call, and `asleep` what IsSleeping() says. `none` is a failed STK_ASSERT, and in GetNext() a read
-- through a null cursor.
pub mod Ready
pub mod Validity
pub mod Levels
pub mod Select
pub mod Events
pub mod Weights
pub mod Calls
pub mod Tests
use bare_metal_rtos.Base.{
  ℕ, zero, suc, ◌+◌, ◌-◌, ◌%◌, ◌^◌, ◌≡◌, Bool, true, false, not, ◌&&◌, ◌||◌, Option, none, some,
  List, [], ◌∷◌, ◌++◌, ◌==◌, ltb, if◌then◌else◌, count, erase, head_or, last_or, length, update,
  bit_and, bit_or,
}
use bare_metal_rtos.Base.Bits.{bit_not}
use bare_metal_rtos.Strategy.TaskList
use bare_metal_rtos.Strategy.TaskList.{is_linked, get_last, same_task}

pub record FixedPriority : Type 0 where
  pub tasks : ℕ → List ℕ
  pub sleep : List ℕ
  pub ready_bitmap : ℕ
  pub prev : ℕ → Option ℕ

pub init : FixedPriority
init = record { tasks = λ i. []; sleep = []; ready_bitmap = 0; prev = λ i. none }

-- static_cast<uint8_t>(weight)
abbrev pub priority : ℕ → ℕ
priority weight = weight % 256

-- The portable scan from bit 31 down, here from bit `n - 1`.
pub highest_ready : ℕ → ℕ → ℕ
highest_ready zero bitmap = 0
highest_ready (suc i) bitmap =
    let lower = highest_ready i bitmap in if bit_and bitmap (2 ^ i) == 0 then lower else i

pub add_active : ℕ → ℕ → FixedPriority → FixedPriority
add_active t weight s =
    let prio = priority weight in
    let joined = s.tasks prio ++ t ∷ [] in
    if length joined == 1
    then record s {
      tasks = update s.tasks prio joined;
      prev = update s.prev prio (some t);
      ready_bitmap = bit_or s.ready_bitmap (2 ^ prio);
    }
    else record s { tasks = update s.tasks prio joined }

pub remove_active : ℕ → ℕ → FixedPriority → FixedPriority
remove_active t prio s =
    let next = TaskList.get_next t (s.tasks prio) in
    let rest = erase t (s.tasks prio) in
    if next == t
    then record s {
      tasks = update s.tasks prio rest;
      prev = update s.prev prio none;
      ready_bitmap = bit_and s.ready_bitmap (bit_not 32 (2 ^ prio));
    }
    else record s {
      tasks = update s.tasks prio rest;
      prev = update s.prev prio (some (TaskList.get_prev next rest));
    }

-- The cursor of the level moves on.
pub select : ℕ → FixedPriority → Option (Option ℕ × FixedPriority)
select prio s = elim (s.prev prio) [
  | none ↦ none
  | some c ↦
      let next = TaskList.get_next c (s.tasks prio) in
      some (some next, record s { prev = update s.prev prio (some next) })
]

pub get_next : FixedPriority → Option (Option ℕ × FixedPriority)
get_next s =
    if s.ready_bitmap == 0 then some (none, s) else select (highest_ready 32 s.ready_bitmap) s

module _ (max_priorities : ℕ) where
  -- The tasks of the levels below `n`.
  pub sum_sizes : ℕ → FixedPriority → ℕ
  sum_sizes zero s = 0
  sum_sizes (suc n) s = sum_sizes n s + length (s.tasks n)

  pub get_size : FixedPriority → ℕ
  unfolding sum_sizes
  get_size s = length s.sleep + sum_sizes max_priorities s

  -- task->GetHead() == nullptr
  pub is_unlinked_below : ℕ → ℕ → FixedPriority → Bool
  is_unlinked_below t zero s = not (is_linked t s.sleep)
  is_unlinked_below t (suc n) s = not (is_linked t (s.tasks n)) && is_unlinked_below t n s

  pub add_task : ℕ → ℕ → FixedPriority → Option FixedPriority
  unfolding is_unlinked_below
  add_task t weight s =
      let prio = priority weight in
      if is_unlinked_below t max_priorities s && ltb prio max_priorities
      then (let added = add_active t weight s in
          some (
            if same_task (s.prev prio) (get_last (s.tasks prio))
            then record added { prev = update added.prev prio (some t) }
            else added))
      else none

  pub remove_task : ℕ → ℕ → FixedPriority → Option FixedPriority
  unfolding get_size
  remove_task t weight s =
      let prio = priority weight in
      if get_size s == 0 || not (is_linked t (s.tasks prio) || is_linked t s.sleep)
      then none
      else some (
          if is_linked t s.sleep
          then record s { sleep = erase t s.sleep }
          else remove_active t prio s)

  pub get_first : FixedPriority → Option ℕ
  get_first s =
      if s.ready_bitmap == 0 then head s.sleep else head (s.tasks (highest_ready 32 s.ready_bitmap))
    where
      head : List ℕ → Option ℕ
      head [] = none
      head (x ∷ xs) = some x

  pub on_task_sleep : ℕ → ℕ → Bool → FixedPriority → Option FixedPriority
  on_task_sleep t weight asleep s =
      let prio = priority weight in
      if asleep && is_linked t (s.tasks prio)
      then (let r = remove_active t prio s in some (record r { sleep = r.sleep ++ t ∷ [] }))
      else none

  pub on_task_wake : ℕ → ℕ → Bool → FixedPriority → Option FixedPriority
  on_task_wake t weight asleep s =
      if not asleep && is_linked t s.sleep
      then some (add_active t weight (record s { sleep = erase t s.sleep }))
      else none

  -- A runnable task goes to its new level, also where that is the old one.
  pub on_task_weight_change : ℕ → ℕ → ℕ → FixedPriority → Option FixedPriority
  on_task_weight_change t weight old_weight s =
      let old_prio = priority old_weight in
      if ltb (priority weight) max_priorities && ltb old_prio max_priorities
      then (if is_linked t s.sleep
          then some s
          else (if is_linked t (s.tasks old_prio)
              then some (add_active t weight (remove_active t old_prio s))
              else none))
      else none
