-- ===== src/Strategy/Monotonic/Response.antt =====
-- SchedulabilityCheck of stk/include/strategy/stk_strategy_monotonic.h. uint32_t values wrap around. `tasks` are the
-- timings in descending order of priority, and `none` is a loop that has run out of fuel, or a list without a task.
use bare_metal_rtos.Base.{
  length, leb, ◌++◌, true, ◌&&◌, not, some, Bool, ltb, none, ◌/◌, Option, ◌*◌, ◌==◌, List,
  if◌then◌else◌, ◌%◌, ◌+◌, ℕ, zero, suc, [], ◌∷◌,
}

pub record TaskTiming : Type 0 where
  pub duration : ℕ
  pub period : ℕ

abbrev pub u32 : ℕ → ℕ
u32 n = n % 4294967296

unfoldable pub idiv_ceil : ℕ → ℕ → ℕ
idiv_ceil x y = if y == 0 then 0 else (if ltb 0 (x % y) then x / y + 1 else x / y)

-- The inner loop: what the tasks of higher priority add to `w`, where `w0` is the response time so far.
unfoldable pub interference : ℕ → ℕ → List TaskTiming → ℕ
interference w0 w [] = w
interference w0 w (x ∷ xs) = interference w0 (u32 (w + u32 (idiv_ceil w0 x.period * x.duration))) xs

-- The rounds from next_itr on, for the task with `cx` and `tx` behind the tasks `higher`.
unfoldable pub next_iteration : ℕ → List TaskTiming → ℕ → ℕ → ℕ → Option ℕ
next_iteration zero higher cx tx w0 = none
next_iteration (suc fuel) higher cx tx w0 =
    let w = interference w0 cx higher in
    let again = next_iteration fuel higher cx tx w in
    if not (w == w0) && leb w tx then again else some w

-- Each round but the last lengthens the response time, which is at most the period then.
abbrev pub rounds : ℕ → ℕ
rounds tx = tx + 2

unfoldable pub response_time : List TaskTiming → TaskTiming → Option ℕ
response_time higher x = next_iteration (rounds x.period) higher x.duration x.period x.duration

-- A response time goes in front of the times of the tasks behind.
abbrev pub with_first : ℕ → Bool → Option (Bool × List ℕ) → Option (Bool × List ℕ)
with_first w meets none = none
with_first w meets (some (ok, ws)) = some (meets && ok, w ∷ ws)

-- `schedulable &= (w <= Tx)` and the rest of the loop.
abbrev pub add_response : ℕ → Option ℕ → Option (Bool × List ℕ) → Option (Bool × List ℕ)
add_response tx none rest = none
add_response tx (some w) rest = with_first w (leb w tx) rest

-- The outer loop from a task on, behind the tasks `higher`: the verdict and the response times.
unfoldable pub check_from : List TaskTiming → List TaskTiming → Option (Bool × List ℕ)
check_from higher [] = some (true, [])
check_from higher (x ∷ xs) =
    add_response x.period (response_time higher x) (check_from (higher ++ x ∷ []) xs)

unfoldable pub calculate_wcrt : List TaskTiming → Option (Bool × List ℕ)
calculate_wcrt [] = none
calculate_wcrt (x ∷ xs) = with_first x.duration true (check_from (x ∷ []) xs)

-- The loads of a task and of it with those before it, in percent, from the total so far; uint16_t values wrap.
unfoldable pub load_from : ℕ → List TaskTiming → List (ℕ × ℕ)
load_from total [] = []
load_from total (x ∷ xs) =
    let load = u32 (x.duration * 100) / x.period % 65536 in
    (load, (total + load) % 65536) ∷ load_from ((total + load) % 65536) xs

unfoldable pub get_task_cpu_load : List TaskTiming → List (ℕ × ℕ)
get_task_cpu_load tasks = load_from 0 tasks

-- The timings of the tasks of a strategy, in the order of its list.
abbrev pub timings : (ℕ → ℕ) → (ℕ → ℕ) → List ℕ → List TaskTiming
timings periodicity due [] = []
timings periodicity due (t ∷ ts) =
    record { duration = due t; period = periodicity t } ∷ timings periodicity due ts

-- The result for the tasks of a strategy with as many tasks as are given.
unfoldable pub is_schedulable_wcrt :
    ℕ → (ℕ → ℕ) → (ℕ → ℕ) → List ℕ → Option ((Bool × List ℕ) × List (ℕ × ℕ))
is_schedulable_wcrt task_count periodicity due ts =
    if not (length ts == task_count)
    then none
    else elim (calculate_wcrt (timings periodicity due ts)) [
      | none ↦ none
      | some r ↦ some (r, get_task_cpu_load (timings periodicity due ts))
    ]
