-- ===== src/Strategy/Monotonic/Tests.antt =====
-- The theorems on the monotonic strategies at concrete inputs.
use bare_metal_rtos.Strategy.Monotonic.Verdict.{calculate_wcrt-Meets, MeetsFrom}
use bare_metal_rtos.Strategy.Monotonic.LeastResponse.{
  releases, response_time-IsResponse, IsResponse,
}
use bare_metal_rtos.Strategy.Monotonic.Response.{
  interference, next_iteration, check_from, response_time, TaskTiming, calculate_wcrt, idiv_ceil,
}
use bare_metal_rtos.Strategy.Monotonic.Sorted.{
  get_next-SelectsByKey, remove_task-IsOrdered, IsSorted, add_task-IsOrdered, Placed, IsOrdered,
  SelectsByKey,
}
use bare_metal_rtos.Base.{
  ◌==◌, ◌+◌, ◌↔◌, List, same, Bool, arith, erase, ◌≡◌, count, ◌*◌, ℕ, [], ◌∷◌, true, some, refl,
}
use bare_metal_rtos.Base.Int.{ℤ, pos}
use bare_metal_rtos.Strategy.Monotonic.{get_next, link_sorted, add_task, remove_task, Monotonic}

-- The period of a task is ten times its address.
abbrev period_of : ℕ → ℤ
period_of t = pos (t * 10)

abbrev two : Monotonic
two = record { tasks = 1 ∷ 3 ∷ [] }

abbrev three : Monotonic
three = record { tasks = 1 ∷ 2 ∷ 3 ∷ [] }

two-IsOrdered : IsOrdered period_of two
unfolding count
two-IsOrdered = record {
  distinct = λ u. ground arith;
  sorted =
      IsSorted.first (λ u h. ground arith)
        (IsSorted.first (λ u h. absurd (ground arith)) IsSorted.empty);
}

put_between : add_task period_of 2 two ≡ some three
unfolding add_task link_sorted count
put_between = refl

add_task-IsOrdered_example : IsOrdered period_of three × Placed period_of 2 two.tasks three.tasks
add_task-IsOrdered_example = add_task-IsOrdered period_of 2 two three two-IsOrdered put_between

take_out : remove_task 2 three ≡ some two
unfolding remove_task count erase
take_out = refl

remove_task-IsOrdered_example :
    IsOrdered period_of two × ((u : ℕ) → count u three.tasks ≡ same 2 u + count u two.tasks)
remove_task-IsOrdered_example =
    remove_task-IsOrdered period_of 2 three two
      (add_task-IsOrdered period_of 2 two three two-IsOrdered put_between).0 take_out

-- The first task sleeps.
get_next-SelectsByKey_example :
    SelectsByKey period_of (λ t. t == 1) two.tasks (get_next (λ t. t == 1) two)
get_next-SelectsByKey_example = get_next-SelectsByKey period_of (λ t. t == 1) two two-IsOrdered

abbrev urgent : TaskTiming
urgent = record { duration = 2; period = 5 }

abbrev late : TaskTiming
late = record { duration = 4; period = 10 }

response_time-IsResponse_example :
    (w : ℕ) × (response_time (urgent ∷ []) late ≡ some w) × IsResponse (urgent ∷ []) late w
unfolding releases
response_time-IsResponse_example = response_time-IsResponse (urgent ∷ []) late (omega arith)

calculate_wcrt-Meets_example :
    (ok : Bool) × (ws : List ℕ) × (calculate_wcrt (urgent ∷ late ∷ []) ≡ some (ok, 2 ∷ ws))
    × ((ok ≡ true) ↔ MeetsFrom (urgent ∷ []) (late ∷ []))
unfolding releases
calculate_wcrt-Meets_example = calculate_wcrt-Meets urgent (late ∷ []) (omega arith, tt)

-- 8 = 4 + 2 * 2 ticks are enough for the second task.
wcrt_of_two : calculate_wcrt (urgent ∷ late ∷ []) ≡ some (true, 2 ∷ 8 ∷ [])
unfolding calculate_wcrt check_from response_time next_iteration interference idiv_ceil
wcrt_of_two = refl

-- A single task that needs more than its period passes.
overlong_passes : calculate_wcrt (record { duration = 7; period = 5 } ∷ []) ≡ some (true, 7 ∷ [])
unfolding calculate_wcrt check_from
overlong_passes = refl
