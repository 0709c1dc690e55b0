-- ===== src/Strategy/FixedPriority/Tests.antt =====
-- The fixed-priority strategy on concrete tasks.
use bare_metal_rtos.Base.{
  ℕ, ◌≡◌, refl, true, false, some, none, List, [], ◌∷◌, ◌⊎◌, Option, arith, count, erase,
}
use bare_metal_rtos.Strategy.TaskList
use bare_metal_rtos.Strategy.FixedPriority.{
  FixedPriority, init, get_next, add_task, add_active, highest_ready, is_unlinked_below,
  on_task_sleep, remove_active, on_task_weight_change, on_task_wake, select,
}
use bare_metal_rtos.Strategy.FixedPriority.Validity.{IsValid}
use bare_metal_rtos.Strategy.FixedPriority.Select.{get_next-Selects, Selects}
use bare_metal_rtos.Strategy.FixedPriority.Calls.{
  Call, adds, sleeps, wakes, next, perform, perform_all, init-IsValid, perform_all-IsValid,
}

abbrev some_of : Option FixedPriority → FixedPriority
some_of none = init
some_of (some s) = s

-- Tasks 1 and 2 at level 2 and task 3 at level 5.
abbrev calls : List Call
calls = adds 1 2 ∷ adds 2 2 ∷ adds 3 5 ∷ []

-- Task 3 sleeps and wakes, and GetNext() is called in between.
abbrev more_calls : List Call
more_calls = adds 1 2 ∷ adds 2 2 ∷ adds 3 5 ∷ sleeps 3 5 true ∷ next ∷ wakes 3 5 false ∷ []

three : FixedPriority
unfolding perform_all
three = some_of (perform_all 8 calls init)

woken : FixedPriority
unfolding perform_all
woken = some_of (perform_all 8 more_calls init)

run_calls : perform_all 8 calls init ≡ some three
unfolding three perform_all perform add_task add_active is_unlinked_below count init
run_calls = refl

run_more : perform_all 8 more_calls init ≡ some woken
unfolding woken perform_all perform add_task add_active is_unlinked_below count init on_task_sleep
    select highest_ready remove_active on_task_wake erase get_next TaskList.get_next
run_more = refl

three-IsValid : IsValid 8 three
three-IsValid =
    perform_all-IsValid 8 (omega arith) calls init three (init-IsValid 8) (tt, (tt, (tt, tt)))
      run_calls

perform_all_example : IsValid 8 woken
perform_all_example =
    perform_all-IsValid 8 (omega arith) more_calls init woken (init-IsValid 8)
      (tt, (tt, (tt, (tt, (tt, (omega arith, tt)))))) run_more

highest_ready_36 : highest_ready 32 36 ≡ 5
unfolding highest_ready
highest_ready_36 = refl

get_next-Selects_example :
    (((p : ℕ) → three.tasks p ≡ []) × (get_next three ≡ some (none, three)))
    ⊎ ((prio : ℕ) × (t : ℕ) × (s' : FixedPriority) × (get_next three ≡ some (some t, s'))
        × Selects 8 prio t three s')
get_next-Selects_example = get_next-Selects 8 three three-IsValid (omega arith)

raised : FixedPriority
unfolding on_task_weight_change
raised = some_of (on_task_weight_change 8 1 6 2 three)

raise_one : on_task_weight_change 8 1 6 2 three ≡ some raised
unfolding raised on_task_weight_change three perform_all perform add_task add_active
    is_unlinked_below count init remove_active erase
raise_one = refl

asleep_none : count 1 three.sleep ≡ 0
unfolding three perform_all perform add_task add_active is_unlinked_below count init
asleep_none = refl
