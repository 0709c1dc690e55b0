-- ===== src/Strategy/RoundRobin/Tests.antt =====
-- The round-robin strategy on concrete tasks.
use bare_metal_rtos.Base.{ℕ, ◌≡◌, refl, true, false, some, List, [], ◌∷◌, map, length, count, erase}
use bare_metal_rtos.Strategy.TaskList
use bare_metal_rtos.Strategy.RoundRobin.{
  RoundRobin, init, add_task, remove_task, on_task_sleep, on_task_wake, add_active, remove_active,
  get_size,
}
use bare_metal_rtos.Strategy.RoundRobin.Turns.{IsValid, turns, turns_of, turns_from}
use bare_metal_rtos.Strategy.RoundRobin.Invariant.{on_task_sleep-IsValid}
use bare_metal_rtos.Strategy.RoundRobin.Rounds.{serve, serve_round}
use bare_metal_rtos.Strategy.RoundRobin.Events.{Event, add, step, run, init-IsValid, run-IsValid}

-- Three tasks, with the cursor at the tail.
abbrev three : RoundRobin
three = record { tasks = 1 ∷ 2 ∷ 3 ∷ []; sleep = []; prev = some 3 }

-- The same after task 2 has gone to sleep.
abbrev two_awake : RoundRobin
two_awake = record { tasks = 1 ∷ 3 ∷ []; sleep = 2 ∷ []; prev = some 1 }

abbrev adds : List Event
adds = add 1 ∷ add 2 ∷ add 3 ∷ []

run-adds : run adds init ≡ some three
unfolding run step add_task init count
run-adds = refl

three-IsValid : IsValid three
three-IsValid = run-IsValid adds init three init-IsValid run-adds

sleep_two : on_task_sleep 2 true three ≡ some two_awake
unfolding on_task_sleep remove_active count erase TaskList.get_next TaskList.get_prev
sleep_two = refl

two_awake-IsValid : IsValid two_awake
two_awake-IsValid = (on_task_sleep-IsValid 2 true three two_awake three-IsValid sleep_two).0

turns-three : turns three ≡ 1 ∷ 2 ∷ 3 ∷ []
unfolding turns_of turns_from
turns-three = refl

run-IsValid_example : IsValid three
run-IsValid_example = run-IsValid adds init three init-IsValid run-adds

serve_round_example :
    ((serve (length (turns three)) three).0 ≡ map some (turns three))
    × (turns (serve (length (turns three)) three).1 ≡ turns three)
    × IsValid (serve (length (turns three)) three).1
    × ((u : ℕ) → count u (turns three) ≡ count u three.tasks)
serve_round_example = serve_round three three-IsValid

abbrev woken : RoundRobin
woken = record { tasks = 1 ∷ 3 ∷ 2 ∷ []; sleep = []; prev = some 1 }

wake_two : on_task_wake 2 false two_awake ≡ some woken
unfolding on_task_wake add_active count erase
wake_two = refl

abbrev four : RoundRobin
four = record { tasks = 1 ∷ 2 ∷ 3 ∷ 4 ∷ []; sleep = []; prev = some 4 }

add_four : add_task 4 three ≡ some four
unfolding add_task count
add_four = refl

abbrev left : RoundRobin
left = record { tasks = 1 ∷ 2 ∷ []; sleep = []; prev = some 2 }

remove_three : remove_task 3 three ≡ some left
unfolding remove_task get_size remove_active count erase TaskList.get_next TaskList.get_prev
remove_three = refl
