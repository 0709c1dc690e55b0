-- ===== src/Sync/Event/Tests.antt =====
-- An event through concrete calls.
use bare_metal_rtos.Base.{◌≡◌, refl, some, true, false, List, [], ◌∷◌}
use bare_metal_rtos.Base.Int.{pos, ◌-ℤ◌}
use bare_metal_rtos.Sync.WaitList.{tick, setup_wait}
use bare_metal_rtos.Sync.Event.{init, set, reset, pulse, wait, try_wait, expire}
use bare_metal_rtos.Sync.Event.Waking.{bit}
use bare_metal_rtos.Sync.Event.Signals.{
  Call, History, sets, waits, ticks, step, run, start, IsFair, run_from_start-IsFair,
}

-- Task 1 takes the initial signal, task 2 waits and is signaled, task 3 times out, and one more signal is given.
abbrev calls : List Call
calls =
    waits 1 (pos 9) false
    ∷ waits 2 (pos 9) false
    ∷ sets
    ∷ waits 3 (pos 2) false
    ∷ ticks 5
    ∷ sets
    ∷ sets
    ∷ []

abbrev after : History
after = record {
  now = record { manual_reset = false; signaled = true; wait_list = [] };
  granted = 2;
  raised = 2;
  withdrawn = 0;
}

run-calls : run calls (start (init false true)) ≡ some after
unfolding run step start init set reset pulse wait try_wait expire tick setup_wait ◌-ℤ◌
run-calls = refl

run_from_start-IsFair_example : IsFair (bit true) after
run_from_start-IsFair_example = run_from_start-IsFair false true calls after run-calls
