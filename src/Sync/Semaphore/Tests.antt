-- ===== src/Sync/Semaphore/Tests.antt =====
-- A semaphore through concrete calls.
use bare_metal_rtos.Base.{◌≡◌, refl, false, some, List, [], ◌∷◌, arith}
use bare_metal_rtos.Base.Int.{pos}
use bare_metal_rtos.Sync.WaitList.{wake_one, setup_wait}
use bare_metal_rtos.Sync.Semaphore.{Semaphore, init, wait, signal}
use bare_metal_rtos.Sync.Semaphore.Tokens.{
  Event, waits, signals, History, step, run, start, Balanced, init-Balanced, run-Balanced,
}

abbrev one_permit : Semaphore
one_permit = record { count = 1; count_max = 4; wait_list = [] }

-- Task 1 gets the permit, task 2 waits and is signalled, and two more permits are signalled.
abbrev events : List Event
events = waits 1 (pos 0) false ∷ waits 2 (pos 9) false ∷ signals ∷ signals ∷ signals ∷ []

abbrev after : History
after = record {
  now = record { count = 2; count_max = 4; wait_list = [] };
  granted = 2;
  signalled = 3;
}

run-events : run events (start one_permit) ≡ some after
unfolding run step wait signal start wake_one setup_wait
run-events = refl

init_one : init 1 4 ≡ some one_permit
unfolding init
init_one = refl

one_permit-Balanced : Balanced 1 (start one_permit)
one_permit-Balanced = init-Balanced 1 4 one_permit (omega arith) init_one

run-Balanced_example : Balanced 1 after
run-Balanced_example = run-Balanced 1 events (start one_permit) after one_permit-Balanced run-events
