-- ===== src/Sync/Mutex/Tests.antt =====
-- A mutex through concrete calls.
use bare_metal_rtos.Base.{ℕ, ◌≡◌, refl, false, some, Option, count, List, [], ◌∷◌}
use bare_metal_rtos.Base.Int.{ℤ, pos}
use bare_metal_rtos.Sync.WaitList.{no_weight, wait_infinite, setup_wait}
use bare_metal_rtos.Sync.Mutex.{Mutex, init, timed_lock, release, unlock}
use bare_metal_rtos.Sync.Mutex.Ownership.{
  System, Event, locks, unlocks, Result, stop, ignored, ok, step, IsValid,
}
use bare_metal_rtos.Sync.Mutex.Lifetime.{run, start, run_from_start}

abbrev base : ℕ → ℤ
base t = pos t

abbrev unboosted : ℕ → ℤ
unboosted t = no_weight

-- Task 1 locks, task 2 waits for ever, and task 1 unlocks.
abbrev events : List Event
events = locks 1 wait_infinite false ∷ locks 2 wait_infinite false ∷ unlocks 1 ∷ []

abbrev system_of : Result → System
system_of stop = start unboosted
system_of ignored = start unboosted
system_of (ok s) = s

handed : System
unfolding run
handed = system_of (run base events (start unboosted))

run-events : run base events (start unboosted) ≡ ok handed
unfolding handed run step start init timed_lock unlock release setup_wait count
run-events = refl

handed_owner : handed.mutex.owner_tid ≡ 2
unfolding handed run step start init timed_lock unlock release setup_wait count
handed_owner = refl

handed_woken : handed.woken ≡ 2 ∷ []
unfolding handed run step start init timed_lock unlock release setup_wait count
handed_woken = refl

run_from_start_example : IsValid handed
run_from_start_example = run_from_start base unboosted events handed run-events

handed-IsValid : IsValid handed
handed-IsValid = run_from_start base unboosted events handed run-events

-- Task 1 has the mutex once, and task 2 waits.
abbrev contended : Mutex
contended = record {
  owner_tid = 1;
  recursion_count = 1;
  wait_list = record { tid = 2; time_wait = wait_infinite; timeout = false } ∷ [];
  weights = unboosted;
}

abbrev unlocked : Option ℕ × Mutex
unlocked = release base contended

unlock-contended : unlock base 1 contended ≡ some unlocked
unfolding unlock
unlock-contended = refl
