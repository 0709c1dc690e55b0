-- ===== src/Sync/SpinLock/Tests.antt =====
-- A spinlock through concrete moves.
use bare_metal_rtos.Base.{
  erase, ℕ, ◌≡◌, ◌≢◌, ◌<◌, refl, some, none, true, false, List, [], ◌∷◌, count, update,
}
use bare_metal_rtos.Sync.SpinLock.{init, make_locked, try_lock, unlock, unlock_low}
use bare_metal_rtos.Sync.SpinLock.Threads.{
  Move, begins, makes, frees, unlocks, Threads, step, run, start, InStep, run_from_start-InStep,
}

-- Thread 1 locks twice and unlocks, thread 2 is refused in between and gets in afterwards.
abbrev moves : List Move
moves =
    begins 1
    ∷ makes 1
    ∷ begins 1
    ∷ begins 2
    ∷ unlocks 1 false
    ∷ unlocks 1 false
    ∷ begins 2
    ∷ frees 1
    ∷ begins 2
    ∷ []

-- How many locks each thread holds after the moves, which for threads 1 and 2 is none.
abbrev after_moves : ℕ → ℕ
after_moves = update (update (update (update (λ t. 0) 1 1) 1 2) 1 1) 1 0

abbrev after : Threads
after = record {
  lock = record { owner_tid = 0; recursion_count = 0; is_locked = true };
  arriving = 2 ∷ [];
  leaving = [];
  holds = after_moves;
}

run-moves : run moves start ≡ some after
unfolding run step start init make_locked try_lock unlock unlock_low count erase
run-moves = refl

run_from_start-InStep_example :
    InStep after × ((tid : ℕ) → 0 < count tid after.arriving → make_locked tid after.lock ≢ none)
run_from_start-InStep_example = run_from_start-InStep moves after run-moves
