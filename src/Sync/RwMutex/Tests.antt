-- ===== src/Sync/RwMutex/Tests.antt =====
-- A reader-writer lock through concrete calls: a reader has it, a writer waits and gives up, and a reader
-- that has come after the writer is left waiting.
use bare_metal_rtos.Base.{ℕ, Bool, ◌<◌, ◌+◌, ◌≡◌, refl, false, some, List, [], ◌∷◌}
use bare_metal_rtos.Base.Int.{ℤ, pos, ◌-ℤ◌}
use bare_metal_rtos.Sync.WaitList.{Waiter, setup_wait, wait_infinite, tick, tick_waiter}
use bare_metal_rtos.Sync.Semaphore.{acquired}
use bare_metal_rtos.Sync.ConditionVariable.{wait, notify_one}
use bare_metal_rtos.Sync.RwMutex.{
  RwMutex, init, read_loop, timed_lock, lock_loop, after_wait, lock_timed_out, read_unlock,
}
use bare_metal_rtos.Sync.RwMutex.Exclusion.{
  System, Event, reads, writes, writer_gives_up, ticks_writers, step, run, IsValid,
}
use bare_metal_rtos.Sync.RwMutex.Lifetime.{start, run_from_start-IsValid}
use bare_metal_rtos.Sync.RwMutex.Stranded
use bare_metal_rtos.Sync.RwMutex.Stranded.{lock_timed_out_strands}

abbrev events : List Event
events =
    reads 1 wait_infinite false
    ∷ writes 2 (pos 5) false
    ∷ reads 3 wait_infinite false
    ∷ ticks_writers 9
    ∷ writer_gives_up
    ∷ []

abbrev behind : List Waiter
behind = record { tid = 3; time_wait = wait_infinite; timeout = false } ∷ []

abbrev after : System
after = record {
  lock = record {
    readers = 1;
    writers_waiting = 0;
    writer_active = false;
    cv_readers = behind;
    cv_writers = [];
  };
  notified = 0;
  late = 0;
}

run-events : run events start ≡ some after
unfolding run step start init read_loop timed_lock lock_loop after_wait lock_timed_out wait
    setup_wait tick tick_waiter ◌-ℤ◌
run-events = refl

run_from_start-IsValid_example : IsValid after
run_from_start-IsValid_example = run_from_start-IsValid events after run-events

abbrev giving_up : RwMutex
giving_up = record {
  readers = 1;
  writers_waiting = 1;
  writer_active = false;
  cv_readers = behind;
  cv_writers = [];
}

-- A reader comes, and it and the first reader leave.
abbrev later : List Stranded.Call
later = Stranded.reads 4 wait_infinite false ∷ Stranded.read_unlocks ∷ Stranded.read_unlocks ∷ []

abbrev given_up : RwMutex
given_up = record giving_up { readers = 0; writers_waiting = 0 }

run-later : Stranded.run later (lock_timed_out giving_up) ≡ some given_up
unfolding Stranded.run Stranded.step lock_timed_out read_loop read_unlock notify_one
run-later = refl

lock_timed_out_strands_example :
    (given_up.cv_readers ≡ behind)
    × ((t : ℕ) (timeout : ℤ) (in_isr : Bool)
        → given_up.readers < 65534
        → read_loop t timeout in_isr given_up
          ≡ some (acquired, record given_up { readers = given_up.readers + 1 }))
lock_timed_out_strands_example = lock_timed_out_strands later giving_up given_up refl refl run-later
