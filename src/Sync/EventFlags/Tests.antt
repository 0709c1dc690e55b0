-- ===== src/Sync/EventFlags/Tests.antt =====
-- Event flags through concrete calls.
use bare_metal_rtos.Base.{ℕ, ◌≡◌, refl, arith, false, some, []}
use bare_metal_rtos.Base.Int.{pos}
use bare_metal_rtos.Sync.EventFlags.{EventFlags, returns, wait, wait_loop, take, error_timeout}
use bare_metal_rtos.Sync.EventFlags.Matched.{wait_loop-Matches, Matches}
use bare_metal_rtos.Sync.EventFlags.Deadline.{wait_times_out_early}

-- Flags 1 and 3 are set.
abbrev two_set : EventFlags
two_set = record { flags = 10; cv = [] }

take_any : (take 6 0 two_set).0 ≡ 2
unfolding take
take_any = refl

wait_loop-Matches_example :
    (r : ℕ) × (s' : EventFlags) × (wait_loop 1 6 0 false (pos 0) false (pos 40) two_set
      ≡ some (returns r, s'))
    × Matches 6 0 r two_set s'
wait_loop-Matches_example =
    wait_loop-Matches 1 6 0 false false (pos 0) (pos 40) two_set refl (omega arith) (omega arith)

wait_times_out_early_example :
    wait 1 4 0 (pos 100) false (pos 2147483600) two_set ≡ some (returns error_timeout, two_set)
wait_times_out_early_example =
    wait_times_out_early 1 4 0 100 2147483600 two_set refl refl (omega arith) (omega arith)
      (omega arith) (omega arith)
