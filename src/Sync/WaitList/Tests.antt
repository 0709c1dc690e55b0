-- ===== src/Sync/WaitList/Tests.antt =====
-- Timeouts of concrete tasks.
use bare_metal_rtos.Base.{◌≡◌, refl, false, List, [], ◌∷◌, arith}
use bare_metal_rtos.Base.Int.{pos, ◌-ℤ◌}
use bare_metal_rtos.Sync.WaitList.{Waiter, tick, tick_waiter, wait_infinite}
use bare_metal_rtos.Sync.WaitList.Ticks.{tick_regroup, Regroups, AllWaiting}

-- Task 4 waits for 3 ticks, task 5 for ever, task 6 for 8 ticks.
abbrev waiting : List Waiter
waiting =
    record { tid = 4; time_wait = pos 3; timeout = false }
    ∷ record { tid = 5; time_wait = wait_infinite; timeout = false }
    ∷ record { tid = 6; time_wait = pos 8; timeout = false }
    ∷ []

tick_five : (tick 5 waiting).0 ≡ 4 ∷ []
unfolding tick tick_waiter ◌-ℤ◌
tick_five = refl

waiting-AllWaiting : AllWaiting waiting
waiting-AllWaiting = (
  record { positive = omega arith; int32 = omega arith; running = refl },
  (
    record { positive = omega arith; int32 = omega arith; running = refl },
    (record { positive = omega arith; int32 = omega arith; running = refl }, tt),
  ),
)

tick_regroup_example : Regroups 2 6 waiting
tick_regroup_example = tick_regroup 2 6 waiting waiting-AllWaiting
