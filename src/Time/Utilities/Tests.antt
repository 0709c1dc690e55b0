-- ===== src/Time/Utilities/Tests.antt =====
-- A trigger at concrete times.
use bare_metal_rtos.Base.{ℕ, ◌≡◌, some, List, [], ◌∷◌, arith, length}
use bare_metal_rtos.Base.Int.{ℤ, pos}
use bare_metal_rtos.Time.Utilities.{PeriodicTrigger}
use bare_metal_rtos.Time.Utilities.Triggers.{poll_all, IsOnSchedule, poll_all-IsOnSchedule}

abbrev every_five : PeriodicTrigger
every_five = record { next = pos 5; period = 5 }

abbrev times : List ℤ
times = pos 3 ∷ pos 12 ∷ pos 12 ∷ pos 13 ∷ []

poll_all-IsOnSchedule_example :
    (k : ℕ) × (p' : PeriodicTrigger) × (poll_all times every_five ≡ some (k, p'))
    × IsOnSchedule (pos 3) (pos 13) (length times) k every_five p'
poll_all-IsOnSchedule_example =
    poll_all-IsOnSchedule (pos 3) (pos 13) times every_five (omega arith) (omega arith)
