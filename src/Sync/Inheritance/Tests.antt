-- ===== src/Sync/Inheritance/Tests.antt =====
-- Priority inheritance among concrete tasks.
use bare_metal_rtos.Base.{ℕ, ◌≡◌, refl, false, some, List, [], ◌∷◌, arith, if◌then◌else◌, ◌==◌}
use bare_metal_rtos.Base.Int.{ℤ, pos}
use bare_metal_rtos.Sync.WaitList.{Waiter, no_weight, wait_infinite}
use bare_metal_rtos.Sync.Inheritance.{get_weight, restore_weight}
use bare_metal_rtos.Sync.Inheritance.Boosts.{restore_weight_drops}

-- Task 1 owns, task 2 waits with weight 5; a task of weight 9 has timed out.
abbrev base : ℕ → ℤ
base t = if t == 1 then pos 1 else if t == 2 then pos 5 else pos 9

abbrev waiting : List Waiter
waiting = record { tid = 2; time_wait = wait_infinite; timeout = false } ∷ []

abbrev boosted : ℕ → ℤ
boosted t = if t == 1 then pos 9 else no_weight

boosted_weight : get_weight base boosted 1 ≡ pos 9
unfolding get_weight
boosted_weight = refl

restore_weight_drops_example :
    get_weight base (restore_weight base 1 (some waiting) boosted) 1 ≡ base 1
restore_weight_drops_example =
    restore_weight_drops base 1 waiting boosted (rw boosted_weight (omega arith))
      (rw boosted_weight (omega arith, tt))
