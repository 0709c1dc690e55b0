-- ===== src/Strategy/SmoothWeighted/Tests.antt =====
-- The smooth weighted strategy on three tasks with the weights 5, 1 and 1.
use bare_metal_rtos.Base.{
  ℕ, ◌≡◌, ◌<◌, arith, some, none, [], ◌∷◌, ◌⊎◌, count, ◌==◌, if◌then◌else◌, Distinct,
}
use bare_metal_rtos.Base.Int.{ℤ, pos, ◌+ℤ◌, ◌<ℤ◌}
use bare_metal_rtos.Strategy.SmoothWeighted.{SmoothWeighted, get_next, int32_min}
use bare_metal_rtos.Strategy.SmoothWeighted.Selection.{candidate}
use bare_metal_rtos.Strategy.SmoothWeighted.Winner.{get_next-Wins, Wins}

abbrev weights : ℕ → ℤ
weights t = if t == 1 then pos 5 else pos 1

abbrev three : SmoothWeighted
three = record { tasks = 1 ∷ 2 ∷ 3 ∷ []; sleep = []; total_weight = pos 7; current = λ t. pos 0 }

three-Distinct : Distinct three.tasks
unfolding count
three-Distinct u = ground arith

three_above : (u : ℕ) → 0 < count u three.tasks → int32_min <ℤ candidate weights three.current u
unfolding ◌+ℤ◌
three_above u h = ground arith

get_next-Wins_example :
    ((three.tasks ≡ []) × (get_next weights three ≡ some (none, three)))
    ⊎ ((n : ℕ) × (s' : SmoothWeighted) × (get_next weights three ≡ some (some n, s'))
        × Wins weights three s' n)
get_next-Wins_example = get_next-Wins weights three three-Distinct three_above
