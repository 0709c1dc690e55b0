-- ===== src/Strategy/Edf/Tests.antt =====
-- The earliest-deadline-first strategy on concrete tasks.
use bare_metal_rtos.Base.{ℕ, ◌≡◌, refl, some, none, [], ◌∷◌, ◌⊎◌, if◌then◌else◌, ◌==◌}
use bare_metal_rtos.Base.Int.{ℤ, pos, negsuc}
use bare_metal_rtos.Strategy.Edf.{Edf, get_next, scan}
use bare_metal_rtos.Strategy.Edf.Earliest.{get_next-IsEarliest, IsEarliest}

-- Task 2 is late, tasks 1 and 4 have the same deadline.
abbrev deadline : ℕ → ℤ
deadline t = if t == 2 then negsuc 2 else if t == 3 then pos 9 else pos 7

abbrev four : Edf
four = record { tasks = 1 ∷ 3 ∷ 2 ∷ 4 ∷ []; sleep = [] }

get_next-four : get_next deadline four ≡ some 2
unfolding get_next scan
get_next-four = refl

get_next-IsEarliest_example :
    ((four.tasks ≡ []) × (get_next deadline four ≡ none))
    ⊎ ((t : ℕ) × (get_next deadline four ≡ some t) × IsEarliest deadline four.tasks t)
get_next-IsEarliest_example = get_next-IsEarliest deadline four
