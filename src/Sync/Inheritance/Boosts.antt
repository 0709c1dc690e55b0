-- ===== src/Sync/Inheritance/Boosts.antt =====
-- What a boost is worth: the highest weight among the waiting tasks.
use bare_metal_rtos.Base.{ℕ, ◌≡◌, arith, some, List, [], ◌∷◌, if◌then◌else◌}
use bare_metal_rtos.Base.Int.{ℤ, pos, ◌≤ℤ◌, ◌<ℤ◌, ltb_ℤ}
use bare_metal_rtos.Sync.WaitList.{Waiter, no_weight, find_weight_higher_than, max_weight}
use bare_metal_rtos.Sync.Inheritance.{get_weight, inherit_weight, restore_weight}

-- No waiting task has a weight above `m`.
abbrev pub NoneAbove : (ℕ → ℤ) → ℤ → List Waiter → Type 0
NoneAbove base m [] = Unit {0}
NoneAbove base m (w ∷ ws) = (base w.tid ≤ℤ m) × NoneAbove base m ws

module _ (base : ℕ → ℤ) where
  NoneAbove-mono : (m n : ℤ) (ws : List Waiter) → m ≤ℤ n → NoneAbove base m ws → NoneAbove base n ws
  NoneAbove-mono m n [] h k = tt
  NoneAbove-mono m n (w ∷ ws) h k = (omega arith, NoneAbove-mono m n ws h k.1)

  -- The maximum is at least the start and every weight.
  max_weight-NoneAbove :
      (m : ℤ) (ws : List Waiter)
      → (m ≤ℤ max_weight base m ws) × NoneAbove base (max_weight base m ws) ws
  unfolding max_weight
  max_weight-NoneAbove m [] = (omega arith, tt)
  max_weight-NoneAbove m (w ∷ ws) =
      let r = max_weight-NoneAbove (if ltb_ℤ m (base w.tid) then base w.tid else m) ws in
      (ground (arith, r.0), (ground (arith, r.0), r.1))

  -- The maximum is no more than a bound of the start and of every weight.
  max_weight-le :
      (m n : ℤ) (ws : List Waiter) → m ≤ℤ n → NoneAbove base n ws → max_weight base m ws ≤ℤ n
  unfolding max_weight
  max_weight-le m n [] h k = h
  max_weight-le m n (w ∷ ws) h k =
      max_weight-le (if ltb_ℤ m (base w.tid) then base w.tid else m) n ws (ground arith) k.1

  -- There is nothing higher than a bound of all weights.
  pub find_none_higher :
      (comp : ℤ) (ws : List Waiter)
      → no_weight ≤ℤ comp
      → NoneAbove base comp ws
      → find_weight_higher_than base comp ws ≡ no_weight
  unfolding find_weight_higher_than
  find_none_higher comp ws h k = ground (arith, max_weight-le no_weight comp ws h k)

  -- RestoreWeight() with the synchronization object, as a timed out Lock() calls it: where the run-time
  -- weight of the owner is at least the weight of every task that still waits, the owner is back at its
  -- base weight, however high the weights of those tasks are.
  pub restore_weight_drops :
      (t : ℕ) (ws : List Waiter) (weights : ℕ → ℤ)
      → no_weight <ℤ get_weight base weights t
      → NoneAbove base (get_weight base weights t) ws
      → get_weight base (restore_weight base t (some ws) weights) t ≡ base t
  unfolding get_weight restore_weight
  restore_weight_drops t ws weights h k =
      ground (arith, find_none_higher (get_weight base weights t) ws, h)

  -- A task with no run-time weight and a base weight that is not negative, which inherits
  -- the highest weight above its own, has afterwards at least the weight of each waiting task.
  pub inherit_weight-NoneAbove :
      (t : ℕ) (ws : List Waiter) (weights : ℕ → ℤ)
      → weights t ≡ no_weight
      → pos 0 ≤ℤ base t
      → NoneAbove base
          (get_weight base
            (inherit_weight base t (find_weight_higher_than base (base t) ws) weights)
            t)
          ws
  unfolding get_weight inherit_weight find_weight_higher_than
  inherit_weight-NoneAbove t ws weights e z =
      let r = max_weight-NoneAbove no_weight ws in
      NoneAbove-mono (max_weight base no_weight ws) _ ws (ground (arith, r.0)) r.1
