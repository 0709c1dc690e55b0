-- ===== src/Sync/Inheritance.antt =====
-- The run-time weights of tasks under priority inheritance: KernelTask::GetWeight, OnInheritWeight and
-- OnRestoreWeight of stk/include/stk.h. `base` is GetWeight() of each user task, and a run-time weight
-- of NO_WEIGHT means that there is none. The move of the task between the levels of the strategy is
-- FixedPriority.on_task_weight_change.
pub mod Boosts
pub mod Tests
use bare_metal_rtos.Base.{ℕ, Bool, Option, none, some, List, ◌==◌, if◌then◌else◌, update}
use bare_metal_rtos.Base.Int.{ℤ, ltb_ℤ}
use bare_metal_rtos.Sync.WaitList.{Waiter, eq_ℤ, no_weight, find_weight_higher_than}

module _ (base : ℕ → ℤ) where
  pub get_weight : (ℕ → ℤ) → ℕ → ℤ
  get_weight weights t = if eq_ℤ (weights t) no_weight then base t else weights t

  pub inherit_weight : ℕ → ℤ → (ℕ → ℤ) → ℕ → ℤ
  unfolding get_weight
  inherit_weight t weight weights =
      if eq_ℤ weight no_weight
      then weights
      else (if ltb_ℤ (get_weight weights t) weight then update weights t weight else weights)

  -- The list is that of the synchronization object, if one is given.
  pub restore_weight : ℕ → Option (List Waiter) → (ℕ → ℤ) → ℕ → ℤ
  unfolding get_weight
  restore_weight t sobj weights = update weights t (elim sobj [
    | none ↦ no_weight
    | some ws ↦ find_weight_higher_than base (get_weight weights t) ws
  ])
