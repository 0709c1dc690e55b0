-- ===== src/Strategy/FixedPriority/Calls.antt =====
-- The calls that reach a fixed-priority strategy, in any order.
use bare_metal_rtos.Base.{
  Bool, ℕ, ◌≡◌, ◌≤◌, ◌<◌, refl, arith, subst, Option, some, none, List, [], ◌∷◌, inl, inr,
  Option-cases, some_eq, count, counting, ℕ_discrete,
}
use bare_metal_rtos.Base.Bits.{bit-zero}
use bare_metal_rtos.Strategy.RoundRobin.Turns.{Cursor}
use bare_metal_rtos.Strategy.FixedPriority.{
  priority, FixedPriority, init, add_task, remove_task, on_task_sleep, on_task_wake,
  on_task_weight_change, get_next,
}
use bare_metal_rtos.Strategy.FixedPriority.Validity.{IsValid}
use bare_metal_rtos.Strategy.FixedPriority.Events.{
  on_task_sleep-IsValid, on_task_wake-IsValid, remove_task-IsValid,
}
use bare_metal_rtos.Strategy.FixedPriority.Weights.{add_task-IsValid, on_task_weight_change-IsValid}
use bare_metal_rtos.Strategy.FixedPriority.Select.{get_next-Selects}

-- What the kernel does to the strategy: the task, its GetWeight() and, where it is read, its
-- IsSleeping() or its old weight at the call.
pub data Call : Type 0 where
  adds removes : ℕ → ℕ → Call
  sleeps wakes : ℕ → ℕ → Bool → Call
  changes : ℕ → ℕ → ℕ → Call
  next : Call

module _ (max_priorities : ℕ) where
  -- A task that wakes has a priority below MAX_PRIORITIES, which OnTaskWake() does not check.
  abbrev pub Fits : Call → Type 0
  Fits (wakes t weight asleep) = priority weight < max_priorities
  Fits (adds t weight) = Unit {0}
  Fits (removes t weight) = Unit {0}
  Fits (sleeps t weight asleep) = Unit {0}
  Fits (changes t weight old) = Unit {0}
  Fits next = Unit {0}

  abbrev pub AllFit : List Call → Type 0
  AllFit [] = Unit {0}
  AllFit (c ∷ cs) = Fits c × AllFit cs

  unfoldable pub perform : Call → FixedPriority → Option FixedPriority
  perform (adds t weight) s = add_task max_priorities t weight s
  perform (removes t weight) s = remove_task max_priorities t weight s
  perform (sleeps t weight asleep) s = on_task_sleep max_priorities t weight asleep s
  perform (wakes t weight asleep) s = on_task_wake max_priorities t weight asleep s
  perform (changes t weight old) s = on_task_weight_change max_priorities t weight old s
  perform next s = elim (get_next s) [ none ↦ none | some (t, s') ↦ some s' ]

  -- The calls in order, up to a failed assertion.
  unfoldable pub perform_all : List Call → FixedPriority → Option FixedPriority
  perform_all [] s = some s
  perform_all (c ∷ cs) s = elim (perform c s) [ none ↦ none | some s' ↦ perform_all cs s' ]

pub init-IsValid : (max_priorities : ℕ) → IsValid max_priorities init
unfolding init
init-IsValid m = record {
  level = λ p. Cursor.idle refl refl;
  ready = λ p l. bit-zero p;
  word = omega arith;
  unused = λ p l. refl;
  apart = λ u p q ne. omega counting;
}

module _ (max_priorities : ℕ) (small : max_priorities ≤ 32) where
  -- A task that sleeps stays where it is when its weight changes.
  asleep_kept :
      (t weight old : ℕ) (s s' : FixedPriority)
      → 0 < count t s.sleep
      → on_task_weight_change max_priorities t weight old s ≡ some s'
      → s ≡ s'
  unfolding on_task_weight_change
  asleep_kept t weight old s s' l h = ground arith

  next_kept :
      (s s' : FixedPriority)
      → IsValid max_priorities s
      → perform max_priorities next s ≡ some s'
      → IsValid max_priorities s'
  unfolding perform
  next_kept s s' v h = elim (get_next-Selects max_priorities s v small) [
    | inl (e, k) ↦ subst (IsValid max_priorities) (ground arith) v
    | inr (p, t, m, k, r) ↦ subst (IsValid max_priorities) (ground arith) r.keeps
  ]

  perform-IsValid :
      (c : Call) (s s' : FixedPriority)
      → IsValid max_priorities s
      → Fits max_priorities c
      → perform max_priorities c s ≡ some s'
      → IsValid max_priorities s'
  unfolding perform
  perform-IsValid (adds t w) s s' v f h = add_task-IsValid max_priorities small t w s s' v h
  perform-IsValid (removes t w) s s' v f h = remove_task-IsValid max_priorities small t w s s' v h
  perform-IsValid (sleeps t w a) s s' v f h =
      (on_task_sleep-IsValid max_priorities small t w a s s' v h).0
  perform-IsValid (wakes t w a) s s' v f h =
      (on_task_wake-IsValid max_priorities small t w a s s' v f h).0
  perform-IsValid (changes t w old) s s' v f h = elim (ℕ_discrete (count t s.sleep) 0) [
    | yes z ↦ (on_task_weight_change-IsValid max_priorities small t w old s s' v z h).0
    | no n ↦ subst (IsValid max_priorities) (asleep_kept t w old s s' (omega arith) h) v
  ]
  perform-IsValid next s s' v f h = next_kept s s' v h

  -- With at most 32 levels, every sequence of calls whose assertions hold, in which a task wakes only
  -- with a priority below MAX_PRIORITIES, leads from a valid strategy to a valid one: the ready bitmap tells exactly which levels have
  -- a task, the cursor of a level is null exactly if the level is empty and else stands on one of its
  -- tasks, and no task is in two places.
  pub perform_all-IsValid :
      (cs : List Call) (s s' : FixedPriority)
      → IsValid max_priorities s
      → AllFit max_priorities cs
      → perform_all max_priorities cs s ≡ some s'
      → IsValid max_priorities s'
  unfolding perform_all
  perform_all-IsValid [] s s' v f h = subst (IsValid max_priorities) (some_eq h) v
  perform_all-IsValid (c ∷ cs) s s' v f h = elim (Option-cases (perform max_priorities c s)) [
    | inl stop ↦ ground arith
    | inr (m, more) ↦
        perform_all-IsValid cs m s' (perform-IsValid c s m v f.0 more) f.1 (ground arith)
  ]
