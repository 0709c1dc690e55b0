-- ===== src/Kernel/Strategy.antt =====
-- ITaskSwitchStrategy of stk/include/stk_common.h, as the kernel uses it: the operations, and what a strategy
-- with SLEEP_EVENT_API promises. A task is the index of its slot. The boolean is the task's IsSleeping().
use bare_metal_rtos.Base.{
  ℕ, ◌+◌, ◌≡◌, ◌≢◌, ◌≤◌, ◌<◌, Bool, true, false, Option, none, some, List, ◌⊎◌, count, same,
}

pub record Strategy (S : Type 0) : Type 0 where
  pub add_task : ℕ → S → Option S
  pub remove_task : ℕ → S → Option S
  pub get_next : S → Option (Option ℕ × S)
  pub get_first : S → Option ℕ
  pub get_size : S → ℕ
  pub on_task_sleep : ℕ → Bool → S → Option S
  pub on_task_wake : ℕ → Bool → S → Option S

-- The task `t` is taken out of the list `was`, or put into it.
abbrev pub Loses : ℕ → List ℕ → List ℕ → Type 0
Loses t was now = (u : ℕ) → count u was ≡ same t u + count u now

abbrev pub SameTasks : List ℕ → List ℕ → Type 0
SameTasks was now = (u : ℕ) → count u was ≡ count u now

pub record IsSleepAware {S : Type 0} (o : Strategy S) : Type 1 where
  pub valid : S → Type 0
  pub awake : S → List ℕ
  pub asleep : S → List ℕ
  -- the strategy as it is constructed has no task
  pub initial : S
  pub initial_valid : valid initial
  pub initial_empty : (u : ℕ) → count u (awake initial) + count u (asleep initial) ≡ 0
  pub once : (s : S) (u : ℕ) → valid s → count u (awake s) + count u (asleep s) ≤ 1
  pub empty :
      (s : S) (u : ℕ) → valid s → o.get_size s ≡ 0 → count u (awake s) + count u (asleep s) ≡ 0
  pub adds :
      (t : ℕ) (s : S)
      → valid s
      → count t (awake s) + count t (asleep s) ≡ 0
      → (s' : S) × (o.add_task t s ≡ some s')
        × valid s'
        × Loses t (awake s') (awake s)
        × SameTasks (asleep s) (asleep s')
  pub removes :
      (t : ℕ) (s : S)
      → valid s
      → 0 < count t (awake s) + count t (asleep s)
      → (s' : S) × (o.remove_task t s ≡ some s')
        × valid s'
        × ((u : ℕ) → count u (awake s') ≤ count u (awake s))
        × ((u : ℕ) → count u (asleep s') ≤ count u (asleep s))
        × ((u : ℕ)
            → count u (awake s) + count u (asleep s)
              ≡ same t u + (count u (awake s') + count u (asleep s')))
  pub sleeps :
      (t : ℕ) (s : S)
      → valid s
      → 0 < count t (awake s)
      → (s' : S) × (o.on_task_sleep t true s ≡ some s')
        × valid s'
        × Loses t (awake s) (awake s')
        × Loses t (asleep s') (asleep s)
  pub wakes :
      (t : ℕ) (s : S)
      → valid s
      → 0 < count t (asleep s)
      → (s' : S) × (o.on_task_wake t false s ≡ some s')
        × valid s'
        × Loses t (awake s') (awake s)
        × Loses t (asleep s) (asleep s')
  pub selects :
      (s : S)
      → valid s
      → (next : Option ℕ) × (s' : S) × (o.get_next s ≡ some (next, s'))
        × valid s'
        × SameTasks (awake s) (awake s')
        × SameTasks (asleep s) (asleep s')
        × (((next ≡ none) × ((u : ℕ) → count u (awake s) ≡ 0))
            ⊎ ((t : ℕ) × (next ≡ some t) × (0 < count t (awake s))))
  pub first :
      (s : S)
      → valid s
      → o.get_size s ≢ 0
      → (t : ℕ) × (o.get_first s ≡ some t) × (0 < count t (awake s) + count t (asleep s))
