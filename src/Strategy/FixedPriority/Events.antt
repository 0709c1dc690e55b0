-- ===== src/Strategy/FixedPriority/Events.antt =====
-- Sleeping, waking, adding and removing under the fixed-priority strategy keep it valid.
use bare_metal_rtos.Base.{
  count-erase-le, count-erase_cases, dec_lt, erase, same, update_same, ℕ, ◌+◌, ◌≡◌, ◌≢◌, ◌≤◌, ◌<◌,
  arith, ap, ◌∙◌, List, [], ◌∷◌, ◌++◌, some, count, counting, inl, inr, ◌⊎◌, Bool,
}
use bare_metal_rtos.Strategy.FixedPriority.{
  FixedPriority, priority, add_active, remove_active, on_task_sleep, on_task_wake, remove_task,
}
use bare_metal_rtos.Strategy.FixedPriority.Validity.{IsValid, Touched-IsValid}
use bare_metal_rtos.Strategy.FixedPriority.Levels.Removal.{
  remove_active-Touched, remove_active-Unlinked, sleep-remove_active, level-Distinct,
}
use bare_metal_rtos.Strategy.FixedPriority.Levels.Addition.{
  add_active-Touched, sleep-add_active, tasks-add_active,
}
use bare_metal_rtos.Strategy.RoundRobin.Invariant.{count-Unlinked}

-- The same strategy with another sleeping list is as valid, if the tasks stay apart.
pub resleep-IsValid :
    (max_priorities : ℕ) (s : FixedPriority) (sleep : List ℕ)
    → IsValid max_priorities s
    → ((u p q : ℕ) → p ≢ q → count u (s.tasks p) + count u (s.tasks q) + count u sleep ≤ 1)
    → IsValid max_priorities (record s { sleep = sleep })
resleep-IsValid m s sl v apart = record {
  level = v.level;
  ready = v.ready;
  word = v.word;
  unused = v.unused;
  apart = apart;
}

module _ (max_priorities : ℕ) (small : max_priorities ≤ 32) where
  -- A level with a task is in use.
  pub used_level :
      (t prio : ℕ) (s : FixedPriority)
      → IsValid max_priorities s
      → 0 < count t (s.tasks prio)
      → prio < max_priorities
  used_level t prio s v l = elim (dec_lt prio max_priorities) [
    | yes h ↦ h
    | no n ↦ absurd (omega (counting, ap (count t) (v.unused prio (omega arith))))
  ]

  pub count-remove_active :
      (u t prio : ℕ) (s : FixedPriority)
      → IsValid max_priorities s
      → 0 < count t (s.tasks prio)
      → count u (s.tasks prio) ≡ same t u + count u ((remove_active t prio s).tasks prio)
  count-remove_active u t prio s v l =
      count-Unlinked u t _ _
        (remove_active-Unlinked t prio s (level-Distinct max_priorities prio s v) l)

  -- Moving a task from its level to the sleeping list.
  put_to_sleep :
      (t prio : ℕ) (s : FixedPriority)
      → IsValid max_priorities s
      → 0 < count t (s.tasks prio)
      → IsValid max_priorities
          (record (remove_active t prio s) { sleep = (remove_active t prio s).sleep ++ t ∷ [] })
  put_to_sleep t prio s v l =
      let used = used_level t prio s v l in
      let k = remove_active-Touched max_priorities t prio s v (omega arith) l in
      Touched-IsValid max_priorities prio s _ used v
        (record {
          cursor = k.cursor;
          other_tasks = k.other_tasks;
          other_prev = k.other_prev;
          other_bits = k.other_bits;
          own_bit = k.own_bit;
          still_word = k.still_word;
        })
        (λ u. omega (
          counting,
          count-remove_active u t prio s v l,
          ap (count u) (sleep-remove_active t prio s),
        ))

  pub remove_active-IsValid :
      (t prio : ℕ) (s : FixedPriority)
      → IsValid max_priorities s
      → 0 < count t (s.tasks prio)
      → IsValid max_priorities (remove_active t prio s)
  remove_active-IsValid t prio s v l =
      Touched-IsValid max_priorities prio s _ (used_level t prio s v l) v
        (remove_active-Touched max_priorities t prio s v (omega (arith, used_level t prio s v l)) l)
        (λ u. omega (
          counting,
          count-remove_active u t prio s v l,
          ap (count u) (sleep-remove_active t prio s),
        ))

  -- A task that is nowhere joins its level.
  pub join-IsValid :
      (t weight : ℕ) (s : FixedPriority)
      → IsValid max_priorities (record s { sleep = t ∷ s.sleep })
      → priority weight < max_priorities
      → IsValid max_priorities (add_active t weight s)
  join-IsValid t weight s v h =
      let v' =
        resleep-IsValid max_priorities _ s.sleep v
          (λ u p q ne. omega (counting, v.apart u p q ne)) in
      let k = add_active-Touched max_priorities t weight s v' (omega arith) in
      Touched-IsValid max_priorities (priority weight) (record s { sleep = t ∷ s.sleep }) _ h v
        (record {
          cursor = k.cursor;
          other_tasks = k.other_tasks;
          other_prev = k.other_prev;
          other_bits = k.other_bits;
          own_bit = k.own_bit;
          still_word = k.still_word;
        })
        (λ u. omega (
          counting,
          ap (count u) (
              tasks-add_active t weight (priority weight) s
              ∙ update_same s.tasks (priority weight) (s.tasks (priority weight) ++ t ∷ [])),
          ap (count u) (sleep-add_active t weight s),
        ))

  on_task_sleep_inv :
      (t weight : ℕ) (asleep : Bool) (s s' : FixedPriority)
      → on_task_sleep max_priorities t weight asleep s ≡ some s'
      → (0 < count t (s.tasks (priority weight)))
        × (s' ≡ record (remove_active t (priority weight) s) {
          sleep = (remove_active t (priority weight) s).sleep ++ t ∷ [];
        })
  unfolding on_task_sleep
  on_task_sleep_inv t weight asleep s s' h = ground arith

  -- OnTaskSleep() keeps the strategy valid and puts the task at the end of the sleeping list.
  pub on_task_sleep-IsValid :
      (t weight : ℕ) (asleep : Bool) (s s' : FixedPriority)
      → IsValid max_priorities s
      → on_task_sleep max_priorities t weight asleep s ≡ some s'
      → IsValid max_priorities s' × (s'.sleep ≡ s.sleep ++ t ∷ [])
  on_task_sleep-IsValid t weight asleep s s' v h =
      let (l, e) = on_task_sleep_inv t weight asleep s s' h in
      rw e (
        put_to_sleep t (priority weight) s v l,
        ap (λ k. k ++ t ∷ []) (sleep-remove_active t (priority weight) s),
      )

  on_task_wake_inv :
      (t weight : ℕ) (asleep : Bool) (s s' : FixedPriority)
      → on_task_wake max_priorities t weight asleep s ≡ some s'
      → (0 < count t s.sleep) × (s' ≡ add_active t weight (record s { sleep = erase t s.sleep }))
  unfolding on_task_wake
  on_task_wake_inv t weight asleep s s' h = ground arith

  -- OnTaskWake() of a task with a priority below MAX_PRIORITIES keeps the strategy valid and takes the
  -- task from the sleeping list to the end of its level.
  pub on_task_wake-IsValid :
      (t weight : ℕ) (asleep : Bool) (s s' : FixedPriority)
      → IsValid max_priorities s
      → priority weight < max_priorities
      → on_task_wake max_priorities t weight asleep s ≡ some s'
      → IsValid max_priorities s'
        × (s'.sleep ≡ erase t s.sleep)
        × (s'.tasks (priority weight) ≡ s.tasks (priority weight) ++ t ∷ [])
  on_task_wake-IsValid t weight asleep s s' v h e =
      let (l, f) = on_task_wake_inv t weight asleep s s' e in
      let rest : FixedPriority = record s { sleep = erase t s.sleep } in
      rw f (
        join-IsValid t weight rest
            (resleep-IsValid max_priorities s (t ∷ erase t s.sleep) v
              (λ u p q ne. omega (counting, v.apart u p q ne, count-erase_cases t u s.sleep l)))
            h,
        sleep-add_active t weight rest,
        tasks-add_active t weight (priority weight) rest
            ∙ update_same s.tasks (priority weight) (s.tasks (priority weight) ++ t ∷ []),
      )

  remove_task_inv :
      (t weight : ℕ) (s s' : FixedPriority)
      → remove_task max_priorities t weight s ≡ some s'
      → ((0 < count t s.sleep) × (s' ≡ record s { sleep = erase t s.sleep }))
        ⊎ ((0 < count t (s.tasks (priority weight))) × (s' ≡ remove_active t (priority weight) s))
  unfolding remove_task
  remove_task_inv t weight s s' h = ground arith

  -- RemoveTask() keeps the strategy valid.
  pub remove_task-IsValid :
      (t weight : ℕ) (s s' : FixedPriority)
      → IsValid max_priorities s
      → remove_task max_priorities t weight s ≡ some s'
      → IsValid max_priorities s'
  remove_task-IsValid t weight s s' v h = elim (remove_task_inv t weight s s' h) [
    | inl (l, e) ↦ rw e (
        resleep-IsValid max_priorities s (erase t s.sleep) v
          (λ u p q ne. omega (arith, v.apart u p q ne, count-erase-le t u s.sleep)))
    | inr (l, e) ↦ rw e (remove_active-IsValid t (priority weight) s v l)
  ]
