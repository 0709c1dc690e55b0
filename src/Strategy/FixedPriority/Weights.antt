-- ===== src/Strategy/FixedPriority/Weights.antt =====
-- Adding a task, and moving one between levels when its weight changes (priority inheritance).
use bare_metal_rtos.Strategy.RoundRobin.Turns.{Cursor}
use bare_metal_rtos.Strategy.RoundRobin.Joining.{same-le}
use bare_metal_rtos.Strategy.FixedPriority.Levels.Addition.{sleep-add_active, tasks-add_active}
use bare_metal_rtos.Strategy.FixedPriority.Levels.Removal.{
  sleep-remove_active, tasks-remove_active, remove_active-Touched,
}
use bare_metal_rtos.Base.{
  refl, update_other, update_same, fun_ext, count-nil, dec_lt, erase, ℕ_discrete, ℕ, zero, suc, ◌+◌,
  ◌≡◌, ◌≤◌, ◌<◌, arith, ap, sym, ◌∙◌, subst, [], ◌∷◌, ◌++◌, some, count, counting, inl, inr, ◌⊎◌,
  update, true,
}
use bare_metal_rtos.Strategy.FixedPriority.{
  FixedPriority, priority, add_active, remove_active, add_task, on_task_weight_change,
  is_unlinked_below,
}
use bare_metal_rtos.Strategy.FixedPriority.Validity.{IsValid, Touched-IsValid}
use bare_metal_rtos.Strategy.FixedPriority.Events.{
  count-remove_active, used_level, join-IsValid, resleep-IsValid,
}

module _ (max_priorities : ℕ) (small : max_priorities ≤ 32) where
  -- A task that is at `p` and not asleep can be taken out and counted as asleep.
  moved_out :
      (t prio : ℕ) (s : FixedPriority)
      → IsValid max_priorities s
      → 0 < count t (s.tasks prio)
      → IsValid max_priorities
          (record (remove_active t prio s) { sleep = t ∷ (remove_active t prio s).sleep })
  moved_out t prio s v l =
      let k =
        remove_active-Touched max_priorities t prio s v
          (omega (arith, used_level max_priorities small t prio s v l)) l in
      Touched-IsValid max_priorities prio s _ (used_level max_priorities small t prio s v l) v
        (record {
          cursor = k.cursor;
          other_tasks = k.other_tasks;
          other_prev = k.other_prev;
          other_bits = k.other_bits;
          own_bit = k.own_bit;
          still_word = k.still_word;
        })
        (λ u. omega (
          counting,
          count-remove_active max_priorities small u t prio s v l,
          ap (count u) (sleep-remove_active t prio s),
        ))

  weight_change_inv :
      (t weight old_weight : ℕ) (s s' : FixedPriority)
      → count t s.sleep ≡ 0
      → on_task_weight_change max_priorities t weight old_weight s ≡ some s'
      → (priority weight < max_priorities)
        × (0 < count t (s.tasks (priority old_weight)))
        × (s' ≡ add_active t weight (remove_active t (priority old_weight) s))
  unfolding on_task_weight_change
  weight_change_inv t weight old s s' z h = ground arith

  -- With at most 32 levels, OnTaskWeightChange() whose assertions hold, of a task that does not sleep, keeps
  -- a valid strategy valid, takes the task out of its old level and puts it at the end of its new one, also
  -- where the two are the same level: then the task goes to the end of the level's list. No other level
  -- changes, nor who sleeps.
  pub on_task_weight_change-IsValid :
      (t weight old_weight : ℕ) (s s' : FixedPriority)
      → IsValid max_priorities s
      → count t s.sleep ≡ 0
      → on_task_weight_change max_priorities t weight old_weight s ≡ some s'
      → let left = update s.tasks (priority old_weight) (erase t (s.tasks (priority old_weight))) in
        IsValid max_priorities s'
        × ((q : ℕ)
            → s'.tasks q ≡ update left (priority weight) (left (priority weight) ++ t ∷ []) q)
        × (s'.sleep ≡ s.sleep)
  on_task_weight_change-IsValid t weight old s s' v z h =
      let (lt, l, e) = weight_change_inv t weight old s s' z h in
      let r : FixedPriority = remove_active t (priority old) s in
      let left : (q : ℕ)
          → r.tasks q ≡ update s.tasks (priority old) (erase t (s.tasks (priority old))) q =
        λ q. tasks-remove_active t (priority old) q s in
      rw e (
        join-IsValid max_priorities small t weight r (moved_out t (priority old) s v l) lt,
        (λ q.
            tasks-add_active t weight q r
            ∙ ap (λ f. update f (priority weight) (f (priority weight) ++ t ∷ []) q)
                (fun_ext left)),
        sleep-add_active t weight r ∙ sleep-remove_active t (priority old) s,
      )

  unlinked_below :
      (t n p : ℕ) (s : FixedPriority)
      → is_unlinked_below max_priorities t n s ≡ true
      → (count t s.sleep ≡ 0) × (p < n → count t (s.tasks p) ≡ 0)
  unfolding is_unlinked_below
  unlinked_below t zero p s h = (ground arith, λ l. absurd (omega arith))
  unlinked_below t (suc n) p s h =
      let (z, below) = unlinked_below t n p s (ground arith) in
      let here : count t (s.tasks n) ≡ 0 = ground arith in
      (
        z,
        λ l. elim (ℕ_discrete p n) [
          | yes e ↦ subst (λ k. count t (s.tasks k) ≡ 0) (sym e) here
          | no ne ↦ below (omega arith)
        ],
      )

  add_task_inv :
      (t weight : ℕ) (s s' : FixedPriority)
      → add_task max_priorities t weight s ≡ some s'
      → (is_unlinked_below max_priorities t max_priorities s ≡ true)
        × (priority weight < max_priorities)
        × ((s' ≡ add_active t weight s)
            ⊎ (s' ≡ record (add_active t weight s) {
              prev = update (add_active t weight s).prev (priority weight) (some t);
            }))
  unfolding add_task
  add_task_inv t weight s s' h = ground arith

  cursor_to_new :
      (t weight : ℕ) (s : FixedPriority)
      → priority weight < max_priorities
      → IsValid max_priorities (add_active t weight s)
      → IsValid max_priorities (record (add_active t weight s) {
        prev = update (add_active t weight s).prev (priority weight) (some t);
      })
  cursor_to_new t weight s h v =
      let prio = priority weight in
      let r : FixedPriority = add_active t weight s in
      Touched-IsValid max_priorities prio r _ h v
        (record {
          cursor = Cursor.on t (s.tasks prio) [] (update_same r.prev prio (some t)) (
              tasks-add_active t weight prio s ∙ update_same s.tasks prio (s.tasks prio ++ t ∷ []));
          other_tasks = λ q ne. refl;
          other_prev = λ q ne. update_other r.prev prio q (some t) (λ k. ne (sym k));
          other_bits = λ q ne k. refl;
          own_bit = v.ready prio (omega arith);
          still_word = v.word;
        })
        (λ u. omega arith)

  -- AddTask() keeps the strategy valid.
  pub add_task-IsValid :
      (t weight : ℕ) (s s' : FixedPriority)
      → IsValid max_priorities s
      → add_task max_priorities t weight s ≡ some s'
      → IsValid max_priorities s'
  add_task-IsValid t weight s s' v h =
      let (free, lt, e) = add_task_inv t weight s s' h in
      let absent : (p : ℕ) → count t (s.tasks p) ≡ 0 = (λ p. elim (dec_lt p max_priorities) [
        | yes l ↦ (unlinked_below t max_priorities p s free).1 l
        | no n ↦ ap (count t) (v.unused p (omega arith)) ∙ count-nil t
      ]) in
      let awake = (unlinked_below t max_priorities 0 s free).0 in
      let added =
        join-IsValid max_priorities small t weight s
          (resleep-IsValid max_priorities s (t ∷ s.sleep) v (λ u p q ne. omega (
            counting,
            same-le t u (count u (s.tasks p) + count u (s.tasks q) + count u s.sleep)
                (λ k.
                  subst (λ w. count w (s.tasks p) + count w (s.tasks q) + count w s.sleep ≡ 0) k
                    (omega (arith, absent p, absent q)))
                (v.apart u p q ne),
          )))
          lt in
      elim e [ inl f ↦ rw f added | inr f ↦ rw f (cursor_to_new t weight s lt added) ]
