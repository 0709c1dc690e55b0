-- ===== src/Kernel/Adding.antt =====
-- Adding tasks to the kernel of stk/include/stk.h before its start.
use bare_metal_rtos.Kernel.CallSlots.{and_then_inv}
use bare_metal_rtos.Kernel.Calls.{allocate_and_add_new_task, free_from}
use bare_metal_rtos.Kernel.Start.{init}
use bare_metal_rtos.Kernel.Machine.{with_strategy, with_task, Kernel}
use bare_metal_rtos.Kernel.Slots.{Coherent-with_task, Coherent, Slot}
use bare_metal_rtos.Kernel.Strategy.{IsSleepAware, Strategy}
use bare_metal_rtos.Kernel.Task.{is_busy, free_slot, bind, KernelTask}
use bare_metal_rtos.Base.{
  update_other, update_same, same_refl, same-ne, some_eq, none, refl, inr, subst, Bool-cases, inl,
  sym, ◌∙◌, ap, arith, ◌⊎◌, some, ◌<◌, ◌≢◌, ◌≤◌, Option, false, ◌+◌, ◌≡◌, ℕ, zero, suc,
}

free_lem :
    (t : KernelTask) {a b : ℕ}
    → Slot t a b
    → is_busy t ≡ false
    → (t ≡ free_slot) × (a ≡ 0) × (b ≡ 0)
free_lem t (Slot.unused e p q) h = (e, p, q)
free_lem t (Slot.runnable n p q e) h = absurd (n (ground arith))
free_lem t (Slot.dormant n p q e f) h = absurd (n (ground arith))

module _ {S : Type 0} {o : Strategy S} (law : IsSleepAware o) (tasks_max : ℕ) where
  pub init-Coherent : (s : S) → law.valid s → o.get_size s ≡ 0 → Coherent law tasks_max (init s)
  init-Coherent s v e = record {
    valid = v;
    slots = λ u h. let z = law.empty s u v e in Slot.unused refl (omega arith) (omega arith);
    outside = λ u h. law.empty s u v e;
  }

  module _ (stack_of : ℕ → ℕ) where
    free_from_lem :
        (n i user_task j : ℕ) (new_task : Option ℕ) (tasks : ℕ → KernelTask)
        → free_from o tasks_max stack_of n i user_task new_task tasks ≡ some j
        → (new_task ≡ some j) ⊎ ((i ≤ j) × (j < i + n) × (is_busy (tasks j) ≡ false))
    unfolding free_from
    free_from_lem zero i u j new tasks h = inl h
    free_from_lem (suc n) i u j (some m) tasks h =
        ground (arith, free_from_lem n (suc i) u j (some m) tasks)
    free_from_lem (suc n) i u j none tasks h = elim (Bool-cases (is_busy (tasks i))) [
      | inl z ↦ ground (arith, free_from_lem n (suc i) u j none tasks)
      | inr z ↦ ground (arith, free_from_lem n (suc i) u j (some i) tasks)
    ]

    -- AddTask() before the start whose assertions hold keeps the agreement, and binds the task to a slot that was free.
    pub allocate_and_add_new_task-Coherent :
        (user_task : ℕ) (k k' : Kernel S)
        → Coherent law tasks_max k
        → user_task ≢ 0
        → allocate_and_add_new_task o tasks_max stack_of user_task k ≡ some k'
        → Coherent law tasks_max k'
          × ((i : ℕ) × (i < tasks_max)
              × (k.tasks i ≡ free_slot)
              × ((k'.tasks i).user ≡ user_task)
              × ((u : ℕ) → i ≢ u → k'.tasks u ≡ k.tasks u))
    unfolding allocate_and_add_new_task bind
    allocate_and_add_new_task-Coherent u k k' c n h =
        let (i, x, y) = and_then_inv _ _ h in
        let (s, e, z) = and_then_inv _ _ y in
        let (inside, idle) = fresh i x in
        let (f, p, q) = free_lem (k.tasks i) (c.slots i inside) idle in
        let (s', e', v, a, b) = law.adds i k.strategy c.valid (omega (arith, p, q)) in
        let k1 : S → Kernel S = λ w. with_task o (with_strategy o k w) i (bind u (k.tasks i)) in
        let same : k1 s' ≡ k' = ap k1 (some_eq (sym e' ∙ e)) ∙ some_eq z in
        let keeps =
          Coherent-with_task law tasks_max k i s' (bind u (k.tasks i)) c inside v
            (λ w ne. (omega (arith, a w, same-ne ne), sym (b w)))
            (Slot.runnable n (omega (arith, a i, p, same_refl i)) (omega (arith, b i, q))
              (rw f refl)) in
        subst
          (λ m.
            Coherent law tasks_max m
            × ((j : ℕ) × (j < tasks_max)
                × (k.tasks j ≡ free_slot)
                × ((m.tasks j).user ≡ u)
                × ((w : ℕ) → j ≢ w → m.tasks w ≡ k.tasks w)))
          same
          (
            keeps,
            (
              i,
              inside,
              f,
              rw (update_same k.tasks i (bind u (k.tasks i))) refl,
              λ w ne. update_other k.tasks i w (bind u (k.tasks i)) ne,
            ),
          )
      where
        fresh :
            (i : ℕ)
            → free_from o tasks_max stack_of tasks_max 0 u none k.tasks ≡ some i
            → (i < tasks_max) × (is_busy (k.tasks i) ≡ false)
        fresh i x = elim (free_from_lem tasks_max 0 u i none k.tasks x) [
          | inl z ↦ absurd (ground arith)
          | inr (p, q, b) ↦ (omega arith, b)
        ]
