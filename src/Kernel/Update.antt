-- ===== src/Kernel/Update.antt =====
-- The round of the loop of UpdateTaskState() for one slot, stk/include/stk.h.
use bare_metal_rtos.Kernel.Passed.{Passed, sleeping_busy, cleared}
use bare_metal_rtos.Base.Int.{pos, ◌+ℤ◌}
use bare_metal_rtos.Kernel.Machine.{
  is_removed, advance_sleep, deliver_wake, update_task, with_strategy, with_task, deliver_sleep,
  Kernel, remove_task,
}
use bare_metal_rtos.Kernel.Slots.{Coherent-with_task, Coherent, ticked, Slot}
use bare_metal_rtos.Kernel.Strategy.{IsSleepAware, Strategy}
use bare_metal_rtos.Kernel.Task.{free_slot, unbind, is_sleeping, KernelTask}
use bare_metal_rtos.Base.{
  subst, ◌&&◌, inl, inr, Bool-cases, ◌∙◌, refl, sym, update_same, update_other, same_refl, count,
  false, same-ne, ap, arith, some, ◌+◌, ◌<◌, same, true, ◌⊎◌, ◌≢◌, ◌≡◌, Bool, ℕ,
}

module _ {S : Type 0} {o : Strategy S} (law : IsSleepAware o) (tasks_max : ℕ) where
  -- The kernel `k'` differs from `k` in the slot `i` and in the strategy.
  pub record Step (i : ℕ) (k k' : Kernel S) : Type 0 where
    pub keeps : Coherent law tasks_max k'
    pub now : k'.task_now ≡ k.task_now
    pub state : k'.fsm_state ≡ k.fsm_state
    pub others : (u : ℕ) → i ≢ u → k'.tasks u ≡ k.tasks u

  lost : (i u : ℕ) (n m : ℕ) → i ≢ u → n ≡ same i u + m → m ≡ n
  lost i u n m ne e = omega (arith, e, same-ne ne)

  pub deliver_sleep_lem :
      (i : ℕ) (k : Kernel S)
      → Coherent law tasks_max k
      → i < tasks_max
      → is_sleeping (k.tasks i) ≡ true
      → (k' : Kernel S) × (deliver_sleep o i k ≡ some k')
        × Step i k k'
        × (k'.tasks i ≡ record (k.tasks i) { sleep_pending = false })
        × (count i (law.asleep k'.strategy) ≡ 1)
  unfolding deliver_sleep
  deliver_sleep_lem i k c h z = elim (c.slots i h) [
    | Slot.unused e p q ↦ absurd (let y = ap is_sleeping e in cc)
    | Slot.dormant n p q e f ↦ (
      k,
      rw f,
      record { keeps = c; now = refl; state = refl; others = λ u ne. refl },
      cleared (k.tasks i) f,
      q,
    )
    | Slot.runnable n p q e ↦
        let (s', y, v, l, m) = law.sleeps i k.strategy c.valid (omega (arith, p)) in
        let t = record (k.tasks i) { sleep_pending = false } in
        let r : count i (law.asleep s') ≡ 1 = omega (arith, m i, q, same_refl i) in
        (
          with_task o (with_strategy o k s') i t,
          rw (sym e, z, y),
          record {
            keeps =
                Coherent-with_task law tasks_max k i s' t c h v
                  (λ u ne. (lost i u _ _ ne (l u), omega (arith, m u, same-ne ne)))
                  (Slot.dormant n (omega (arith, l i, p, same_refl i)) r z refl);
            now = refl;
            state = refl;
            others = λ u ne. update_other k.tasks i u t ne;
          },
          update_same k.tasks i t,
          rw r,
        )
  ]

  remove_task_lem :
      (i : ℕ) (k : Kernel S)
      → Coherent law tasks_max k
      → i < tasks_max
      → is_sleeping (k.tasks i) ≡ true
      → (k' : Kernel S) × (remove_task o i k ≡ some k') × Step i k k' × (k'.tasks i ≡ free_slot)
  unfolding remove_task unbind
  remove_task_lem i k c h z =
      let (n, p) = sleeping_busy (k.tasks i) (c.slots i h) z in
      let (s', e, v, la, lb, l) = law.removes i k.strategy c.valid p in
      let t = law.once k.strategy i c.valid in
      let q : count i (law.awake s') + count i (law.asleep s') ≡ 0 =
        omega (arith, l i, same_refl i, t) in
      (
        with_task o (with_strategy o k s') i free_slot,
        rw e,
        record {
          keeps =
              Coherent-with_task law tasks_max k i s' free_slot c h v
                (λ u ne. (
                  omega (arith, l u, la u, lb u, same-ne ne),
                  omega (arith, l u, la u, lb u, same-ne ne),
                ))
                (Slot.unused refl (omega (arith, q)) (omega (arith, q)));
          now = refl;
          state = refl;
          others = λ u ne. update_other k.tasks i u free_slot ne;
        },
        update_same k.tasks i free_slot,
      )

  deliver_wake_lem :
      (i elapsed_ticks : ℕ) (k : Kernel S)
      → Coherent law tasks_max k
      → i < tasks_max
      → (k.tasks i).user ≢ 0
      → (k.tasks i).sleep_pending ≡ false
      → count i (law.asleep k.strategy) ≡ 1
      → (k' : Kernel S) × (deliver_wake o i (advance_sleep o i elapsed_ticks k) ≡ some k')
        × Step i k k'
        × (k'.tasks i
            ≡ record (k.tasks i) { time_sleep = (k.tasks i).time_sleep +ℤ pos elapsed_ticks })
  unfolding deliver_wake advance_sleep
  deliver_wake_lem i w k c h n f q = elim (Bool-cases (is_sleeping t)) [
    | inl z ↦ (
      with_task o k i t,
      rw (update_same k.tasks i t, z),
      record {
        keeps =
            Coherent-with_task law tasks_max k i k.strategy t c h c.valid (λ u ne. (refl, refl))
              (Slot.dormant n (omega (arith, q, law.once k.strategy i c.valid)) q z f);
        now = refl;
        state = refl;
        others = λ u ne. update_other k.tasks i u t ne;
      },
      update_same k.tasks i t,
    )
    | inr z ↦
        let (s', y, v, l, m) = law.wakes i k.strategy c.valid (omega (arith, q)) in
        let r : count i (law.awake s') ≡ 1 =
          omega (arith, l i, q, law.once k.strategy i c.valid, same_refl i) in
        (
          with_task o (with_strategy o k s') i t,
          rw (update_same k.tasks i t, z, y),
          record {
            keeps =
                Coherent-with_task law tasks_max k i s' t c h v
                  (λ u ne. (omega (arith, l u, same-ne ne), lost i u _ _ ne (m u)))
                  (Slot.runnable n r (omega (arith, m i, q, same_refl i)) (z ∙ sym f));
            now = refl;
            state = refl;
            others = λ u ne. update_other k.tasks i u t ne;
          },
          update_same k.tasks i t,
        )
  ]
    where
      t : KernelTask
      t = record (k.tasks i) { time_sleep = (k.tasks i).time_sleep +ℤ pos w }

  Step-trans : (i : ℕ) (k l m : Kernel S) → Step i k l → Step i l m → Step i k m
  Step-trans i k l m a b = record {
    keeps = b.keeps;
    now = b.now ∙ a.now;
    state = b.state ∙ a.state;
    others = λ u ne. b.others u ne ∙ a.others u ne;
  }

  -- The slot after the round, by whether the round removes its task.
  abbrev pub Leaves : Bool → ℕ → ℕ → Kernel S → Kernel S → Type 0
  Leaves is_dynamic i elapsed_ticks k k' =
      (((is_sleeping (k.tasks i) && is_removed o tasks_max is_dynamic i k) ≡ false)
        × (k'.tasks i ≡ ticked elapsed_ticks (k.tasks i)))
      ⊎ (((is_sleeping (k.tasks i) && is_removed o tasks_max is_dynamic i k) ≡ true)
          × (k'.tasks i ≡ free_slot))

  pub Leaves-Passed :
      (is_dynamic : Bool) (i elapsed_ticks : ℕ) (k k' : Kernel S)
      → Leaves is_dynamic i elapsed_ticks k k'
      → Passed is_dynamic elapsed_ticks k.task_now k.fsm_state i (k.tasks i) (k'.tasks i)
  Leaves-Passed d i w k k' (inl (r, e)) = inl (e, ground arith)
  Leaves-Passed d i w k k' (inr (r, e)) =
      inr (ground arith, ground arith, ground arith, ground arith, e)

  pub update_task_lem :
      (is_dynamic : Bool) (i elapsed_ticks : ℕ) (k : Kernel S)
      → Coherent law tasks_max k
      → i < tasks_max
      → (k' : Kernel S) × (update_task o tasks_max is_dynamic i elapsed_ticks k ≡ some k')
        × Step i k k'
        × Leaves is_dynamic i elapsed_ticks k k'
  unfolding update_task
  update_task_lem d i w k c h = elim (Bool-cases (is_sleeping (k.tasks i))) [
    | inr z ↦ (
      k,
      rw z,
      record { keeps = c; now = refl; state = refl; others = λ u ne. refl },
      inl (rw z, rw z),
    )
    | inl z ↦ elim (Bool-cases (is_removed o tasks_max d i k)) [
      | inl r ↦
          let (k', e, s, f) = remove_task_lem i k c h z in (k', rw (z, r, e), s, inr (rw (z, r), f))
      | inr r ↦
          let (k1, e, s, f, q) = deliver_sleep_lem i k c h z in
          let n = (sleeping_busy (k.tasks i) (c.slots i h) z).0 in
          let (k2, e2, s2, f2) = deliver_wake_lem i w k1 s.keeps h (rw f n) (rw f) q in
          (k2, rw (z, r, e, e2), Step-trans i k k1 k2 s s2, inl (rw (z, r), rw (z, f2, f)))
    ]
  ]

  -- A step elsewhere does not change what a later round makes of a slot.
  pub Step-Passed :
      (is_dynamic : Bool) (i u elapsed_ticks : ℕ) (k k' : Kernel S) (t : KernelTask)
      → Step i k k'
      → i ≢ u
      → Passed is_dynamic elapsed_ticks k'.task_now k'.fsm_state u (k'.tasks u) t
      → Passed is_dynamic elapsed_ticks k.task_now k.fsm_state u (k.tasks u) t
  Step-Passed d i u w k k' t s ne p =
      subst (λ x. Passed d w k.task_now k.fsm_state u x t) (s.others u ne)
        (subst (λ x. Passed d w k.task_now x u (k'.tasks u) t) s.state
          (subst (λ x. Passed d w x k'.fsm_state u (k'.tasks u) t) s.now p))
