-- ===== src/Kernel/Tick.antt =====
-- OnTick() of stk/include/stk.h as a whole.
use bare_metal_rtos.Kernel.NextState.{HasTask, dispatch, dispatch-Next, Next-same, and_then-some}
use bare_metal_rtos.Base.Int.{◌≤ℤ◌, pos, ℤ}
use bare_metal_rtos.Kernel.Passed.{user-Passed, Passed, busy_counted, counted_busy, settled}
use bare_metal_rtos.Kernel.Loop.{update_task_state_lem, Idle, Swept}
use bare_metal_rtos.Kernel.Slots.{Coherent}
use bare_metal_rtos.Kernel.Dispatch.{
  IsRunning-valid, Coherent-with_strategy, Outcome, Settled, IsRunning,
}
use bare_metal_rtos.Kernel.Machine.{
  with_strategy, fetch_next_event, get_new_fsm_state, on_tick, update_fsm_state, fsm, enter_state,
  fetched, Contexts, Kernel,
}
use bare_metal_rtos.Kernel.Strategy.{IsSleepAware, Strategy}
use bare_metal_rtos.Base.{
  if◌then◌else◌, subst, dec_lt, sym, refl, ◌∙◌, inl, inr, arith, ◌<◌, some, Option, ◌≡◌, Bool, ℕ,
}

module _ {S : Type 0} {o : Strategy S} (law : IsSleepAware o) (tasks_max : ℕ) where
  HasTask-Swept :
      (is_dynamic : Bool) (elapsed_ticks : ℕ) (k k' : Kernel S)
      → Coherent law tasks_max k
      → Swept law tasks_max is_dynamic elapsed_ticks 0 tasks_max k k'
      → HasTask law tasks_max is_dynamic k
      → HasTask law tasks_max is_dynamic k'
  HasTask-Swept d w k k' c s h e =
      let (u, p) = h e in
      elim (dec_lt u tasks_max) [
        | no out ↦ absurd (omega (arith, c.outside u (omega arith)))
        | yes i ↦
            let n = counted_busy (k.tasks u) (c.slots u i) p in
            (
              u,
              busy_counted (k'.tasks u) (s.keeps.slots u i) (
                  rw
                    (user-Passed w k.task_now k.fsm_state u (k.tasks u) (k'.tasks u) (
                      subst (λ b. Passed b w k.task_now k.fsm_state u (k.tasks u) (k'.tasks u)) e
                        (s.within u (omega arith) i)))
                    n),
            )
      ]

  Settled-Swept :
      (is_dynamic : Bool) (elapsed_ticks : ℕ) (k k' : Kernel S)
      → Coherent law tasks_max k
      → Swept law tasks_max is_dynamic elapsed_ticks 0 tasks_max k k'
      → Settled law tasks_max k'
  Settled-Swept d w k k' c s u i = elim (s.within u (omega arith) i) [
    | inl (e, x) ↦ rw e (settled w (k.tasks u) (c.slots u i))
    | inr (x, y, z, v, e) ↦ rw e refl
  ]

  -- What OnTick() makes of a kernel.
  pub record Tick (is_dynamic is_tickless : Bool) (ticks_max : ℤ) (elapsed_ticks : ℕ) (k : Kernel S)
      (c : Contexts) (ticks : ℤ) (k' : Kernel S) : Type 0 where
    pub keeps : Coherent law tasks_max k'
    pub settled : Settled law tasks_max k'
    pub has_task : HasTask law tasks_max is_dynamic k'
    pub passed :
        (u : ℕ)
        → u < tasks_max
        → Passed is_dynamic elapsed_ticks k.task_now k.fsm_state u (k.tasks u) (k'.tasks u)
    pub outcome : Outcome law tasks_max k.fsm_state k.task_now c k'
    pub idle :
        Idle law tasks_max is_dynamic is_tickless 0 tasks_max k'
          (if is_tickless then ticks_max else pos 1)
          ticks

  Coherent-same :
      (k k' : Kernel S)
      → k'.tasks ≡ k.tasks
      → k'.strategy ≡ k.strategy
      → Coherent law tasks_max k
      → Coherent law tasks_max k'
  Coherent-same k k' t s c = record {
    valid = rw s c.valid;
    slots = λ u h. rw (t, s) (c.slots u h);
    outside = λ u h. rw s (c.outside u h);
  }

  -- UpdateFsmState() is the dispatch of the task that GetNext() gives.
  update_fsm_state-dispatch :
      (is_dynamic : Bool) (next : Option ℕ) (s : S) (k : Kernel S)
      → IsRunning k.fsm_state
      → o.get_next k.strategy ≡ some (next, s)
      → update_fsm_state o tasks_max is_dynamic k
        ≡ dispatch law tasks_max is_dynamic next (with_strategy o k s)
  unfolding update_fsm_state get_new_fsm_state fetch_next_event dispatch
  update_fsm_state-dispatch d next s k r f =
      rw (IsRunning-valid r, f)
        (and_then-some (fetched o tasks_max d next (with_strategy o k s))
          (λ q. (fsm k.fsm_state q.0, q.1, q.2)) (λ q. enter_state o tasks_max d q.0 q.1 q.2))

  -- UpdateFsmState() from a kernel whose slots have been updated.
  update_fsm_state_lem :
      (is_dynamic : Bool) (now : ℕ) (k : Kernel S)
      → IsRunning k.fsm_state
      → k.task_now ≡ some now
      → Coherent law tasks_max k
      → Settled law tasks_max k
      → HasTask law tasks_max is_dynamic k
      → (c : Contexts) × (k' : Kernel S) × (update_fsm_state o tasks_max is_dynamic k
          ≡ some (c, k'))
        × Outcome law tasks_max k.fsm_state k.task_now c k'
        × (k'.tasks ≡ k.tasks)
        × Coherent law tasks_max k'
        × HasTask law tasks_max is_dynamic k'
  update_fsm_state_lem d now k r e c q h =
      let (next, s, f, v, a, b, alt) = law.selects k.strategy c.valid in
      let k1 = with_strategy o k s in
      let c1 = Coherent-with_strategy law tasks_max k s c v a b in
      let h1 : HasTask law tasks_max d k1 = λ x. let (u, p) = h x in (u, rw (← a u, ← b u) p) in
      let (cx, k', y, out, t, z) =
        dispatch-Next law tasks_max d now next k1 r e c1 q h1
          (Next-same law tasks_max k s next a alt) in
      (
        cx,
        k',
        update_fsm_state-dispatch d next s k r f ∙ y,
        out,
        t,
        Coherent-same k1 k' t z c1,
        λ x. let (u, p) = h1 x in (u, rw z p),
      )

  pub on_tick_lem :
      (is_dynamic is_tickless : Bool) (ticks_max : ℤ) (elapsed_ticks now : ℕ) (k : Kernel S)
      → pos 1 ≤ℤ ticks_max
      → Coherent law tasks_max k
      → IsRunning k.fsm_state
      → k.task_now ≡ some now
      → HasTask law tasks_max is_dynamic k
      → (c : Contexts) × (ticks : ℤ) × (k' : Kernel S) × (on_tick o tasks_max is_dynamic is_tickless
            ticks_max elapsed_ticks k
          ≡ some (c, ticks, k'))
        × Tick is_dynamic is_tickless ticks_max elapsed_ticks k c ticks k'
  unfolding on_tick
  on_tick_lem d tl m w now k p c r e h =
      let (k1, ticks, f, s, i) = update_task_state_lem law tasks_max d tl m w k p c in
      let (cx, k2, g, out, t, c2, h2) =
        update_fsm_state_lem d now k1 (subst IsRunning (sym s.state) r) (s.now ∙ e) s.keeps
          (Settled-Swept d w k k1 c s) (HasTask-Swept d w k k1 c s h) in
      (
        cx,
        ticks,
        k2,
        rw (f, g),
        record {
          keeps = c2;
          settled = rw t (Settled-Swept d w k k1 c s);
          has_task = h2;
          passed = rw t (λ u j. s.within u (omega arith) j);
          outcome =
              subst (λ x. Outcome law tasks_max x k.task_now cx k2) s.state
                (subst (λ x. Outcome law tasks_max k1.fsm_state x cx k2) s.now out);
          idle = record { least = i.least; most = i.most; fits = λ u a b. rw t (i.fits u a b) };
        },
      )
