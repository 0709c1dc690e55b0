-- ===== src/Kernel/NextState.antt =====
-- The choice of the next state and task in UpdateFsmState() of stk/include/stk.h.
use bare_metal_rtos.Kernel.Task.{is_sleeping}
use bare_metal_rtos.Kernel.Slots.{Coherent}
use bare_metal_rtos.Kernel.Dispatch.{
  none-AllSleep, size-NoTask, IsRunning-cases, Coherent-state, awake-Runs, Runs, Outcome, Settled,
  IsRunning,
}
use bare_metal_rtos.Kernel.Machine.{
  with_strategy, state_exit, exit_event, state_sleep, no_switch, FsmState, state_wake, state_switch,
  fsm, enter_state, fetched, and_then, Contexts, Kernel,
}
use bare_metal_rtos.Kernel.Strategy.{SameTasks, IsSleepAware, Strategy}
use bare_metal_rtos.Base.{
  Bool-cases, sym, ap, refl, ◌&&◌, ◌∙◌, ℕ_discrete, inl, inr, arith, true, ◌==◌, ◌≢◌, ◌+◌, ◌⊎◌,
  count, ◌<◌, false, none, some, Option, ◌≡◌, Bool, ℕ,
}

==-of_eq : {a b : ℕ} → a ≡ b → (a == b) ≡ true
==-of_eq e = ground arith

pub ==-of_ne : {a b : ℕ} → a ≢ b → (a == b) ≡ false
==-of_ne e = ground arith

pub and_then-some :
    {A B C : Type 0} (m : Option A) (g : A → B) (h : B → Option C)
    → and_then (and_then m (λ r. some (g r))) h ≡ and_then m (λ r. h (g r))
and_then-some none g h = refl
and_then-some (some a) g h = refl

pub exit_state : {s : FsmState} → IsRunning s → fsm s exit_event ≡ FsmState.exiting
exit_state IsRunning.switching = refl
exit_state IsRunning.sleeping = refl
exit_state IsRunning.waking = refl

module _ {S : Type 0} {o : Strategy S} (law : IsSleepAware o) (tasks_max : ℕ) where
  -- In static mode the kernel has a task.
  abbrev pub HasTask : Bool → Kernel S → Type 0
  HasTask is_dynamic k =
      is_dynamic ≡ false
      → (u : ℕ) × (0 < count u (law.awake k.strategy) + count u (law.asleep k.strategy))

  abbrev pub Next : Kernel S → Option ℕ → Type 0
  Next k next =
      ((next ≡ none) × ((u : ℕ) → count u (law.awake k.strategy) ≡ 0))
      ⊎ ((t : ℕ) × (next ≡ some t) × (0 < count t (law.awake k.strategy)))

  -- What UpdateFsmState() does with the fetched task.
  unfoldable pub dispatch : Bool → Option ℕ → Kernel S → Option (Contexts × Kernel S)
  dispatch is_dynamic next k =
      and_then (fetched o tasks_max is_dynamic next k)
        (λ r. enter_state o tasks_max is_dynamic (fsm k.fsm_state r.0) r.1 r.2)

  abbrev pub Dispatched : Bool → Option ℕ → Kernel S → Type 0
  Dispatched is_dynamic next k =
      (c : Contexts) × (k' : Kernel S) × (dispatch is_dynamic next k ≡ some (c, k'))
      × Outcome law tasks_max k.fsm_state k.task_now c k'
      × (k'.tasks ≡ k.tasks)
      × (k'.strategy ≡ k.strategy)

  dispatch_some :
      (is_dynamic : Bool) (now t : ℕ) (k : Kernel S)
      → IsRunning k.fsm_state
      → k.task_now ≡ some now
      → Coherent law tasks_max k
      → Settled law tasks_max k
      → 0 < count t (law.awake k.strategy)
      → Dispatched is_dynamic (some t) k
  unfolding dispatch fetched enter_state state_switch state_wake
  dispatch_some d now t k r e c q h = elim (IsRunning-cases r) [
    | inr s ↦ (
      _,
      k1 FsmState.waking,
      rw (awake, s),
      Outcome.wakes t (runs FsmState.waking) s refl,
      refl,
      refl,
    )
    | inl p ↦ elim (ℕ_discrete t now) [
      | yes g ↦ (
        no_switch,
        record k { fsm_state = FsmState.switching },
        rw (awake, p.no_trap, p.on_switch, e, ==-of_eq g),
        Outcome.stays t
            (awake-Runs law tasks_max (record k { fsm_state = FsmState.switching }) t
              (Coherent-state law tasks_max k k.task_now FsmState.switching c) q h
              (e ∙ ap some (sym g)))
            p.no_trap (e ∙ ap some (sym g)) refl,
        refl,
        refl,
      )
      | no ne ↦ (
        _,
        k1 FsmState.switching,
        rw (awake, p.no_trap, p.on_switch, e, ==-of_ne ne),
        Outcome.switches now t (runs FsmState.switching) p.no_trap e (λ x. ne (sym x)) refl,
        refl,
        refl,
      )
    ]
  ]
    where
      k1 : FsmState → Kernel S
      k1 s = record k { task_now = some t; fsm_state = s }

      runs : (s : FsmState) → Runs law tasks_max t (k1 s)
      runs s =
          awake-Runs law tasks_max (k1 s) t (Coherent-state law tasks_max k (some t) s c) q h refl

      awake : is_sleeping (k.tasks t) ≡ false
      awake = (runs FsmState.switching).awake

  size-ne-zero :
      (is_dynamic : Bool) (k : Kernel S)
      → Coherent law tasks_max k
      → HasTask is_dynamic k
      → (is_dynamic && (o.get_size k.strategy == 0)) ≡ false
      → o.get_size k.strategy ≢ 0
  size-ne-zero true k c q z g = ground arith
  size-ne-zero false k c q z g =
      let (u, p) = q refl in omega (arith, law.empty k.strategy u c.valid g)

  dispatch_none :
      (is_dynamic : Bool) (now : ℕ) (k : Kernel S)
      → IsRunning k.fsm_state
      → k.task_now ≡ some now
      → Coherent law tasks_max k
      → HasTask is_dynamic k
      → ((u : ℕ) → count u (law.awake k.strategy) ≡ 0)
      → Dispatched is_dynamic none k
  unfolding dispatch fetched enter_state state_sleep state_exit
  dispatch_none d now k r e c q h = elim (Bool-cases (d && (o.get_size k.strategy == 0))) [
    | inl z ↦
        let k1 = record k { task_now = none; fsm_state = FsmState.exiting } in
        let gone =
          size-NoTask law tasks_max k c (λ u. law.empty k.strategy u c.valid (ground arith)) in
        let x : d ≡ true = ground arith in
        (_, k1, rw (z, exit_state r, x), Outcome.exits gone refl refl, refl, refl)
    | inr z ↦ elim (IsRunning-cases r) [
      | inr s ↦
          (_, k, rw (z, s), Outcome.idles (none-AllSleep law tasks_max k c h) s refl s, refl, refl)
      | inl p ↦
          let (t, f, n) = law.first k.strategy c.valid (size-ne-zero d k c q z) in
          (
            _,
            record k { task_now = some t; fsm_state = FsmState.sleeping },
            rw (z, p.on_sleep, e, f),
            Outcome.sleeps now t (none-AllSleep law tasks_max k c h) p.no_trap e refl refl,
            refl,
            refl,
          )
    ]
  ]

  pub dispatch-Next :
      (is_dynamic : Bool) (now : ℕ) (next : Option ℕ) (k : Kernel S)
      → IsRunning k.fsm_state
      → k.task_now ≡ some now
      → Coherent law tasks_max k
      → Settled law tasks_max k
      → HasTask is_dynamic k
      → Next k next
      → Dispatched is_dynamic next k
  dispatch-Next d now next k r e c q h (inl (g, no_task)) =
      rw g (dispatch_none d now k r e c h no_task)
  dispatch-Next d now next k r e c q h (inr (t, g, p)) = rw g (dispatch_some d now t k r e c q p)

  pub Next-same :
      (k : Kernel S) (s : S) (next : Option ℕ)
      → SameTasks (law.awake k.strategy) (law.awake s)
      → Next k next
      → Next (with_strategy o k s) next
  Next-same k s next a (inl (g, no_task)) = inl (g, λ u. rw (← a u) (no_task u))
  Next-same k s next a (inr (t, g, p)) = inr (t, g, rw (← a t) p)
