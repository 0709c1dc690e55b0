-- ===== src/Kernel/Boot.antt =====
-- The start of the kernel of stk/include/stk.h.
use bare_metal_rtos.Kernel.NextState.{==-of_ne}
use bare_metal_rtos.Kernel.Reach.{Started}
use bare_metal_rtos.Kernel.Dispatch.{
  none-AllSleep, IsRunning, awake-Runs, Coherent-state, Coherent-with_strategy, Settled, AllSleep,
  Runs,
}
use bare_metal_rtos.Kernel.Update.{deliver_sleep_lem}
use bare_metal_rtos.Kernel.Passed.{busy_counted, counted_busy, cleared}
use bare_metal_rtos.Kernel.Start.{first_state, on_start, start_from}
use bare_metal_rtos.Kernel.Machine.{
  and_then, fetched, fetch_next_event, get_new_fsm_state, sleep_trap, FsmState, with_strategy,
  task_stack, Stack, deliver_sleep, Kernel,
}
use bare_metal_rtos.Kernel.Slots.{Coherent, Slot}
use bare_metal_rtos.Kernel.Strategy.{IsSleepAware, Strategy}
use bare_metal_rtos.Kernel.Task.{is_sleeping, KernelTask}
use bare_metal_rtos.Base.{
  dec_lt, ◌==◌, count, ◌&&◌, Bool, refl, inr, subst, Bool-cases, inl, ℕ_discrete, sym, ◌∙◌, ap,
  arith, if◌then◌else◌, ◌⊎◌, some, ◌<◌, ◌≢◌, ◌≤◌, false, ◌+◌, ◌≡◌, ℕ, zero, suc,
}

cleared_of : KernelTask → KernelTask
cleared_of t = record t { sleep_pending = false }

awake_settled :
    (t : KernelTask) {a b : ℕ}
    → Slot t a b
    → is_sleeping t ≡ false
    → t ≡ record t { sleep_pending = false }
awake_settled t (Slot.unused e p q) h = cleared t (ap KernelTask.sleep_pending e)
awake_settled t (Slot.runnable n p q e) h = cleared t (sym e ∙ h)
awake_settled t (Slot.dormant n p q e f) h = cleared t f

stays_on : (d : Bool) (n : ℕ) → n ≢ 0 → (d && (n == 0)) ≡ false
stays_on d n h = ground arith

module _ {S : Type 0} {o : Strategy S} (law : IsSleepAware o) (tasks_max : ℕ) where
  -- The slots from `i` up to `last` have told the strategy that they sleep.
  record Told (i last : ℕ) (k k' : Kernel S) : Type 0 where
    keeps : Coherent law tasks_max k'
    before : (u : ℕ) → u < i → k'.tasks u ≡ k.tasks u
    within : (u : ℕ) → i ≤ u → u < last → k'.tasks u ≡ record (k.tasks u) { sleep_pending = false }

  told_step :
      (i : ℕ) (k : Kernel S)
      → Coherent law tasks_max k
      → i < tasks_max
      → (k' : Kernel S) × ((if is_sleeping (k.tasks i) then deliver_sleep o i k else some k)
          ≡ some k')
        × Coherent law tasks_max k'
        × ((u : ℕ) → i ≢ u → k'.tasks u ≡ k.tasks u)
        × (k'.tasks i ≡ record (k.tasks i) { sleep_pending = false })
  told_step i k c h = elim (Bool-cases (is_sleeping (k.tasks i))) [
    | inl z ↦
        let (k1, e, s, f, q) = deliver_sleep_lem law tasks_max i k c h z in
        (k1, rw z e, s.keeps, s.others, f)
    | inr z ↦ (k, rw z refl, c, λ u ne. refl, awake_settled (k.tasks i) (c.slots i h) z)
  ]

  start_from_lem :
      (n i : ℕ) (k : Kernel S)
      → i + n ≤ tasks_max
      → Coherent law tasks_max k
      → (k' : Kernel S) × (start_from o n i k ≡ some k') × Told i (i + n) k k'
  unfolding start_from cleared_of
  start_from_lem zero i k h c =
      (k, refl, record { keeps = c; before = λ u g. refl; within = λ u a b. absurd (omega arith) })
  start_from_lem (suc n) i k h c =
      let (k1, e, c1, f, g) = told_step i k c (omega arith) in
      let (k2, e2, t) = start_from_lem n (suc i) k1 (omega arith) c1 in
      (
        k2,
        rw (e, e2),
        record {
          keeps = t.keeps;
          before = λ u a. t.before u (omega arith) ∙ f u (λ q. omega arith);
          within = λ u a b. elim (ℕ_discrete i u) [
            | yes z ↦
                subst (λ v. k2.tasks v ≡ record (k.tasks v) { sleep_pending = false }) z
                  (t.before i (omega arith) ∙ g)
            | no ne ↦ t.within u (omega arith) (omega arith) ∙ ap cleared_of (f u ne)
          ];
        },
      )

  -- What OnStart() gives the platform, and the kernel.
  abbrev pub Begins : Stack → Kernel S → Type 0
  Begins a k =
      ((t : ℕ) × (a ≡ task_stack t) × Runs law tasks_max t k × (k.fsm_state ≡ FsmState.switching))
      ⊎ ((a ≡ sleep_trap) × AllSleep law tasks_max k × (k.fsm_state ≡ FsmState.sleeping))

  counted_inside :
      (k : Kernel S)
      → Coherent law tasks_max k
      → (u : ℕ) → 0 < count u (law.awake k.strategy) + count u (law.asleep k.strategy)
      → u < tasks_max
  counted_inside k c u p = elim (dec_lt u tasks_max) [
    | yes i ↦ i
    | no out ↦ absurd (omega (arith, c.outside u (omega arith)))
  ]

  first_lem :
      (is_dynamic : Bool) (u : ℕ) (k : Kernel S)
      → Coherent law tasks_max k
      → Settled law tasks_max k
      → 0 < count u (law.awake k.strategy) + count u (law.asleep k.strategy)
      → k.fsm_state ≡ FsmState.switching
      → (a : Stack) × (k' : Kernel S) × (and_then
            (get_new_fsm_state o tasks_max is_dynamic k)
            (λ r. first_state o r.0 r.1 r.2)
          ≡ some (a, k'))
        × Started law tasks_max is_dynamic k'
        × Begins a k'
  unfolding get_new_fsm_state fetch_next_event fetched first_state
  first_lem d u k c q p z =
      let (next, s, g, v, a, b, alt) = law.selects k.strategy c.valid in
      let k1 = with_strategy o k s in
      let c1 = Coherent-with_strategy law tasks_max k s c v a b in
      let p1 : 0 < count u (law.awake s) + count u (law.asleep s) = omega (arith, p, a u, b u) in
      let n : o.get_size s ≢ 0 = λ e. omega (arith, p1, law.empty s u v e) in
      elim alt [
        | inr (t, e, w) ↦
            let k2 = record k1 { task_now = some t; fsm_state = FsmState.switching } in
            let c2 = Coherent-state law tasks_max k1 (some t) FsmState.switching c1 in
            let r = awake-Runs law tasks_max k2 t c2 q (omega (arith, a t, w)) refl in
            (
              task_stack t,
              k2,
              rw (z, g, e, r.awake) refl,
              record {
                coherent = c2;
                running = IsRunning.switching;
                now = t;
                current = refl;
                has_task = λ x. (u, p1);
              },
              inl (t, refl, r, refl),
            )
        | inl (e, w) ↦
            let (t, f, x) = law.first s v n in
            let k2 = record k1 { task_now = some t; fsm_state = FsmState.sleeping } in
            let c2 = Coherent-state law tasks_max k1 (some t) FsmState.sleeping c1 in
            (
              sleep_trap,
              k2,
              rw (z, g, e, stays_on d (o.get_size s) n, f) refl,
              record {
                coherent = c2;
                running = IsRunning.sleeping;
                now = t;
                current = refl;
                has_task = λ x. (u, p1);
              },
              inr (refl, none-AllSleep law tasks_max k2 c2 (λ y. omega (arith, a y, w y)), refl),
            )
      ]

  -- OnStart() of a kernel that agrees with its strategy and has a task fails no assertion. It leads to a started
  -- kernel, and begins with a task that does not sleep, or in the sleep trap if all tasks sleep.
  pub on_start_lem :
      (is_dynamic : Bool) (k : Kernel S)
      → Coherent law tasks_max k
      → o.get_size k.strategy ≢ 0
      → (a : Stack) × (k' : Kernel S) × (on_start o tasks_max is_dynamic k ≡ some (a, k'))
        × Started law tasks_max is_dynamic k'
        × Begins a k'
  unfolding on_start
  on_start_lem d k c n =
      let (k1, e, t) = start_from_lem tasks_max 0 k (omega arith) c in
      let (u, f, p) = law.first k.strategy c.valid n in
      let inside = counted_inside k c u p in
      let busy = counted_busy (k.tasks u) (c.slots u inside) p in
      let told = λ (w : ℕ) (h : w < tasks_max). t.within w (omega arith) (omega arith) in
      let p1 = busy_counted (k1.tasks u) (t.keeps.slots u inside) (rw (told u inside) busy) in
      let k2 = record k1 { fsm_state = FsmState.switching } in
      let (a, k3, g, v, b) =
        first_lem d u k2 (Coherent-state law tasks_max k1 k1.task_now FsmState.switching t.keeps)
          (λ w h. ap KernelTask.sleep_pending (told w h)) p1 refl in
      (a, k3, rw (==-of_ne n, e) g, v, b)
