-- ===== src/Kernel/Loop.antt =====
-- The loop of UpdateTaskState() over the slots, stk/include/stk.h.
use bare_metal_rtos.Kernel.Update.{Step-Passed, Leaves-Passed, Leaves, update_task_lem}
use bare_metal_rtos.Kernel.Passed.{Passed}
use bare_metal_rtos.Kernel.Slots.{Coherent}
use bare_metal_rtos.Kernel.Machine.{
  update_task_state, is_removed, next_sleep_ticks, Kernel, update_from,
}
use bare_metal_rtos.Kernel.Strategy.{IsSleepAware, Strategy}
use bare_metal_rtos.Kernel.Task.{is_sleeping, is_busy, KernelTask, get_sleep_ticks}
use bare_metal_rtos.Base.{
  false, refl, zero, suc, subst, ℕ_discrete, inr, ◌&&◌, inl, ◌∙◌, if◌then◌else◌, suc, some, ◌<◌,
  ◌+◌, ◌≤◌, arith, true, Bool, ◌≡◌, max, ℕ,
}
use bare_metal_rtos.Base.Int.{neg_part, ◌≤ℤ◌, ◌-ℤ◌, ℤ, pos}

-- The platform may stay idle no longer than a task lets it: a task that runs needs the next tick.
abbrev pub longest_idle : KernelTask → ℕ
longest_idle t = max 1 (neg_part t.time_sleep)

abbrev pub FitsIdle : ℤ → KernelTask → Type 0
FitsIdle ticks t = is_busy t ≡ true → ticks ≤ℤ pos (longest_idle t)

get_sleep_ticks_bounds :
    (ticks : ℤ) (t : KernelTask)
    → pos 1 ≤ℤ ticks
    → (pos 1 ≤ℤ get_sleep_ticks ticks t)
      × (get_sleep_ticks ticks t ≤ℤ ticks)
      × (get_sleep_ticks ticks t ≤ℤ pos (longest_idle t))
unfolding get_sleep_ticks ◌-ℤ◌
get_sleep_ticks_bounds ticks t h = ground arith

abbrev pub first_ticks : Bool → ℤ → ℤ
first_ticks is_tickless ticks_max = if is_tickless then ticks_max else pos 1

module _ {S : Type 0} {o : Strategy S} (law : IsSleepAware o) (tasks_max : ℕ)
    (is_dynamic : Bool) where
  abbrev pub ticks_after : Bool → ℕ → Kernel S → Kernel S → ℤ → ℤ
  ticks_after is_tickless i k k' ticks =
      if is_sleeping (k.tasks i) && is_removed o tasks_max is_dynamic i k
      then ticks
      else next_sleep_ticks o tasks_max is_dynamic is_tickless i k' ticks

  next_sleep_ticks_bounds :
      (is_tickless : Bool) (i elapsed_ticks : ℕ) (k k' : Kernel S) (ticks : ℤ)
      → pos 1 ≤ℤ ticks
      → Leaves law tasks_max is_dynamic i elapsed_ticks k k'
      → (pos 1 ≤ℤ ticks_after is_tickless i k k' ticks)
        × (ticks_after is_tickless i k k' ticks ≤ℤ ticks)
        × (is_tickless ≡ true → FitsIdle (ticks_after is_tickless i k k' ticks) (k'.tasks i))
  next_sleep_ticks_bounds tl i w k k' ticks h (inl (r, e)) =
      rw r (ground (arith, get_sleep_ticks_bounds ticks (k'.tasks i)))
  next_sleep_ticks_bounds tl i w k k' ticks h (inr (r, e)) = rw (r, e) (ground arith)

  -- The rounds for the slots from `i` up to `last`.
  pub record Swept (elapsed_ticks i last : ℕ) (k k' : Kernel S) : Type 0 where
    pub keeps : Coherent law tasks_max k'
    pub now : k'.task_now ≡ k.task_now
    pub state : k'.fsm_state ≡ k.fsm_state
    pub before : (u : ℕ) → u < i → k'.tasks u ≡ k.tasks u
    pub within :
        (u : ℕ)
        → i ≤ u
        → u < last
        → Passed is_dynamic elapsed_ticks k.task_now k.fsm_state u (k.tasks u) (k'.tasks u)

  pub record Idle (is_tickless : Bool) (i last : ℕ) (k' : Kernel S) (start ticks : ℤ) : Type 0 where
    pub least : pos 1 ≤ℤ ticks
    pub most : ticks ≤ℤ start
    pub fits : (u : ℕ) → i ≤ u → u < last → is_tickless ≡ true → FitsIdle ticks (k'.tasks u)

  pub update_from_lem :
      (is_tickless : Bool) (n i elapsed_ticks : ℕ) (k : Kernel S) (start : ℤ)
      → i + n ≤ tasks_max
      → Coherent law tasks_max k
      → pos 1 ≤ℤ start
      → (k' : Kernel S) × (ticks : ℤ) × (update_from o tasks_max is_dynamic is_tickless n i
            elapsed_ticks k start
          ≡ some (k', ticks))
        × Swept elapsed_ticks i (i + n) k k'
        × Idle is_tickless i (i + n) k' start ticks
  unfolding update_from
  update_from_lem tl zero i w k st h c p = (
    k,
    st,
    refl,
    record {
      keeps = c;
      now = refl;
      state = refl;
      before = λ u g. refl;
      within = λ u a b. absurd (omega arith);
    },
    record { least = p; most = omega arith; fits = λ u a b. absurd (omega arith) },
  )
  update_from_lem tl (suc n) i w k st h c p =
      let (k1, e, s, l) = update_task_lem law tasks_max is_dynamic i w k c (omega arith) in
      let (least, most, fits) = next_sleep_ticks_bounds tl i w k k1 st p l in
      let (k2, ticks, e2, t, d) =
        update_from_lem tl n (suc i) w k1 (ticks_after tl i k k1 st) (omega arith) s.keeps least in
      (
        k2,
        ticks,
        rw (e, e2),
        record {
          keeps = t.keeps;
          now = t.now ∙ s.now;
          state = t.state ∙ s.state;
          before = λ u g. t.before u (omega arith) ∙ s.others u (λ q. omega arith);
          within = λ u a b. elim (ℕ_discrete i u) [
            | yes z ↦
                subst (λ v. Passed is_dynamic w k.task_now k.fsm_state v (k.tasks v) (k2.tasks v)) z
                  (rw (t.before i (omega arith))
                    (Leaves-Passed law tasks_max is_dynamic i w k k1 l))
            | no ne ↦
                Step-Passed law tasks_max is_dynamic i u w k k1 (k2.tasks u) s ne
                  (t.within u (omega arith) (omega arith))
          ];
        },
        record {
          least = d.least;
          most = omega (arith, d.most, most);
          fits = λ u a b q. elim (ℕ_discrete i u) [
            | yes g ↦
                subst (λ v. FitsIdle ticks (k2.tasks v)) g
                  (rw (t.before i (omega arith)) (λ y. omega (arith, d.most, fits q y)))
            | no ne ↦ d.fits u (omega arith) (omega arith) q
          ];
        },
      )

  pub update_task_state_lem :
      (is_tickless : Bool) (ticks_max : ℤ) (elapsed_ticks : ℕ) (k : Kernel S)
      → pos 1 ≤ℤ ticks_max
      → Coherent law tasks_max k
      → (k' : Kernel S) × (ticks : ℤ) × (update_task_state o tasks_max is_dynamic is_tickless
            ticks_max elapsed_ticks k
          ≡ some (k', ticks))
        × Swept elapsed_ticks 0 tasks_max k k'
        × Idle is_tickless 0 tasks_max k' (first_ticks is_tickless ticks_max) ticks
  unfolding update_task_state
  update_task_state_lem tl m w k p c =
      let z : 0 + tasks_max ≡ tasks_max = omega arith in
      let (k1, ticks, f, s, i) =
        update_from_lem tl tasks_max 0 w k (first_ticks tl m) (omega arith) c (first tl) in
      (
        k1,
        ticks,
        f,
        subst (λ n. Swept w 0 n k k1) z s,
        subst (λ n. Idle tl 0 n k1 (first_ticks tl m) ticks) z i,
      )
    where
      first : (t : Bool) → pos 1 ≤ℤ first_ticks t m
      first true = p
      first false = omega arith
