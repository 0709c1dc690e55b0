-- ===== src/Kernel/Slots.antt =====
-- The agreement between the slots of the kernel of stk/include/stk.h and the lists of its strategy.
use bare_metal_rtos.Kernel.Machine.{with_strategy, with_task, Kernel}
use bare_metal_rtos.Base.Int.{◌+ℤ◌, pos}
use bare_metal_rtos.Kernel.Task.{free_slot, is_sleeping, KernelTask}
use bare_metal_rtos.Kernel.Strategy.{IsSleepAware, Strategy}
use bare_metal_rtos.Base.{
  arith, update_other, update_same, update, subst, ℕ_discrete, ◌+◌, ◌≤◌, count, false, true, ◌<◌,
  ◌≢◌, if◌then◌else◌, ◌≡◌, ℕ,
}

-- A slot with `a` entries in the list of the awake tasks and `b` in that of the sleeping ones: it is free, or
-- its task is awake for the strategy and may have called sleep since the last tick, or it sleeps.
pub data Slot (t : KernelTask) (a b : ℕ) : Type 0 where
  unused : t ≡ free_slot → a ≡ 0 → b ≡ 0 → Slot t a b
  runnable : t.user ≢ 0 → a ≡ 1 → b ≡ 0 → is_sleeping t ≡ t.sleep_pending → Slot t a b
  dormant : t.user ≢ 0 → a ≡ 0 → b ≡ 1 → is_sleeping t ≡ true → t.sleep_pending ≡ false → Slot t a b

module _ {S : Type 0} {o : Strategy S} (law : IsSleepAware o) (tasks_max : ℕ) where
  pub record Coherent (k : Kernel S) : Type 0 where
    pub valid : law.valid k.strategy
    pub slots :
        (u : ℕ)
        → u < tasks_max
        → Slot (k.tasks u) (count u (law.awake k.strategy)) (count u (law.asleep k.strategy))
    pub outside :
        (u : ℕ)
        → tasks_max ≤ u
        → count u (law.awake k.strategy) + count u (law.asleep k.strategy) ≡ 0

  -- The lists `s` and `s'` differ in the task `i` only.
  abbrev pub OnlyIn : ℕ → S → S → Type 0
  OnlyIn i s s' =
      (u : ℕ)
      → i ≢ u
      → (count u (law.awake s') ≡ count u (law.awake s))
        × (count u (law.asleep s') ≡ count u (law.asleep s))

  pub Coherent-with_task :
      (k : Kernel S) (i : ℕ) (s : S) (t : KernelTask)
      → Coherent k
      → i < tasks_max
      → law.valid s
      → OnlyIn i k.strategy s
      → Slot t (count i (law.awake s)) (count i (law.asleep s))
      → Coherent (with_task o (with_strategy o k s) i t)
  Coherent-with_task k i s t c inside v only slot = record {
    valid = v;
    slots = λ u h. elim (ℕ_discrete i u) [
      | yes e ↦
          subst (λ w. Slot (update k.tasks i t w) (count w (law.awake s)) (count w (law.asleep s)))
            e (rw (update_same k.tasks i t) slot)
      | no ne ↦ rw (update_other k.tasks i u t ne, (only u ne).0, (only u ne).1) (c.slots u h)
    ];
    outside = λ u h.
        let ne : i ≢ u = λ e. absurd (omega (arith, e)) in
        rw ((only u ne).0, (only u ne).1) (c.outside u h);
  }

-- What a round of the loop leaves of a slot that it does not remove.
abbrev pub ticked : ℕ → KernelTask → KernelTask
ticked elapsed_ticks t =
    if is_sleeping t
    then record t { sleep_pending = false; time_sleep = t.time_sleep +ℤ pos elapsed_ticks }
    else t
