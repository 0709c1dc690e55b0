-- ===== src/Kernel/Passed.antt =====
-- What a round of the loop of UpdateTaskState() makes of a slot, stk/include/stk.h.
use bare_metal_rtos.Strategy.TaskList.{same_task}
use bare_metal_rtos.Kernel.Machine.{FsmState, is_sleeping_state}
use bare_metal_rtos.Kernel.Slots.{ticked, Slot}
use bare_metal_rtos.Kernel.Task.{free_slot, is_sleeping, KernelTask}
use bare_metal_rtos.Base.{
  not, Option, ◌&&◌, inl, inr, Bool-cases, ◌∙◌, refl, sym, false, ap, arith, some, ◌+◌, ◌<◌, true,
  ◌⊎◌, ◌≢◌, ◌≡◌, Bool, ℕ,
}

-- What a round makes of the slot `i` with the task `t`, where `now` is the current task and `s` the state: it
-- lets the time pass, or frees the slot. A task to be removed that sleeps and is not the current one is removed,
-- and the current one is not unless the kernel sleeps.
abbrev pub Passed : Bool → ℕ → Option ℕ → FsmState → ℕ → KernelTask → KernelTask → Type 0
Passed is_dynamic elapsed_ticks now s i t t' =
    ((t' ≡ ticked elapsed_ticks t)
      × ((is_dynamic && (t.remove_pending && (is_sleeping t && not (same_task (some i) now))))
          ≡ false))
    ⊎ ((is_dynamic ≡ true)
        × (t.remove_pending ≡ true)
        × (is_sleeping t ≡ true)
        × ((same_task (some i) now && not (is_sleeping_state s)) ≡ false)
        × (t' ≡ free_slot))

pub sleeping_busy :
    (t : KernelTask) {a b : ℕ} → Slot t a b → is_sleeping t ≡ true → (t.user ≢ 0) × (0 < a + b)
sleeping_busy t (Slot.unused e p q) h = absurd (let z = ap is_sleeping e in cc)
sleeping_busy t (Slot.runnable n p q e) h = (n, omega (arith, p, q))
sleeping_busy t (Slot.dormant n p q e f) h = (n, omega (arith, p, q))

pub counted_busy : (t : KernelTask) {a b : ℕ} → Slot t a b → 0 < a + b → t.user ≢ 0
counted_busy t (Slot.unused e p q) h = absurd (omega arith)
counted_busy t (Slot.runnable n p q e) h = n
counted_busy t (Slot.dormant n p q e f) h = n

pub busy_counted : (t : KernelTask) {a b : ℕ} → Slot t a b → t.user ≢ 0 → 0 < a + b
busy_counted t (Slot.unused e p q) h = absurd (h (ap KernelTask.user e))
busy_counted t (Slot.runnable n p q e) h = omega (arith, p, q)
busy_counted t (Slot.dormant n p q e f) h = omega (arith, p, q)

pub user-Passed :
    (elapsed_ticks : ℕ) (now : Option ℕ) (s : FsmState) (i : ℕ) (t t' : KernelTask)
    → Passed false elapsed_ticks now s i t t'
    → t'.user ≡ t.user
user-Passed w now s i t t' (inl (e, c)) = elim (Bool-cases (is_sleeping t)) [
  | inl z ↦ rw (e, z) refl
  | inr z ↦ rw (e, z) refl
]
user-Passed w now s i t t' (inr (d, x, y, z, e)) = cc

-- After a round no call of sleep is pending.
pub settled :
    (elapsed_ticks : ℕ) (t : KernelTask) {a b : ℕ}
    → Slot t a b
    → (ticked elapsed_ticks t).sleep_pending ≡ false
settled w t s = elim (Bool-cases (is_sleeping t)) [ inl z ↦ rw z refl | inr z ↦ rw z (idle z s) ]
  where
    idle : {a b : ℕ} → is_sleeping t ≡ false → Slot t a b → t.sleep_pending ≡ false
    idle z (Slot.unused e p q) = ap KernelTask.sleep_pending e
    idle z (Slot.runnable n p q e) = sym e ∙ z
    idle z (Slot.dormant n p q e f) = f

pub cleared : (t : KernelTask) → t.sleep_pending ≡ false → t ≡ record t { sleep_pending = false }
cleared t e = ground (arith, e)
