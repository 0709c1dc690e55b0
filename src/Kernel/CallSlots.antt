-- ===== src/Kernel/CallSlots.antt =====
-- What the calls of tasks make of a slot of the kernel of stk/include/stk.h.
use bare_metal_rtos.Kernel.Machine.{and_then}
use bare_metal_rtos.Sync.WaitList.{wait_infinite}
use bare_metal_rtos.Kernel.Slots.{Slot}
use bare_metal_rtos.Kernel.Calls.{find_from}
use bare_metal_rtos.Kernel.Task.{is_sleeping, KernelTask, schedule_removal, schedule_sleep, wake}
use bare_metal_rtos.Base.{
  none, refl, Option, zero, inr, subst, inl, ◌==◌, Bool-cases, Option-cases, suc, true, arith, ◌+◌,
  ap, ◌<◌, ◌≤◌, some, ◌≢◌, ◌≡◌, ℕ,
}
use bare_metal_rtos.Base.Int.{ℤ, ◌-ℤ◌}

pub schedule_sleep-Slot :
    (ticks : ℤ) (t t' : KernelTask) {a b : ℕ}
    → Slot t a b
    → t.user ≢ 0
    → schedule_sleep ticks t ≡ some t'
    → Slot t' a b
unfolding schedule_sleep ◌-ℤ◌
schedule_sleep-Slot ticks t t' (Slot.unused e p q) n h = absurd (n (ap KernelTask.user e))
schedule_sleep-Slot ticks t t' (Slot.runnable n' p q e) n h =
    Slot.runnable (ground arith) p q (ground arith)
schedule_sleep-Slot ticks t t' (Slot.dormant n' p q e f) n h =
    Slot.dormant (ground arith) p q (ground arith) (ground arith)

pub flagged-Slot :
    (u : KernelTask) {a b : ℕ}
    → Slot u a b
    → u.user ≢ 0
    → Slot (record u { remove_pending = true }) a b
flagged-Slot u (Slot.unused e p q) h = absurd (h (ap KernelTask.user e))
flagged-Slot u (Slot.runnable n p q e) h = Slot.runnable n p q e
flagged-Slot u (Slot.dormant n p q e f) h = Slot.dormant n p q e f

pub user-schedule_sleep :
    (ticks : ℤ) (t t' : KernelTask) → schedule_sleep ticks t ≡ some t' → t'.user ≡ t.user
unfolding schedule_sleep
user-schedule_sleep ticks t t' h = ground arith

pub schedule_removal-Slot :
    (t t' : KernelTask) {a b : ℕ}
    → Slot t a b
    → t.user ≢ 0
    → schedule_removal t ≡ some t'
    → Slot t' a b
unfolding schedule_removal
schedule_removal-Slot t t' {a} {b} s n h = elim (Option-cases (schedule_sleep wait_infinite t)) [
  | inl z ↦ absurd (ground arith)
  | inr (u, z) ↦
      let e : record u { remove_pending = true } ≡ t' = ground arith in
      subst (λ x. Slot x a b) e
        (flagged-Slot u (schedule_sleep-Slot wait_infinite t u s n z)
          (rw (user-schedule_sleep wait_infinite t u z) n))
]

pub wake-Slot : (t t' : KernelTask) {a b : ℕ} → Slot t a b → wake t ≡ some t' → Slot t' a b
unfolding wake
wake-Slot t t' (Slot.unused e p q) h = absurd (let z = ap is_sleeping e in ground arith)
wake-Slot t t' (Slot.runnable n p q e) h = Slot.runnable (ground arith) p q (ground arith)
wake-Slot t t' (Slot.dormant n p q e f) h =
    Slot.dormant (ground arith) p q (ground arith) (ground arith)

pub find_from_lem :
    (n i user_task j : ℕ) (tasks : ℕ → KernelTask)
    → find_from n i user_task tasks ≡ some j
    → (i ≤ j) × (j < i + n) × ((tasks j).user ≡ user_task)
unfolding find_from
find_from_lem zero i u j tasks h = absurd (ground arith)
find_from_lem (suc n) i u j tasks h = elim (Bool-cases ((tasks i).user == u)) [
  | inl z ↦
      let e : i ≡ j = ground arith in
      subst (λ x. (i ≤ x) × (x < i + suc n) × ((tasks x).user ≡ u)) e
        (omega arith, omega arith, ground arith)
  | inr z ↦
      let (p, q, r) = find_from_lem n (suc i) u j tasks (ground arith) in
      (omega arith, omega arith, r)
]

pub and_then_inv :
    {A B : Type 0} (m : Option A) (f : A → Option B) {b : B}
    → and_then m f ≡ some b
    → (a : A) × (m ≡ some a) × (f a ≡ some b)
and_then_inv none f h = absurd (ground arith)
and_then_inv (some a) f h = (a, refl, h)
