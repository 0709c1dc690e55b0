-- ===== src/Sync/WaitList/Ticks.antt =====
-- Timeouts do not depend on how the elapsed ticks are grouped.
use bare_metal_rtos.Base.{
  refl, ◌∙◌, ap, inr, count, inl, Bool-cases, counting, ℕ, ◌+◌, ◌≡◌, arith, true, false, List, [],
  ◌∷◌,
}
use bare_metal_rtos.Base.Int.{pos, ◌-ℤ◌, ◌≤ℤ◌, ◌<ℤ◌}
use bare_metal_rtos.Sync.WaitList.{tick, Waiter, tick_waiter, wait_infinite}

-- The waiting times in the list: infinite, or positive and within int32_t; none has timed out.
pub record IsWaiting (w : Waiter) : Type 0 where
  pub positive : pos 0 <ℤ w.time_wait
  pub int32 : w.time_wait ≤ℤ wait_infinite
  pub running : w.timeout ≡ false

abbrev pub AllWaiting : List Waiter → Type 0
AllWaiting [] = Unit {0}
AllWaiting (w ∷ ws) = IsWaiting w × AllWaiting ws

-- A waiter that `a` ticks do not time out goes through `a + b` ticks as through `a` and then `b`.
tick_waiter_add :
    (a b : ℕ) (w : Waiter)
    → IsWaiting w
    → (tick_waiter a w).timeout ≡ false
    → tick_waiter b (tick_waiter a w) ≡ tick_waiter (a + b) w
unfolding tick_waiter ◌-ℤ◌
tick_waiter_add a b w v h = ground arith

-- A waiter that `a` ticks time out, `a + b` ticks time out.
tick_waiter_late :
    (a b : ℕ) (w : Waiter)
    → IsWaiting w
    → (tick_waiter a w).timeout ≡ true
    → (tick_waiter (a + b) w).timeout ≡ true
unfolding tick_waiter ◌-ℤ◌
tick_waiter_late a b w v h = ground arith

tick_expired :
    (e : ℕ) (w : Waiter) (ws : List Waiter)
    → (tick_waiter e w).timeout ≡ true
    → tick e (w ∷ ws) ≡ ((tick_waiter e w).tid ∷ (tick e ws).0, (tick e ws).1)
unfolding tick
tick_expired e w ws h = ground arith

tick_kept :
    (e : ℕ) (w : Waiter) (ws : List Waiter)
    → (tick_waiter e w).timeout ≡ false
    → tick e (w ∷ ws) ≡ ((tick e ws).0, tick_waiter e w ∷ (tick e ws).1)
unfolding tick
tick_kept e w ws h = ground arith

tid-tick_waiter : (e : ℕ) (w : Waiter) → (tick_waiter e w).tid ≡ w.tid
unfolding tick_waiter
tid-tick_waiter e w = ground arith

-- `a + b` ticks at once do what `a` ticks and then `b` do.
pub record Regroups (a b : ℕ) (ws : List Waiter) : Type 0 where
  pub left : (tick (a + b) ws).1 ≡ (tick b (tick a ws).1).1
  pub woken :
      (u : ℕ)
      → count u (tick (a + b) ws).0 ≡ count u (tick a ws).0 + count u (tick b (tick a ws).1).0

Regroups-late :
    (a b : ℕ) (w : Waiter) (ws : List Waiter)
    → IsWaiting w
    → (tick_waiter a w).timeout ≡ true
    → Regroups a b ws
    → Regroups a b (w ∷ ws)
Regroups-late a b w ws v h r =
    let late = tick_waiter_late a b w v h in
    record {
      left = rw (tick_expired (a + b) w ws late, tick_expired a w ws h) r.left;
      woken = λ u.
          rw
            (
              tick_expired (a + b) w ws late,
              tick_expired a w ws h,
              tid-tick_waiter (a + b) w,
              tid-tick_waiter a w,
            )
            (omega (counting, r.woken u));
    }

Regroups-second :
    (a b : ℕ) (w : Waiter) (ws : List Waiter)
    → IsWaiting w
    → (tick_waiter a w).timeout ≡ false
    → Regroups a b ws
    → Regroups a b (w ∷ ws)
Regroups-second a b w ws v h r = elim (Bool-cases (tick_waiter (a + b) w).timeout) [
  | inl late ↦
      let step = tick_waiter_add a b w v h in
      let late' : (tick_waiter b (tick_waiter a w)).timeout ≡ true =
        ap (λ k. k.timeout) step ∙ late in
      record {
        left =
            rw
              (
                tick_expired (a + b) w ws late,
                tick_kept a w ws h,
                tick_expired b (tick_waiter a w) (tick a ws).1 late',
              )
              r.left;
        woken = λ u.
            rw
              (
                tick_expired (a + b) w ws late,
                tick_kept a w ws h,
                tick_expired b (tick_waiter a w) (tick a ws).1 late',
                tid-tick_waiter (a + b) w,
                tid-tick_waiter b (tick_waiter a w),
                tid-tick_waiter a w,
              )
              (omega (counting, r.woken u));
      }
  | inr keep ↦
      let step = tick_waiter_add a b w v h in
      let keep' : (tick_waiter b (tick_waiter a w)).timeout ≡ false =
        ap (λ k. k.timeout) step ∙ keep in
      record {
        left =
            rw
              (
                tick_kept (a + b) w ws keep,
                tick_kept a w ws h,
                tick_kept b (tick_waiter a w) (tick a ws).1 keep',
                step,
              )
              (ap (λ l. tick_waiter (a + b) w ∷ l) r.left);
        woken = λ u.
            rw
              (
                tick_kept (a + b) w ws keep,
                tick_kept a w ws h,
                tick_kept b (tick_waiter a w) (tick a ws).1 keep',
              )
              (r.woken u);
      }
]

-- If every waiter of a list waits for a positive time or for ever, a Tick() for `a + b` elapsed ticks
-- leaves the list that a Tick() for `a` and then one for `b` leave, and wakes the tasks that the two
-- wake: a tickless kernel times out the same tasks as one that ticks.
pub tick_regroup : (a b : ℕ) (ws : List Waiter) → AllWaiting ws → Regroups a b ws
unfolding tick
tick_regroup a b [] v = record { left = refl; woken = λ u. omega counting }
tick_regroup a b (w ∷ ws) v = elim (Bool-cases (tick_waiter a w).timeout) [
  | inl h ↦ Regroups-late a b w ws v.0 h (tick_regroup a b ws v.1)
  | inr h ↦ Regroups-second a b w ws v.0 h (tick_regroup a b ws v.1)
]
