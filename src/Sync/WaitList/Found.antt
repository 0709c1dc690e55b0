-- ===== src/Sync/WaitList/Found.antt =====
-- A single waiter in the wait list of stk/include/stk_common.h, whose task waits there once.
use bare_metal_rtos.Base.{
  ℕ, ◌≡◌, ◌≤◌, ◌<◌, ◌+◌, ◌-◌, arith, true, false, Option, none, some, List, [], ◌∷◌, ◌==◌,
  if◌then◌else◌, count, count-cons, count-nil, ltb, not,
}
use bare_metal_rtos.Base.Int.{pos, ◌-ℤ◌}
use bare_metal_rtos.Sync.WaitList.{Waiter, tick_waiter, tick, int32_max}

unfoldable pub tids : List Waiter → List ℕ
tids [] = []
tids (w ∷ ws) = w.tid ∷ tids ws

-- The first waiter of the task.
unfoldable pub waiter_of : ℕ → List Waiter → Option Waiter
waiter_of t [] = none
waiter_of t (w ∷ ws) = if w.tid == t then some w else waiter_of t ws

-- Each waiter is woken or left.
pub count-tick :
    (e t : ℕ) (ws : List Waiter)
    → count t (tick e ws).0 + count t (tids (tick e ws).1) ≡ count t (tids ws)
unfolding tick tids tick_waiter
count-tick e t [] = omega (arith, count-nil t)
count-tick e t (w ∷ ws) = ground (
  arith,
  count-tick e t ws,
  count-cons t w.tid (tids ws),
  count-cons t w.tid (tick e ws).0,
  count-cons t w.tid (tids (tick e ws).1),
)

pub waiter_of-count :
    (t : ℕ) (ws : List Waiter) (w : Waiter) → waiter_of t ws ≡ some w → 0 < count t (tids ws)
unfolding waiter_of tids
waiter_of-count t [] w h = absurd (ground (arith, h))
waiter_of-count t (x ∷ ws) w h =
    ground (arith, waiter_of-count t ws w, count-cons t x.tid (tids ws))

-- A waiter that times out is woken.
pub woken_lem :
    (e t : ℕ) (ws : List Waiter) (w : Waiter)
    → count t (tids ws) ≤ 1
    → waiter_of t ws ≡ some w
    → (tick_waiter e w).timeout ≡ true
    → count t (tick e ws).0 ≡ 1
unfolding tick tids tick_waiter waiter_of
woken_lem e t [] w d f h = absurd (ground (arith, f))
woken_lem e t (x ∷ ws) w d f h = ground (
  arith,
  woken_lem e t ws w,
  count-tick e t ws,
  count-cons t x.tid (tids ws),
  count-cons t x.tid (tick e ws).0,
)

-- Any other is left, with less time.
pub left_lem :
    (e t : ℕ) (ws : List Waiter) (w : Waiter)
    → count t (tids ws) ≤ 1
    → waiter_of t ws ≡ some w
    → (tick_waiter e w).timeout ≡ false
    → (count t (tick e ws).0 ≡ 0) × (waiter_of t (tick e ws).1 ≡ some (tick_waiter e w))
unfolding tick tids tick_waiter waiter_of
left_lem e t [] w d f h = absurd (ground (arith, f))
left_lem e t (x ∷ ws) w d f h = ground (
  arith,
  left_lem e t ws w,
  count-tick e t ws,
  count-cons t x.tid (tids ws),
  count-cons t x.tid (tick e ws).0,
)

-- A timeout of `n` ticks ends with the n-th.
pub tick_waiter-timed :
    (e n : ℕ) (w : Waiter)
    → n < int32_max
    → 0 < n
    → w.time_wait ≡ pos n
    → w.timeout ≡ false
    → ((tick_waiter e w).timeout ≡ not (ltb e n))
      × (e < n → (tick_waiter e w).time_wait ≡ pos (n - e))
unfolding tick_waiter ◌-ℤ◌
tick_waiter-timed e n w h p t f = ground (arith, t, f)
