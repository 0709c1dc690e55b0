-- ===== src/Sync/Event/Waking.antt =====
-- What waking does to stk::sync::Event of stk/include/sync/stk_sync_event.h when it has just been signaled.
use bare_metal_rtos.Sync.WaitList.{Waiter, wake_one, wake_all}
use bare_metal_rtos.Base.{
  refl, arith, ℕ, ◌+◌, ◌≡◌, ◌≢◌, Bool, true, false, List, [], ◌∷◌, ◌⊎◌, length,
}
use bare_metal_rtos.Sync.Event.{wake_one, remove_each, wake_all, wake_waiters, Event}

abbrev pub bit : Bool → ℕ
bit true = 1
bit false = 0

remove_each_manual :
    (b : Bool) (ts : List ℕ) (e : Event) → e.manual_reset ≡ true → remove_each b ts e ≡ e
unfolding remove_each
remove_each_manual b [] e m = refl
remove_each_manual b (t ∷ ts) e m = ground (arith, remove_each_manual b ts e m)

pub remove_each_timeout : (ts : List ℕ) (e : Event) → remove_each true ts e ≡ e
unfolding remove_each
remove_each_timeout [] e = refl
remove_each_timeout (t ∷ ts) e = ground (arith, remove_each_timeout ts e)

wake_all_left : (ws : List Waiter) → (wake_all ws).1 ≡ []
unfolding wake_all
wake_all_left [] = refl
wake_all_left (w ∷ ws) = wake_all_left ws

-- What waking does to an event that has just been signaled.
pub record IsWoken (e : Event) (woken : List ℕ) (e' : Event) : Type 0 where
  pub same_mode : e'.manual_reset ≡ e.manual_reset
  pub all_woken : e.manual_reset ≡ true → (e'.wait_list ≡ []) × (e'.signaled ≡ true)
  pub one_woken :
      e.manual_reset ≡ false
      → (bit e'.signaled + length woken ≡ 1) × ((e'.wait_list ≡ []) ⊎ (e'.signaled ≡ false))
  pub waiter_woken : e.manual_reset ≡ false → e.wait_list ≢ [] → length woken ≡ 1

wake_manual :
    (e : Event)
    → e.manual_reset ≡ true
    → wake_waiters e ≡ ((wake_all e.wait_list).0, record e { wait_list = (wake_all e.wait_list).1 })
unfolding wake_waiters
wake_manual e m = ground (
  arith,
  remove_each_manual false (wake_all e.wait_list).0
      (record e { wait_list = (wake_all e.wait_list).1 }),
)

wake_waiters-IsWoken :
    (e : Event) (m : Bool) (ws : List Waiter)
    → e.signaled ≡ true
    → e.manual_reset ≡ m
    → e.wait_list ≡ ws
    → IsWoken e (wake_waiters e).0 (wake_waiters e).1
unfolding wake_waiters remove_each wake_one
wake_waiters-IsWoken e true ws s m l = rw (wake_manual e m) (record {
  same_mode = refl;
  all_woken = λ a. (wake_all_left e.wait_list, s);
  one_woken = λ a. cc;
  waiter_woken = λ a. cc;
})
wake_waiters-IsWoken e false [] s m l = record {
  same_mode = ground arith;
  all_woken = λ a. cc;
  one_woken = λ a. (ground arith, ground arith);
  waiter_woken = λ a n. absurd (n l);
}
wake_waiters-IsWoken e false (w ∷ ws) s m l = record {
  same_mode = ground arith;
  all_woken = λ a. cc;
  one_woken = λ a. (ground arith, ground arith);
  waiter_woken = λ a n. ground arith;
}

-- The event once Set() or Pulse() has raised it and woken what waits.
abbrev pub raised_event : Event → List ℕ × Event
raised_event e = wake_waiters (record e { signaled = true })

pub raised_event-IsWoken :
    (e : Event) → IsWoken (record e { signaled = true }) (raised_event e).0 (raised_event e).1
raised_event-IsWoken e =
    wake_waiters-IsWoken (record e { signaled = true }) e.manual_reset e.wait_list refl refl refl
