-- ===== src/Sync/Mutex/Ownership.antt =====
-- The mutex under any order of calls: one owner at a time, direct handover, and no kernel panic.
use bare_metal_rtos.Base.{
  erase, ℕ, ◌+◌, ◌≡◌, ◌≢◌, ◌≤◌, ◌<◌, arith, ap, Bool, Option, some, none, List, [], ◌∷◌, ◌==◌,
  if◌then◌else◌, inl, inr, ◌⊎◌, count, not, ◌&&◌, same,
}
use bare_metal_rtos.Base.Int.{ℤ}
use bare_metal_rtos.Sync.WaitList.{Waiter}
use bare_metal_rtos.Sync.Mutex.{
  Mutex, tid_none, timed_lock, lock_signalled, lock_timed_out, unlock, expire,
}

abbrev pub tids : List Waiter → List ℕ
tids [] = []
tids (w ∷ ws) = w.tid ∷ tids ws

-- A mutex with the tasks that Unlock() has woken and that have not run since.
pub record System : Type 0 where
  pub mutex : Mutex
  pub woken : List ℕ

-- A task runs, and so can call, unless it waits or has been woken and not run yet.
abbrev pub can_call : ℕ → System → Bool
can_call t s =
    not (t == tid_none) && (count t (tids s.mutex.wait_list) == 0) && (count t s.woken == 0)

pub data Event : Type 0 where
  locks : ℕ → ℤ → Bool → Event
  unlocks : ℕ → Event
  runs : ℕ → Event
  timed_out : ℕ → Event
  ticks : ℕ → Event

abbrev pub woken_by : Option ℕ → List ℕ → List ℕ
woken_by none ts = ts
woken_by (some t) ts = t ∷ ts

-- `stop` is a failed assertion or a panic, and `ignored` an event that cannot happen.
pub data Result : Type 0 where
  stop ignored : Result
  ok : System → Result

module _ (base : ℕ → ℤ) where
  unfoldable pub step : Event → System → Result
  step (locks t timeout in_isr) s =
      if can_call t s
      then (elim (timed_lock base t timeout in_isr s.mutex) [
        | none ↦ stop
        | some (o, m) ↦ ok (record s { mutex = m })
      ])
      else ignored
  step (unlocks t) s =
      if can_call t s
      then (elim (unlock base t s.mutex) [
        | none ↦ stop
        | some (w, m) ↦ ok (record { mutex = m; woken = woken_by w s.woken })
      ])
      else ignored
  step (runs t) s =
      if count t s.woken == 0 then ignored else (elim (lock_signalled base t s.mutex) [
        | none ↦ stop
        | some m ↦ ok (record { mutex = m; woken = erase t s.woken })
      ])
  step (timed_out owner) s = ok (record s { mutex = lock_timed_out base owner s.mutex })
  step (ticks elapsed) s = ok (record s { mutex = (expire elapsed s.mutex).1 })

-- The state of a mutex that no order of events breaks.
pub record IsValid (s : System) : Type 0 where
  -- free: no owner, nobody waits, nobody is on the way
  pub free :
      s.mutex.recursion_count ≡ 0
      → (s.mutex.owner_tid ≡ tid_none) × (s.mutex.wait_list ≡ []) × (s.woken ≡ [])
  pub held : s.mutex.recursion_count ≢ 0 → s.mutex.owner_tid ≢ tid_none
  pub depth : s.mutex.recursion_count ≤ 65534
  -- a woken task is the owner, once locked
  pub handed : (s.woken ≡ []) ⊎ ((s.woken ≡ s.mutex.owner_tid ∷ []) × (s.mutex.recursion_count ≡ 1))
  -- the owner does not wait, no task waits twice, and TID_NONE does not wait
  pub queue : (u : ℕ) → count u (tids s.mutex.wait_list) + same s.mutex.owner_tid u ≤ 1
  pub real : count tid_none (tids s.mutex.wait_list) ≡ 0

-- In a valid state, a task that Unlock() has woken and that runs on in TimedLock() finds itself the owner
-- with a recursion count of 1: it does not panic, and leaves the mutex as it is.
pub runs_ok :
    (base : ℕ → ℤ) (t : ℕ) (s : System)
    → IsValid s
    → 0 < count t s.woken
    → lock_signalled base t s.mutex ≡ some s.mutex
unfolding lock_signalled count
runs_ok base t s v h = elim v.handed [
  | inl e ↦ absurd (omega (arith, ap (count t) e))
  | inr (e, one) ↦ ground (arith, ap (count t) e)
]
