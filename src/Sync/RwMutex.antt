-- ===== src/Sync/RwMutex.antt =====
-- stk::sync::RWMutex of stk/include/sync/stk_sync_rwmutex.h. The waiting loops are split where they
-- suspend: `read_loop` and `lock_loop` go from the test of the loop on, at the call and whenever a
-- notification has woken the task. `read_timed_out`, which changes nothing, has no definition. `none` is a
-- failed STK_ASSERT or a STK_KERNEL_PANIC. The guard classes and the calls with WAIT_INFINITE and NO_WAIT
-- only pass on to these.
pub mod Exclusion
pub mod Steps
pub mod Lifetime
pub mod Stranded
pub mod Tests
use bare_metal_rtos.Base.{
  ℕ, zero, suc, ◌+◌, ◌-◌, ◌%◌, ◌^◌, ◌≡◌, Bool, true, false, not, ◌&&◌, ◌||◌, Option, none, some,
  List, [], ◌∷◌, ◌==◌, ltb, if◌then◌else◌,
}
use bare_metal_rtos.Base.Int.{ℤ, pos}
use bare_metal_rtos.Sync.WaitList.{Waiter}
use bare_metal_rtos.Sync.Semaphore.{Outcome, acquired, refused, blocks, u16}
use bare_metal_rtos.Sync.ConditionVariable.{wait, notify_one, notify_all}

pub record RwMutex : Type 0 where
  pub readers : ℕ
  pub writers_waiting : ℕ
  pub writer_active : Bool
  pub cv_readers : List Waiter
  pub cv_writers : List Waiter

unfoldable pub init : RwMutex
init = record {
  readers = 0;
  writers_waiting = 0;
  writer_active = false;
  cv_readers = [];
  cv_writers = [];
}

unfoldable pub read_loop : ℕ → ℤ → Bool → RwMutex → Option (Outcome × RwMutex)
read_loop tid timeout_ticks in_isr s =
    if s.writer_active || not (s.writers_waiting == 0)
    then (elim (wait tid timeout_ticks in_isr s.cv_readers) [
      | none ↦ none
      | some (o, ws) ↦ some (o, record s { cv_readers = ws })
    ])
    else (if ltb s.readers 65534
        then some (acquired, record s { readers = u16 (s.readers + 1) })
        else none)

-- The task that is woken, if any.
unfoldable pub read_unlock : RwMutex → Option (Option ℕ × RwMutex)
read_unlock s =
    if s.readers == 0
    then none
    else (let left = u16 (s.readers + 2 ^ 16 - 1) in
        if left == 0
        then (let (woken, ws) = notify_one s.cv_writers in
            some (woken, record s { readers = left; cv_writers = ws }))
        else some (none, record s { readers = left }))

-- TimedLock() when its Wait() has returned false.
unfoldable pub lock_timed_out : RwMutex → RwMutex
lock_timed_out s = record s { writers_waiting = u16 (s.writers_waiting + 2 ^ 16 - 1) }

-- The check of the kernel invariant, and the lock.
unfoldable pub lock_granted : RwMutex → Option RwMutex
lock_granted s =
    if not (s.readers == 0) || s.writer_active
    then none
    else some
        (record s { writers_waiting = u16 (s.writers_waiting + 2 ^ 16 - 1); writer_active = true })

unfoldable pub after_wait : RwMutex → Outcome → List Waiter → Outcome × RwMutex
after_wait s acquired ws = (acquired, s)
after_wait s refused ws = (refused, lock_timed_out s)
after_wait s blocks ws = (blocks, record s { cv_writers = ws })

unfoldable pub lock_loop : ℕ → ℤ → Bool → RwMutex → Option (Outcome × RwMutex)
lock_loop tid timeout_ticks in_isr s =
    if s.writer_active || not (s.readers == 0)
    then (elim (wait tid timeout_ticks in_isr s.cv_writers) [
      | none ↦ none
      | some (o, ws) ↦ some (after_wait s o ws)
    ])
    else (elim (lock_granted s) [ none ↦ none | some s' ↦ some (acquired, s') ])

unfoldable pub timed_lock : ℕ → ℤ → Bool → RwMutex → Option (Outcome × RwMutex)
timed_lock tid timeout_ticks in_isr s =
    if ltb s.writers_waiting 65534
    then lock_loop tid timeout_ticks in_isr
        (record s { writers_waiting = u16 (s.writers_waiting + 1) })
    else none

-- The tasks that are woken: one writer, or every reader.
unfoldable pub unlock : RwMutex → Option ((List ℕ × List ℕ) × RwMutex)
unlock s =
    if s.writer_active
    then (if s.writers_waiting == 0
        then (let (woken, ws) = notify_all s.cv_readers in
            some ((woken, []), record s { writer_active = false; cv_readers = ws }))
        else (let (woken, ws) = notify_one s.cv_writers in
            some (([], as_list woken), record s { writer_active = false; cv_writers = ws })))
    else none
  where
    as_list : Option ℕ → List ℕ
    as_list none = []
    as_list (some t) = t ∷ []
