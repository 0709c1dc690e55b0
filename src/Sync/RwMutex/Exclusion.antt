-- ===== src/Sync/RwMutex/Exclusion.antt =====
-- Writers exclude all others, and the count of waiting writers is exact.
use bare_metal_rtos.Base.{
  ℕ, ◌+◌, ◌-◌, ◌^◌, ◌≡◌, ◌≤◌, ◌<◌, refl, arith, Bool, true, false, Option, none, some, List, [],
  ◌∷◌, ◌⊎◌, inl, inr, Option-cases, length, ◌==◌, if◌then◌else◌,
}
use bare_metal_rtos.Base.Int.{ℤ}
use bare_metal_rtos.Sync.WaitList.{Waiter, tick, wake_one, setup_wait}
use bare_metal_rtos.Sync.Semaphore.{Outcome, acquired, refused, blocks}
use bare_metal_rtos.Sync.ConditionVariable.{wait, notify_one}
use bare_metal_rtos.Sync.RwMutex.{
  RwMutex, read_loop, read_unlock, lock_loop, lock_granted, after_wait, timed_lock, lock_timed_out,
  unlock,
}

-- The lock, with the numbers of writers that a notification or the kernel's timeout has woken and that
-- have not run since.
pub record System : Type 0 where
  pub lock : RwMutex
  pub notified : ℕ
  pub late : ℕ

-- Calls of tasks, woken tasks that go on, and the kernel's ticks on the two wait lists.
pub data Event : Type 0 where
  reads writes : ℕ → ℤ → Bool → Event
  read_unlocks unlocks : Event
  reader_goes_on writer_goes_on : ℕ → ℤ → Bool → Event
  writer_gives_up : Event
  ticks_readers ticks_writers : ℕ → Event

abbrev pub woken_one : Option ℕ → ℕ
woken_one none = 0
woken_one (some t) = 1

-- A step that fails an assertion, or that cannot happen, gives `none`.
unfoldable pub step : Event → System → Option System
step (reads t timeout isr) s = elim (read_loop t timeout isr s.lock) [
  | none ↦ none
  | some (o, l) ↦ some (record s { lock = l })
]
step (reader_goes_on t timeout isr) s = elim (read_loop t timeout isr s.lock) [
  | none ↦ none
  | some (o, l) ↦ some (record s { lock = l })
]
step (writes t timeout isr) s = elim (timed_lock t timeout isr s.lock) [
  | none ↦ none
  | some (o, l) ↦ some (record s { lock = l })
]
step read_unlocks s = elim (read_unlock s.lock) [
  | none ↦ none
  | some (w, l) ↦ some (record s { lock = l; notified = s.notified + woken_one w })
]
step unlocks s = elim (unlock s.lock) [
  | none ↦ none
  | some ((rs, ws), l) ↦ some (record s { lock = l; notified = s.notified + length ws })
]
step (writer_goes_on t timeout isr) s = elim (lock_loop t timeout isr s.lock) [
  | none ↦ none
  | some (o, l) ↦
      if s.notified == 0 then none else some (record s { lock = l; notified = s.notified - 1 })
]
step writer_gives_up s =
    if s.late == 0
    then none
    else some (record s { lock = lock_timed_out s.lock; late = s.late - 1 })
step (ticks_readers e) s =
    some (record s { lock = record s.lock { cv_readers = (tick e s.lock.cv_readers).1 } })
step (ticks_writers e) s =
    let (woken, left) = tick e s.lock.cv_writers in
    some (record s { lock = record s.lock { cv_writers = left }; late = s.late + length woken })

unfoldable pub run : List Event → System → Option System
run [] s = some s
run (e ∷ es) s = elim (step e s) [ none ↦ none | some s' ↦ run es s' ]

pub record IsValid (s : System) : Type 0 where
  -- an active writer excludes readers
  pub exclusive : s.lock.writer_active ≡ true → s.lock.readers ≡ 0
  -- the writers counted are those in the list and those on their way from it
  pub exact : s.lock.writers_waiting ≡ length s.lock.cv_writers + s.notified + s.late
  pub few_writers : s.lock.writers_waiting ≤ 65534
  pub few_readers : s.lock.readers ≤ 65534

length-setup_wait :
    (t : ℕ) (timeout : ℤ) (ws : List Waiter) → length (setup_wait t timeout ws) ≡ length ws + 1
unfolding setup_wait
length-setup_wait t timeout [] = refl
length-setup_wait t timeout (w ∷ ws) = omega (arith, length-setup_wait t timeout ws)

pub length-tick :
    (e : ℕ) (ws : List Waiter) → length (tick e ws).0 + length (tick e ws).1 ≡ length ws
unfolding tick
length-tick e [] = refl
length-tick e (w ∷ ws) = ground (arith, length-tick e ws)

pub length-notify_one :
    (ws : List Waiter) → woken_one (notify_one ws).0 + length (notify_one ws).1 ≡ length ws
unfolding notify_one wake_one
length-notify_one [] = refl
length-notify_one (w ∷ ws) = omega arith

-- What a pass of the writer's loop does to the counts.
pub record Passed (l l' : RwMutex) : Type 0 where
  pub same_readers : l'.readers ≡ l.readers
  pub still_exclusive : l'.writer_active ≡ true → l'.readers ≡ 0
  pub counted :
      l'.writers_waiting + 1 + length l.cv_writers ≡ l.writers_waiting + length l'.cv_writers
  pub no_more : l'.writers_waiting ≤ l.writers_waiting

pub waits_Passed :
    (t : ℕ) (timeout : ℤ) (isr : Bool) (l : RwMutex) (o : Outcome) (ws : List Waiter)
    → (l.writer_active ≡ true → l.readers ≡ 0)
    → 0 < l.writers_waiting
    → l.writers_waiting < 2 ^ 16
    → wait t timeout isr l.cv_writers ≡ some (o, ws)
    → Passed l (after_wait l o ws).1
unfolding wait after_wait lock_timed_out
waits_Passed t timeout isr l acquired ws x p k h = absurd (ground arith)
waits_Passed t timeout isr l refused ws x p k h = record {
  same_readers = refl;
  still_exclusive = x;
  counted = omega arith;
  no_more = omega arith;
}
waits_Passed t timeout isr l blocks ws x p k h = record {
  same_readers = refl;
  still_exclusive = x;
  counted = ground (arith, length-setup_wait t timeout l.cv_writers);
  no_more = omega arith;
}

pub lock_loop_cases :
    (t : ℕ) (timeout : ℤ) (isr : Bool) (l l' : RwMutex) (o : Outcome)
    → lock_loop t timeout isr l ≡ some (o, l')
    → ((o' : Outcome) × (ws : List Waiter) × (wait t timeout isr l.cv_writers ≡ some (o', ws))
        × (l' ≡ (after_wait l o' ws).1))
      ⊎ ((l.readers ≡ 0) × (l.writer_active ≡ false) × (lock_granted l ≡ some l'))
unfolding lock_loop lock_granted
lock_loop_cases t timeout isr l l' o h = elim (Option-cases (wait t timeout isr l.cv_writers)) [
  | inl e ↦ inr (ground arith)
  | inr ((o', ws), e) ↦ ground arith
]
