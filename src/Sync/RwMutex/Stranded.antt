-- ===== src/Sync/RwMutex/Stranded.antt =====
-- A writer that gives up while readers wait behind it.
use bare_metal_rtos.Base.{
  ℕ, ◌+◌, ◌≡◌, ◌<◌, refl, arith, Bool, false, Option, Option-cases, none, some, some_eq, List, [],
  ◌∷◌, inl, inr, subst,
}
use bare_metal_rtos.Base.Int.{ℤ}
use bare_metal_rtos.Sync.WaitList.{Waiter}
use bare_metal_rtos.Sync.Semaphore.{Outcome, acquired}
use bare_metal_rtos.Sync.RwMutex.{RwMutex, read_loop, read_unlock, lock_timed_out}

-- What readers call.
pub data Call : Type 0 where
  reads : ℕ → ℤ → Bool → Call
  read_unlocks : Call

abbrev after_read : Option (Outcome × RwMutex) → Option RwMutex
after_read none = none
after_read (some (o, s)) = some s

abbrev after_unlock : Option (Option ℕ × RwMutex) → Option RwMutex
after_unlock none = none
after_unlock (some (woken, s)) = some s

unfoldable pub step : Call → RwMutex → Option RwMutex
step (reads tid timeout in_isr) s = after_read (read_loop tid timeout in_isr s)
step read_unlocks s = after_unlock (read_unlock s)

-- The calls in order, up to a failed assertion.
unfoldable pub run : List Call → RwMutex → Option RwMutex
run [] s = some s
run (c ∷ cs) s = elim (step c s) [ none ↦ none | some s' ↦ run cs s' ]

-- The lock is open to readers while the tasks in `ws` wait to read.
record IsOpen (ws : List Waiter) (s : RwMutex) : Type 0 where
  no_writer : s.writer_active ≡ false
  nobody_waits : s.writers_waiting ≡ 0
  behind : s.cv_readers ≡ ws

step-IsOpen :
    (ws : List Waiter) (c : Call) (s s' : RwMutex) → IsOpen ws s → step c s ≡ some s' → IsOpen ws s'
unfolding step read_loop read_unlock
step-IsOpen ws (reads tid timeout in_isr) s s' v k = record {
  no_writer = ground (arith, v.no_writer, v.nobody_waits);
  nobody_waits = ground (arith, v.no_writer, v.nobody_waits);
  behind = ground (arith, v.no_writer, v.nobody_waits, v.behind);
}
step-IsOpen ws read_unlocks s s' v k = record {
  no_writer = ground (arith, v.no_writer);
  nobody_waits = ground (arith, v.nobody_waits);
  behind = ground (arith, v.behind);
}

run-IsOpen :
    (ws : List Waiter) (cs : List Call) (s s' : RwMutex)
    → IsOpen ws s
    → run cs s ≡ some s'
    → IsOpen ws s'
unfolding run
run-IsOpen ws [] s s' v k = subst (IsOpen ws) (some_eq k) v
run-IsOpen ws (c ∷ cs) s s' v k = elim (Option-cases (step c s)) [
  | inl stop ↦ ground arith
  | inr (m, more) ↦ run-IsOpen ws cs m s' (step-IsOpen ws c s m v more) (ground arith)
]

timed_out-IsOpen :
    (s : RwMutex)
    → s.writers_waiting ≡ 1
    → s.writer_active ≡ false
    → IsOpen s.cv_readers (lock_timed_out s)
unfolding lock_timed_out
timed_out-IsOpen s w a = record { no_writer = a; nobody_waits = ground (arith, w); behind = refl }

read_open :
    (t : ℕ) (timeout : ℤ) (in_isr : Bool) (ws : List Waiter) (s : RwMutex)
    → IsOpen ws s
    → s.readers < 65534
    → read_loop t timeout in_isr s ≡ some (acquired, record s { readers = s.readers + 1 })
unfolding read_loop
read_open t timeout in_isr ws s v l = ground (arith, v.no_writer, v.nobody_waits)

-- When the only waiting writer times out while no writer is active, the readers that wait behind it stay in the list:
-- nobody wakes them, in whatever sequence other readers call TimedReadLock() and ReadUnlock() from then on, though each
-- of these readers that finds room gets the lock at once.
pub lock_timed_out_strands :
    (cs : List Call) (s s' : RwMutex)
    → s.writers_waiting ≡ 1
    → s.writer_active ≡ false
    → run cs (lock_timed_out s) ≡ some s'
    → (s'.cv_readers ≡ s.cv_readers)
      × ((t : ℕ) (timeout : ℤ) (in_isr : Bool)
          → s'.readers < 65534
          → read_loop t timeout in_isr s' ≡ some (acquired, record s' { readers = s'.readers + 1 }))
lock_timed_out_strands cs s s' w a k =
    let v = run-IsOpen s.cv_readers cs (lock_timed_out s) s' (timed_out-IsOpen s w a) k in
    (v.behind, λ t timeout in_isr l. read_open t timeout in_isr s.cv_readers s' v l)
