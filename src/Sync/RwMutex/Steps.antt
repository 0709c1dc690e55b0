-- ===== src/Sync/RwMutex/Steps.antt =====
-- Every event keeps the reader-writer lock valid.
use bare_metal_rtos.Base.{
  ℕ, ◌+◌, ◌-◌, ◌%◌, ◌^◌, ◌≡◌, ◌≢◌, ◌≤◌, ◌<◌, arith, ap, Bool, true, false, Option, some, List, ◌⊎◌,
  inl, inr, Option-cases, length, ℕ_discrete,
}
use bare_metal_rtos.Base.Int.{ℤ}
use bare_metal_rtos.Sync.Semaphore.{Outcome}
use bare_metal_rtos.Sync.ConditionVariable.{wait}
use bare_metal_rtos.Sync.RwMutex.{
  RwMutex, read_loop, read_unlock, lock_loop, lock_granted, timed_lock, unlock,
}
use bare_metal_rtos.Sync.RwMutex.Exclusion.{
  System, IsValid, Passed, waits_Passed, lock_loop_cases, length-notify_one, woken_one,
}

lock_loop-Passed :
    (t : ℕ) (timeout : ℤ) (isr : Bool) (l l' : RwMutex) (o : Outcome)
    → (l.writer_active ≡ true → l.readers ≡ 0)
    → 0 < l.writers_waiting
    → l.writers_waiting < 2 ^ 16
    → lock_loop t timeout isr l ≡ some (o, l')
    → Passed l l'
unfolding lock_granted
lock_loop-Passed t timeout isr l l' o x p k h = elim (lock_loop_cases t timeout isr l l' o h) [
  | inl (o', ws, e, f) ↦ rw f (waits_Passed t timeout isr l o' ws x p k e)
  | inr (z, a, e) ↦ record {
    same_readers = ground arith;
    still_exclusive = λ b. ground arith;
    counted = ground arith;
    no_more = ground arith;
  }
]

read_loop_cases :
    (t : ℕ) (timeout : ℤ) (isr : Bool) (l l' : RwMutex) (o : Outcome)
    → read_loop t timeout isr l ≡ some (o, l')
    → (l'.writers_waiting ≡ l.writers_waiting)
      × (l'.writer_active ≡ l.writer_active)
      × (l'.cv_writers ≡ l.cv_writers)
      × ((l'.readers ≡ l.readers) ⊎ ((l.writer_active ≡ false) × (l'.readers ≤ 65534)))
unfolding read_loop
read_loop_cases t timeout isr l l' o h = elim (Option-cases (wait t timeout isr l.cv_readers)) [
  | inl e ↦ ground arith
  | inr ((o', ws), e) ↦ ground arith
]

pub reads-IsValid :
    (t : ℕ) (timeout : ℤ) (isr : Bool) (s : System) (l : RwMutex) (o : Outcome)
    → IsValid s
    → read_loop t timeout isr s.lock ≡ some (o, l)
    → IsValid (record s { lock = l })
reads-IsValid t timeout isr s l o v h =
    let (w, a, c, r) = read_loop_cases t timeout isr s.lock l o h in
    record {
      exclusive = λ k. ground (arith, v.exclusive);
      exact = omega (arith, v.exact, ap length c);
      few_writers = omega (arith, v.few_writers);
      few_readers = ground (arith, v.few_readers);
    }

pub goes_on-IsValid :
    (t : ℕ) (timeout : ℤ) (isr : Bool) (s : System) (l : RwMutex) (o : Outcome)
    → IsValid s
    → s.notified ≢ 0
    → lock_loop t timeout isr s.lock ≡ some (o, l)
    → IsValid (record s { lock = l; notified = s.notified - 1 })
goes_on-IsValid t timeout isr s l o v n h =
    let p =
      lock_loop-Passed t timeout isr s.lock l o v.exclusive (omega (arith, v.exact))
        (omega (arith, v.few_writers)) h in
    record {
      exclusive = p.still_exclusive;
      exact = omega (arith, v.exact, p.counted);
      few_writers = omega (arith, v.few_writers, p.no_more);
      few_readers = omega (arith, v.few_readers, p.same_readers);
    }

timed_lock_inv :
    (t : ℕ) (timeout : ℤ) (isr : Bool) (l l' : RwMutex) (o : Outcome)
    → timed_lock t timeout isr l ≡ some (o, l')
    → (l.writers_waiting < 65534)
      × (lock_loop t timeout isr (record l { writers_waiting = l.writers_waiting + 1 })
          ≡ some (o, l'))
unfolding timed_lock
timed_lock_inv t timeout isr l l' o h =
    elim (ℕ_discrete ((l.writers_waiting + 1) % 2 ^ 16) (l.writers_waiting + 1)) [
      | yes e ↦ (ground arith, ground arith)
      | no n ↦ ground arith
    ]

pub writes-IsValid :
    (t : ℕ) (timeout : ℤ) (isr : Bool) (s : System) (l : RwMutex) (o : Outcome)
    → IsValid s
    → timed_lock t timeout isr s.lock ≡ some (o, l)
    → IsValid (record s { lock = l })
writes-IsValid t timeout isr s l o v h =
    let (few, again) = timed_lock_inv t timeout isr s.lock l o h in
    let p =
      lock_loop-Passed t timeout isr
        (record s.lock { writers_waiting = s.lock.writers_waiting + 1 }) l o v.exclusive
        (omega arith) (omega arith) again in
    record {
      exclusive = p.still_exclusive;
      exact = omega (arith, v.exact, p.counted);
      few_writers = omega (arith, p.no_more);
      few_readers = omega (arith, v.few_readers, p.same_readers);
    }

pub read_unlock-IsValid :
    (s : System) (l : RwMutex) (w : Option ℕ)
    → IsValid s
    → read_unlock s.lock ≡ some (w, l)
    → IsValid (record s { lock = l; notified = s.notified + woken_one w })
unfolding read_unlock
read_unlock-IsValid s l w v h =
    let one = length-notify_one s.lock.cv_writers in
    let x = v.exclusive in
    let c = v.exact in
    let f = v.few_writers in
    let g = v.few_readers in
    record {
      exclusive = λ k. ground arith;
      exact = ground arith;
      few_writers = ground arith;
      few_readers = ground arith;
    }

pub unlock-IsValid :
    (s : System) (l : RwMutex) (rs ws : List ℕ)
    → IsValid s
    → unlock s.lock ≡ some ((rs, ws), l)
    → IsValid (record s { lock = l; notified = s.notified + length ws })
unfolding unlock
unlock-IsValid s l rs ws v h =
    let one = length-notify_one s.lock.cv_writers in
    let c = v.exact in
    let f = v.few_writers in
    let g = v.few_readers in
    record {
      exclusive = λ k. ground arith;
      exact = ground arith;
      few_writers = ground arith;
      few_readers = ground arith;
    }
