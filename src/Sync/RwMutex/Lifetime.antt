-- ===== src/Sync/RwMutex/Lifetime.antt =====
-- A reader-writer lock from its construction on.
use bare_metal_rtos.Base.{
  ◌-◌, ◌≡◌, ◌≢◌, refl, arith, subst, some, List, [], ◌∷◌, inl, inr, Option-cases, some_eq,
  ℕ_discrete,
}
use bare_metal_rtos.Sync.RwMutex.{
  init, read_loop, read_unlock, lock_loop, timed_lock, lock_timed_out, unlock,
}
use bare_metal_rtos.Sync.RwMutex.Exclusion.{
  System, Event, reads, writes, read_unlocks, unlocks, reader_goes_on, writer_goes_on,
  writer_gives_up, ticks_readers, ticks_writers, step, run, IsValid, length-tick,
}
use bare_metal_rtos.Sync.RwMutex.Steps.{
  reads-IsValid, goes_on-IsValid, writes-IsValid, read_unlock-IsValid, unlock-IsValid,
}

unfoldable pub start : System
start = record { lock = init; notified = 0; late = 0 }

start-IsValid : IsValid start
unfolding start init
start-IsValid = record {
  exclusive = λ k. refl;
  exact = refl;
  few_writers = omega arith;
  few_readers = omega arith;
}

gives_up-IsValid :
    (s : System)
    → IsValid s
    → s.late ≢ 0
    → IsValid (record s { lock = lock_timed_out s.lock; late = s.late - 1 })
unfolding lock_timed_out
gives_up-IsValid s v n = record {
  exclusive = v.exclusive;
  exact = omega (arith, v.exact, v.few_writers);
  few_writers = omega (arith, v.exact, v.few_writers);
  few_readers = v.few_readers;
}

step-IsValid : (e : Event) (s s' : System) → IsValid s → step e s ≡ some s' → IsValid s'
unfolding step
step-IsValid (reads t to isr) s s' v h = elim (Option-cases (read_loop t to isr s.lock)) [
  | inl e ↦ ground arith
  | inr ((o, l), e) ↦ subst IsValid (ground arith) (reads-IsValid t to isr s l o v e)
]
step-IsValid (reader_goes_on t to isr) s s' v h = elim (Option-cases (read_loop t to isr s.lock)) [
  | inl e ↦ ground arith
  | inr ((o, l), e) ↦ subst IsValid (ground arith) (reads-IsValid t to isr s l o v e)
]
step-IsValid (writes t to isr) s s' v h = elim (Option-cases (timed_lock t to isr s.lock)) [
  | inl e ↦ ground arith
  | inr ((o, l), e) ↦ subst IsValid (ground arith) (writes-IsValid t to isr s l o v e)
]
step-IsValid read_unlocks s s' v h = elim (Option-cases (read_unlock s.lock)) [
  | inl e ↦ ground arith
  | inr ((w, l), e) ↦ subst IsValid (ground arith) (read_unlock-IsValid s l w v e)
]
step-IsValid unlocks s s' v h = elim (Option-cases (unlock s.lock)) [
  | inl e ↦ ground arith
  | inr (((rs, ws), l), e) ↦ subst IsValid (ground arith) (unlock-IsValid s l rs ws v e)
]
step-IsValid (writer_goes_on t to isr) s s' v h = elim (Option-cases (lock_loop t to isr s.lock)) [
  | inl e ↦ ground arith
  | inr ((o, l), e) ↦ elim (ℕ_discrete s.notified 0) [
    | yes z ↦ ground arith
    | no n ↦ subst IsValid (ground arith) (goes_on-IsValid t to isr s l o v n e)
  ]
]
step-IsValid writer_gives_up s s' v h = elim (ℕ_discrete s.late 0) [
  | yes z ↦ ground arith
  | no n ↦ subst IsValid (ground arith) (gives_up-IsValid s v n)
]
step-IsValid (ticks_readers e) s s' v h = subst IsValid (some_eq h) (record {
  exclusive = v.exclusive;
  exact = v.exact;
  few_writers = v.few_writers;
  few_readers = v.few_readers;
})
step-IsValid (ticks_writers e) s s' v h = subst IsValid (some_eq h) (record {
  exclusive = v.exclusive;
  exact = omega (arith, v.exact, length-tick e s.lock.cv_writers);
  few_writers = v.few_writers;
  few_readers = v.few_readers;
})

runs_on : (es : List Event) (s s' : System) → IsValid s → run es s ≡ some s' → IsValid s'
unfolding run
runs_on [] s s' v h = subst IsValid (some_eq h) v
runs_on (e ∷ es) s s' v h = elim (Option-cases (step e s)) [
  | inl stop ↦ ground arith
  | inr (m, more) ↦ runs_on es m s' (step-IsValid e s m v more) (ground arith)
]

-- From the constructor on, after any calls, wake-ups and ticks that can happen and whose assertions hold,
-- there is no reader while a writer has the lock, and the count of waiting writers is the number of those
-- in the wait list and of those woken and not run since; both counts are at most 65534.
pub run_from_start-IsValid : (es : List Event) (s : System) → run es start ≡ some s → IsValid s
run_from_start-IsValid es s h = runs_on es start s start-IsValid h
