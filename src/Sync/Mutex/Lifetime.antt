-- ===== src/Sync/Mutex/Lifetime.antt =====
-- A mutex from its construction on.
use bare_metal_rtos.Base.{refl, ℕ, ◌≡◌, arith, subst, List, [], ◌∷◌, inl, counting, same-le-one}
use bare_metal_rtos.Base.Int.{ℤ}
use bare_metal_rtos.Sync.Mutex.{init, tid_none}
use bare_metal_rtos.Sync.Mutex.Ownership.{System, Event, Result, stop, ignored, ok, step, IsValid}
use bare_metal_rtos.Sync.Mutex.Runs.{step-IsValid}

-- The events in order, those that cannot happen left out, up to a failed assertion.
unfoldable pub run : (ℕ → ℤ) → List Event → System → Result
run base [] s = ok s
run base (e ∷ es) s = elim (step base e s) [
  | stop ↦ stop
  | ignored ↦ run base es s
  | ok s' ↦ run base es s'
]

unfoldable pub start : (ℕ → ℤ) → System
start weights = record { mutex = init weights; woken = [] }

start-IsValid : (weights : ℕ → ℤ) → IsValid (start weights)
unfolding start init
start-IsValid w = record {
  free = λ k. (refl, refl, refl);
  held = λ k. absurd (k refl);
  depth = omega arith;
  handed = inl refl;
  queue = λ u. omega (counting, same-le-one tid_none u);
  real = omega counting;
}

ok_eq : {s s' : System} → ok s ≡ ok s' → s ≡ s'
ok_eq h = cc

data Stepped (base : ℕ → ℤ) (e : Event) (s : System) : Type 0 where
  stops : step base e s ≡ stop → Stepped base e s
  skips : step base e s ≡ ignored → Stepped base e s
  goes : (m : System) → step base e s ≡ ok m → Stepped base e s

stepped :
    (base : ℕ → ℤ) (e : Event) (s : System) (r : Result) → step base e s ≡ r → Stepped base e s
stepped base e s stop h = Stepped.stops h
stepped base e s ignored h = Stepped.skips h
stepped base e s (ok m) h = Stepped.goes m h

runs_on :
    (base : ℕ → ℤ) (es : List Event) (s s' : System)
    → IsValid s
    → run base es s ≡ ok s'
    → IsValid s'
unfolding run
runs_on base [] s s' v h = subst IsValid (ok_eq h) v
runs_on base (e ∷ es) s s' v h = elim (stepped base e s (step base e s) refl) [
  | stops k ↦ ground arith
  | skips k ↦ runs_on base es s s' v (ground arith)
  | goes m k ↦ runs_on base es m s' (step-IsValid base e s m v k) (ground arith)
]

-- From the constructor on, after any calls, wake-ups and ticks whose assertions hold, the mutex is valid:
-- it is free with no owner, no waiter and nobody on the way from Unlock(), or held by a task other than
-- TID_NONE with at most 65534 locks; a task that Unlock() has woken is the owner; the owner does not
-- wait, and no task waits twice.
pub run_from_start :
    (base weights : ℕ → ℤ) (es : List Event) (s : System)
    → run base es (start weights) ≡ ok s
    → IsValid s
run_from_start base weights es s h = runs_on base es (start weights) s (start-IsValid weights) h
