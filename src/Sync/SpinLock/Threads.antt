-- ===== src/Sync/SpinLock/Threads.antt =====
-- stk::sync::SpinLock of stk/include/sync/stk_sync_spinlock.h under any interleaving of threads.
use bare_metal_rtos.Base.{
  inr, inl, Option-cases, refl, some_eq, subst, ◌≢◌, ℕ_discrete, arith, ℕ, ◌≡◌, ◌≤◌, ◌<◌, Bool,
  true, false, Option, some, none, List, [], ◌∷◌, ◌==◌, if◌then◌else◌, count, erase, update, ◌+◌,
  ◌-◌,
}
use bare_metal_rtos.Sync.Mutex.{tid_none}
use bare_metal_rtos.Sync.SpinLock.{
  SpinLock, init, recursion_max, make_locked, try_lock, unlock, unlock_low, Attempt, nested,
  entering, refused,
}

-- What a thread does next: begins a Lock() or TryLock(), goes on with MakeLocked(), begins an Unlock(), or goes on
-- with the low-level unlock.
pub data Move : Type 0 where
  begins makes frees : ℕ → Move
  unlocks : ℕ → Bool → Move

-- The lock with the threads before MakeLocked(), those before the low-level unlock, and how many times each thread
-- has locked and not yet unlocked.
pub record Threads : Type 0 where
  pub lock : SpinLock
  pub arriving : List ℕ
  pub leaving : List ℕ
  pub holds : ℕ → ℕ

abbrev gains : ℕ → (ℕ → ℕ) → ℕ → ℕ
gains tid holds = update holds tid (holds tid + 1)

abbrev loses : ℕ → (ℕ → ℕ) → ℕ → ℕ
loses tid holds = update holds tid (holds tid - 1)

abbrev after_try : ℕ → Threads → Option (Attempt × SpinLock) → Option Threads
after_try tid s none = none
after_try tid s (some (entering, l)) = some (record s { lock = l; arriving = tid ∷ s.arriving })
after_try tid s (some (nested, l)) = some (record s { lock = l; holds = gains tid s.holds })
after_try tid s (some (refused, l)) = some (record s { lock = l })

abbrev after_unlock : ℕ → Threads → Option (Bool × SpinLock) → Option Threads
after_unlock tid s none = none
after_unlock tid s (some (last, l)) = some (record s {
  lock = l;
  leaving = if last then tid ∷ s.leaving else s.leaving;
  holds = loses tid s.holds;
})

abbrev after_make : ℕ → Threads → Option SpinLock → Option Threads
after_make tid s none = none
after_make tid s (some l) =
    some (record s { lock = l; arriving = erase tid s.arriving; holds = gains tid s.holds })

-- A thread that is not at such a place does nothing there.
unfoldable pub step : Move → Threads → Option Threads
step (begins tid) s = after_try tid s (try_lock tid s.lock)
step (makes tid) s =
    if count tid s.arriving == 0 then some s else after_make tid s (make_locked tid s.lock)
step (unlocks tid in_isr) s = after_unlock tid s (unlock tid in_isr s.lock)
step (frees tid) s =
    if count tid s.leaving == 0
    then some s
    else some (record s { lock = unlock_low s.lock; leaving = erase tid s.leaving })

-- The moves in order, up to a failed assertion.
unfoldable pub run : List Move → Threads → Option Threads
run [] s = some s
run (m ∷ ms) s = elim (step m s) [ none ↦ none | some s' ↦ run ms s' ]

unfoldable pub start : Threads
start = record { lock = init; arriving = []; leaving = []; holds = λ t. 0 }

-- The lock is free, or held, or one thread is between the low-level lock and the rest of the state.
pub data InStep (s : Threads) : Type 0 where
  is_free :
      s.lock.is_locked ≡ false
      → s.lock.owner_tid ≡ tid_none
      → s.lock.recursion_count ≡ 0
      → ((u : ℕ) → s.holds u ≡ 0)
      → s.arriving ≡ []
      → s.leaving ≡ []
      → InStep s
  is_held :
      s.lock.is_locked ≡ true
      → 0 < s.lock.recursion_count
      → s.lock.recursion_count ≤ recursion_max
      → ((u : ℕ) → s.holds u ≡ (if u == s.lock.owner_tid then s.lock.recursion_count else 0))
      → s.arriving ≡ []
      → s.leaving ≡ []
      → InStep s
  is_arriving :
      (tid : ℕ)
      → s.lock.is_locked ≡ true
      → s.lock.owner_tid ≡ tid_none
      → s.lock.recursion_count ≡ 0
      → ((u : ℕ) → s.holds u ≡ 0)
      → s.arriving ≡ tid ∷ []
      → s.leaving ≡ []
      → InStep s
  is_leaving :
      (tid : ℕ)
      → s.lock.is_locked ≡ true
      → s.lock.owner_tid ≡ tid_none
      → s.lock.recursion_count ≡ 0
      → ((u : ℕ) → s.holds u ≡ 0)
      → s.arriving ≡ []
      → s.leaving ≡ tid ∷ []
      → InStep s

module _ (s s' : Threads) (tid : ℕ) where
  begins-InStep : InStep s → step (begins tid) s ≡ some s' → InStep s'
  unfolding step try_lock
  begins-InStep (is_free l o c f a e) k =
      is_arriving tid (ground arith) (ground arith) (ground arith) (λ u. ground (arith, f u, f tid))
        (ground arith) (ground arith)
  begins-InStep (is_held l o c f a e) k =
      is_held (ground arith) (ground arith) (ground arith) (λ u. ground (arith, f u, f tid))
        (ground arith) (ground arith)
  begins-InStep (is_arriving t l o c f a e) k =
      is_arriving t (ground arith) (ground arith) (ground arith) (λ u. ground (arith, f u, f tid))
        (ground arith) (ground arith)
  begins-InStep (is_leaving t l o c f a e) k =
      is_leaving t (ground arith) (ground arith) (ground arith) (λ u. ground (arith, f u, f tid))
        (ground arith) (ground arith)

  unlocks-InStep : (in_isr : Bool) → InStep s → step (unlocks tid in_isr) s ≡ some s' → InStep s'
  unfolding step unlock
  unlocks-InStep in_isr (is_free l o c f a e) k = absurd (ground arith)
  unlocks-InStep in_isr (is_held l o c f a e) k = elim (ℕ_discrete s.lock.recursion_count 1) [
    | yes last ↦
        is_leaving tid (ground arith) (ground arith) (ground arith)
          (λ u. ground (arith, f u, f tid)) (ground arith) (ground arith)
    | no more ↦
        is_held (ground arith) (ground arith) (ground arith) (λ u. ground (arith, f u, f tid))
          (ground arith) (ground arith)
  ]
  unlocks-InStep in_isr (is_arriving t l o c f a e) k = absurd (ground arith)
  unlocks-InStep in_isr (is_leaving t l o c f a e) k = absurd (ground arith)

  makes-InStep : InStep s → step (makes tid) s ≡ some s' → InStep s'
  unfolding step make_locked count erase
  makes-InStep (is_free l o c f a e) k =
      is_free (ground arith) (ground arith) (ground arith) (λ u. ground (arith, f u, f tid))
        (ground arith) (ground arith)
  makes-InStep (is_held l o c f a e) k =
      is_held (ground arith) (ground arith) (ground arith) (λ u. ground (arith, f u, f tid))
        (ground arith) (ground arith)
  makes-InStep (is_arriving t l o c f a e) k = elim (ℕ_discrete t tid) [
    | yes self ↦
        is_held (ground arith) (ground arith) (ground arith) (λ u. ground (arith, f u, f tid))
          (ground arith) (ground arith)
    | no other ↦
        is_arriving t (ground arith) (ground arith) (ground arith) (λ u. ground (arith, f u, f tid))
          (ground arith) (ground arith)
  ]
  makes-InStep (is_leaving t l o c f a e) k =
      is_leaving t (ground arith) (ground arith) (ground arith) (λ u. ground (arith, f u, f tid))
        (ground arith) (ground arith)

  frees-InStep : InStep s → step (frees tid) s ≡ some s' → InStep s'
  unfolding step unlock_low count erase
  frees-InStep (is_free l o c f a e) k =
      is_free (ground arith) (ground arith) (ground arith) (λ u. ground (arith, f u, f tid))
        (ground arith) (ground arith)
  frees-InStep (is_held l o c f a e) k =
      is_held (ground arith) (ground arith) (ground arith) (λ u. ground (arith, f u, f tid))
        (ground arith) (ground arith)
  frees-InStep (is_arriving t l o c f a e) k =
      is_arriving t (ground arith) (ground arith) (ground arith) (λ u. ground (arith, f u, f tid))
        (ground arith) (ground arith)
  frees-InStep (is_leaving t l o c f a e) k = elim (ℕ_discrete t tid) [
    | yes self ↦
        is_free (ground arith) (ground arith) (ground arith) (λ u. ground (arith, f u, f tid))
          (ground arith) (ground arith)
    | no other ↦
        is_leaving t (ground arith) (ground arith) (ground arith) (λ u. ground (arith, f u, f tid))
          (ground arith) (ground arith)
  ]

step-InStep : (m : Move) (s s' : Threads) → InStep s → step m s ≡ some s' → InStep s'
step-InStep (begins tid) s s' v k = begins-InStep s s' tid v k
step-InStep (makes tid) s s' v k = makes-InStep s s' tid v k
step-InStep (unlocks tid in_isr) s s' v k = unlocks-InStep s s' tid in_isr v k
step-InStep (frees tid) s s' v k = frees-InStep s s' tid v k

run-InStep : (ms : List Move) (s s' : Threads) → InStep s → run ms s ≡ some s' → InStep s'
unfolding run
run-InStep [] s s' v k = subst InStep (some_eq k) v
run-InStep (m ∷ ms) s s' v k = elim (Option-cases (step m s)) [
  | inl stop ↦ ground arith
  | inr (t, more) ↦ run-InStep ms t s' (step-InStep m s t v more) (ground arith)
]

-- A thread that has just taken the low-level lock finds no owner and no recursion.
make_locked_lem :
    (s : Threads) (tid : ℕ) → InStep s → 0 < count tid s.arriving → make_locked tid s.lock ≢ none
unfolding make_locked count
make_locked_lem s tid (is_free l o c f a e) h k = absurd (ground arith)
make_locked_lem s tid (is_held l o c f a e) h k = absurd (ground arith)
make_locked_lem s tid (is_arriving t l o c f a e) h k = absurd (ground arith)
make_locked_lem s tid (is_leaving t l o c f a e) h k = absurd (ground arith)

-- From the constructor on, after any moves of any threads, interleaved in any way, whose assertions hold: the lock is
-- free with no owner and no recursion; or its owner has locked it as often as the recursion counts and not yet unlocked
-- it, from 1 to RECURSION_MAX times, and every other thread has given back each lock that it had; or exactly one thread
-- is between the low-level lock and the rest of the state, and no thread holds a lock. MakeLocked() never panics for a
-- thread that has taken the low-level lock.
pub run_from_start-InStep :
    (ms : List Move) (s : Threads)
    → run ms start ≡ some s
    → InStep s × ((tid : ℕ) → 0 < count tid s.arriving → make_locked tid s.lock ≢ none)
unfolding start init
run_from_start-InStep ms s k =
    let v = run-InStep ms start s (is_free refl refl refl (λ u. refl) refl refl) k in
    (v, λ tid h. make_locked_lem s tid v h)
