-- ===== src/Sync/Mutex/Runs.antt =====
-- The mutex stays valid through unlocking, waking, timeouts, and any sequence of events.
use bare_metal_rtos.Sync.Mutex.Handover.{timed_lock-Locked, lock-IsValid, can_call_inv, count-tick}
use bare_metal_rtos.Sync.Mutex.Ownership.{
  ticks, timed_out, runs_ok, runs, unlocks, tids, locks, woken_by, ok, Event, IsValid, can_call,
  System, step,
}
use bare_metal_rtos.Base.{
  ℕ_discrete, subst, Option-cases, Bool-cases, same, same-le-one, ap, ◌∙◌, counting, sym, true,
  count, erase, ℕ, ◌+◌, ◌≡◌, ◌≢◌, ◌≤◌, ◌<◌, refl, arith, Option, some, none, List, [], ◌∷◌, inl,
  inr, ◌⊎◌,
}
use bare_metal_rtos.Base.Int.{ℤ}
use bare_metal_rtos.Sync.WaitList.{Waiter, tick}
use bare_metal_rtos.Sync.Mutex.{
  timed_lock, expire, lock_timed_out, Mutex, tid_none, unlock, release,
}

-- What a successful Unlock() does.
pub data Unlocked (t : ℕ) (m m' : Mutex) (woken : Option ℕ) : Type 0 where
  inner :
      1 < m.recursion_count
      → m'.recursion_count + 1 ≡ m.recursion_count
      → m'.owner_tid ≡ m.owner_tid
      → m'.wait_list ≡ m.wait_list
      → woken ≡ none
      → Unlocked t m m' woken
  freed :
      m'.recursion_count ≡ 0
      → m'.owner_tid ≡ tid_none
      → m'.wait_list ≡ []
      → woken ≡ none
      → Unlocked t m m' woken
  passed :
      (w : Waiter) (ws : List Waiter)
      → m.wait_list ≡ w ∷ ws
      → m'.recursion_count ≡ 1
      → m'.owner_tid ≡ w.tid
      → m'.wait_list ≡ ws
      → woken ≡ some w.tid
      → Unlocked t m m' woken

module _ (base : ℕ → ℤ) where
  release-Unlocked :
      (t : ℕ) (m : Mutex) (ws : List Waiter)
      → m.wait_list ≡ ws
      → Unlocked t m (release base m).1 (release base m).0
  unfolding release
  release-Unlocked t m [] e = freed (ground arith) (ground arith) (ground arith) (ground arith)
  release-Unlocked t m (w ∷ ws) e =
      passed w ws e (ground arith) (ground arith) (ground arith) (ground arith)

  unlock_cases :
      (t : ℕ) (m m' : Mutex) (woken : Option ℕ)
      → m.recursion_count ≤ 65534
      → unlock base t m ≡ some (woken, m')
      → (m.owner_tid ≡ t)
        × (m.recursion_count ≢ 0)
        × (((woken ≡ (release base m).0) × (m' ≡ (release base m).1))
            ⊎ ((1 < m.recursion_count)
                × (m'.recursion_count + 1 ≡ m.recursion_count)
                × (m'.owner_tid ≡ m.owner_tid)
                × (m'.wait_list ≡ m.wait_list)
                × (woken ≡ none)))
  unfolding unlock
  unlock_cases t m m' woken d h = ground arith

  -- An Unlock() whose assertions hold, of a mutex with at most 65534 locks: where the caller has more than
  -- one lock it gives one back and wakes nobody; else, if a task waits, the first one leaves the list and
  -- is woken as the new owner with one lock; else the mutex is free, with no owner and nobody waiting.
  pub unlock-Unlocked :
      (t : ℕ) (m m' : Mutex) (woken : Option ℕ)
      → m.recursion_count ≤ 65534
      → unlock base t m ≡ some (woken, m')
      → Unlocked t m m' woken
  unlock-Unlocked t m m' woken d h = elim (unlock_cases t m m' woken d h).2 [
    | inl (e, f) ↦ rw (e, f) (release-Unlocked t m m.wait_list refl)
    | inr (a, b, c, e, f) ↦ inner a b c e f
  ]

-- The owner calls, so it is not on its way from a wait.
not_woken :
    (t : ℕ) (s : System) → can_call t s ≡ true → s.mutex.owner_tid ≡ t → IsValid s → s.woken ≡ []
not_woken t s c mine v =
    let (real, away, idle) = can_call_inv t s c in
    elim v.handed [
      | inl k ↦ k
      | inr (k, one) ↦ absurd (omega (counting, ap (count t) k, idle, ap (λ j. same j t) mine))
    ]

erase_only : (t u : ℕ) → 0 < count t (u ∷ []) → erase t (u ∷ []) ≡ []
unfolding erase count
erase_only t u h = ground arith

tick_nothing : (e : ℕ) (ws : List Waiter) → ws ≡ [] → (tick e ws).1 ≡ []
unfolding tick
tick_nothing e [] h = refl
tick_nothing e (w ∷ ws) h = cc

unlock-IsValid :
    (t : ℕ) (s : System) (m : Mutex) (w : Option ℕ)
    → can_call t s ≡ true
    → s.mutex.owner_tid ≡ t
    → IsValid s
    → Unlocked t s.mutex m w
    → IsValid (record { mutex = m; woken = woken_by w s.woken })
unlock-IsValid t s m w c mine v (inner l r o q e) =
    let (real, away, idle) = can_call_inv t s c in
    rw e (record {
      free = λ k. absurd (omega arith);
      held = λ k. omega (arith, v.held (λ z. omega arith));
      depth = omega (arith, v.depth);
      handed = elim v.handed [ inl k ↦ inl k | inr (k, one) ↦ absurd (omega arith) ];
      queue = λ u. rw (q, o) (v.queue u);
      real = rw q v.real;
    })
unlock-IsValid t s m w c mine v (freed r o q e) = rw e (record {
  free = λ k. (o, q, not_woken t s c mine v);
  held = λ k. absurd (k r);
  depth = omega arith;
  handed = inl (not_woken t s c mine v);
  queue = λ u. rw (q, o) (omega (counting, same-le-one tid_none u));
  real = rw q (omega counting);
})
unlock-IsValid t s m w c mine v (passed x ws l r o q e) =
    rw (e, not_woken t s c mine v)
      (record {
        free = λ k. absurd (omega arith);
        held = λ k z. omega (
          counting,
          ap (λ j. count tid_none (tids j)) l,
          v.real,
          ap (λ j. same j tid_none) (sym o ∙ z),
        );
        depth = omega arith;
        handed = inr (ap (λ j. j ∷ []) (sym o), r);
        queue = λ u. rw (q, o) (omega (counting, ap (λ j. count u (tids j)) l, v.queue u));
        real = rw q (omega (counting, ap (λ j. count tid_none (tids j)) l, v.real));
      })

module _ (base : ℕ → ℤ) where
  runs-IsValid :
      (t : ℕ) (s : System)
      → IsValid s
      → 0 < count t s.woken
      → IsValid (record s { woken = erase t s.woken })
  runs-IsValid t s v h = elim v.handed [
    | inl e ↦ absurd (omega (counting, ap (count t) e))
    | inr (e, one) ↦
        let gone : erase t s.woken ≡ [] =
          ap (erase t) e ∙ erase_only t s.mutex.owner_tid (omega (counting, ap (count t) e)) in
        rw gone (record {
          free = λ k. absurd (omega arith);
          held = v.held;
          depth = v.depth;
          handed = inl refl;
          queue = v.queue;
          real = v.real;
        })
  ]

  ticks-IsValid :
      (e : ℕ) (s : System) → IsValid s → IsValid (record s { mutex = (expire e s.mutex).1 })
  unfolding expire
  ticks-IsValid e s v = record {
    free = λ k. let (o, q, w) = v.free k in (o, tick_nothing e s.mutex.wait_list q, w);
    held = v.held;
    depth = v.depth;
    handed = v.handed;
    queue = λ u. omega (arith, v.queue u, count-tick u e s.mutex.wait_list);
    real = omega (arith, v.real, count-tick tid_none e s.mutex.wait_list);
  }

  lock_timed_out_fields :
      (owner : ℕ) (m : Mutex)
      → ((lock_timed_out base owner m).owner_tid ≡ m.owner_tid)
        × ((lock_timed_out base owner m).recursion_count ≡ m.recursion_count)
        × ((lock_timed_out base owner m).wait_list ≡ m.wait_list)
  unfolding lock_timed_out
  lock_timed_out_fields owner m = ground arith

  timed_out-IsValid :
      (owner : ℕ) (s : System)
      → IsValid s
      → IsValid (record s { mutex = lock_timed_out base owner s.mutex })
  timed_out-IsValid owner s v =
      let (o, r, q) = lock_timed_out_fields owner s.mutex in
      record {
        free = λ k. rw (o, q) (v.free (sym r ∙ k));
        held = λ k. rw o (v.held (λ z. k (r ∙ z)));
        depth = rw r v.depth;
        handed = rw (o, r) v.handed;
        queue = λ u. rw (o, q) (v.queue u);
        real = rw q v.real;
      }

  -- Every event that can happen keeps the mutex valid: it is held or free with nobody waiting, a task
  -- that Unlock() has woken is the owner, and the owner does not wait.
  pub step-IsValid : (e : Event) (s s' : System) → IsValid s → step base e s ≡ ok s' → IsValid s'
  unfolding step
  step-IsValid (locks t timeout isr) s s' v h = elim (Bool-cases (can_call t s)) [
    | inr no_call ↦ ground arith
    | inl can ↦ elim (Option-cases (timed_lock base t timeout isr s.mutex)) [
      | inl e ↦ ground arith
      | inr ((o, m), e) ↦
          subst IsValid (ground arith)
            (lock-IsValid t timeout s m can v (timed_lock-Locked base t timeout isr o s.mutex m e))
    ]
  ]
  step-IsValid (unlocks t) s s' v h = elim (Bool-cases (can_call t s)) [
    | inr no_call ↦ ground arith
    | inl can ↦ elim (Option-cases (unlock base t s.mutex)) [
      | inl e ↦ ground arith
      | inr ((w, m), e) ↦ subst IsValid (ground arith) (
          unlock-IsValid t s m w can (unlock_cases base t s.mutex m w v.depth e).0 v
            (unlock-Unlocked base t s.mutex m w v.depth e))
    ]
  ]
  step-IsValid (runs t) s s' v h = elim (ℕ_discrete (count t s.woken) 0) [
    | yes z ↦ ground arith
    | no n ↦ subst IsValid (ground (arith, runs_ok base t s v)) (runs-IsValid t s v (omega arith))
  ]
  step-IsValid (timed_out owner) s s' v h =
      subst IsValid (ground arith) (timed_out-IsValid owner s v)
  step-IsValid (ticks e) s s' v h = subst IsValid (ground arith) (ticks-IsValid e s v)
