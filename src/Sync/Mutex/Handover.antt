-- ===== src/Sync/Mutex/Handover.antt =====
-- Every event keeps the mutex valid.
use bare_metal_rtos.Base.{
  same_refl, same-ne, same-le-one, ℕ_discrete, ℕ, ◌+◌, ◌≡◌, ◌≢◌, ◌≤◌, ◌<◌, refl, arith, ap, subst,
  Bool, true, some, List, [], ◌∷◌, ◌++◌, inl, inr, ◌⊎◌, count, counting, same,
}
use bare_metal_rtos.Base.Int.{ℤ}
use bare_metal_rtos.Sync.WaitList.{Waiter, setup_wait, tick, tick_waiter}
use bare_metal_rtos.Sync.Semaphore.{Outcome}
use bare_metal_rtos.Sync.Mutex.{Mutex, tid_none, timed_lock}
use bare_metal_rtos.Sync.Mutex.Ownership.{System, IsValid, tids, can_call}

tids-setup_wait :
    (t : ℕ) (timeout : ℤ) (ws : List Waiter) → tids (setup_wait t timeout ws) ≡ tids ws ++ t ∷ []
unfolding setup_wait
tids-setup_wait t timeout [] = refl
tids-setup_wait t timeout (w ∷ ws) = ap (λ l. w.tid ∷ l) (tids-setup_wait t timeout ws)

pub count-tick : (u e : ℕ) (ws : List Waiter) → count u (tids (tick e ws).1) ≤ count u (tids ws)
unfolding tick tick_waiter count
count-tick u e [] = omega arith
count-tick u e (w ∷ ws) = ground (arith, count-tick u e ws)

-- What a successful TimedLock() segment does to the owner, the count and the list.
pub data Locked (t : ℕ) (timeout : ℤ) (m m' : Mutex) : Type 0 where
  again :
      m.recursion_count ≢ 0
      → m.owner_tid ≡ t
      → m.recursion_count < 65534
      → m'.recursion_count ≡ m.recursion_count + 1
      → m'.owner_tid ≡ m.owner_tid
      → m'.wait_list ≡ m.wait_list
      → Locked t timeout m m'
  first :
      m.recursion_count ≡ 0
      → m'.recursion_count ≡ 1
      → m'.owner_tid ≡ t
      → m'.wait_list ≡ m.wait_list
      → Locked t timeout m m'
  queued :
      m.recursion_count ≢ 0
      → m.owner_tid ≢ t
      → m'.recursion_count ≡ m.recursion_count
      → m'.owner_tid ≡ m.owner_tid
      → m'.wait_list ≡ setup_wait t timeout m.wait_list
      → Locked t timeout m m'
  kept : m' ≡ m → Locked t timeout m m'

module _ (base : ℕ → ℤ) where
  lock_again :
      (t : ℕ) (timeout : ℤ) (isr : Bool) (o : Outcome) (m m' : Mutex)
      → m.recursion_count ≢ 0
      → m.owner_tid ≡ t
      → timed_lock base t timeout isr m ≡ some (o, m')
      → Locked t timeout m m'
  unfolding timed_lock
  lock_again t timeout isr o m m' n e h =
      again n e (ground arith) (ground arith) (ground arith) (ground arith)

  lock_first :
      (t : ℕ) (timeout : ℤ) (isr : Bool) (o : Outcome) (m m' : Mutex)
      → m.recursion_count ≡ 0
      → timed_lock base t timeout isr m ≡ some (o, m')
      → Locked t timeout m m'
  unfolding timed_lock
  lock_first t timeout isr o m m' z h = first z (ground arith) (ground arith) (ground arith)

  lock_other :
      (t : ℕ) (timeout : ℤ) (isr : Bool) (o : Outcome) (m m' : Mutex)
      → m.recursion_count ≢ 0
      → m.owner_tid ≢ t
      → timed_lock base t timeout isr m ≡ some (o, m')
      → (m' ≡ m)
        ⊎ ((m'.recursion_count ≡ m.recursion_count)
            × (m'.owner_tid ≡ m.owner_tid)
            × (m'.wait_list ≡ setup_wait t timeout m.wait_list))
  unfolding timed_lock
  lock_other t timeout isr o m m' n e h = ground arith

  pub timed_lock-Locked :
      (t : ℕ) (timeout : ℤ) (isr : Bool) (o : Outcome) (m m' : Mutex)
      → timed_lock base t timeout isr m ≡ some (o, m')
      → Locked t timeout m m'
  timed_lock-Locked t timeout isr o m m' h = elim (ℕ_discrete m.recursion_count 0) [
    | yes z ↦ lock_first t timeout isr o m m' z h
    | no n ↦ elim (ℕ_discrete m.owner_tid t) [
      | yes e ↦ lock_again t timeout isr o m m' n e h
      | no ne ↦ elim (lock_other t timeout isr o m m' n ne h) [
        | inl e ↦ kept e
        | inr (a, b, c) ↦ queued n ne a b c
      ]
    ]
  ]

pub can_call_inv :
    (t : ℕ) (s : System)
    → can_call t s ≡ true
    → (t ≢ tid_none) × (count t (tids s.mutex.wait_list) ≡ 0) × (count t s.woken ≡ 0)
can_call_inv t s h = ground arith

pub lock-IsValid :
    (t : ℕ) (timeout : ℤ) (s : System) (m : Mutex)
    → can_call t s ≡ true
    → IsValid s
    → Locked t timeout s.mutex m
    → IsValid (record s { mutex = m })
lock-IsValid t timeout s m c v (kept e) = rw e v
lock-IsValid t timeout s m c v (first z r o w) =
    let (real, away, idle) = can_call_inv t s c in
    let (no_owner, empty, none_woken) = v.free z in
    record {
      free = λ k. absurd (omega arith);
      held = λ k. omega arith;
      depth = omega arith;
      handed = inl none_woken;
      queue = λ u. rw (w, empty, o) (omega (counting, same-le-one t u));
      real = rw w v.real;
    }
lock-IsValid t timeout s m c v (again n e l r o w) =
    let (real, away, idle) = can_call_inv t s c in
    record {
      free = λ k. absurd (omega arith);
      held = λ k. omega (arith, v.held n);
      depth = omega arith;
      handed = elim v.handed [
        | inl k ↦ inl k
        | inr (k, one) ↦ absurd (omega (counting, ap (count t) k, idle, ap (λ j. same j t) e))
      ];
      queue = λ u. rw (w, o) (v.queue u);
      real = rw w v.real;
    }
lock-IsValid t timeout s m c v (queued n ne r o w) =
    let (real, away, idle) = can_call_inv t s c in
    record {
      free = λ k. absurd (n (omega arith));
      held = λ k. omega (arith, v.held n);
      depth = omega (arith, v.depth);
      handed = rw (o, r) v.handed;
      queue = λ u.
          rw (w, o, tids-setup_wait t timeout s.mutex.wait_list) (joined t u ne away (v.queue u));
      real =
          rw (w, tids-setup_wait t timeout s.mutex.wait_list)
            (omega (counting, v.real, same-ne real));
    }
  where
    joined :
        (t u : ℕ)
        → s.mutex.owner_tid ≢ t
        → count t (tids s.mutex.wait_list) ≡ 0
        → count u (tids s.mutex.wait_list) + same s.mutex.owner_tid u ≤ 1
        → count u (tids s.mutex.wait_list ++ t ∷ []) + same s.mutex.owner_tid u ≤ 1
    joined t u ne away q = elim (ℕ_discrete t u) [
      | yes e ↦ omega (
        counting,
        subst (λ k. count k (tids s.mutex.wait_list) ≡ 0) e away,
        subst (λ k. same s.mutex.owner_tid k ≡ 0) e (same-ne ne),
        subst (λ k. same t k ≡ 1) e (same_refl t),
      )
      | no other ↦ omega (counting, same-ne other)
    ]
