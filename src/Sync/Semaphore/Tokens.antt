-- ===== src/Sync/Semaphore/Tokens.antt =====
-- The permits of a semaphore: none is lost and none is made up, and nobody waits while one is free.
use bare_metal_rtos.Base.{
  some_eq, ℕ, ◌+◌, ◌^◌, ◌≡◌, ◌≤◌, ◌<◌, refl, arith, subst, Bool, Option, some, none, List, [], ◌∷◌,
  inl, inr, ◌⊎◌, Option-cases,
}
use bare_metal_rtos.Base.Int.{ℤ}
use bare_metal_rtos.Sync.WaitList.{Waiter, wake_one, tick}
use bare_metal_rtos.Sync.Semaphore.{
  Semaphore, init, wait, signal, expire, Outcome, acquired, refused, blocks,
}

-- The calls on a semaphore, with what they are given.
pub data Event : Type 0 where
  waits : ℕ → ℤ → Bool → Event
  signals : Event
  ticks : ℕ → Event

-- A semaphore with the permits that tasks have got from Wait(), and the calls of Signal().
pub record History : Type 0 where
  pub now : Semaphore
  pub granted : ℕ
  pub signalled : ℕ

abbrev granted_by : Outcome → ℕ
granted_by acquired = 1
granted_by refused = 0
granted_by blocks = 0

-- A task that Signal() wakes returns true from its Wait().
abbrev granted_to : Option ℕ → ℕ
granted_to none = 0
granted_to (some t) = 1

unfoldable pub step : Event → History → Option History
step (waits tid timeout in_isr) h = elim (wait tid timeout in_isr h.now) [
  | none ↦ none
  | some (o, s) ↦ some (record h { now = s; granted = h.granted + granted_by o })
]
step signals h = elim (signal h.now) [
  | none ↦ none
  | some (t, s) ↦
      some (record { now = s; granted = h.granted + granted_to t; signalled = h.signalled + 1 })
]
step (ticks elapsed) h = some (record h { now = (expire elapsed h.now).1 })

-- The events in order, up to a failed assertion.
unfoldable pub run : List Event → History → Option History
run [] h = some h
run (e ∷ es) h = elim (step e h) [ none ↦ none | some h' ↦ run es h' ]

unfoldable pub start : Semaphore → History
start s = record { now = s; granted = 0; signalled = 0 }

-- `total` permits were there at the start.
pub record Balanced (total : ℕ) (h : History) : Type 0 where
  pub balance : h.now.count + h.granted ≡ total + h.signalled
  pub limit : h.now.count ≤ h.now.count_max
  pub small : h.now.count_max < 2 ^ 16
  -- nobody waits while a permit is free
  pub no_idle : (h.now.wait_list ≡ []) ⊎ (h.now.count ≡ 0)

pub tick_empty : (e : ℕ) (ws : List Waiter) → ws ≡ [] → (tick e ws).1 ≡ []
unfolding tick
tick_empty e [] h = refl
tick_empty e (w ∷ ws) h = cc

signal_cases :
    (total : ℕ) (h : History) (ws : List Waiter) (t : Option ℕ) (s : Semaphore)
    → h.now.wait_list ≡ ws
    → Balanced total h
    → signal h.now ≡ some (t, s)
    → Balanced total
        (record { now = s; granted = h.granted + granted_to t; signalled = h.signalled + 1 })
unfolding signal wake_one
signal_cases total h [] t s e b k = ground arith
signal_cases total h (w ∷ ws) t s e b k = ground arith

wait_cases :
    (total : ℕ) (h : History) (tid : ℕ) (timeout : ℤ) (in_isr : Bool) (o : Outcome) (s : Semaphore)
    → Balanced total h
    → wait tid timeout in_isr h.now ≡ some (o, s)
    → Balanced total (record h { now = s; granted = h.granted + granted_by o })
unfolding wait
wait_cases total h tid timeout in_isr o s b k = ground arith

ticked :
    (total e : ℕ) (h : History)
    → Balanced total h
    → Balanced total (record h { now = (expire e h.now).1 })
unfolding expire
ticked total e h b = record {
  balance = b.balance;
  limit = b.limit;
  small = b.small;
  no_idle = elim b.no_idle [
    | inl none_waits ↦ inl (tick_empty e h.now.wait_list none_waits)
    | inr none_free ↦ inr none_free
  ];
}

-- Every call and every tick keeps the permits balanced.
pub step-Balanced :
    (total : ℕ) (e : Event) (h h' : History)
    → Balanced total h
    → step e h ≡ some h'
    → Balanced total h'
unfolding step
step-Balanced total (waits tid timeout in_isr) h h' b k =
    elim (Option-cases (wait tid timeout in_isr h.now)) [
      | inl e ↦ ground arith
      | inr ((o, s), e) ↦
          subst (Balanced total) (ground arith) (wait_cases total h tid timeout in_isr o s b e)
    ]
step-Balanced total signals h h' b k = elim (Option-cases (signal h.now)) [
  | inl e ↦ ground arith
  | inr ((t, s), e) ↦
      subst (Balanced total) (ground arith) (signal_cases total h h.now.wait_list t s refl b e)
]
step-Balanced total (ticks e) h h' b k = subst (Balanced total) (some_eq k) (ticked total e h b)

-- From a balanced semaphore, after any calls and ticks whose assertions hold, the count and the permits
-- granted make up the permits at the start and those signalled, the count is within its limit, and
-- nobody waits while a permit is free.
pub run-Balanced :
    (total : ℕ) (es : List Event) (h h' : History)
    → Balanced total h
    → run es h ≡ some h'
    → Balanced total h'
unfolding run
run-Balanced total [] h h' b k = subst (Balanced total) (some_eq k) b
run-Balanced total (e ∷ es) h h' b k = elim (Option-cases (step e h)) [
  | inl stop ↦ ground arith
  | inr (m, more) ↦ run-Balanced total es m h' (step-Balanced total e h m b more) (ground arith)
]

-- A new semaphore with a limit of 16 bits is balanced, its initial count being the permits at the start.
pub init-Balanced :
    (initial_count max_count : ℕ) (s : Semaphore)
    → max_count < 2 ^ 16
    → init initial_count max_count ≡ some s
    → Balanced initial_count (start s)
unfolding init start
init-Balanced i m s h e = ground arith
