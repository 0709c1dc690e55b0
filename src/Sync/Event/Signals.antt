-- ===== src/Sync/Event/Signals.antt =====
-- The signals of stk::sync::Event of stk/include/sync/stk_sync_event.h over any sequence of calls.
use bare_metal_rtos.Sync.Event.Waking.{bit, raised_event, raised_event-IsWoken, remove_each_timeout}
use bare_metal_rtos.Sync.Semaphore.Tokens.{tick_empty}
use bare_metal_rtos.Sync.WaitList.{Waiter, tick}
use bare_metal_rtos.Base.{
  Option-cases, inr, ◌∙◌, sym, inl, some_eq, Bool-cases, subst, ◌≢◌, refl, arith, ℕ, ◌+◌, ◌≡◌, Bool,
  true, false, Option, some, none, List, [], ◌∷◌, ◌⊎◌, length, not, ◌==◌,
}
use bare_metal_rtos.Base.Int.{ℤ}
use bare_metal_rtos.Sync.Semaphore.{Outcome, acquired, refused, blocks}
use bare_metal_rtos.Sync.Event.{init, Event, set, reset, pulse, wait, try_wait, expire}

pub data Call : Type 0 where
  sets resets pulses tries : Call
  waits : ℕ → ℤ → Bool → Call
  ticks : ℕ → Call

-- An event with the calls of Wait() and TryWait() that got a signal, the signals that Set() and Pulse() gave, and
-- those that Reset() and Pulse() took back. A Set() or Pulse() of an event that is not signaled gives one signal; a
-- Reset() takes back the signal of one that is, and a Pulse() that for which nobody waits.
pub record History : Type 0 where
  pub now : Event
  pub granted : ℕ
  pub raised : ℕ
  pub withdrawn : ℕ

abbrev granted_by : Outcome → ℕ
granted_by acquired = 1
granted_by refused = 0
granted_by blocks = 0

unfoldable pub step : Call → History → Option History
step sets h =
    let (changed, woken, e) = set h.now in
    some (record h {
      now = e;
      granted = h.granted + length woken;
      raised = h.raised + bit (not h.now.signaled);
    })
step resets h =
    let (was_set, e) = reset h.now in
    some (record h { now = e; withdrawn = h.withdrawn + bit h.now.signaled })
step pulses h =
    let (woken, e) = pulse h.now in
    some (record h {
      now = e;
      granted = h.granted + length woken;
      raised = h.raised + bit (not h.now.signaled);
      withdrawn = h.withdrawn + bit (length h.now.wait_list == 0);
    })
step tries h =
    let (got, e) = try_wait h.now in some (record h { now = e; granted = h.granted + bit got })
step (waits tid timeout in_isr) h = elim (wait tid timeout in_isr h.now) [
  | none ↦ none
  | some (o, e) ↦ some (record h { now = e; granted = h.granted + granted_by o })
]
step (ticks elapsed) h = some (record h { now = (expire elapsed h.now).1 })

-- The calls in order, up to a failed assertion.
unfoldable pub run : List Call → History → Option History
run [] h = some h
run (c ∷ cs) h = elim (step c h) [ none ↦ none | some h' ↦ run cs h' ]

unfoldable pub start : Event → History
start e = record { now = e; granted = 0; raised = 0; withdrawn = 0 }

-- The event was signaled `given` times, 0 or 1, at the start.
pub record IsFair (given : ℕ) (h : History) : Type 0 where
  -- nobody waits while the event is signaled
  pub no_idle : (h.now.wait_list ≡ []) ⊎ (h.now.signaled ≡ false)
  pub balance :
      h.now.manual_reset ≡ false → bit h.now.signaled + h.granted + h.withdrawn ≡ given + h.raised

step_sets :
    (h : History)
    → h.now.signaled ≡ false
    → step sets h
      ≡ some (record h {
        now = (raised_event h.now).1;
        granted = h.granted + length (raised_event h.now).0;
        raised = h.raised + 1;
      })
unfolding step set
step_sets h off = ground arith

step_sets_idle : (h : History) → h.now.signaled ≡ true → step sets h ≡ some h
unfolding step set
step_sets_idle h on = ground arith

step_pulses :
    (h : History)
    → h.now.wait_list ≢ []
    → step pulses h
      ≡ some (record h {
        now = record (raised_event h.now).1 { signaled = false };
        granted = h.granted + length (raised_event h.now).0;
        raised = h.raised + bit (not h.now.signaled);
      })
unfolding step pulse
step_pulses h nonempty = ground arith

step_pulses_idle :
    (h : History)
    → h.now.wait_list ≡ []
    → step pulses h
      ≡ some (record h {
        now = record h.now { signaled = false };
        raised = h.raised + bit (not h.now.signaled);
        withdrawn = h.withdrawn + 1;
      })
unfolding step pulse
step_pulses_idle h z = ground arith

module _ (given : ℕ) (h h' : History) (v : IsFair given h) where
  sets-IsFair : step sets h ≡ some h' → IsFair given h'
  sets-IsFair k = elim (Bool-cases h.now.signaled) [
    | inl on ↦ subst (IsFair given) (some_eq (sym (step_sets_idle h on) ∙ k)) v
    | inr off ↦
        let w = raised_event-IsWoken h.now in
        subst (IsFair given) (some_eq (sym (step_sets h off) ∙ k)) (record {
          no_idle = elim (Bool-cases h.now.manual_reset) [
            | inl m ↦ inl (w.all_woken m).0
            | inr a ↦ (w.one_woken a).1
          ];
          balance = λ a.
              let b = v.balance (sym w.same_mode ∙ a) in
              let one = (w.one_woken (sym w.same_mode ∙ a)).0 in ground (arith, b, one);
        })
  ]

  pulses-IsFair :
      (ws : List Waiter) → h.now.wait_list ≡ ws → step pulses h ≡ some h' → IsFair given h'
  pulses-IsFair [] z k =
      subst (IsFair given) (some_eq (sym (step_pulses_idle h z) ∙ k))
        (record { no_idle = inr refl; balance = λ a. ground (arith, v.balance a) })
  pulses-IsFair (w ∷ ws) z k =
      subst (IsFair given) (some_eq (sym (step_pulses h (λ e. cc)) ∙ k)) (record {
        no_idle = inr refl;
        balance = λ a.
            let r = raised_event-IsWoken h.now in
            let auto = sym r.same_mode ∙ a in
            let one = r.waiter_woken auto (λ e. cc) in
            let off : h.now.signaled ≡ false = elim v.no_idle [
              | inl none_waits ↦ cc
              | inr off ↦ off
            ] in
            ground (arith, v.balance auto, one, off);
      })

  resets-IsFair : step resets h ≡ some h' → IsFair given h'
  unfolding step reset
  resets-IsFair k = record { no_idle = ground arith; balance = λ a. ground (arith, v.balance) }

  tries-IsFair : step tries h ≡ some h' → IsFair given h'
  unfolding step try_wait
  tries-IsFair k = record { no_idle = ground arith; balance = λ a. ground (arith, v.balance) }

  waits-IsFair :
      (tid : ℕ) (timeout : ℤ) (in_isr : Bool)
      → step (waits tid timeout in_isr) h ≡ some h'
      → IsFair given h'
  unfolding step wait
  waits-IsFair tid timeout in_isr k = record {
    no_idle = ground arith;
    balance = λ a. ground (arith, v.balance);
  }

  ticks-IsFair : (elapsed : ℕ) → step (ticks elapsed) h ≡ some h' → IsFair given h'
  unfolding step expire
  ticks-IsFair elapsed k =
      let e : step (ticks elapsed) h
          ≡ some
              (record h { now = record h.now { wait_list = (tick elapsed h.now.wait_list).1 } }) =
        ground (
          arith,
          remove_each_timeout (tick elapsed h.now.wait_list).0
              (record h.now { wait_list = (tick elapsed h.now.wait_list).1 }),
        ) in
      subst (IsFair given) (some_eq (sym e ∙ k)) (record {
        no_idle = elim v.no_idle [
          | inl none_waits ↦ inl (tick_empty elapsed h.now.wait_list none_waits)
          | inr off ↦ inr off
        ];
        balance = v.balance;
      })

step-IsFair :
    (given : ℕ) (c : Call) (h h' : History) → IsFair given h → step c h ≡ some h' → IsFair given h'
step-IsFair given sets h h' v k = sets-IsFair given h h' v k
step-IsFair given resets h h' v k = resets-IsFair given h h' v k
step-IsFair given pulses h h' v k = pulses-IsFair given h h' v h.now.wait_list refl k
step-IsFair given tries h h' v k = tries-IsFair given h h' v k
step-IsFair given (waits tid timeout in_isr) h h' v k =
    waits-IsFair given h h' v tid timeout in_isr k
step-IsFair given (ticks elapsed) h h' v k = ticks-IsFair given h h' v elapsed k

run-IsFair :
    (given : ℕ) (cs : List Call) (h h' : History)
    → IsFair given h
    → run cs h ≡ some h'
    → IsFair given h'
unfolding run
run-IsFair given [] h h' v k = subst (IsFair given) (some_eq k) v
run-IsFair given (c ∷ cs) h h' v k = elim (Option-cases (step c h)) [
  | inl stop ↦ ground arith
  | inr (m, more) ↦ run-IsFair given cs m h' (step-IsFair given c h m v more) (ground arith)
]

-- From the constructor on, after any calls and ticks whose assertions hold, nobody waits while the event is signaled;
-- and in auto-reset mode the signals add up: what Wait() and TryWait() got, what Reset() and Pulse() took back, and
-- the state itself, 1 where it is signaled, make up the initial state and the signals that Set() and Pulse() gave.
pub run_from_start-IsFair :
    (manual_reset initial_state : Bool) (cs : List Call) (h : History)
    → run cs (start (init manual_reset initial_state)) ≡ some h
    → IsFair (bit initial_state) h
unfolding start init
run_from_start-IsFair manual_reset initial_state cs h k =
    run-IsFair (bit initial_state) cs (start (init manual_reset initial_state)) h
      (record { no_idle = inl refl; balance = λ a. omega arith }) k
