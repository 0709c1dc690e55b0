-- ===== src/Time/TimerHost/Stuck.antt =====
-- m_rearming of stk/include/time/stk_time_timer.h: a timer that is marked as rearming while no restart of it is in the
-- command queue.
use bare_metal_rtos.Time.TimerHost.Consistent.{bit}
use bare_metal_rtos.Time.TimerHost.Frame.{
  start_or_reset-is_rearming, execute-commands, visit-commands, execute-is_rearming,
  visit-is_rearming,
}
use bare_metal_rtos.Time.TimerHost.Runs.{visited, Event, next_command, called, polled, run, step}
use bare_metal_rtos.Time.TimerHost.Commands.{polls, execute, Executed, dispatch, execute_command}
use bare_metal_rtos.Time.TimerHost.TickTask.{process_timer, visit}
use bare_metal_rtos.Base.{
  ◌≤◌, same_refl, ap₂, false, if◌then◌else◌, Option-cases, inr, inl, refl, some_eq, sym, subst, ◌∷◌,
  Bool-cases, none, List, some, Bool, Option, ◌∙◌, ap, [], ℕ, ◌≡◌, ◌≢◌, arith, true,
}
use bare_metal_rtos.Time.TimerHost.{
  is_valid_time, pos, shutdown, set_period, reset, stop, is_rearm, start_or_reset, restart, command,
  start, CommandId, push_command, ℤ, TimerHost, TimerCommand, push_rearm, write_command,
}
use bare_metal_rtos.Time.TimerHost.Rearming.{IsSound, count_rearms, count_rearms-append, rearms}

pub record IsStuck (t : ℕ) (h : TimerHost) : Type 0 where
  pub marked : (h.timers t).is_rearming ≡ true
  pub none_waits : count_rearms t h.commands ≡ 0

module _ (t : ℕ) (h : TimerHost) (s : IsStuck t h) where
  -- A call that sends a command other than a restart, or a restart of another timer.
  write_command-IsStuck :
      (c : TimerCommand) → rearms t c.cmd c.timer ≡ 0 → IsStuck t (write_command c h).1
  unfolding write_command
  write_command-IsStuck c z = record {
    marked = ground (arith, s.marked);
    none_waits = ground (arith, s.none_waits, count_rearms-append t h.commands c);
  }

  push_rearm-IsStuck :
      (u : ℕ) (c : TimerCommand)
      → (t ≢ u → rearms t c.cmd c.timer ≡ 0)
      → IsStuck t (push_rearm u c h).1
  unfolding push_rearm
  push_rearm-IsStuck u c z = record {
    marked = ground (arith, s.marked);
    none_waits = ground (arith, s.marked, s.none_waits, z, count_rearms-append t h.commands c);
  }

  sent-IsStuck :
      (id : CommandId) (u : ℕ) (timestamp : ℤ) (delay period : ℕ)
      → IsStuck t (push_command (command id (some u) timestamp delay period) h).1
  unfolding push_command
  sent-IsStuck id u timestamp delay period = elim (Bool-cases (is_rearm id)) [
    | inl on ↦
        rw on
          (push_rearm-IsStuck u (command id (some u) timestamp delay period) (λ ne. ground arith))
    | inr off ↦
        rw off (write_command-IsStuck (command id (some u) timestamp delay period) (ground arith))
  ]

-- If the event fails no assertion, the timer stays cut off.
abbrev StuckAfter : ℕ → Option TimerHost → Type 0
StuckAfter t none = Unit
StuckAfter t (some h) = IsStuck t h

if-IsStuck :
    (t : ℕ) (b : Bool) (p q : Bool × TimerHost)
    → IsStuck t p.1
    → IsStuck t q.1
    → IsStuck t (if b then p else q).1
if-IsStuck t true p q sp sq = sp
if-IsStuck t false p q sp sq = sq

called-StuckAfter :
    (t : ℕ) (b : Bool) (p : Bool × TimerHost)
    → IsStuck t p.1
    → StuckAfter t (called (if b then some p else none))
called-StuckAfter t true p s = s
called-StuckAfter t false p s = tt

module _ (t : ℕ) (h : TimerHost) (s : IsStuck t h) where
  visited-StuckAfter :
      (now : ℤ) (u : ℕ) (n : ℤ) (r : Executed) → visit now u n h ≡ r → StuckAfter t (visited r)
  visited-StuckAfter now u n none e = tt
  visited-StuckAfter now u n (some (n', h')) e = record {
    marked = visit-is_rearming now u n n' h h' e t ∙ s.marked;
    none_waits = ap (count_rearms t) (visit-commands now u n n' h h' e) ∙ s.none_waits;
  }

  polls-StuckAfter :
      (id : CommandId) (c : TimerCommand) (u : ℕ) (n : ℤ) (r : Executed)
      → execute id c u n h ≡ r
      → rearms t id (some u) ≡ 0
      → StuckAfter t (polled (polls r))
  polls-StuckAfter id c u n none e z = tt
  polls-StuckAfter id c u n (some (n', h')) e z = record {
    marked = execute-is_rearming c u n n' h h' id t e z ∙ s.marked;
    none_waits = ap (count_rearms t) (execute-commands c u n n' h h' id e) ∙ s.none_waits;
  }

  dispatch-StuckAfter :
      (id : CommandId) (timer : Option ℕ) (c : TimerCommand) (n : ℤ)
      → rearms t id timer ≡ 0
      → StuckAfter t (polled (dispatch id timer c n h))
  unfolding dispatch
  dispatch-StuckAfter CommandId.cmd_shutdown timer c n z = record {
    marked = s.marked;
    none_waits = s.none_waits;
  }
  dispatch-StuckAfter id none c n z = tt
  dispatch-StuckAfter id (some u) c n z = polls-StuckAfter id c u n _ refl z

next_command-StuckAfter :
    (t : ℕ) (h : TimerHost) (cs : List TimerCommand) (n : ℤ)
    → h.commands ≡ cs
    → IsStuck t h
    → StuckAfter t (next_command cs n h)
unfolding execute_command count_rearms
next_command-StuckAfter t h [] n e s = s
next_command-StuckAfter t h (c ∷ cs) n e s =
    let z : count_rearms t (c ∷ cs) ≡ 0 = ap (count_rearms t) (sym e) ∙ s.none_waits in
    dispatch-StuckAfter t (record h { commands = cs })
      (record { marked = s.marked; none_waits = omega arith }) c.cmd c.timer c n (omega arith)

step-StuckAfter : (t : ℕ) (e : Event) (h : TimerHost) → IsStuck t h → StuckAfter t (step e h)
unfolding step start restart start_or_reset stop reset set_period shutdown process_timer
step-StuckAfter t (Event.starts u delay period ticks) h s =
    called-StuckAfter t _ _
      (if-IsStuck t _ _ _ s (sent-IsStuck t h s CommandId.cmd_start u ticks delay period))
step-StuckAfter t (Event.restarts u delay period ticks) h s =
    called-StuckAfter t _ _ (sent-IsStuck t h s CommandId.cmd_restart u ticks delay period)
step-StuckAfter t (Event.start_or_resets u delay period ticks) h s =
    called-StuckAfter t _ _ (sent-IsStuck t h s CommandId.cmd_start_or_reset u ticks delay period)
step-StuckAfter t (Event.stops u) h s =
    if-IsStuck t _ _ _ (sent-IsStuck t h s CommandId.cmd_stop u (pos 0) 0 0) s
step-StuckAfter t (Event.resets u ticks) h s =
    if-IsStuck t _ _ _ (sent-IsStuck t h s CommandId.cmd_reset u ticks 0 0) s
step-StuckAfter t (Event.set_periods u period) h s =
    if-IsStuck t _ _ _ (sent-IsStuck t h s CommandId.cmd_set_period u (pos 0) 0 period) s
step-StuckAfter t Event.shuts_down h s =
    write_command-IsStuck t h s (command CommandId.cmd_shutdown none (pos 0) 0 0) refl
step-StuckAfter t Event.handles h s = record {
  marked = ground (arith, s.marked);
  none_waits = ground (arith, s.none_waits);
}
step-StuckAfter t (Event.executes n) h s = next_command-StuckAfter t h h.commands n refl s
step-StuckAfter t (Event.visits now u n) h s = visited-StuckAfter t h s now u n _ refl

run-IsStuck :
    (t : ℕ) (es : List Event) (h h' : TimerHost) → IsStuck t h → run es h ≡ some h' → IsStuck t h'
unfolding run
run-IsStuck t [] h h' s k = subst (IsStuck t) (some_eq k) s
run-IsStuck t (e ∷ es) h h' s k = elim (Option-cases (step e h)) [
  | inl stop ↦ ground arith
  | inr (m, more) ↦
      run-IsStuck t es m h' (subst (StuckAfter t) more (step-StuckAfter t e h s)) (ground arith)
]

module _ (t : ℕ) (h : TimerHost) (s : IsStuck t h) (delay period : ℕ) (ticks : ℤ)
    (valid : is_valid_time delay period ≡ true) where
  restart-IsStuck : restart t delay period ticks h ≡ some (true, h)
  unfolding restart
  restart-IsStuck = rw (valid, s.marked) refl

  start_or_reset-IsStuck : start_or_reset t delay period ticks h ≡ some (true, h)
  unfolding start_or_reset
  start_or_reset-IsStuck = rw (valid, s.marked) refl

-- CMD_START_OR_RESET at the head of the queue of a sound host, for an active timer.
module _ (t : ℕ) (c : TimerCommand) (n : ℤ) (h : TimerHost) (on : (h.timers t).is_active ≡ true)
    (marked : (h.timers t).is_rearming ≡ true) (none_waits : count_rearms t h.commands ≡ 0) where
  polls_sticks :
      (r : Executed) (h' : TimerHost)
      → execute CommandId.cmd_start_or_reset c t n h ≡ r
      → polled (polls r) ≡ some h'
      → IsStuck t h'
  polls_sticks none h' e k = cc
  polls_sticks (some (n', m)) h' e k = subst (IsStuck t) (some_eq k) (record {
    marked = start_or_reset-is_rearming c t n n' h m on e ∙ marked;
    none_waits =
        ap (count_rearms t) (execute-commands c t n n' h m CommandId.cmd_start_or_reset e)
        ∙ none_waits;
  })

  dispatch_sticks :
      (id : CommandId) (timer : Option ℕ) (h' : TimerHost)
      → id ≡ CommandId.cmd_start_or_reset
      → timer ≡ some t
      → polled (dispatch id timer c n h) ≡ some h'
      → IsStuck t h'
  unfolding dispatch
  dispatch_sticks id timer h' e f k = polls_sticks _ h' refl (
      subst (λ i. polled (dispatch i (some t) c n h) ≡ some h') e
        (subst (λ o. polled (dispatch id o c n h) ≡ some h') f k))

-- While a CMD_START_OR_RESET waits, no other restart of its timer does, and the timer is marked.
head_marked :
    (t : ℕ) (c : TimerCommand) (cs : List TimerCommand) (b : Bool)
    → c.cmd ≡ CommandId.cmd_start_or_reset
    → c.timer ≡ some t
    → count_rearms t (c ∷ cs) ≤ bit b
    → (b ≡ true) × (count_rearms t cs ≡ 0)
unfolding count_rearms
head_marked t c cs b e f k =
    let one : rearms t c.cmd c.timer ≡ 1 = ap₂ (rearms t) e f ∙ same_refl t in
    (ground (arith, one), ground (arith, one))

start_or_reset_sticks :
    (t : ℕ) (c : TimerCommand) (cs : List TimerCommand) (n : ℤ) (h h' : TimerHost)
    → IsSound h
    → h.commands ≡ c ∷ cs
    → c.cmd ≡ CommandId.cmd_start_or_reset
    → c.timer ≡ some t
    → (h.timers t).is_active ≡ true
    → next_command h.commands n h ≡ some h'
    → IsStuck t h'
unfolding execute_command
start_or_reset_sticks t c cs n h h' v e ec et on k =
    let (m, z) =
      head_marked t c cs (h.timers t).is_rearming ec et
        (subst (λ l. count_rearms t l ≤ bit (h.timers t).is_rearming) e (v.coalesced t)) in
    dispatch_sticks t c n (record h { commands = cs }) on m z c.cmd c.timer h' ec et
      (subst (λ l. next_command l n h ≡ some h') e k)

-- If the tick task of a sound host executes a CMD_START_OR_RESET for a timer that is active, then after any
-- further calls, commands, visits and reads whose assertions hold, every Restart() and StartOrReset() of that timer
-- with valid times returns true and does nothing: the command leaves the timer marked as rearming, and later ones
-- are taken for coalesced with it.
pub restart_lost :
    (t : ℕ) (c : TimerCommand) (cs : List TimerCommand) (n : ℤ) (es : List Event) (h h' : TimerHost)
    → IsSound h
    → h.commands ≡ c ∷ cs
    → c.cmd ≡ CommandId.cmd_start_or_reset
    → c.timer ≡ some t
    → (h.timers t).is_active ≡ true
    → run (Event.executes n ∷ es) h ≡ some h'
    → (delay period : ℕ) (ticks : ℤ) → is_valid_time delay period ≡ true
    → (restart t delay period ticks h' ≡ some (true, h'))
      × (start_or_reset t delay period ticks h' ≡ some (true, h'))
unfolding run step
restart_lost t c cs n es h h' v e ec et on k delay period ticks valid =
    elim (Option-cases (next_command h.commands n h)) [
      | inl stop ↦ ground arith
      | inr (m, more) ↦
          let s =
            run-IsStuck t es m h' (start_or_reset_sticks t c cs n h m v e ec et on more)
              (ground arith) in
          (
            restart-IsStuck t h' s delay period ticks valid,
            start_or_reset-IsStuck t h' s delay period ticks valid,
          )
    ]
