-- ===== src/Time/TimerHost/Lifetime.antt =====
-- Sequences of the events of Runs, from the constructor of stk::time::TimerHost of
-- stk/include/time/stk_time_timer.h on.
use bare_metal_rtos.Base.{
  [], Option-cases, count, ◌∷◌, some_eq, ◌≢◌, ℕ, ◌≡◌, refl, sym, arith, subst, Option, none, some,
  List, inl, inr, Bool-cases,
}
use bare_metal_rtos.Base.Int.{ℤ}
use bare_metal_rtos.Time.TimerHost.{
  new_timer, init, TimerHost, CommandId, start, restart, start_or_reset, is_valid_time,
}
use bare_metal_rtos.Time.TimerHost.Commands.{Executed}
use bare_metal_rtos.Time.TimerHost.TickTask.{visit, process_timer}
use bare_metal_rtos.Time.TimerHost.Rearming.{count_rearms, AllSendable, IsSound}
use bare_metal_rtos.Time.TimerHost.Consistent.{visit-Allows, Allows}
use bare_metal_rtos.Time.TimerHost.Frame.{visit-commands, visit-is_rearming}
use bare_metal_rtos.Time.TimerHost.Runs.{
  shutdown-IsSound, set_period-IsSound, reset-IsSound, stop-IsSound, Event, run, step, called,
  visited, sent, next_command, next_command-Executes,
}

-- If the event fails no assertion, it leaves a sound host.
abbrev IsSoundAfter : Option TimerHost → Type 0
IsSoundAfter none = Unit
IsSoundAfter (some h) = IsSound h

module _ (h : TimerHost) (v : IsSound h) where
  start-IsSound :
      (t delay period : ℕ) (ticks : ℤ) → IsSoundAfter (called (start t delay period ticks h))
  unfolding start
  start-IsSound t delay period ticks = elim (Bool-cases (is_valid_time delay period)) [
    | inl valid ↦ elim (Bool-cases (h.timers t).is_active) [
      | inl on ↦ rw (valid, on) v
      | inr off ↦ rw (valid, off) (sent h v CommandId.cmd_start t ticks delay period tt)
    ]
    | inr invalid ↦ rw invalid tt
  ]

  restart-IsSound :
      (t delay period : ℕ) (ticks : ℤ) → IsSoundAfter (called (restart t delay period ticks h))
  unfolding restart
  restart-IsSound t delay period ticks = elim (Bool-cases (is_valid_time delay period)) [
    | inl valid ↦ rw valid (sent h v CommandId.cmd_restart t ticks delay period tt)
    | inr invalid ↦ rw invalid tt
  ]

  start_or_reset-IsSound :
      (t delay period : ℕ) (ticks : ℤ)
      → IsSoundAfter (called (start_or_reset t delay period ticks h))
  unfolding start_or_reset
  start_or_reset-IsSound t delay period ticks = elim (Bool-cases (is_valid_time delay period)) [
    | inl valid ↦ rw valid (sent h v CommandId.cmd_start_or_reset t ticks delay period tt)
    | inr invalid ↦ rw invalid tt
  ]

  process_timer-IsSound : (q : List (Option ℕ)) → h.queue ≡ q → IsSound (process_timer h).1
  unfolding process_timer
  process_timer-IsSound q e = record {
    consistent = record { linked = λ u. ground (arith, v.consistent.linked u) };
    sendable = subst AllSendable (ground arith) v.sendable;
    coalesced = λ u. ground (arith, v.coalesced u);
  }

  visited-IsSound :
      (now : ℤ) (t : ℕ) (n : ℤ) (r : Executed)
      → visit now t n h ≡ r
      → Allows r
      → IsSoundAfter (visited r)
  visited-IsSound now t n none e k = tt
  visited-IsSound now t n (some (n', h')) e k = record {
    consistent = k;
    sendable = subst AllSendable (sym (visit-commands now t n n' h h' e)) v.sendable;
    coalesced = λ u.
        rw (visit-commands now t n n' h h' e, visit-is_rearming now t n n' h h' e u)
          (v.coalesced u);
  }

  next_command-IsSound : (n : ℤ) → IsSoundAfter (next_command h.commands n h)
  next_command-IsSound n = let (h', e, s) = next_command-Executes h.commands n h refl v in rw e s

step-IsSoundAfter : (e : Event) (h : TimerHost) → IsSound h → IsSoundAfter (step e h)
unfolding step
step-IsSoundAfter (Event.starts t delay period ticks) h v = start-IsSound h v t delay period ticks
step-IsSoundAfter (Event.restarts t delay period ticks) h v =
    restart-IsSound h v t delay period ticks
step-IsSoundAfter (Event.start_or_resets t delay period ticks) h v =
    start_or_reset-IsSound h v t delay period ticks
step-IsSoundAfter (Event.stops t) h v = stop-IsSound h v t
step-IsSoundAfter (Event.resets t ticks) h v = reset-IsSound h v t ticks
step-IsSoundAfter (Event.set_periods t period) h v = set_period-IsSound h v t period
step-IsSoundAfter Event.shuts_down h v = shutdown-IsSound h v
step-IsSoundAfter Event.handles h v = process_timer-IsSound h v h.queue refl
step-IsSoundAfter (Event.executes n) h v = next_command-IsSound h v n
step-IsSoundAfter (Event.visits now t n) h v =
    visited-IsSound h v now t n _ refl (visit-Allows now t n h v.consistent)

pub run-IsSound : (es : List Event) (h h' : TimerHost) → IsSound h → run es h ≡ some h' → IsSound h'
unfolding run
run-IsSound [] h h' v k = subst IsSound (some_eq k) v
run-IsSound (e ∷ es) h h' v k = elim (Option-cases (step e h)) [
  | inl stop ↦ ground arith
  | inr (m, more) ↦
      run-IsSound es m h' (subst IsSoundAfter more (step-IsSoundAfter e h v)) (ground arith)
]

pub init-IsSound : IsSound init
unfolding init new_timer count_rearms count
init-IsSound = record {
  consistent = record { linked = λ u. refl };
  sendable = tt;
  coalesced = λ u. omega arith;
}

-- From the constructor on, after any calls of tasks, none of which another call interrupts, commands and visits of the
-- tick task and reads of the handler task, in any order, whose assertions hold: the list of active timers holds each active timer
-- exactly once and no other; each timer has at most one CMD_RESTART or CMD_START_OR_RESET in the command queue, and
-- one only while it is marked as rearming; and the next command of the queue fails no assertion of
-- ProcessCommands().
pub run_from_start-IsSound :
    (es : List Event) (h : TimerHost)
    → run es init ≡ some h
    → IsSound h × ((n : ℤ) → step (Event.executes n) h ≢ none)
unfolding step
run_from_start-IsSound es h k =
    let v = run-IsSound es init h init-IsSound k in
    (v, λ n stop. let (h', e, s) = next_command-Executes h.commands n h refl v in ground arith)
