-- ===== src/Time/TimerHost/Runs.antt =====
-- Sequences of calls of tasks, commands and visits of the tick task, and reads of the handler task of
-- stk/include/time/stk_time_timer.h, and the commands and calls one by one.
use bare_metal_rtos.Base.{
  leb, ◌==◌, not, ◌&&◌, inr, inl, Bool-cases, sym, ℕ_discrete, ℕ, ◌+◌, ◌≡◌, ◌≤◌, refl, arith, subst,
  Bool, Option, none, some, List, [], ◌∷◌,
}
use bare_metal_rtos.Base.Int.{pos, ℤ}
use bare_metal_rtos.Time.TimerHost.{
  int32_max, command, push_command, TimerHost, TimerCommand, CommandId, start, stop, reset, restart,
  start_or_reset, set_period, shutdown,
}
use bare_metal_rtos.Time.TimerHost.Commands.{
  is_periodic, Executed, Polled, polls, dispatch, execute, execute_command,
}
use bare_metal_rtos.Time.TimerHost.TickTask.{visit, process_timer}
use bare_metal_rtos.Time.TimerHost.Rearming.{
  push_command-IsSound, IsSound, AllSendable, IsSendable, rearms, count_rearms,
}
use bare_metal_rtos.Time.TimerHost.Consistent.{bit, Keeps, IsConsistent, execute-Keeps}
use bare_metal_rtos.Time.TimerHost.Frame.{execute-commands, execute-is_rearming}

-- The calls with their arguments, `executes` the next command of the queue, `visits` the body of the loop of
-- UpdateTime() for one timer, `handles` a read of the handler task.
pub data Event : Type 0 where
  starts restarts start_or_resets : (t delay period : ℕ) (ticks : ℤ) → Event
  stops : ℕ → Event
  resets : ℕ → ℤ → Event
  set_periods : (t period : ℕ) → Event
  shuts_down handles : Event
  executes : ℤ → Event
  visits : ℤ → ℕ → ℤ → Event

abbrev pub host_of : Polled → TimerHost
host_of (Polled.stops h) = h
host_of (Polled.waits n h) = h
host_of (Polled.updates h) = h

abbrev pub called : Option (Bool × TimerHost) → Option TimerHost
called none = none
called (some (success, h)) = some h

abbrev pub polled : Option Polled → Option TimerHost
polled none = none
polled (some p) = some (host_of p)

abbrev pub visited : Executed → Option TimerHost
visited none = none
visited (some (n, h)) = some h

abbrev pub next_command : List TimerCommand → ℤ → TimerHost → Option TimerHost
next_command [] n h = some h
next_command (c ∷ cs) n h = polled (execute_command c n (record h { commands = cs }))

unfoldable pub step : Event → TimerHost → Option TimerHost
step (starts t delay period ticks) h = called (start t delay period ticks h)
step (restarts t delay period ticks) h = called (restart t delay period ticks h)
step (start_or_resets t delay period ticks) h = called (start_or_reset t delay period ticks h)
step (stops t) h = some (stop t h).1
step (resets t ticks) h = some (reset t ticks h).1
step (set_periods t period) h = some (set_period t period h).1
step shuts_down h = some (shutdown h).1
step handles h = some (process_timer h).1
step (executes n) h = next_command h.commands n h
step (visits now t n) h = visited (visit now t n h)

-- The events in order, up to a failed assertion.
unfoldable pub run : List Event → TimerHost → Option TimerHost
run [] h = some h
run (e ∷ es) h = elim (step e h) [ none ↦ none | some h' ↦ run es h' ]

coalesced_after : (r k : ℕ) (b b' : Bool) → r + k ≤ bit b → (r ≡ 0 → b' ≡ b) → k ≤ bit b'
coalesced_after r k b b' h keep = elim (ℕ_discrete r 0) [
  | yes z ↦ ground (arith, keep z)
  | no nz ↦ ground arith
]

-- The command does not fail, and leaves a sound host.
abbrev pub Executes : Option Polled → Type 0
Executes none = ⊥
Executes (some p) = IsSound (host_of p)

module _ (c : TimerCommand) (cs : List TimerCommand) (n : ℤ) (h : TimerHost)
    (consistent : IsConsistent h) (sendable : AllSendable h.commands) where
  polls-Executes :
      (id : CommandId) (t : ℕ) (r : Executed)
      → execute id c t n h ≡ r
      → Keeps r
      → ((u : ℕ) → rearms u id (some t) + count_rearms u h.commands ≤ bit (h.timers u).is_rearming)
      → Executes (polls r)
  polls-Executes id t none e k b = elim k [ ]
  polls-Executes id t (some (n', h')) e k b = record {
    consistent = k;
    sendable = subst AllSendable (sym (execute-commands c t n n' h h' id e)) sendable;
    coalesced = λ u. rw (execute-commands c t n n' h h' id e) (
        coalesced_after (rearms u id (some t)) (count_rearms u h.commands) (h.timers u).is_rearming
          (h'.timers u).is_rearming (b u) (execute-is_rearming c t n n' h h' id u e));
  }

  dispatch-Executes :
      (id : CommandId) (timer : Option ℕ)
      → IsSendable id timer c.period
      → ((u : ℕ) → rearms u id timer + count_rearms u h.commands ≤ bit (h.timers u).is_rearming)
      → Executes (dispatch id timer c n h)
  unfolding dispatch
  dispatch-Executes CommandId.cmd_shutdown timer s b = record {
    consistent = record { linked = consistent.linked };
    sendable = sendable;
    coalesced = λ u. omega (arith, b u);
  }
  dispatch-Executes id none s b = elim s [ ]
  dispatch-Executes id (some t) s b =
      polls-Executes id t _ refl (execute-Keeps c t n h consistent id s) b

polled-Executes :
    (o : Option Polled) → Executes o → (h : TimerHost) × (polled o ≡ some h) × IsSound h
polled-Executes none k = elim k [ ]
polled-Executes (some p) k = (host_of p, refl, k)

-- The next command of a sound host.
pub next_command-Executes :
    (cs : List TimerCommand) (n : ℤ) (h : TimerHost)
    → h.commands ≡ cs
    → IsSound h
    → (h' : TimerHost) × (next_command cs n h ≡ some h') × IsSound h'
unfolding count_rearms
next_command-Executes [] n h e v = (h, refl, v)
next_command-Executes (c ∷ cs) n h e v =
    let s : AllSendable (c ∷ cs) = subst AllSendable e v.sendable in
    polled-Executes _ (
      unfold execute_command in
      (dispatch-Executes c cs n (record h { commands = cs })
        (record { linked = v.consistent.linked }) s.1 c.cmd c.timer s.0
        (λ u. subst (λ l. count_rearms u l ≤ bit (h.timers u).is_rearming) e (v.coalesced u))))

module _ (h : TimerHost) (v : IsSound h) where
  pub sent :
      (id : CommandId) (t : ℕ) (timestamp : ℤ) (delay period : ℕ)
      → IsSendable id (some t) period
      → IsSound (push_command (command id (some t) timestamp delay period) h).1
  sent id t timestamp delay period s = push_command-IsSound _ h (some t) refl v s

  pub stop-IsSound : (t : ℕ) → IsSound (stop t h).1
  unfolding stop
  stop-IsSound t = elim (Bool-cases (h.timers t).is_active) [
    | inl on ↦ rw on (sent CommandId.cmd_stop t (pos 0) 0 0 tt)
    | inr off ↦ rw off v
  ]

  pub reset-IsSound : (t : ℕ) (ticks : ℤ) → IsSound (reset t ticks h).1
  unfolding reset
  reset-IsSound t ticks = elim (Bool-cases (is_periodic (h.timers t))) [
    | inl on ↦ rw on (sent CommandId.cmd_reset t ticks 0 0 tt)
    | inr off ↦ rw off v
  ]

  pub set_period-IsSound : (t period : ℕ) → IsSound (set_period t period h).1
  unfolding set_period
  set_period-IsSound t period =
      elim (Bool-cases (is_periodic (h.timers t) && (not (period == 0) && leb period int32_max))) [
        | inl on ↦ rw on (sent CommandId.cmd_set_period t (pos 0) 0 period (λ e. ground arith))
        | inr off ↦ rw off v
      ]

  pub shutdown-IsSound : IsSound (shutdown h).1
  unfolding shutdown
  shutdown-IsSound =
      push_command-IsSound (command CommandId.cmd_shutdown none (pos 0) 0 0) h none refl v tt
