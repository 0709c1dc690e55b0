-- ===== src/Time/TimerHost/Safety.antt =====
-- What the parts of the calls, the commands and the visits of stk/include/time/stk_time_timer.h keep of a host, whatever other
-- tasks do in between.
use bare_metal_rtos.Base.{
  ℕ, zero, suc, ◌≡◌, ◌≤◌, ◌+◌, refl, ap, subst, arith, Bool-cases, not, ◌&&◌, Option, none, some,
  List, [], ◌∷◌, ◌++◌, inl, inr, ◌==◌, leb, if◌then◌else◌, length,
}
use bare_metal_rtos.Base.Int.{ℤ}
use bare_metal_rtos.Time.TimerHost.{
  TimerHost, TimerCommand, CommandId, is_valid_time, is_rearm, write_rearm, write_command,
  push_command, timer_count_max, int32_max, start, restart, start_or_reset, stop, reset, set_period,
  shutdown,
}
use bare_metal_rtos.Time.TimerHost.Commands.{
  Executed, Polled, polls, dispatch, execute, execute_command,
}
use bare_metal_rtos.Time.TimerHost.TickTask.{visit, process_timer}
use bare_metal_rtos.Time.TimerHost.Frame.{execute-commands, visit-commands}
use bare_metal_rtos.Time.TimerHost.Runs
use bare_metal_rtos.Time.TimerHost.Runs.{Event, polled, host_of, next_command, visited}
use bare_metal_rtos.Time.TimerHost.Rearming.{AllSendable, IsSendable, AllSendable-append}
use bare_metal_rtos.Time.TimerHost.Consistent.{IsConsistent, Keeps, Allows, execute-Keeps}
use bare_metal_rtos.Time.TimerHost.Preempted.{Call, Request, request, mark, write, pick, with_first}

abbrev event_of : Call → Event
event_of (Call.starts t delay period ticks) = Event.starts t delay period ticks
event_of (Call.restarts t delay period ticks) = Event.restarts t delay period ticks
event_of (Call.start_or_resets t delay period ticks) = Event.start_or_resets t delay period ticks
event_of (Call.stops t) = Event.stops t
event_of (Call.resets t ticks) = Event.resets t ticks
event_of (Call.set_periods t period) = Event.set_periods t period
event_of Call.shuts_down = Event.shuts_down

abbrev then_pushes : Request → TimerHost → Option TimerHost
then_pushes Request.fails h = none
then_pushes Request.returns h = some h
then_pushes (Request.pushes c) h = some (push_command c h).1

-- With no other task in between, a call is its first part and PushCommand().
request_lem : (c : Call) (h : TimerHost) → Runs.step (event_of c) h ≡ then_pushes (request c h) h
unfolding Runs.step request start restart start_or_reset stop reset set_period shutdown
request_lem (Call.starts t delay period ticks) h = ground arith
request_lem (Call.restarts t delay period ticks) h = ground arith
request_lem (Call.start_or_resets t delay period ticks) h = ground arith
request_lem (Call.stops t) h = ground arith
request_lem (Call.resets t ticks) h = ground arith
request_lem (Call.set_periods t period) h = ground arith
request_lem Call.shuts_down h = refl

-- The list of active timers holds each active timer once and no other, and what is in the command queue, which is
-- never over its capacity, can be executed.
pub record IsSafe (h : TimerHost) : Type 0 where
  pub consistent : IsConsistent h
  pub sendable : AllSendable h.commands
  pub bounded : length h.commands ≤ timer_count_max

pub length-append :
    (cs : List TimerCommand) (c : TimerCommand) → length (cs ++ c ∷ []) ≡ length cs + 1
length-append [] c = omega arith
length-append (d ∷ cs) c = omega (arith, length-append cs c)

pub mark-IsSafe :
    (c : TimerCommand) (h : TimerHost) (timer : Option ℕ)
    → c.timer ≡ timer
    → IsSafe h
    → IsSafe (mark c h)
unfolding mark
mark-IsSafe c h none e v = rw e v
mark-IsSafe c h (some t) e v = elim (Bool-cases (is_rearm c.cmd)) [
  | inr off ↦ rw (e, off) v
  | inl on ↦
      rw (e, on)
        (record {
          consistent = record { linked = λ u. ground (arith, v.consistent.linked u) };
          sendable = v.sendable;
          bounded = v.bounded;
        })
]

write_command-IsSafe :
    (c : TimerCommand) (h : TimerHost)
    → IsSafe h
    → IsSendable c.cmd c.timer c.period
    → IsSafe (write_command c h).1
unfolding write_command
write_command-IsSafe c h v s = elim (Bool-cases (leb timer_count_max (length h.commands))) [
  | inl full ↦ rw full v
  | inr room ↦ rw room (record {
    consistent = record { linked = v.consistent.linked };
    sendable = AllSendable-append h.commands c v.sendable s;
    bounded = ground (arith, length-append h.commands c, room);
  })
]

write_rearm-IsSafe :
    (t : ℕ) (c : TimerCommand) (h : TimerHost)
    → IsSafe h
    → IsSendable c.cmd c.timer c.period
    → IsSafe (write_rearm t c h).1
write_rearm-IsSafe t c h v s =
    let w = write_command-IsSafe c h v s in
    elim (Bool-cases (write_command c h).0) [
      | inl done ↦ rw done w
      | inr full ↦ rw full (record {
        consistent = record { linked = λ u. ground (arith, w.consistent.linked u) };
        sendable = w.sendable;
        bounded = w.bounded;
      })
    ]

write_cases :
    (c : TimerCommand) (h : TimerHost) (timer : Option ℕ)
    → c.timer ≡ timer
    → write c h ≡ (elim timer [
      | none ↦ write_command c h
      | some t ↦ if is_rearm c.cmd then write_rearm t c h else write_command c h
    ])
unfolding write
write_cases c h none e = ground (arith, e)
write_cases c h (some t) e = ground (arith, e)

pub write-IsSafe :
    (c : TimerCommand) (h : TimerHost) (timer : Option ℕ)
    → c.timer ≡ timer
    → IsSafe h
    → IsSendable c.cmd c.timer c.period
    → IsSafe (write c h).1
write-IsSafe c h none e v s = rw (write_cases c h none e) (write_command-IsSafe c h v s)
write-IsSafe c h (some t) e v s = elim (Bool-cases (is_rearm c.cmd)) [
  | inl on ↦ rw (write_cases c h (some t) e, on) (write_rearm-IsSafe t c h v s)
  | inr off ↦ rw (write_cases c h (some t) e, off) (write_command-IsSafe c h v s)
]

abbrev pub Picks : Option (TimerCommand × List TimerCommand) → Type 0
Picks none = Unit
Picks (some (c, cs)) = IsSendable c.cmd c.timer c.period × AllSendable cs

with_first-Picks :
    (x : TimerCommand) (o : Option (TimerCommand × List TimerCommand))
    → IsSendable x.cmd x.timer x.period
    → Picks o
    → Picks (with_first x o)
with_first-Picks x none s p = tt
with_first-Picks x (some (c, cs)) s p = (p.0, (s, p.1))

pub pick-Picks : (i : ℕ) (xs : List TimerCommand) → AllSendable xs → Picks (pick i xs)
unfolding pick
pick-Picks i [] a = tt
pick-Picks zero (x ∷ xs) a = a
pick-Picks (suc i) (x ∷ xs) a = with_first-Picks x (pick i xs) a.0 (pick-Picks i xs a.1)

-- What a call sends can be executed.
abbrev pub Sends : Request → Type 0
Sends Request.fails = Unit
Sends Request.returns = Unit
Sends (Request.pushes c) = IsSendable c.cmd c.timer c.period

pub request-Sends : (c : Call) (h : TimerHost) → Sends (request c h)
unfolding request
request-Sends (Call.starts t delay period ticks) h =
    elim (Bool-cases (is_valid_time delay period)) [
      | inl valid ↦ elim (Bool-cases (h.timers t).is_active) [
        | inl on ↦ rw (valid, on) tt
        | inr off ↦ rw (valid, off) tt
      ]
      | inr invalid ↦ rw invalid tt
    ]
request-Sends (Call.restarts t delay period ticks) h =
    elim (Bool-cases (is_valid_time delay period)) [ inl on ↦ rw on tt | inr off ↦ rw off tt ]
request-Sends (Call.start_or_resets t delay period ticks) h =
    elim (Bool-cases (is_valid_time delay period)) [ inl on ↦ rw on tt | inr off ↦ rw off tt ]
request-Sends (Call.stops t) h = elim (Bool-cases (h.timers t).is_active) [
  | inl on ↦ rw on tt
  | inr off ↦ rw off tt
]
request-Sends (Call.resets t ticks) h =
    elim (Bool-cases ((h.timers t).is_active && not ((h.timers t).period == 0))) [
      | inl on ↦ rw on tt
      | inr off ↦ rw off tt
    ]
request-Sends (Call.set_periods t period) h =
    elim (Bool-cases (
      ((h.timers t).is_active && not ((h.timers t).period == 0))
      && (not (period == 0) && leb period int32_max))) [
        | inl on ↦ rw on (λ z. ground (arith, on, z))
        | inr off ↦ rw off tt
      ]
request-Sends Call.shuts_down h = tt

abbrev Executes : Option Polled → Type 0
Executes none = ⊥
Executes (some p) = IsSafe (host_of p)

module _ (c : TimerCommand) (n : ℤ) (h : TimerHost) (v : IsSafe h) where
  polls-Executes :
      (id : CommandId) (t : ℕ) (r : Executed)
      → execute id c t n h ≡ r
      → Keeps r
      → Executes (polls r)
  polls-Executes id t none e k = elim k [ ]
  polls-Executes id t (some (n', h')) e k =
      let same = execute-commands c t n n' h h' id e in
      record { consistent = k; sendable = rw same v.sendable; bounded = rw same v.bounded }

  dispatch-Executes :
      (id : CommandId) (timer : Option ℕ)
      → IsSendable id timer c.period
      → Executes (dispatch id timer c n h)
  unfolding dispatch
  dispatch-Executes CommandId.cmd_shutdown timer s = record {
    consistent = record { linked = v.consistent.linked };
    sendable = v.sendable;
    bounded = v.bounded;
  }
  dispatch-Executes id none s = elim s [ ]
  dispatch-Executes id (some t) s =
      polls-Executes id t _ refl (execute-Keeps c t n h v.consistent id s)

polled-Executes :
    (o : Option Polled) → Executes o → (h : TimerHost) × (polled o ≡ some h) × IsSafe h
polled-Executes none k = elim k [ ]
polled-Executes (some p) k = (host_of p, refl, k)

-- The next command of a safe host does not fail.
pub next_command-IsSafe :
    (cs : List TimerCommand) (n : ℤ) (h : TimerHost)
    → h.commands ≡ cs
    → IsSafe h
    → (h' : TimerHost) × (next_command cs n h ≡ some h') × IsSafe h'
next_command-IsSafe [] n h e v = (h, refl, v)
next_command-IsSafe (c ∷ cs) n h e v =
    let s : AllSendable (c ∷ cs) = subst AllSendable e v.sendable in
    let b : length cs ≤ timer_count_max = omega (arith, v.bounded, ap (length {0}) e) in
    polled-Executes _ (
      unfold execute_command in
      (dispatch-Executes c n (record h { commands = cs })
        (record {
          consistent = record { linked = v.consistent.linked };
          sendable = s.1;
          bounded = b;
        })
        c.cmd c.timer s.0))

abbrev pub IsSafeAfter : Option TimerHost → Type 0
IsSafeAfter none = Unit
IsSafeAfter (some h) = IsSafe h

pub visited-IsSafe :
    (now : ℤ) (t : ℕ) (n : ℤ) (h : TimerHost) (r : Executed)
    → IsSafe h
    → visit now t n h ≡ r
    → Allows r
    → IsSafeAfter (visited r)
visited-IsSafe now t n h none v e k = tt
visited-IsSafe now t n h (some (n', h')) v e k =
    let same = visit-commands now t n n' h h' e in
    record { consistent = k; sendable = rw same v.sendable; bounded = rw same v.bounded }

pub process_timer-IsSafe :
    (h : TimerHost) (q : List (Option ℕ)) → h.queue ≡ q → IsSafe h → IsSafe (process_timer h).1
unfolding process_timer
process_timer-IsSafe h q e v = record {
  consistent = record { linked = λ u. ground (arith, v.consistent.linked u) };
  sendable = subst AllSendable (ground arith) v.sendable;
  bounded = ground (arith, v.bounded);
}
