-- ===== src/Time/TimerHost/Preempted.antt =====
-- The calls of stk::time::TimerHost of stk/include/time/stk_time_timer.h in parts: a call tests its arguments and its
-- timer, and then PushCommand() tests m_rearming, sets it, and writes the command. Other tasks, the tick task and the
-- handler task may run between any two of these parts. The write to the command queue is one part, under the
-- queue's critical section.
use bare_metal_rtos.Base.{
  ℕ, zero, suc, ◌≡◌, arith, Bool, true, false, not, ◌&&◌, Option, none, some, List, [], ◌∷◌, ◌==◌,
  leb, if◌then◌else◌,
}
use bare_metal_rtos.Base.Int.{ℤ, pos}
use bare_metal_rtos.Time.TimerHost.{
  TimerHost, TimerCommand, CommandId, command, is_valid_time, is_rearm, mark_rearming, write_rearm,
  write_command, push_command, push_rearm, int32_max, init,
}
use bare_metal_rtos.Time.TimerHost.Runs
use bare_metal_rtos.Time.TimerHost.Runs.{Event}

pub data Call : Type 0 where
  starts restarts start_or_resets : (t delay period : ℕ) (ticks : ℤ) → Call
  stops : ℕ → Call
  resets : ℕ → ℤ → Call
  set_periods : (t period : ℕ) → Call
  shuts_down : Call

-- What a call finds in its first part.
pub data Request : Type 0 where
  fails returns : Request
  pushes : TimerCommand → Request

abbrev pub rearming : CommandId → ℕ → ℕ → ℕ → ℤ → Request
rearming id t delay period ticks =
    if is_valid_time delay period
    then Request.pushes (command id (some t) ticks delay period)
    else Request.fails

-- The first part of each call, up to PushCommand().
unfoldable pub request : Call → TimerHost → Request
request (Call.starts t delay period ticks) h =
    if is_valid_time delay period
    then (if (h.timers t).is_active
        then Request.returns
        else Request.pushes (command CommandId.cmd_start (some t) ticks delay period))
    else Request.fails
request (Call.restarts t delay period ticks) h = rearming CommandId.cmd_restart t delay period ticks
request (Call.start_or_resets t delay period ticks) h =
    rearming CommandId.cmd_start_or_reset t delay period ticks
request (Call.stops t) h =
    if (h.timers t).is_active
    then Request.pushes (command CommandId.cmd_stop (some t) (pos 0) 0 0)
    else Request.returns
request (Call.resets t ticks) h =
    if (h.timers t).is_active && not ((h.timers t).period == 0)
    then Request.pushes (command CommandId.cmd_reset (some t) ticks 0 0)
    else Request.returns
request (Call.set_periods t period) h =
    if ((h.timers t).is_active && not ((h.timers t).period == 0))
      && (not (period == 0) && leb period int32_max)
    then Request.pushes (command CommandId.cmd_set_period (some t) (pos 0) 0 period)
    else Request.returns
request Call.shuts_down h = Request.pushes (command CommandId.cmd_shutdown none (pos 0) 0 0)

-- The test of m_rearming: true where the command is not written, as one is in the queue.
unfoldable pub is_coalesced : TimerCommand → TimerHost → Bool
is_coalesced c h = elim c.timer [
  | none ↦ false
  | some t ↦ is_rearm c.cmd && (h.timers t).is_rearming
]

unfoldable pub mark : TimerCommand → TimerHost → TimerHost
mark c h = elim c.timer [ none ↦ h | some t ↦ if is_rearm c.cmd then mark_rearming t h else h ]

unfoldable pub write : TimerCommand → TimerHost → Bool × TimerHost
unfolding write_command
write c h = elim c.timer [
  | none ↦ write_command c h
  | some t ↦ if is_rearm c.cmd then write_rearm t c h else write_command c h
]

-- The calls that have passed their first part, the test of m_rearming, and the setting of it.
pub record Tasks : Type 0 where
  pub host : TimerHost
  pub requested : List TimerCommand
  pub passed : List TimerCommand
  pub marked : List TimerCommand

-- The next part of one of the tasks: the first part of a call, one of the parts of PushCommand() for the i-th of
-- those that are there, a command or a visit of the tick task, or a read of the handler task.
pub data Move : Type 0 where
  calls : Call → Move
  tests marks writes : ℕ → Move
  executes : ℤ → Move
  visits : ℤ → ℕ → ℤ → Move
  handles : Move

abbrev pub with_first :
    TimerCommand
    → Option (TimerCommand × List TimerCommand)
    → Option (TimerCommand × List TimerCommand)
with_first x none = none
with_first x (some (c, cs)) = some (c, x ∷ cs)

-- The i-th of the list, and the others.
unfoldable pub pick : ℕ → List TimerCommand → Option (TimerCommand × List TimerCommand)
pick i [] = none
pick zero (x ∷ xs) = some (x, xs)
pick (suc i) (x ∷ xs) = with_first x (pick i xs)

abbrev pub after_request : Request → Tasks → Option Tasks
after_request Request.fails s = none
after_request Request.returns s = some s
after_request (Request.pushes c) s = some (record s { requested = c ∷ s.requested })

abbrev pub after_test : Option (TimerCommand × List TimerCommand) → Tasks → Tasks
after_test none s = s
after_test (some (c, cs)) s = record s {
  requested = cs;
  passed = if is_coalesced c s.host then s.passed else c ∷ s.passed;
}

abbrev pub after_mark : Option (TimerCommand × List TimerCommand) → Tasks → Tasks
after_mark none s = s
after_mark (some (c, cs)) s = record s { host = mark c s.host; passed = cs; marked = c ∷ s.marked }

abbrev pub after_write : Option (TimerCommand × List TimerCommand) → Tasks → Tasks
after_write none s = s
after_write (some (c, cs)) s = record s { host = (write c s.host).1; marked = cs }

abbrev pub with_host : Tasks → Option TimerHost → Option Tasks
with_host s none = none
with_host s (some h) = some (record s { host = h })

unfoldable pub step : Move → Tasks → Option Tasks
unfolding request is_coalesced mark write pick
step (Move.calls c) s = after_request (request c s.host) s
step (Move.tests i) s = some (after_test (pick i s.requested) s)
step (Move.marks i) s = some (after_mark (pick i s.passed) s)
step (Move.writes i) s = some (after_write (pick i s.marked) s)
step (Move.executes n) s = with_host s (Runs.step (Event.executes n) s.host)
step (Move.visits now t n) s = with_host s (Runs.step (Event.visits now t n) s.host)
step Move.handles s = with_host s (Runs.step Event.handles s.host)

-- The moves in order, up to a failed assertion.
unfoldable pub run : List Move → Tasks → Option Tasks
run [] s = some s
run (m ∷ ms) s = elim (step m s) [ none ↦ none | some s' ↦ run ms s' ]

unfoldable pub begin : Tasks
unfolding init
begin = record { host = init; requested = []; passed = []; marked = [] }

-- With no other task in between, the parts of PushCommand() make up the whole.
parts_lem :
    (c : TimerCommand) (h : TimerHost) (timer : Option ℕ)
    → c.timer ≡ timer
    → push_command c h ≡ (if is_coalesced c h then (true, h) else write c (mark c h))
unfolding push_command push_rearm is_coalesced mark write
parts_lem c h none e = ground (arith, e)
parts_lem c h (some t) e = ground (arith, e)
