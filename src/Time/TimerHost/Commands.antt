-- ===== src/Time/TimerHost/Commands.antt =====
-- The commands of stk::time::TimerHost of stk/include/time/stk_time_timer.h: ProcessCommands(). It is split where it
-- waits for a command: `waits` has the timeout of that Read(), which goes on with the next command, or with `updates`
-- once the timeout has passed. `none` is a failed STK_ASSERT.
use bare_metal_rtos.Base.{
  ℕ, zero, suc, Bool, true, false, not, ◌&&◌, ◌||◌, Option, none, some, List, [], ◌∷◌, ◌++◌, ◌==◌,
  leb, if◌then◌else◌, length, erase,
}
use bare_metal_rtos.Base.Int.{ltb_ℤ, ℤ, pos, ◌+ℤ◌}
use bare_metal_rtos.Sync.WaitList.{wait_infinite, no_wait, eq_ℤ}
use bare_metal_rtos.Time.TimerHost.{
  Timer, TimerHost, TimerCommand, CommandId, with_timer, is_linked, timer_count_max,
  timer_threads_count,
}

-- What a command leaves: the time to wait for the next one, and the host.
abbrev pub Executed : Type 0
Executed = Option (ℤ × TimerHost)

-- DListHead::LinkBack() and Unlink(), with their assertions
unfoldable pub link_back : ℕ → TimerHost → Option TimerHost
link_back t h = if is_linked t h then none else some (record h { active = h.active ++ t ∷ [] })

unfoldable pub unlink : ℕ → TimerHost → Option TimerHost
unlink t h = if is_linked t h then some (record h { active = erase t h.active }) else none

-- The deadline and the period that CMD_START sets.
unfoldable pub started : TimerCommand → Timer → Timer
started c r = record r {
  deadline = c.timestamp +ℤ pos c.delay;
  period = c.period;
  is_active = true;
  is_pending = false;
}

abbrev pub then_waits : ℤ → Option TimerHost → Executed
then_waits next_sleep none = none
then_waits next_sleep (some h) = some (next_sleep, h)

unfoldable pub execute_start : TimerCommand → ℕ → ℤ → TimerHost → Executed
unfolding link_back started
execute_start c t next_sleep h =
    if (h.timers t).is_active
    then some (next_sleep, h)
    else then_waits no_wait (link_back t (with_timer h t (started c (h.timers t))))

unfoldable pub execute_stop : ℕ → ℤ → TimerHost → Executed
unfolding unlink
execute_stop t next_sleep h =
    let h' = with_timer h t (record (h.timers t) { is_active = false; is_pending = false }) in
    if is_linked t h' then then_waits next_sleep (unlink t h') else some (next_sleep, h')

abbrev pub is_periodic : Timer → Bool
is_periodic r = r.is_active && not (r.period == 0)

-- The new deadline of CMD_RESET, and of CMD_START_OR_RESET for an active timer.
unfoldable pub anchored : TimerCommand → Timer → Timer
anchored c r = record r { deadline = c.timestamp +ℤ pos r.period; is_pending = false }

unfoldable pub execute_reset : TimerCommand → ℕ → ℤ → TimerHost → Executed
unfolding anchored
execute_reset c t next_sleep h =
    if is_periodic (h.timers t)
    then (if is_linked t h then some (no_wait, with_timer h t (anchored c (h.timers t))) else none)
    else some (next_sleep, h)

-- CMD_RESTART once the timer is out of the list.
unfoldable pub rearm : TimerCommand → ℕ → Option TimerHost → Executed
unfolding link_back started
rearm c t none = none
rearm c t (some h) =
    then_waits no_wait
      (link_back t (with_timer h t (record (started c (h.timers t)) { is_rearming = false })))

unfoldable pub execute_restart : TimerCommand → ℕ → TimerHost → Executed
unfolding unlink rearm
execute_restart c t h = rearm c t (if is_linked t h then unlink t h else some h)

unfoldable pub execute_start_or_reset : TimerCommand → ℕ → TimerHost → Executed
unfolding link_back started anchored
execute_start_or_reset c t h =
    if (h.timers t).is_active
    then (if (h.timers t).period == 0
        then some (no_wait, h)
        else (if is_linked t h
            then some (no_wait, with_timer h t (anchored c (h.timers t)))
            else none))
    else then_waits no_wait
        (link_back t (with_timer h t (record (started c (h.timers t)) { is_rearming = false })))

unfoldable pub execute_set_period : TimerCommand → ℕ → ℤ → TimerHost → Executed
execute_set_period c t next_sleep h =
    if c.period == 0
    then none
    else (if is_periodic (h.timers t)
        then (if is_linked t h
            then some (next_sleep, with_timer h t (record (h.timers t) { period = c.period }))
            else none)
        else some (next_sleep, h))

-- The switch of ProcessCommands() but for CMD_SHUTDOWN, for a command of the timer `t`.
unfoldable pub execute : CommandId → TimerCommand → ℕ → ℤ → TimerHost → Executed
unfolding execute_start execute_stop execute_reset execute_restart execute_start_or_reset
    execute_set_period
execute CommandId.cmd_shutdown c t next_sleep h = none
execute CommandId.cmd_start c t next_sleep h = execute_start c t next_sleep h
execute CommandId.cmd_stop c t next_sleep h = execute_stop t next_sleep h
execute CommandId.cmd_reset c t next_sleep h = execute_reset c t next_sleep h
execute CommandId.cmd_restart c t next_sleep h = execute_restart c t h
execute CommandId.cmd_start_or_reset c t next_sleep h = execute_start_or_reset c t h
execute CommandId.cmd_set_period c t next_sleep h = execute_set_period c t next_sleep h

-- CMD_SHUTDOWN: a null pointer for each handler task, as far as they fit in the queue.
unfoldable pub push_sentinels : ℕ → List (Option ℕ) → List (Option ℕ)
push_sentinels zero queue = queue
push_sentinels (suc n) queue =
    push_sentinels n (if leb timer_count_max (length queue) then queue else queue ++ none ∷ [])

-- How ProcessCommands() goes on after the commands that are in the queue.
pub data Polled : Type 0 where
  stops : TimerHost → Polled
  waits : ℤ → TimerHost → Polled
  updates : TimerHost → Polled

abbrev pub polls : Executed → Option Polled
polls none = none
polls (some (next_sleep, h)) = some (Polled.waits next_sleep h)

-- The switch: `stops` for CMD_SHUTDOWN, and else `waits` with the timeout of the next Read().
unfoldable pub dispatch : CommandId → Option ℕ → TimerCommand → ℤ → TimerHost → Option Polled
unfolding execute push_sentinels
dispatch CommandId.cmd_shutdown timer c next_sleep h =
    some (Polled.stops (record h { queue = push_sentinels timer_threads_count h.queue }))
dispatch id none c next_sleep h = none
dispatch id (some t) c next_sleep h = polls (execute id c t next_sleep h)

unfoldable pub execute_command : TimerCommand → ℤ → TimerHost → Option Polled
unfolding dispatch
execute_command c next_sleep h = dispatch c.cmd c.timer c next_sleep h

-- The loop of ProcessCommands() over the commands `cs` at hand. With NO_WAIT an empty queue ends it.
unfoldable pub drain : List TimerCommand → ℤ → TimerHost → Option Polled
unfolding execute_command
drain [] next_sleep h =
    let h' = record h { commands = [] } in
    some (if eq_ℤ next_sleep no_wait then Polled.updates h' else Polled.waits next_sleep h')
drain (c ∷ cs) next_sleep h = elim (execute_command c next_sleep (record h { commands = cs })) [
  | none ↦ none
  | some p ↦ elim p [
    | Polled.stops h' ↦ some (Polled.stops h')
    | Polled.waits next_sleep' h' ↦ drain cs next_sleep' h'
    | Polled.updates h' ↦ some (Polled.updates h')
  ]
]

abbrev pub is_empty : List ℕ → Bool
is_empty [] = true
is_empty (t ∷ ts) = false

unfoldable pub process_commands : ℤ → TimerHost → Option Polled
unfolding drain
process_commands next_sleep h =
    drain h.commands (if is_empty h.active then wait_infinite else next_sleep) h

-- ProcessCommands() in time: each command arrives so long after the one before it, or after `now`. It ends when
-- Read() times out, or at once after a command that leaves NO_WAIT; the result is the time and the host. A Read()
-- with WAIT_INFINITE does not time out: where no command follows, `none` is the wait that does not end.
unfoldable pub wake_time : ℤ → ℤ → List (ℤ × TimerCommand) → TimerHost → Option (ℤ × TimerHost)
unfolding execute_command
wake_time next_sleep now [] h =
    if eq_ℤ next_sleep wait_infinite then none else some (now +ℤ next_sleep, h)
wake_time next_sleep now ((gap, c) ∷ arrivals) h =
    if eq_ℤ next_sleep wait_infinite || ltb_ℤ gap next_sleep
    then elim (execute_command c next_sleep h) [
      | none ↦ none
      | some p ↦ elim p [
        | Polled.waits next_sleep' h' ↦
            if eq_ℤ next_sleep' no_wait
            then some (now +ℤ gap, h')
            else wake_time next_sleep' (now +ℤ gap) arrivals h'
        | other ↦ none
      ]
    ]
    else some (now +ℤ next_sleep, h)
