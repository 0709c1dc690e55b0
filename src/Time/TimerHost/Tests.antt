-- ===== src/Time/TimerHost/Tests.antt =====
-- A timer host of stk/include/time/stk_time_timer.h through concrete calls.
use bare_metal_rtos.Base.{
  count, ◌<◌, ◌≡◌, refl, false, true, some, List, [], ◌∷◌, ◌++◌, arith, ℕ, update,
}
use bare_metal_rtos.Base.Int.{◌<ℤ◌, ◌+ℤ◌, ◌-ℤ◌, pos, ℤ}
use bare_metal_rtos.Sync.EventFlags.{int32}
use bare_metal_rtos.Sync.WaitList.{wait_infinite}
use bare_metal_rtos.Time.TimerHost.Commands.{Polled}
use bare_metal_rtos.Time.TimerHost.Stuck.{restart_lost}
use bare_metal_rtos.Time.TimerHost.Consistent.{IsConsistent}
use bare_metal_rtos.Time.TimerHost.Expiry.{IsPunctual}
use bare_metal_rtos.Time.TimerHost.Rounds.{Served}
use bare_metal_rtos.Time.TimerHost.Waking.{Sleeps, update_time-Served}
use bare_metal_rtos.Time.TimerHost.Overslept.{
  total_gap, stop_commands, IsSpared, reads, stops_postpone, pending_sleeps,
}
use bare_metal_rtos.Time.TimerHost.{
  Timer, TimerHost, CommandId, command, new_timer, init, start, restart, start_or_reset,
}
use bare_metal_rtos.Time.TimerHost.Commands.{execute_command, process_commands, wake_time}
use bare_metal_rtos.Time.TimerHost.TickTask.{update_time, visit, process_timer}
use bare_metal_rtos.Time.TimerHost.Runs.{Event, run, step}
use bare_metal_rtos.Time.TimerHost.Preempted
use bare_metal_rtos.Time.TimerHost.Preempted.{Tasks, begin}
use bare_metal_rtos.Time.TimerHost.Racing.{side_by_side, restart_command, restarts_twice}
use bare_metal_rtos.Time.TimerHost.Lifetime.{run_from_start-IsSound}

-- Timer 7 is started with a period of 10 ticks, expires at 12, and its handler is called.
abbrev life : List Event
life =
    Event.starts 7 10 10 (pos 0)
    ∷ Event.executes (pos 0)
    ∷ Event.visits (pos 12) 7 (pos 99)
    ∷ Event.handles
    ∷ Event.start_or_resets 7 10 10 (pos 13)
    ∷ []

abbrev refreshed : Timer
refreshed = record {
  deadline = pos 20;
  timestamp = pos 12;
  period = 10;
  is_active = true;
  is_pending = false;
  is_rearming = true;
}

abbrev running : TimerHost
running = record {
  timers =
      update
        (update
          (update
            (update (λ t. new_timer) 7
              (record {
                deadline = pos 10;
                timestamp = pos 0;
                period = 10;
                is_active = true;
                is_pending = false;
                is_rearming = false;
              }))
            7 (record refreshed { is_pending = true; is_rearming = false }))
          7 (record refreshed { is_rearming = false }))
        7 refreshed;
  active = 7 ∷ [];
  queue = [];
  commands = command CommandId.cmd_start_or_reset (some 7) (pos 13) 10 10 ∷ [];
  now = pos 0;
}

run-life : run life init ≡ some running
unfolding run step init new_timer start start_or_reset execute_command visit process_timer count
    ◌-ℤ◌ ◌+ℤ◌ int32
run-life = refl

-- Two tasks restart timer 7 side by side, and the tick task executes both commands.
abbrev racing : TimerHost
racing = record {
  timers =
      update (update (λ t. new_timer) 7 (record new_timer { is_rearming = true })) 7
        (record new_timer { is_rearming = true });
  active = [];
  queue = [];
  commands =
      command CommandId.cmd_restart (some 7) (pos 2) 6 10
      ∷ command CommandId.cmd_restart (some 7) (pos 1) 5 10
      ∷ [];
  now = pos 0;
}

abbrev raced : Tasks
raced = record { host = racing; requested = []; passed = []; marked = [] }

restarts_twice_example :
    (s' : Tasks) × (Preempted.run (side_by_side 7 5 10 6 10 (pos 1) (pos 2)) begin ≡ some s')
    × (s'.host.commands
        ≡ begin.host.commands
          ++ restart_command 7 6 10 (pos 2) ∷ restart_command 7 5 10 (pos 1) ∷ [])
    × ((s'.host.timers 7).is_rearming ≡ true)
unfolding begin init new_timer
restarts_twice_example =
    restarts_twice 7 5 10 6 10 (pos 1) (pos 2) begin refl refl refl (omega arith)

-- The command is executed, and then Restart() is called.
abbrev cut_off : TimerHost
cut_off = record running {
  timers = update running.timers 7 (record refreshed { deadline = pos 23 });
  commands = [];
}

run-running :
    run (Event.executes (pos 0) ∷ Event.restarts 7 5 5 (pos 14) ∷ []) running ≡ some cut_off
unfolding run step new_timer restart execute_command count ◌-ℤ◌ ◌+ℤ◌ int32
run-running = refl

restart_lost_example :
    (restart 7 5 5 (pos 15) cut_off ≡ some (true, cut_off))
    × (start_or_reset 7 5 5 (pos 15) cut_off ≡ some (true, cut_off))
restart_lost_example =
    restart_lost 7 (command CommandId.cmd_start_or_reset (some 7) (pos 13) 10 10) [] (pos 0)
      (Event.restarts 7 5 5 (pos 14) ∷ []) running cut_off
      (run_from_start-IsSound life running run-life).0 refl refl refl refl run-running 5 5 (pos 15)
      refl

-- At 25, timer 1 has a period of 10 and its deadline was 20, and the one-shot timer 2 has its deadline at 40.
abbrev due_timer : Timer
due_timer = record {
  deadline = pos 20;
  timestamp = pos 10;
  period = 10;
  is_active = true;
  is_pending = false;
  is_rearming = false;
}

abbrev later_timer : Timer
later_timer = record due_timer { deadline = pos 40; period = 0 }

abbrev two_timers : TimerHost
two_timers = record {
  timers = update (update (λ t. new_timer) 1 due_timer) 2 later_timer;
  active = 1 ∷ 2 ∷ [];
  queue = [];
  commands = [];
  now = pos 10;
}

two_timers-IsConsistent : IsConsistent two_timers
unfolding count new_timer
two_timers-IsConsistent = record { linked = λ u. ground arith }

two_timers-IsPunctual :
    (u : ℕ) → (two_timers.timers u).is_active ≡ true → IsPunctual (pos 25) (two_timers.timers u)
unfolding new_timer ◌+ℤ◌
two_timers-IsPunctual u on = ground arith

update_time-Served_example :
    (next : ℤ) × (h' : TimerHost) × (update_time (pos 25) two_timers ≡ some (next, h'))
    × Served (pos 25) two_timers.timers [] two_timers.active (record two_timers { now = pos 25 }) h'
    × Sleeps (pos 25) two_timers.timers two_timers.active wait_infinite next
    × (pos 0 <ℤ next)
update_time-Served_example =
    update_time-Served (pos 25) two_timers two_timers-IsConsistent two_timers-IsPunctual

stops_postpone_example :
    (h' : TimerHost) × (wake_time
        (pos 10)
        (pos 25)
        (stop_commands ((3, 2) ∷ (6, 4) ∷ []))
        two_timers
      ≡ some ((pos 25 +ℤ pos 10) +ℤ pos (total_gap ((3, 2) ∷ (6, 4) ∷ [])), h'))
    × ((u : ℕ) → IsSpared u ((3, 2) ∷ (6, 4) ∷ []) → h'.timers u ≡ two_timers.timers u)
stops_postpone_example =
    stops_postpone ((3, 2) ∷ (6, 4) ∷ []) 10 (pos 25) two_timers (omega arith) (omega arith)

-- Timer 7 has expired and waits for its handler.
abbrev pending_host : TimerHost
pending_host = record running {
  timers = update (λ t. new_timer) 7 (record refreshed { is_pending = true; is_rearming = false });
  queue = some 7 ∷ [];
  commands = [];
}

pending_host-pending :
    (u : ℕ)
    → 0 < count u pending_host.active
    → ((pending_host.timers u).is_active ≡ true) × ((pending_host.timers u).is_pending ≡ true)
unfolding count new_timer
pending_host-pending u m = (ground arith, ground arith)

pending_sleeps_example :
    (h' : TimerHost) × (update_time (pos 25) pending_host ≡ some (wait_infinite, h'))
    × ((k : ℕ)
        → process_commands wait_infinite (reads k h')
          ≡ some (Polled.waits wait_infinite (record (reads k h') { commands = [] })))
pending_sleeps_example = pending_sleeps (pos 25) pending_host pending_host-pending refl
