-- ===== src/Time/TimerHost/Racing.antt =====
-- Tasks that preempt each other within the calls of stk/include/time/stk_time_timer.h, and two of them that restart the
-- same timer.
use bare_metal_rtos.Base.{
  ℕ, ◌≡◌, ◌≤◌, ◌<◌, ◌+◌, ◌∙◌, refl, ap, arith, true, false, Option, none, some, List, [], ◌∷◌, ◌++◌,
  leb, length, append_assoc,
}
use bare_metal_rtos.Base.Int.{ℤ}
use bare_metal_rtos.Time.TimerHost.{
  TimerHost, TimerCommand, CommandId, command, is_valid_time, write_command, timer_count_max,
}
use bare_metal_rtos.Time.TimerHost.Runs
use bare_metal_rtos.Time.TimerHost.Runs.{polled, host_of, next_command, visited}
use bare_metal_rtos.Time.TimerHost.Rearming.{AllSendable}
use bare_metal_rtos.Time.TimerHost.Preempted.{
  Call, request, is_coalesced, mark, write, Tasks, Move, pick, step, run,
}
use bare_metal_rtos.Time.TimerHost.Safety.{IsSafe, length-append}

pub record AreSafe (s : Tasks) : Type 0 where
  pub host : IsSafe s.host
  pub requested : AllSendable s.requested
  pub passed : AllSendable s.passed
  pub marked : AllSendable s.marked

abbrev AreSafeAfter : Option Tasks → Type 0
AreSafeAfter none = Unit
AreSafeAfter (some s) = AreSafe s

abbrev pub restart_command : ℕ → ℕ → ℕ → ℤ → TimerCommand
restart_command t delay period ticks = command CommandId.cmd_restart (some t) ticks delay period

-- Two Restart() of the timer, of two tasks that go through their parts side by side.
abbrev pub side_by_side : (t delay period delay' period' : ℕ) (ticks ticks' : ℤ) → List Move
side_by_side t delay period delay' period' ticks ticks' =
    Move.calls (Call.restarts t delay period ticks)
    ∷ Move.calls (Call.restarts t delay' period' ticks')
    ∷ Move.tests 0
    ∷ Move.tests 0
    ∷ Move.marks 0
    ∷ Move.marks 0
    ∷ Move.writes 0
    ∷ Move.writes 0
    ∷ []

abbrev marked_twice : TimerCommand → TimerCommand → TimerHost → TimerHost
marked_twice c d h = mark d (mark c h)

marked_twice-commands :
    (t delay period delay' period' : ℕ) (ticks ticks' : ℤ) (h : TimerHost)
    → let m =
        marked_twice
          (restart_command t delay period ticks)
          (restart_command t delay' period' ticks')
          h in
      (m.commands ≡ h.commands) × ((m.timers t).is_rearming ≡ true)
unfolding mark
marked_twice-commands t delay period delay' period' ticks ticks' h = (refl, ground arith)

write_restart :
    (t delay period : ℕ) (ticks : ℤ) (h : TimerHost)
    → length h.commands < timer_count_max
    → (write (restart_command t delay period ticks) h).1
      ≡ record h { commands = h.commands ++ restart_command t delay period ticks ∷ [] }
unfolding write write_command
write_restart t delay period ticks h l =
    let room : leb timer_count_max (length h.commands) ≡ false = ground (arith, l) in rw room refl

run_first :
    (m : Move) (ms : List Move) (s t : Tasks) (r : Option Tasks)
    → step m s ≡ some t
    → run ms t ≡ r
    → run (m ∷ ms) s ≡ r
unfolding run
run_first m ms s t r e k = ground arith

step_restart :
    (t delay period : ℕ) (ticks : ℤ) (s : Tasks)
    → is_valid_time delay period ≡ true
    → step (Move.calls (Call.restarts t delay period ticks)) s
      ≡ some (record s { requested = restart_command t delay period ticks ∷ s.requested })
unfolding step request
step_restart t delay period ticks s v = rw v refl

step_test :
    (t delay period : ℕ) (ticks : ℤ) (cs : List TimerCommand) (s : Tasks)
    → (s.host.timers t).is_rearming ≡ false
    → s.requested ≡ restart_command t delay period ticks ∷ cs
    → step (Move.tests 0) s
      ≡ some (record s { requested = cs; passed = restart_command t delay period ticks ∷ s.passed })
unfolding step is_coalesced pick
step_test t delay period ticks cs s off e = rw (e, off) refl

finish_both :
    (c d : TimerCommand) (s : Tasks) (h1 h2 : TimerHost)
    → (write d (marked_twice c d s.host)).1 ≡ h1
    → (write c h1).1 ≡ h2
    → run
        (Move.marks 0 ∷ Move.marks 0 ∷ Move.writes 0 ∷ Move.writes 0 ∷ [])
        (record s { passed = c ∷ d ∷ s.passed })
      ≡ some (record s { host = h2 })
unfolding run step pick
finish_both c d s h1 h2 e1 e2 = rw (e1, e2) refl

-- Two tasks that restart the same timer, and preempt each other between the test of m_rearming and the setting of it,
-- both put their CMD_RESTART into the command queue, if it has room for two, though the timer was not marked as
-- rearming before and a second command is to be coalesced with the first.
pub restarts_twice :
    (t delay period delay' period' : ℕ) (ticks ticks' : ℤ) (s : Tasks)
    → is_valid_time delay period ≡ true
    → is_valid_time delay' period' ≡ true
    → (s.host.timers t).is_rearming ≡ false
    → length s.host.commands + 2 ≤ timer_count_max
    → (s' : Tasks) × (run (side_by_side t delay period delay' period' ticks ticks') s ≡ some s')
      × (s'.host.commands
          ≡ s.host.commands
            ++ restart_command t delay' period' ticks' ∷ restart_command t delay period ticks ∷ [])
      × ((s'.host.timers t).is_rearming ≡ true)
restarts_twice t delay period delay' period' ticks ticks' s v w off l =
    let c = restart_command t delay period ticks in
    let d = restart_command t delay' period' ticks' in
    let m = marked_twice c d s.host in
    let (same, on) = marked_twice-commands t delay period delay' period' ticks ticks' s.host in
    let h1 = record m { commands = m.commands ++ d ∷ [] } in
    let h2 = record h1 { commands = h1.commands ++ c ∷ [] } in
    let e1 : (write d m).1 ≡ h1 =
      write_restart t delay' period' ticks' m (rw same (omega (arith, l))) in
    let e2 : (write c h1).1 ≡ h2 =
      write_restart t delay period ticks h1
        (rw (length-append m.commands d, same) (omega (arith, l))) in
    (
      record s { host = h2 },
      run_first _ _ _ _ _ (step_restart t delay period ticks s v) (
          run_first _ _ _ _ _
            (step_restart t delay' period' ticks' (record s { requested = c ∷ s.requested }) w)
            (run_first _ _ _ _ _
              (step_test t delay' period' ticks' (c ∷ s.requested)
                (record s { requested = d ∷ c ∷ s.requested }) off refl)
              (run_first _ _ _ _ _
                (step_test t delay period ticks s.requested
                  (record s { requested = c ∷ s.requested; passed = d ∷ s.passed }) off refl)
                (finish_both c d s h1 h2 e1 e2)))),
      ap (λ (x : List TimerCommand). (x ++ d ∷ []) ++ c ∷ []) same
          ∙ append_assoc s.host.commands (d ∷ []) (c ∷ []),
      on,
    )
