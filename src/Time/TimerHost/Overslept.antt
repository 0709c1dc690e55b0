-- ===== src/Time/TimerHost/Overslept.antt =====
-- The sleep of the tick task of stk::time::TimerHost of stk/include/time/stk_time_timer.h, in ProcessCommands() where
-- commands of Stop() arrive, and in UpdateTime() where timers wait for their handler.
use bare_metal_rtos.Base.{
  erase, same_refl, count-cons, ◌==◌, ℕ, zero, suc, ◌+◌, ◌≡◌, ◌<◌, ◌≢◌, refl, ap, ◌∙◌, arith, true,
  false, Option, some, List, [], ◌∷◌, inl, inr, Bool-cases, count, update_other,
}
use bare_metal_rtos.Base.Int.{ℤ, pos, ◌+ℤ◌, int_laws}
use bare_metal_rtos.Sync.WaitList.{wait_infinite, int32_max, eq_ℤ}
use bare_metal_rtos.Time.TimerHost.{TimerHost, TimerCommand, CommandId, command, with_timer}
use bare_metal_rtos.Time.TimerHost.Commands.{
  is_empty, Polled, execute_stop, execute_command, wake_time, process_commands,
}
use bare_metal_rtos.Time.TimerHost.TickTask.{update_time, visit, visit_all, process_timer}

abbrev pub stop_command : ℕ → TimerCommand
stop_command t = command CommandId.cmd_stop (some t) (pos 0) 0 0

-- The commands of Stop() for these timers, each so many ticks after the one before it.
unfoldable pub stop_commands : List (ℕ × ℕ) → List (ℤ × TimerCommand)
stop_commands [] = []
stop_commands ((gap, t) ∷ xs) = (pos gap, stop_command t) ∷ stop_commands xs

abbrev pub AllBelow : ℕ → List (ℕ × ℕ) → Type 0
AllBelow n [] = Unit
AllBelow n ((gap, t) ∷ xs) = (gap < n) × AllBelow n xs

unfoldable pub total_gap : List (ℕ × ℕ) → ℕ
total_gap [] = 0
total_gap ((gap, t) ∷ xs) = gap + total_gap xs

-- The timer is none of those stopped.
abbrev pub IsSpared : ℕ → List (ℕ × ℕ) → Type 0
IsSpared u [] = Unit
IsSpared u ((gap, t) ∷ xs) = (t ≢ u) × IsSpared u xs

execute_stop_lem :
    (t : ℕ) (n : ℤ) (h : TimerHost)
    → (h' : TimerHost) × (execute_command (stop_command t) n h ≡ some (Polled.waits n h'))
      × ((u : ℕ) → t ≢ u → h'.timers u ≡ h.timers u)
unfolding execute_command execute_stop
execute_stop_lem t n h =
    let r = record (h.timers t) { is_active = false; is_pending = false } in
    elim (Bool-cases (count t h.active == 0)) [
      | inl absent ↦ (with_timer h t r, rw absent refl, λ u ne. update_other h.timers t u r ne)
      | inr present ↦ (
        record (with_timer h t r) { active = erase t h.active },
        rw present refl,
        λ u ne. update_other h.timers t u r ne,
      )
    ]

wake_time_step :
    (n : ℕ) (now : ℤ) (gap : ℕ) (c : TimerCommand) (arrivals : List (ℤ × TimerCommand))
    (h m : TimerHost) (r : Option (ℤ × TimerHost))
    → gap < n
    → n < int32_max
    → execute_command c (pos n) h ≡ some (Polled.waits (pos n) m)
    → wake_time (pos n) (now +ℤ pos gap) arrivals m ≡ r
    → wake_time (pos n) now ((pos gap, c) ∷ arrivals) h ≡ r
unfolding wake_time
wake_time_step n now gap c arrivals h m r lt fin e k = ground arith

-- Stop() of other timers makes the tick task oversleep: where it sleeps for a time below WAIT_INFINITE and each of these commands arrives before the time to sleep
-- has passed since the one before it, the tick task wakes only when the whole time has passed after the last one,
-- later than it meant to by all the time between them, and the timers that were not stopped are as they were.
pub stops_postpone :
    (xs : List (ℕ × ℕ)) (n : ℕ) (now : ℤ) (h : TimerHost)
    → n < int32_max
    → AllBelow n xs
    → (h' : TimerHost) × (wake_time (pos n) now (stop_commands xs) h
        ≡ some ((now +ℤ pos n) +ℤ pos (total_gap xs), h'))
      × ((u : ℕ) → IsSpared u xs → h'.timers u ≡ h.timers u)
unfolding stop_commands total_gap wake_time
stops_postpone [] n now h fin b =
    let z : eq_ℤ (pos n) wait_infinite ≡ false = ground (arith, fin) in
    (h, rw z (ap (λ k. some (k, h)) (omega int_laws)), λ u s. refl)
stops_postpone ((gap, t) ∷ xs) n now h fin b =
    let (m, e, keep) = execute_stop_lem t (pos n) h in
    let (h', k, keep') = stops_postpone xs n (now +ℤ pos gap) m fin b.1 in
    (
      h',
      wake_time_step n now gap (stop_command t) (stop_commands xs) h m _ b.0 fin e k
          ∙ ap (λ k. some (k, h')) (omega int_laws),
      λ u s. keep' u s.1 ∙ keep u s.0,
    )

-- As many reads of the handler task.
unfoldable pub reads : ℕ → TimerHost → TimerHost
reads zero h = h
reads (suc k) h = reads k (process_timer h).1

process_timer-commands : (h : TimerHost) → (process_timer h).1.commands ≡ h.commands
unfolding process_timer
process_timer-commands h = ground arith

reads-commands : (k : ℕ) (h : TimerHost) → (reads k h).commands ≡ h.commands
unfolding reads
reads-commands zero h = refl
reads-commands (suc k) h = reads-commands k (process_timer h).1 ∙ process_timer-commands h

visit_pending :
    (now : ℤ) (t : ℕ) (n : ℤ) (h : TimerHost)
    → (h.timers t).is_active ≡ true
    → (h.timers t).is_pending ≡ true
    → visit now t n h ≡ some (n, h)
unfolding visit
visit_pending now t n h on busy = rw (on, busy) refl

visit_all_pending :
    (now : ℤ) (ts : List ℕ) (n : ℤ) (h : TimerHost)
    → ((u : ℕ)
        → 0 < count u ts
        → ((h.timers u).is_active ≡ true) × ((h.timers u).is_pending ≡ true))
    → visit_all now ts n h ≡ some (n, h)
unfolding visit_all
visit_all_pending now [] n h p = refl
visit_all_pending now (t ∷ ts) n h p =
    let q = p t (omega (arith, count-cons t t ts, same_refl t)) in
    rw (visit_pending now t n h q.0 q.1, visit_all)
      (visit_all_pending now ts n h (λ u m. p u (omega (arith, count-cons u t ts))))

idle_waits :
    (h : TimerHost)
    → h.commands ≡ []
    → process_commands wait_infinite h
      ≡ some (Polled.waits wait_infinite (record h { commands = [] }))
unfolding process_commands
idle_waits h e = elim (Bool-cases (is_empty h.active)) [
  | inl z ↦ rw (e, z) refl
  | inr nz ↦ rw (e, nz) refl
]

-- If at a round of UpdateTime() every active timer of the list still waits for its handler and no command is in the
-- queue, then the tick task goes to sleep for WAIT_INFINITE, though the timers are active: whatever number of
-- expired timers the handler task reads meanwhile, only a command can end that sleep, and no timer expires until
-- then.
pub pending_sleeps :
    (now : ℤ) (h : TimerHost)
    → ((u : ℕ)
        → 0 < count u h.active
        → ((h.timers u).is_active ≡ true) × ((h.timers u).is_pending ≡ true))
    → h.commands ≡ []
    → (h' : TimerHost) × (update_time now h ≡ some (wait_infinite, h'))
      × ((k : ℕ)
          → process_commands wait_infinite (reads k h')
            ≡ some (Polled.waits wait_infinite (record (reads k h') { commands = [] })))
unfolding update_time
pending_sleeps now h p e =
    let h' = record h { now = now } in
    (
      h',
      visit_all_pending now h.active wait_infinite h' p,
      λ k. idle_waits (reads k h') (reads-commands k h' ∙ e),
    )
