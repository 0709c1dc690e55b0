-- ===== src/Time/TimerHost/TickTask.antt =====
-- The tick task and the handler task of stk::time::TimerHost of stk/include/time/stk_time_timer.h: the loop of
-- UpdateTime() over the active timers, and ProcessTimers(). `none` is a failed STK_ASSERT.
use bare_metal_rtos.Time.TimerHost.Commands.{then_waits, Executed, unlink}
use bare_metal_rtos.Base.{
  update, ℕ, Bool, true, false, not, Option, none, some, List, [], ◌∷◌, ◌++◌, ◌==◌, if◌then◌else◌,
}
use bare_metal_rtos.Base.Int.{ℤ, pos, ltb_ℤ, ◌+ℤ◌, ◌-ℤ◌}
use bare_metal_rtos.Sync.WaitList.{wait_infinite}
use bare_metal_rtos.Sync.EventFlags.{int32}
use bare_metal_rtos.Time.TimerHost.{Timer, TimerHost, with_timer}

-- The time to sleep once the deadline of an active timer is taken in.
unfoldable pub sleep_until : ℤ → ℤ → ℤ → Option ℤ
sleep_until now deadline next_sleep =
    let next_deadline = int32 (deadline -ℤ now) in
    if ltb_ℤ (pos 0) next_deadline
    then some (if ltb_ℤ next_deadline next_sleep then next_deadline else next_sleep)
    else none

abbrev pub then_host : TimerHost → Option ℤ → Executed
then_host h none = none
then_host h (some next_sleep) = some (next_sleep, h)

-- A timer that has expired.
unfoldable pub expired : ℤ → Timer → Timer
expired now r =
    if r.period == 0
    then record r { timestamp = now; is_pending = true; is_active = false }
    else record r {
      timestamp = now;
      is_pending = true;
      deadline = (now +ℤ pos r.period) -ℤ (now -ℤ r.deadline);
    }

abbrev pub is_due : ℤ → Timer → Bool
is_due now r = not (ltb_ℤ (now -ℤ r.deadline) (pos 0))

-- The body of the loop of UpdateTime() over the active timers.
unfoldable pub visit : ℤ → ℕ → ℤ → TimerHost → Executed
unfolding unlink expired sleep_until
visit now t next_sleep h =
    let r = h.timers t in
    if r.is_active
    then (if r.is_pending
        then some (next_sleep, h)
        else (if is_due now r
            then (let h' = record (with_timer h t (expired now r)) {
              queue = h.queue ++ some t ∷ [];
            } in
                if r.period == 0
                then then_waits next_sleep (unlink t h')
                else then_host h' (sleep_until now (expired now r).deadline next_sleep))
            else then_host h (sleep_until now r.deadline next_sleep)))
    else then_waits next_sleep (unlink t h)

-- Each timer of the list in turn: the next one is read before the visit, which unlinks no other.
unfoldable pub visit_all : ℤ → List ℕ → ℤ → TimerHost → Executed
unfolding visit
visit_all now [] next_sleep h = some (next_sleep, h)
visit_all now (t ∷ ts) next_sleep h = elim (visit now t next_sleep h) [
  | none ↦ none
  | some (next_sleep', h') ↦ visit_all now ts next_sleep' h'
]

-- A round of UpdateTime() at the time `now`: what it gives to the next ProcessCommands().
unfoldable pub update_time : ℤ → TimerHost → Executed
unfolding visit_all
update_time now h = visit_all now h.active wait_infinite (record h { now = now })

-- UpdateTime() after CMD_SHUTDOWN
unfoldable pub unlink_all : TimerHost → TimerHost
unlink_all h = record h { active = [] }

-- A round of ProcessTimers(); `fires` means that OnExpired() of the timer is called.
pub data Handled : Type 0 where
  sleeps ends skips : Handled
  fires : ℕ → Handled

unfoldable pub process_timer : TimerHost → Handled × TimerHost
process_timer h = elim h.queue [
  | [] ↦ (Handled.sleeps, h)
  | none ∷ q ↦ (Handled.ends, record h { queue = q })
  | some t ∷ q ↦
      if (h.timers t).is_pending
      then (
        Handled.fires t,
        record h {
          timers = update h.timers t (record (h.timers t) { is_pending = false });
          queue = q;
        },
      )
      else (Handled.skips, record h { queue = q })
]
