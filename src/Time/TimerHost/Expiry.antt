-- ===== src/Time/TimerHost/Expiry.antt =====
-- One visit of UpdateTime() of stk/include/time/stk_time_timer.h, for a timer with less than a period of delay.
use bare_metal_rtos.Time.TimerHost.Consistent.{==-ne}
use bare_metal_rtos.Base.{
  inr, inl, Bool-cases, refl, sym, ℕ_discrete, count, true, ℕ, ◌≡◌, ◌≤◌, ◌≢◌, arith, Bool, false,
  not, ◌&&◌, some, [], ◌∷◌, ◌++◌, if◌then◌else◌, update, ◌==◌, erase,
}
use bare_metal_rtos.Base.Int.{ -ℤ_parts, ℤ, pos, ◌+ℤ◌, ◌-ℤ◌, ◌<ℤ◌, ◌≤ℤ◌, ltb_ℤ, int_laws}
use bare_metal_rtos.Sync.WaitList.{int32_max}
use bare_metal_rtos.Sync.EventFlags.{int32}
use bare_metal_rtos.Time.TimerHost.{Timer, TimerHost}
use bare_metal_rtos.Time.TimerHost.TickTask.{visit, is_due, expired, sleep_until}

-- The timer has less than a period of delay, and its times fit in int32_t.
pub record IsPunctual (now : ℤ) (r : Timer) : Type 0 where
  pub in_period : r.is_pending ≡ false → r.period ≢ 0 → now <ℤ r.deadline +ℤ pos r.period
  pub near : r.is_pending ≡ false → r.deadline ≤ℤ now +ℤ pos int32_max
  pub small : r.period ≤ int32_max

-- The deadline has come.
abbrev pub has_come : ℤ → Timer → Bool
has_come now r = not (ltb_ℤ now r.deadline)

-- The timer expires in the visit.
abbrev pub fires : ℤ → Timer → Bool
fires now r = not r.is_pending && has_come now r

-- A timer that has expired waits for its handler. A one-shot one is inactive, and the deadline of a periodic one is
-- one period later.
abbrev pub served : ℤ → Timer → Timer
served now r = record r {
  timestamp = now;
  is_pending = true;
  is_active = if r.period == 0 then false else r.is_active;
  deadline = if r.period == 0 then r.deadline else r.deadline +ℤ pos r.period;
}

abbrev pub after : ℤ → Timer → Timer
after now r = if fires now r then served now r else r

-- The timer stays in the list.
abbrev pub stays : ℤ → Timer → Bool
stays now r = not (fires now r && (r.period == 0))

-- The time to the deadline of a timer once it has been visited.
abbrev pub time_left : ℤ → Timer → ℤ
time_left now r = (after now r).deadline -ℤ now

abbrev pub nearer_of : Bool → Bool → ℤ → ℤ → ℤ
nearer_of pending stay left n =
    if not pending && stay then (if ltb_ℤ left n then left else n) else n

-- The time to sleep, with the timer's deadline after the visit taken in; one that waits for its handler is left out.
unfoldable pub nearer : ℤ → Timer → ℤ → ℤ
nearer now r n = nearer_of r.is_pending (stays now r) (time_left now r) n

int32_small : (d : ℤ) → pos 0 <ℤ d → d ≤ℤ pos int32_max → int32 d ≡ d
unfolding int32
int32_small (ℤ.pos n) h k = ground arith
int32_small (ℤ.negsuc n) h k = absurd (omega arith)

sleep_until_lem :
    (now deadline n : ℤ)
    → now <ℤ deadline
    → deadline ≤ℤ now +ℤ pos int32_max
    → sleep_until now deadline n ≡ some (if ltb_ℤ (deadline -ℤ now) n then deadline -ℤ now else n)
unfolding sleep_until
sleep_until_lem now deadline n h k =
    rw (int32_small (deadline -ℤ now) (omega int_laws) (omega int_laws))
      (ground (arith, -ℤ_parts deadline now))

-- The deadline of a periodic timer moves on by exactly its period.
pub reload : (now deadline : ℤ) (p : ℕ) → (now +ℤ pos p) -ℤ (now -ℤ deadline) ≡ deadline +ℤ pos p
reload now deadline p = omega int_laws

is_due_lem : (now : ℤ) (r : Timer) → is_due now r ≡ has_come now r
is_due_lem now r = ground (arith, -ℤ_parts now r.deadline)

expired_lem : (now : ℤ) (r : Timer) → expired now r ≡ served now r
unfolding expired
expired_lem now r = elim (ℕ_discrete r.period 0) [
  | yes z ↦ rw z refl
  | no nz ↦ rw (==-ne nz, reload now r.deadline r.period) refl
]

unfoldable pub visited_host : ℤ → ℕ → TimerHost → TimerHost
visited_host now t h = record h {
  timers = if fires now (h.timers t) then update h.timers t (after now (h.timers t)) else h.timers;
  queue = if fires now (h.timers t) then h.queue ++ some t ∷ [] else h.queue;
  active = if stays now (h.timers t) then h.active else erase t h.active;
}

is_due-true : (now : ℤ) (r : Timer) → is_due now r ≡ true → r.deadline ≤ℤ now
is_due-true now r e = ground (arith, -ℤ_parts now r.deadline)

pub is_due-false : (now : ℤ) (r : Timer) → is_due now r ≡ false → now <ℤ r.deadline
is_due-false now r e = ground (arith, -ℤ_parts now r.deadline)

module _ (now : ℤ) (t : ℕ) (n : ℤ) (h : TimerHost) (on : (h.timers t).is_active ≡ true)
    (listed : count t h.active ≡ 1) (p : IsPunctual now (h.timers t)) where
  visit_due :
      (h.timers t).is_pending ≡ false
      → is_due now (h.timers t) ≡ true
      → visit now t n h ≡ some (nearer now (h.timers t) n, visited_host now t h)
  unfolding visit nearer visited_host
  visit_due idle due = elim (ℕ_discrete (h.timers t).period 0) [
    | yes z ↦
        rw
          (
            expired_lem now (h.timers t),
            sym (is_due_lem now (h.timers t)),
            on,
            idle,
            due,
            z,
            listed,
          )
          refl
    | no nz ↦
        rw
          (expired_lem now (h.timers t), sym (is_due_lem now (h.timers t)), on, idle, due, ==-ne nz)
          (rw
            (sleep_until_lem now ((h.timers t).deadline +ℤ pos (h.timers t).period) n
              (p.in_period idle nz) (omega (int_laws, is_due-true now (h.timers t) due, p.small)))
            refl)
  ]

  visit_early :
      (h.timers t).is_pending ≡ false
      → is_due now (h.timers t) ≡ false
      → visit now t n h ≡ some (nearer now (h.timers t) n, visited_host now t h)
  unfolding visit nearer visited_host
  visit_early idle early =
      rw (sym (is_due_lem now (h.timers t)), on, idle, early)
        (rw
          (sleep_until_lem now (h.timers t).deadline n (is_due-false now (h.timers t) early)
            (p.near idle))
          refl)

  pub visit_lem : visit now t n h ≡ some (nearer now (h.timers t) n, visited_host now t h)
  unfolding visit nearer visited_host
  visit_lem = elim (Bool-cases (h.timers t).is_pending) [
    | inl busy ↦ rw (on, busy) refl
    | inr idle ↦ elim (Bool-cases (is_due now (h.timers t))) [
      | inl due ↦ visit_due idle due
      | inr early ↦ visit_early idle early
    ]
  ]
