-- ===== src/Time/TimerHost/Waking.antt =====
-- The time to sleep after a round of UpdateTime() of stk/include/time/stk_time_timer.h.
use bare_metal_rtos.Sync.WaitList.{wait_infinite}
use bare_metal_rtos.Time.TimerHost.Rounds.{visit_all_lem, Served, earliest}
use bare_metal_rtos.Base.{
  [], same_refl, some, ◌∙◌, ap, subst, same-ne, count-cons, count, ◌∷◌, count-nil, ◌<◌, List, ℕ,
  ◌≡◌, refl, arith, Bool, true, false, ◌⊎◌, inl, inr, Bool-cases, ℕ_discrete,
}
use bare_metal_rtos.Base.Int.{ℤ, pos, ◌+ℤ◌, ◌-ℤ◌, ◌<ℤ◌, ◌≤ℤ◌, ltb_ℤ, int_laws, -ℤ_parts}
use bare_metal_rtos.Time.TimerHost.{TimerHost, Timer}
use bare_metal_rtos.Time.TimerHost.TickTask.{update_time}
use bare_metal_rtos.Time.TimerHost.Consistent.{IsConsistent, ==-ne}
use bare_metal_rtos.Time.TimerHost.Expiry.{
  nearer, IsPunctual, stays, nearer_of, time_left, has_come,
}

nearer_of-le : (b s : Bool) (l n : ℤ) → nearer_of b s l n ≤ℤ n
nearer_of-le b s l n = ground arith

nearer_of-le-left : (b s : Bool) (l n : ℤ) → b ≡ false → s ≡ true → nearer_of b s l n ≤ℤ l
nearer_of-le-left b s l n idle stay = rw (idle, stay) (ground arith)

nearer_of-cases :
    (b s : Bool) (l n : ℤ)
    → (nearer_of b s l n ≡ n) ⊎ ((b ≡ false) × (s ≡ true) × (nearer_of b s l n ≡ l))
nearer_of-cases true s l n = inl refl
nearer_of-cases false false l n = inl refl
nearer_of-cases false true l n = elim (Bool-cases (ltb_ℤ l n)) [
  | inl lt ↦ inr (refl, refl, rw lt refl)
  | inr ge ↦ inl (rw ge refl)
]

late-time_left :
    (now deadline : ℤ) (p : ℕ) → now <ℤ deadline +ℤ pos p → pos 0 <ℤ (deadline +ℤ pos p) -ℤ now
late-time_left now deadline p h = omega int_laws

early-time_left : (now : ℤ) (r : Timer) → has_come now r ≡ false → pos 0 <ℤ r.deadline -ℤ now
early-time_left now r early = ground (arith, -ℤ_parts r.deadline now)

time_left-pos :
    (now : ℤ) (r : Timer)
    → IsPunctual now r
    → r.is_pending ≡ false
    → stays now r ≡ true
    → pos 0 <ℤ time_left now r
time_left-pos now r p idle stay = elim (Bool-cases (has_come now r)) [
  | inl due ↦ elim (ℕ_discrete r.period 0) [
    | yes z ↦ ground arith
    | no nz ↦
        rw (idle, due, ==-ne nz) (late-time_left now r.deadline r.period (p.in_period idle nz))
  ]
  | inr early ↦ rw (idle, early) (early-time_left now r early)
]

module _ (now : ℤ) (r : Timer) (n : ℤ) where
  nearer-le : nearer now r n ≤ℤ n
  unfolding nearer
  nearer-le = nearer_of-le r.is_pending (stays now r) (time_left now r) n

  nearer-le-left : r.is_pending ≡ false → stays now r ≡ true → nearer now r n ≤ℤ time_left now r
  unfolding nearer
  nearer-le-left = nearer_of-le-left r.is_pending (stays now r) (time_left now r) n

  nearer-cases :
      (nearer now r n ≡ n)
      ⊎ ((r.is_pending ≡ false) × (stays now r ≡ true) × (nearer now r n ≡ time_left now r))
  unfolding nearer
  nearer-cases = nearer_of-cases r.is_pending (stays now r) (time_left now r) n

-- The time `next` to sleep after the visits of the timers `ts`, from the time `n`.
pub record Sleeps (now : ℤ) (f : ℕ → Timer) (ts : List ℕ) (n next : ℤ) : Type 0 where
  pub at_most : next ≤ℤ n
  pub no_later :
      (u : ℕ)
      → 0 < count u ts
      → (f u).is_pending ≡ false
      → stays now (f u) ≡ true
      → next ≤ℤ time_left now (f u)
  pub reached :
      (next ≡ n)
      ⊎ ((u : ℕ) × (0 < count u ts)
          × ((f u).is_pending ≡ false)
          × (stays now (f u) ≡ true)
          × (next ≡ time_left now (f u)))

earliest-Sleeps :
    (now : ℤ) (f : ℕ → Timer) (ts : List ℕ) (n : ℤ) → Sleeps now f ts n (earliest now f ts n)
unfolding earliest
earliest-Sleeps now f [] n = record {
  at_most = omega arith;
  no_later = λ u m. absurd (omega (arith, count-nil u));
  reached = inl refl;
}
earliest-Sleeps now f (t ∷ ts) n =
    let r = f t in
    let s = earliest-Sleeps now f ts (nearer now r n) in
    record {
      at_most = omega (arith, s.at_most, nearer-le now r n);
      no_later = λ u k idle stay. elim (ℕ_discrete t u) [
        | yes e ↦
            subst (λ v. earliest now f ts (nearer now r n) ≤ℤ time_left now (f v)) e
              (omega (
                arith,
                s.at_most,
                nearer-le-left now r n (ap (λ v. (f v).is_pending) e ∙ idle)
                    (ap (λ v. stays now (f v)) e ∙ stay),
              ))
        | no ne ↦ s.no_later u (omega (arith, count-cons u t ts, same-ne ne)) idle stay
      ];
      reached = elim s.reached [
        | inl e ↦ elim (nearer-cases now r n) [
          | inl old ↦ inl (e ∙ old)
          | inr (idle, stay, new) ↦
              inr (t, omega (arith, count-cons t t ts, same_refl t), idle, stay, e ∙ new)
        ]
        | inr (u, k, idle, stay, e) ↦ inr (u, omega (arith, count-cons u t ts), idle, stay, e)
      ];
    }

earliest-pos :
    (now : ℤ) (f : ℕ → Timer) (ts : List ℕ)
    → ((u : ℕ) → 0 < count u ts → IsPunctual now (f u))
    → pos 0 <ℤ earliest now f ts wait_infinite
earliest-pos now f ts p =
    let s = earliest-Sleeps now f ts wait_infinite in
    elim s.reached [
      | inl e ↦ rw e (omega arith)
      | inr (u, k, idle, stay, e) ↦ rw e (time_left-pos now (f u) (p u k) idle stay)
    ]

-- In a consistent host, at a time when each active timer that is not waiting for its handler has less than a period
-- of delay and a deadline within int32_t of the time, a round of UpdateTime() fails no assertion. Exactly the
-- active timers that are not pending and whose deadline has come go to the handler's queue, in the order of the
-- list, and are pending; of these the one-shot ones leave the list, inactive, and the periodic ones have their
-- deadline moved on by one period. No other timer is changed. The tick task sleeps for a positive time, at most
-- WAIT_INFINITE: no longer than to the next deadline of a timer that was not pending, and just to one of these
-- where it is not WAIT_INFINITE.
pub update_time-Served :
    (now : ℤ) (h : TimerHost)
    → IsConsistent h
    → ((u : ℕ) → (h.timers u).is_active ≡ true → IsPunctual now (h.timers u))
    → (next : ℤ) × (h' : TimerHost) × (update_time now h ≡ some (next, h'))
      × Served now h.timers [] h.active (record h { now = now }) h'
      × Sleeps now h.timers h.active wait_infinite next
      × (pos 0 <ℤ next)
unfolding update_time
update_time-Served now h v p =
    let on : (u : ℕ) → 0 < count u h.active → (h.timers u).is_active ≡ true =
      λ u m. ground (arith, v.linked u) in
    let q : (u : ℕ) → 0 < count u h.active → IsPunctual now (h.timers u) = λ u m. p u (on u m) in
    let (h', k, s) =
      visit_all_lem now h.timers h.active [] wait_infinite (record h { now = now }) refl
        (λ u. ground (arith, v.linked u))
        (record { unvisited = λ u m. refl; on = on; punctual = q }) in
    (
      earliest now h.timers h.active wait_infinite,
      h',
      k,
      s,
      earliest-Sleeps now h.timers h.active wait_infinite,
      earliest-pos now h.timers h.active q,
    )
