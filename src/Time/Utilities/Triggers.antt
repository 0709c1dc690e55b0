-- ===== src/Time/Utilities/Triggers.antt =====
-- PeriodicTrigger of stk/include/time/stk_time_util.h, polled at any times.
use bare_metal_rtos.Base.{
  ◌∙◌, ap, ℕ, suc, ◌*◌, ◌≡◌, refl, arith, Bool, true, false, Option, none, some, List, [], ◌∷◌, inl,
  inr, ◌⊎◌, Bool-cases, if◌then◌else◌, length,
}
use bare_metal_rtos.Base.Int.{ℤ, pos, ltb_ℤ, ◌+ℤ◌, ◌≤ℤ◌, ◌<ℤ◌, int_laws, -ℤ_parts}
use bare_metal_rtos.Time.Utilities.{PeriodicTrigger, poll}

-- Poll() at each of the times, and how many of the calls return true.
unfoldable pub poll_all : List ℤ → PeriodicTrigger → Option (ℕ × PeriodicTrigger)
poll_all [] p = some (0, p)
poll_all (ticks ∷ ts) p = elim (poll ticks p) [
  | none ↦ none
  | some (triggered, p') ↦ elim (poll_all ts p') [
    | none ↦ none
    | some (k, p'') ↦ some (if triggered then suc k else k, p'')
  ]
]

-- Every time is in the range.
abbrev pub AllWithin : ℤ → ℤ → List ℤ → Type 0
AllWithin from to [] = Unit
AllWithin from to (ticks ∷ ts) = (from ≤ℤ ticks) × (ticks ≤ℤ to) × AllWithin from to ts

-- `k` of the calls fired, and left `p'`.
pub record IsOnSchedule (from to : ℤ) (calls k : ℕ) (p p' : PeriodicTrigger) : Type 0 where
  pub same_period : p'.period ≡ p.period
  pub no_drift : p'.next ≡ p.next +ℤ pos (k * p.period)
  pub not_early : (k ≡ 0) ⊎ (p'.next ≤ℤ to +ℤ pos p.period)
  pub caught_up : (k ≡ calls) ⊎ (from <ℤ p'.next)

poll_fires :
    (ticks : ℤ) (p : PeriodicTrigger)
    → pos 0 <ℤ p.next
    → p.next ≤ℤ ticks
    → poll ticks p ≡ some (true, record p { next = p.next +ℤ pos p.period })
unfolding poll
poll_fires ticks p a h = ground (arith, -ℤ_parts ticks p.next)

poll_waits :
    (ticks : ℤ) (p : PeriodicTrigger)
    → pos 0 <ℤ p.next
    → ticks <ℤ p.next
    → poll ticks p ≡ some (false, p)
unfolding poll
poll_waits ticks p a h = ground (arith, -ℤ_parts ticks p.next)

poll_all_step :
    (ticks : ℤ) (ts : List ℤ) (p q p' : PeriodicTrigger) (b : Bool) (k : ℕ)
    → poll ticks p ≡ some (b, q)
    → poll_all ts q ≡ some (k, p')
    → poll_all (ticks ∷ ts) p ≡ some (if b then suc k else k, p')
unfolding poll_all
poll_all_step ticks ts p q p' b k e f = ground arith

shift : (x : ℤ) (k period : ℕ) → (x +ℤ pos period) +ℤ pos (k * period) ≡ x +ℤ pos (suc k * period)
shift x k period = omega int_laws

-- Where the next time has come to after `m` ticks of periods.
after_start :
    (from ticks x x' : ℤ) (m : ℕ) → from ≤ℤ ticks → ticks <ℤ x → x' ≡ x +ℤ pos m → from <ℤ x'
after_start from ticks x x' m h k e = rw e (omega int_laws)

first_firing :
    (to ticks x x' : ℤ) (k period : ℕ)
    → x ≤ℤ ticks
    → ticks ≤ℤ to
    → x' ≡ (x +ℤ pos period) +ℤ pos (k * period)
    → k ≡ 0
    → x' ≤ℤ to +ℤ pos period
first_firing to ticks x x' k period h g e z = rw (e, z) (omega int_laws)

-- Polled at any times from `from` to `to`, a started trigger never fails its assertion. If `k` of the calls return
-- true, its next time has moved on by exactly `k` periods; if any do, the last of them was for a time that `to` has
-- reached, so none is early; and either every call returned true or the next time is after `from`, so calls at one
-- time go on to return true until the schedule is caught up with.
pub poll_all-IsOnSchedule :
    (from to : ℤ) (ts : List ℤ) (p : PeriodicTrigger)
    → pos 0 <ℤ p.next
    → AllWithin from to ts
    → (k : ℕ) × (p' : PeriodicTrigger) × (poll_all ts p ≡ some (k, p'))
      × IsOnSchedule from to (length ts) k p p'
unfolding poll_all
poll_all-IsOnSchedule from to [] p a w = (
  0,
  p,
  refl,
  record {
    same_period = refl;
    no_drift = omega int_laws;
    not_early = inl refl;
    caught_up = inl refl;
  },
)
poll_all-IsOnSchedule from to (ticks ∷ ts) p a w = elim (Bool-cases (ltb_ℤ ticks p.next)) [
  | inl early ↦
      let before : ticks <ℤ p.next = ground arith in
      let (k, p', e, s) = poll_all-IsOnSchedule from to ts p a w.2 in
      (
        k,
        p',
        poll_all_step ticks ts p p p' false k (poll_waits ticks p a before) e,
        record {
          same_period = s.same_period;
          no_drift = s.no_drift;
          not_early = s.not_early;
          caught_up =
              inr (after_start from ticks p.next p'.next (k * p.period) w.0 before s.no_drift);
        },
      )
  | inr due ↦
      let reached : p.next ≤ℤ ticks = ground arith in
      let q = record p { next = p.next +ℤ pos p.period } in
      let (k, p', e, s) = poll_all-IsOnSchedule from to ts q (omega int_laws) w.2 in
      (
        suc k,
        p',
        poll_all_step ticks ts p q p' true k (poll_fires ticks p a reached) e,
        record {
          same_period = s.same_period;
          no_drift = s.no_drift ∙ shift p.next k p.period;
          not_early = inr (elim s.not_early [
            | inl z ↦ first_firing to ticks p.next p'.next k p.period reached w.1 s.no_drift z
            | inr le ↦ le
          ]);
          caught_up = elim s.caught_up [ inl all ↦ inl (ap suc all) | inr passed ↦ inr passed ];
        },
      )
]
