-- ===== src/Strategy/FixedPriority/Validity.antt =====
-- The invariant of the fixed-priority strategy, and what a change of one level has to keep.
use bare_metal_rtos.Base.{
  ℕ, ◌+◌, ◌^◌, ◌≡◌, ◌≢◌, ◌≤◌, ◌<◌, arith, sym, ◌∙◌, [], count, length, ℕ_discrete, min,
}
use bare_metal_rtos.Base.Bits.{bit}
use bare_metal_rtos.Strategy.RoundRobin.Turns.{Cursor}
use bare_metal_rtos.Strategy.FixedPriority.{FixedPriority}

pub record IsValid (max_priorities : ℕ) (s : FixedPriority) : Type 0 where
  -- each level is a round robin
  pub level : (p : ℕ) → Cursor (s.prev p) (s.tasks p)
  -- the bitmap tells which levels have a task
  pub ready : (p : ℕ) → p < 32 → bit p s.ready_bitmap ≡ min 1 (length (s.tasks p))
  pub word : s.ready_bitmap < 2 ^ 32
  -- the levels from MAX_PRIORITIES on are not used
  pub unused : (p : ℕ) → max_priorities ≤ p → s.tasks p ≡ []
  -- no task is in two places
  pub apart : (u p q : ℕ) → p ≢ q → count u (s.tasks p) + count u (s.tasks q) + count u s.sleep ≤ 1

-- From `s` to `s'` one level and the sleeping list change, and no task comes in.
pub record Touched (prio : ℕ) (s s' : FixedPriority) : Type 0 where
  pub cursor : Cursor (s'.prev prio) (s'.tasks prio)
  pub other_tasks : (q : ℕ) → q ≢ prio → s'.tasks q ≡ s.tasks q
  pub other_prev : (q : ℕ) → q ≢ prio → s'.prev q ≡ s.prev q
  pub other_bits : (q : ℕ) → q ≢ prio → q < 32 → bit q s'.ready_bitmap ≡ bit q s.ready_bitmap
  pub own_bit : bit prio s'.ready_bitmap ≡ min 1 (length (s'.tasks prio))
  pub still_word : s'.ready_bitmap < 2 ^ 32

pub Touched-IsValid :
    (max_priorities prio : ℕ) (s s' : FixedPriority)
    → prio < max_priorities
    → IsValid max_priorities s
    → Touched prio s s'
    → ((u : ℕ)
        → count u (s'.tasks prio) + count u s'.sleep ≤ count u (s.tasks prio) + count u s.sleep)
    → IsValid max_priorities s'
Touched-IsValid m prio s s' lt v t moved = record {
  level = λ p. elim (ℕ_discrete p prio) [
    | yes e ↦ rw e t.cursor
    | no ne ↦ rw (t.other_tasks p ne, t.other_prev p ne) (v.level p)
  ];
  ready = λ p l. elim (ℕ_discrete p prio) [
    | yes e ↦ rw e t.own_bit
    | no ne ↦ rw (t.other_tasks p ne, t.other_bits p ne l) (v.ready p l)
  ];
  word = t.still_word;
  unused = λ p l. t.other_tasks p (λ e. omega arith) ∙ v.unused p l;
  apart = λ u p q ne. elim (ℕ_discrete p prio) [
    | yes e ↦
        rw (e, t.other_tasks q (λ k. ne (e ∙ sym k)))
          (omega (arith, moved u, v.apart u prio q (λ k. ne (e ∙ k))))
    | no np ↦ elim (ℕ_discrete q prio) [
      | yes e ↦ rw (e, t.other_tasks p np) (omega (arith, moved u, v.apart u p prio np))
      | no nq ↦
          rw (t.other_tasks p np, t.other_tasks q nq)
            (omega (arith, moved u, v.apart u p q ne, v.apart u p prio np, v.apart u q prio nq))
    ]
  ];
}
