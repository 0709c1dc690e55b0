-- ===== src/Strategy/FixedPriority/Levels/Removal.antt =====
-- RemoveActive() of the fixed-priority strategy.
use bare_metal_rtos.Base.{
  sym, update_other, ◌∙◌, suc, subst, Option, length-append, count-cons, ==-refl, ap, head_or, ◌+◌,
  length, ◌∷◌, ℕ_discrete, ◌++◌, List, ℕ, ◌^◌, ◌≡◌, ◌<◌, arith, [], count, Distinct, counting, ◌==◌,
  if◌then◌else◌, update, update_same, erase, bit_and,
}
use bare_metal_rtos.Base.Bits.{
  bit_and-lt, pow-lt_pow, bit-le, bit-pow_ne, bit-pow_self, bit-bit_not, bit-bit_and, bit, bit_not,
}
use bare_metal_rtos.Strategy.FixedPriority.Validity.{Touched, IsValid}
use bare_metal_rtos.Strategy.TaskList
use bare_metal_rtos.Strategy.TaskList.{get_next-split}
use bare_metal_rtos.Strategy.RoundRobin
use bare_metal_rtos.Strategy.RoundRobin.{RoundRobin}
use bare_metal_rtos.Strategy.RoundRobin.Invariant.{Unlinked}
use bare_metal_rtos.Strategy.RoundRobin.Invariant
use bare_metal_rtos.Strategy.FixedPriority.{FixedPriority, remove_active}

-- A level as a round robin of its own.
abbrev pub as_round_robin : ℕ → FixedPriority → RoundRobin
as_round_robin p s = record { tasks = s.tasks p; sleep = []; prev = s.prev p }

pub sleep-remove_active :
    (t prio : ℕ) (s : FixedPriority) → (remove_active t prio s).sleep ≡ s.sleep
unfolding remove_active
sleep-remove_active t prio s = ground arith

pub tasks-remove_active :
    (t prio q : ℕ) (s : FixedPriority)
    → (remove_active t prio s).tasks q ≡ update s.tasks prio (erase t (s.tasks prio)) q
unfolding remove_active
tasks-remove_active t prio q s = ground arith

-- The level goes through RemoveActive() of the round-robin strategy.
prev-remove_active :
    (t prio q : ℕ) (s : FixedPriority)
    → (remove_active t prio s).prev q
      ≡ update s.prev prio (RoundRobin.remove_active t (as_round_robin prio s)).prev q
unfolding remove_active RoundRobin.remove_active
prev-remove_active t prio q s = ground arith

bitmap-remove_active :
    (t prio : ℕ) (s : FixedPriority)
    → (remove_active t prio s).ready_bitmap ≡ (
        if TaskList.get_next t (s.tasks prio) == t
        then bit_and s.ready_bitmap (bit_not 32 (2 ^ prio))
        else s.ready_bitmap)
unfolding remove_active
bitmap-remove_active t prio s = ground arith

pub remove_active-Unlinked :
    (t prio : ℕ) (s : FixedPriority)
    → Distinct (s.tasks prio)
    → 0 < count t (s.tasks prio)
    → Unlinked t
        (s.tasks prio)
        ((remove_active t prio s).prev prio)
        ((remove_active t prio s).tasks prio)
unfolding RoundRobin.remove_active
remove_active-Unlinked t prio s d h =
    rw (tasks-remove_active t prio prio s, prev-remove_active t prio prio s)
      (rw
        (
          update_same s.tasks prio (erase t (s.tasks prio)),
          update_same s.prev prio (RoundRobin.remove_active t (as_round_robin prio s)).prev,
        )
        (Invariant.remove_active-Unlinked t (as_round_robin prio s) (λ u. omega (counting, d u)) h))

-- A task is its own successor exactly if it is alone in its level.
next_alone :
    (t : ℕ) (before after : List ℕ)
    → Distinct (before ++ t ∷ after)
    → (TaskList.get_next t (before ++ t ∷ after) == t) ≡ (length (before ++ after) == 0)
next_alone t b a d = rw (get_next-split t b a first) (go a b before_and_after)
  where
    first : count t b ≡ 0
    first = omega (counting, d t)

    before_and_after : count t a + count t b ≡ 0
    before_and_after = omega (counting, d t)

    go :
        (a b : List ℕ)
        → count t a + count t b ≡ 0
        → (head_or t (a ++ b) == t) ≡ (length (b ++ a) == 0)
    go [] [] h = ==-refl t
    go [] (y ∷ b) h = ground (arith, count-cons t y b)
    go (x ∷ a) b h = ground (arith, count-cons t x a, length-append b (x ∷ a))

-- Clearing digit `prio` of a word.
clear_bit :
    (w prio q bitmap : ℕ)
    → prio < w
    → q < w
    → 2 ^ prio < 2 ^ w
    → bit q (bit_and bitmap (bit_not w (2 ^ prio))) ≡ (if q == prio then 0 else bit q bitmap)
clear_bit w p q b h k l = elim (ℕ_discrete q p) [
  | yes e ↦ ground (
    arith,
    bit-bit_and q b (bit_not w (2 ^ p)),
    bit-bit_not w q (2 ^ p),
    bit-pow_self p,
    ap (λ j. bit j (2 ^ p)) e,
  )
  | no ne ↦ ground (
    arith,
    bit-bit_and q b (bit_not w (2 ^ p)),
    bit-bit_not w q (2 ^ p),
    bit-pow_ne q p ne,
    bit-le q b,
  )
]

alone-Unlinked :
    (t : ℕ) (was ts : List ℕ) {p : Option ℕ}
    → Distinct was
    → Unlinked t was p ts
    → (TaskList.get_next t was == t) ≡ (length ts == 0)
alone-Unlinked t was ts d k =
    rw (k.split, k.left) (next_alone t k.before k.after (subst Distinct k.split d))

pub level-Distinct :
    (max_priorities prio : ℕ) (s : FixedPriority)
    → IsValid max_priorities s
    → Distinct (s.tasks prio)
level-Distinct m prio s v u = omega (arith, v.apart u prio (suc prio) (λ e. omega arith))

bits-remove_active :
    (max_priorities t prio q : ℕ) (s : FixedPriority)
    → IsValid max_priorities s
    → prio < 32
    → q < 32
    → 0 < count t (s.tasks prio)
    → bit q (remove_active t prio s).ready_bitmap ≡ (
        if q == prio
        then (if length ((remove_active t prio s).tasks prio) == 0 then 0 else 1)
        else bit q s.ready_bitmap)
bits-remove_active m t prio q s v h k l =
    let d = level-Distinct m prio s v in
    let u = remove_active-Unlinked t prio s d l in
    rw (bitmap-remove_active t prio s, alone-Unlinked t (s.tasks prio) _ d u)
      (ground (
        arith,
        clear_bit 32 prio q s.ready_bitmap h k (pow-lt_pow prio 32 h),
        v.ready prio h,
        ap (λ j. bit j s.ready_bitmap),
        not_empty (s.tasks prio) l,
      ))
  where
    not_empty : (xs : List ℕ) → 0 < count t xs → 0 < length xs
    not_empty [] n = omega (counting, n)
    not_empty (x ∷ xs) n = omega arith

-- RemoveActive() touches the task's level only, and clears the level's digit of the bitmap exactly
-- if no task is left there.
pub remove_active-Touched :
    (max_priorities t prio : ℕ) (s : FixedPriority)
    → IsValid max_priorities s
    → prio < 32
    → 0 < count t (s.tasks prio)
    → Touched prio s (remove_active t prio s)
remove_active-Touched m t prio s v h l =
    let u = remove_active-Unlinked t prio s (level-Distinct m prio s v) l in
    record {
      cursor = u.cursor;
      other_tasks =
          λ q ne. tasks-remove_active t prio q s ∙ update_other s.tasks prio q _ (λ e. ne (sym e));
      other_prev =
          λ q ne. prev-remove_active t prio q s ∙ update_other s.prev prio q _ (λ e. ne (sym e));
      other_bits = λ q ne k. ground (arith, bits-remove_active m t prio q s v h k l);
      own_bit = ground (arith, bits-remove_active m t prio prio s v h h l);
      still_word = ground (
        arith,
        v.word,
        bitmap-remove_active t prio s,
        bit_and-lt 32 s.ready_bitmap (bit_not 32 (2 ^ prio)),
      );
    }
