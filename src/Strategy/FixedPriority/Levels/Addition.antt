-- ===== src/Strategy/FixedPriority/Levels/Addition.antt =====
-- AddActive() of the fixed-priority strategy.
use bare_metal_rtos.Strategy.RoundRobin.Turns.{Cursor, IsValid as IsLevelValid, turns_of}
use bare_metal_rtos.Strategy.RoundRobin.Joining.{Inserted, woken_Joins, woken_cursor}
use bare_metal_rtos.Strategy.FixedPriority.Validity.{IsValid, Touched}
use bare_metal_rtos.Base.{
  ℕ, suc, ◌^◌, ◌≡◌, ◌<◌, refl, arith, sym, ◌∙◌, List, [], ◌∷◌, ◌++◌, Option, some, length,
  ℕ_discrete, counting, ◌==◌, if◌then◌else◌, update, update_same, update_other, length-append,
  bit_or,
}
use bare_metal_rtos.Base.Bits.{
  bit, bit-le, bit-bit_or, bit-pow_self, bit-pow_ne, bit_or-lt, pow-lt_pow,
}
use bare_metal_rtos.Strategy.FixedPriority.{FixedPriority, add_active, priority}
use bare_metal_rtos.Strategy.FixedPriority.Levels.Removal.{as_round_robin}

pub sleep-add_active : (t weight : ℕ) (s : FixedPriority) → (add_active t weight s).sleep ≡ s.sleep
unfolding add_active
sleep-add_active t weight s = ground arith

pub tasks-add_active :
    (t weight q : ℕ) (s : FixedPriority)
    → (add_active t weight s).tasks q
      ≡ update s.tasks (priority weight) (s.tasks (priority weight) ++ t ∷ []) q
unfolding add_active
tasks-add_active t weight q s = ground arith

prev-add_active :
    (t weight q : ℕ) (s : FixedPriority)
    → (add_active t weight s).prev q ≡ (
        if length (s.tasks (priority weight) ++ t ∷ []) == 1
        then update s.prev (priority weight) (some t) q
        else s.prev q)
unfolding add_active
prev-add_active t weight q s = ground arith

bitmap-add_active :
    (t weight : ℕ) (s : FixedPriority)
    → (add_active t weight s).ready_bitmap ≡ (
        if length (s.tasks (priority weight) ++ t ∷ []) == 1
        then bit_or s.ready_bitmap (2 ^ priority weight)
        else s.ready_bitmap)
unfolding add_active
bitmap-add_active t weight s = ground arith

-- The size test of the code is the null test of the round robin.
Cursor-added :
    (t : ℕ) (p : Option ℕ) (ts : List ℕ)
    → Cursor p ts
    → (if length (ts ++ t ∷ []) == 1 then some t else p) ≡ woken_cursor t p
Cursor-added t p ts (Cursor.idle e f) = rw (e, f) refl
Cursor-added t p ts (Cursor.on c b a e f) =
    rw (e, f) (ground (arith, length-append (b ++ c ∷ a) (t ∷ []), length-append b (c ∷ a)))

-- Where the level's list has `t` at its end, the new task has a turn among those to come, and the
-- others keep their order.
pub add_active-Inserted :
    (max_priorities t weight : ℕ) (s : FixedPriority)
    → IsValid max_priorities s
    → Inserted t (turns_of (s.prev (priority weight)) (s.tasks (priority weight))) (
        turns_of
          ((add_active t weight s).prev (priority weight))
          ((add_active t weight s).tasks (priority weight)))
      × Cursor
          ((add_active t weight s).prev (priority weight))
          ((add_active t weight s).tasks (priority weight))
add_active-Inserted m t weight s v =
    rw
      (
        tasks-add_active t weight prio s,
        prev-add_active t weight prio s,
        update_same s.tasks prio (s.tasks prio ++ t ∷ []),
        update_same s.prev prio (some t),
        Cursor-added t (s.prev prio) (s.tasks prio) (v.level prio),
      )
      (woken_Joins t (as_round_robin prio s) valid)
  where
    prio : ℕ
    prio = priority weight

    valid : IsLevelValid (as_round_robin prio s)
    valid = record {
      distinct = λ u. omega (counting, v.apart u prio (suc prio) (λ e. omega arith));
      cursor = v.level prio;
    }

bits-add_active :
    (max_priorities t weight q : ℕ) (s : FixedPriority)
    → IsValid max_priorities s
    → priority weight < 32
    → q < 32
    → bit q (add_active t weight s).ready_bitmap
      ≡ (if q == priority weight then 1 else bit q s.ready_bitmap)
bits-add_active m t weight q s v h k = elim (ℕ_discrete q prio) [
  | yes e ↦
      rw (bitmap-add_active t weight s, e)
        (ground (
          arith,
          bit-bit_or prio s.ready_bitmap (2 ^ prio),
          bit-pow_self prio,
          bit-le prio s.ready_bitmap,
          v.ready prio h,
          length-append (s.tasks prio) (t ∷ []),
        ))
  | no ne ↦
      rw (bitmap-add_active t weight s)
        (ground (arith, bit-bit_or q s.ready_bitmap (2 ^ prio), bit-pow_ne q prio ne))
]
  where
    prio : ℕ
    prio = priority weight

-- AddActive() touches the task's level only, and sets the level's digit of the bitmap.
pub add_active-Touched :
    (max_priorities t weight : ℕ) (s : FixedPriority)
    → IsValid max_priorities s
    → priority weight < 32
    → Touched (priority weight) s (add_active t weight s)
add_active-Touched m t weight s v h = record {
  cursor = (add_active-Inserted m t weight s v).1;
  other_tasks =
      λ q ne. tasks-add_active t weight q s ∙ update_other s.tasks prio q _ (λ e. ne (sym e));
  other_prev = λ q ne.
      ground (
        arith,
        prev-add_active t weight q s,
        update_other s.prev prio q (some t) (λ e. ne (sym e)),
      );
  other_bits = λ q ne k. ground (arith, bits-add_active m t weight q s v h k);
  own_bit = ground (
    arith,
    bits-add_active m t weight prio s v h h,
    tasks-add_active t weight prio s,
    length-append (s.tasks prio) (t ∷ []),
  );
  still_word = ground (
    arith,
    v.word,
    bitmap-add_active t weight s,
    bit_or-lt 32 s.ready_bitmap (2 ^ prio),
    pow-lt_pow prio 32 h,
  );
}
  where
    prio : ℕ
    prio = priority weight
