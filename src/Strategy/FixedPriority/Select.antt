-- ===== src/Strategy/FixedPriority/Select.antt =====
-- GetNext() of the fixed-priority strategy: the highest ready level, and the turns within it.
use bare_metal_rtos.Strategy.FixedPriority.Ready.{highest_ready-IsHighest, IsHighest}
use bare_metal_rtos.Base.Bits.{some_bit, bit-zero, bit}
use bare_metal_rtos.Base.{
  inr, dec_lt, inl, ℕ_discrete, ◌⊎◌, none, ◌≢◌, ◌≤◌, ℕ, suc, ◌≡◌, ◌<◌, refl, arith, ap, sym, ◌∙◌,
  subst, List, [], ◌∷◌, some, length, counting, update, update_same, update_other,
}
use bare_metal_rtos.Strategy.TaskList
use bare_metal_rtos.Strategy.RoundRobin
use bare_metal_rtos.Strategy.RoundRobin.{RoundRobin}
use bare_metal_rtos.Strategy.RoundRobin.Turns.{Cursor, turns, turns_of, rotate, head}
use bare_metal_rtos.Strategy.RoundRobin.Turns
use bare_metal_rtos.Strategy.RoundRobin.Order.{get_next-Serves}
use bare_metal_rtos.Strategy.FixedPriority.{highest_ready, get_next, FixedPriority, select}
use bare_metal_rtos.Strategy.FixedPriority.Validity.{IsValid, Touched-IsValid}
use bare_metal_rtos.Strategy.FixedPriority.Levels.Removal.{as_round_robin}

length_zero : (xs : List ℕ) → length xs ≡ 0 → xs ≡ []
length_zero [] h = refl
length_zero (x ∷ xs) h = absurd (omega arith)

-- The task `t` is next in the level `prio`, all higher levels are empty, and in `s'` only the turns
-- of that level have gone on by one: the cursors of the other levels stay.
pub record Selects (max_priorities prio t : ℕ) (s s' : FixedPriority) : Type 0 where
  pub is_next : head (turns (as_round_robin prio s)) ≡ some t
  pub highest : (q : ℕ) → prio < q → s.tasks q ≡ []
  pub rotates : turns (as_round_robin prio s') ≡ rotate (turns (as_round_robin prio s))
  pub keeps : IsValid max_priorities s'
  pub same_tasks : s'.tasks ≡ s.tasks
  pub same_sleep : s'.sleep ≡ s.sleep
  pub same_bitmap : s'.ready_bitmap ≡ s.ready_bitmap
  pub other_cursors : (q : ℕ) → q ≢ prio → s'.prev q ≡ s.prev q

module _ (max_priorities prio : ℕ) (s : FixedPriority) (v : IsValid max_priorities s)
    (used : prio < max_priorities) (small : prio < 32) where
  level-IsValid : Turns.IsValid (as_round_robin prio s)
  level-IsValid = record {
    distinct = λ u. omega (counting, v.apart u prio (suc prio) (λ e. omega arith));
    cursor = v.level prio;
  }

  -- The cursor of a level moves as in the round-robin strategy.
  select_level :
      (c : ℕ)
      → s.prev prio ≡ some c
      → let next = TaskList.get_next c (s.tasks prio) in
        (select prio s ≡ some (some next, record s { prev = update s.prev prio (some next) }))
        × ((RoundRobin.get_next (as_round_robin prio s)).0 ≡ some next)
        × ((RoundRobin.get_next (as_round_robin prio s)).1
            ≡ record { tasks = s.tasks prio; sleep = []; prev = some next })
  unfolding select RoundRobin.get_next RoundRobin.advance
  select_level c e = (rw (e, select), rw (e, RoundRobin.advance), rw (e, RoundRobin.advance))

  select-Selects :
      (c : ℕ)
      → s.prev prio ≡ some c
      → ((q : ℕ) → prio < q → s.tasks q ≡ [])
      → Selects max_priorities prio
          (TaskList.get_next c (s.tasks prio))
          s
          (record s { prev = update s.prev prio (some (TaskList.get_next c (s.tasks prio))) })
  select-Selects c e high =
      let next = TaskList.get_next c (s.tasks prio) in
      let (_, first, after) = select_level c e in
      let r = get_next-Serves (as_round_robin prio s) level-IsValid in
      let s' : FixedPriority = record s { prev = update s.prev prio (some next) } in
      let here : s'.prev prio ≡ some next = update_same s.prev prio (some next) in
      record {
        is_next = sym r.first ∙ first;
        highest = high;
        rotates = ap (λ p. turns_of p (s.tasks prio)) here ∙ ap turns (sym after) ∙ r.rotates;
        keeps =
            Touched-IsValid max_priorities prio s s' used v
              (record {
                cursor = rw here (subst Turns.IsValid after r.keeps).cursor;
                other_tasks = λ q ne. refl;
                other_prev = λ q ne. update_other s.prev prio q (some next) (λ k. ne (sym k));
                other_bits = λ q ne k. refl;
                own_bit = v.ready prio small;
                still_word = v.word;
              })
              (λ u. omega arith);
        same_tasks = refl;
        same_sleep = refl;
        same_bitmap = refl;
        other_cursors = λ q ne. update_other s.prev prio q (some next) (λ k. ne (sym k));
      }

module _ (max_priorities : ℕ) (s : FixedPriority) (v : IsValid max_priorities s)
    (small : max_priorities ≤ 32) where
  -- A level whose digit is 0 is empty, also above the word.
  level_empty : (p : ℕ) → (p < 32 → bit p s.ready_bitmap ≡ 0) → s.tasks p ≡ []
  level_empty p h = elim (dec_lt p 32) [
    | yes l ↦ length_zero (s.tasks p) (omega (arith, h l, v.ready p l))
    | no n ↦ v.unused p (omega arith)
  ]

  Cursor-on :
      (prio : ℕ)
      → 0 < length (s.tasks prio)
      → Cursor (s.prev prio) (s.tasks prio)
      → (c : ℕ) × (s.prev prio ≡ some c)
  Cursor-on prio h (Cursor.idle e f) = absurd (omega (arith, ap length f))
  Cursor-on prio h (Cursor.on c b a e f) = (c, e)

  get_next_zero : s.ready_bitmap ≡ 0 → get_next s ≡ some (none, s)
  unfolding get_next
  get_next_zero e = ground arith

  get_next_ready : s.ready_bitmap ≢ 0 → get_next s ≡ select (highest_ready 32 s.ready_bitmap) s
  unfolding get_next
  get_next_ready ne = ground arith

  get_next_highest :
      (prio : ℕ)
      → s.ready_bitmap ≢ 0
      → prio ≡ highest_ready 32 s.ready_bitmap
      → IsHighest 32 s.ready_bitmap prio
      → (t : ℕ) × (s' : FixedPriority) × (get_next s ≡ some (some t, s'))
        × Selects max_priorities prio t s s'
  get_next_highest prio ne e high =
      let full : 0 < length (s.tasks prio) = omega (arith, v.ready prio high.below, high.set) in
      let used : prio < max_priorities = elim (dec_lt prio max_priorities) [
        | yes l ↦ l
        | no n ↦ absurd (omega (arith, ap length (v.unused prio (omega arith))))
      ] in
      let (c, on) = Cursor-on prio full (v.level prio) in
      let (goes, _, _) = select_level max_priorities prio s v used high.below c on in
      (
        TaskList.get_next c (s.tasks prio),
        record s { prev = update s.prev prio (some (TaskList.get_next c (s.tasks prio))) },
        get_next_ready ne ∙ ap (λ p. select p s) (sym e) ∙ goes,
        select-Selects max_priorities prio s v used high.below c on
            (λ q l. level_empty q (λ m. high.above q l m)),
      )

  -- On a valid strategy with at most 32 levels GetNext() never reads through a null cursor. Either
  -- no level has a task and it returns null, or it returns the task that is next in the highest level
  -- which has one, and only the turns of that level go on: the cursors of all other levels, all lists and the bitmap
  -- stay as they are.
  pub get_next-Selects :
      (((p : ℕ) → s.tasks p ≡ []) × (get_next s ≡ some (none, s)))
      ⊎ ((prio : ℕ) × (t : ℕ) × (s' : FixedPriority) × (get_next s ≡ some (some t, s'))
          × Selects max_priorities prio t s s')
  get_next-Selects = elim (ℕ_discrete s.ready_bitmap 0) [
    | yes e ↦ inl ((λ p. level_empty p (λ l. ap (bit p) e ∙ bit-zero p)), get_next_zero e)
    | no ne ↦
        let (i, l, one) = some_bit 32 s.ready_bitmap v.word ne in
        let prio = highest_ready 32 s.ready_bitmap in
        let (t, s', e, k) =
          get_next_highest prio ne refl
            (highest_ready-IsHighest 32 32 s.ready_bitmap i v.word l one) in
        inr (prio, t, s', e, k)
  ]
