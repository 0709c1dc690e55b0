-- ===== src/Strategy/RoundRobin/Order.antt =====
-- What the round-robin strategy does to the queue of turns.
use bare_metal_rtos.Base.{
  ℕ, ◌≡◌, refl, sym, subst, ◌∙◌, Option, none, some, List, [], ◌∷◌, ◌++◌, count, Distinct, head_or,
  append_assoc,
}
use bare_metal_rtos.Strategy.RoundRobin.{RoundRobin, get_next}
use bare_metal_rtos.Strategy.RoundRobin.Turns.{
  turns, turns_of, Cursor, IsValid, idle, on, turns_of-split, Distinct-split, rotate, head,
  advance_split,
}

-- A valid strategy is idle, or its list splits round the cursor.
pub valid_cases {ℓ} :
    (P : RoundRobin → Type ℓ)
    → ((sleep : List ℕ) → Distinct sleep → P (record { tasks = []; sleep = sleep; prev = none }))
    → ((c : ℕ) (before after sleep : List ℕ)
        → Distinct ((before ++ c ∷ after) ++ sleep)
        → count c before ≡ 0
        → P (record { tasks = before ++ c ∷ after; sleep = sleep; prev = some c }))
    → (s : RoundRobin) → IsValid s
    → P s
valid_cases P rest runs s v = go s.tasks s.sleep s.prev v.distinct v.cursor
  where
    go :
        (ts sl : List ℕ) (p : Option ℕ)
        → Distinct (ts ++ sl)
        → Cursor p ts
        → P (record { tasks = ts; sleep = sl; prev = p })
    go ts sl p d (idle e f) = rw (e, f) (rest sl (subst (λ l. Distinct (l ++ sl)) f d))
    go ts sl p d (on c b a e f) =
        let d' = subst (λ l. Distinct (l ++ sl)) f d in
        rw (e, f) (runs c b a sl d' (Distinct-split c b a sl d').0)

pub record Serves (s : RoundRobin) : Type 0 where
  pub first : (get_next s).0 ≡ head (turns s)
  pub rotates : turns (get_next s).1 ≡ rotate (turns s)
  pub keeps : IsValid (get_next s).1

Serves-idle :
    (sleep : List ℕ) → Distinct sleep → Serves (record { tasks = []; sleep = sleep; prev = none })
unfolding get_next turns_of
Serves-idle sleep d = record {
  first = refl;
  rotates = refl;
  keeps = record { distinct = d; cursor = idle refl refl };
}

-- If the cursor moves on to `x`, which splits the same list, the queue has rotated.
Serves-at :
    (c x : ℕ) (before after before' after' sleep : List ℕ)
    → Distinct ((before ++ c ∷ after) ++ sleep)
    → count c before ≡ 0
    → before ++ c ∷ after ≡ before' ++ x ∷ after'
    → head_or c (after ++ before) ≡ x
    → head (after ++ (before ++ c ∷ [])) ≡ some x
    → after' ++ (before' ++ x ∷ []) ≡ rotate (after ++ (before ++ c ∷ []))
    → Serves (record { tasks = before ++ c ∷ after; sleep = sleep; prev = some c })
Serves-at c x b a b' a' sl d h same_list next first turned =
    let e = advance_split c b a sl h in
    let d' = subst (λ l. Distinct (l ++ sl)) same_list d in
    record {
      first = rw (e, next, turns_of-split c b a h, first) refl;
      rotates =
          rw (e, next, turns_of-split c b a h, same_list)
            (turns_of-split x b' a' (Distinct-split x b' a' sl d').0 ∙ turned);
      keeps = rw (e, next) (record { distinct = d; cursor = on x b' a' refl same_list });
    }

Serves-split :
    (c : ℕ) (before after sleep : List ℕ)
    → Distinct ((before ++ c ∷ after) ++ sleep)
    → count c before ≡ 0
    → Serves (record { tasks = before ++ c ∷ after; sleep = sleep; prev = some c })
Serves-split c b (x ∷ a) sl d h =
    Serves-at c x b (x ∷ a) (b ++ c ∷ []) a sl d h (sym (append_assoc b (c ∷ []) (x ∷ a))) refl refl
      (simp append_assoc)
Serves-split c [] [] sl d h = Serves-at c c [] [] [] [] sl d h refl refl refl refl
Serves-split c (x ∷ b) [] sl d h =
    Serves-at c x (x ∷ b) [] [] (b ++ c ∷ []) sl d h refl refl refl refl

-- Every call of GetNext() on a valid strategy returns the first of the turns to come, or null where
-- there is none, puts that task at the back of the queue, and keeps the strategy valid.
pub get_next-Serves : (s : RoundRobin) → IsValid s → Serves s
get_next-Serves s v = valid_cases Serves Serves-idle Serves-split s v
