-- ===== src/Strategy/RoundRobin/Moves.antt =====
-- What adding, removing, sleeping and waking do to the queue of turns of a round-robin strategy.
use bare_metal_rtos.Base.{
  last_or-append, count-nil, ==-refl, false, ℕ, ◌≡◌, refl, ap, sym, subst, ◌∙◌, Option, some, List,
  [], ◌∷◌, ◌++◌, arith, ◌==◌, count, erase, Distinct, count-append, count-cons, same_refl,
  erase-split, last_or, append_assoc, append-nil,
}
use bare_metal_rtos.Strategy.TaskList
use bare_metal_rtos.Strategy.TaskList.{get_next-split, get_prev-split, get_last}
use bare_metal_rtos.Strategy.RoundRobin.{remove_active}
use bare_metal_rtos.Strategy.RoundRobin.Turns.{turns_of, Cursor, idle, on, turns_of-split}

-- A list that is not empty ends in its last element.
snoc_split : (x : ℕ) (xs : List ℕ) → (i : List ℕ) × (x ∷ xs ≡ i ++ last_or x xs ∷ [])
snoc_split x [] = ([], refl)
snoc_split x (y ∷ ys) = let (i, e) = snoc_split y ys in (x ∷ i, ap (λ l. x ∷ l) e)

-- In a list without repetition an element is not before itself.
pub Distinct-middle :
    (x : ℕ) (before after : List ℕ) → Distinct (before ++ x ∷ after) → count x before ≡ 0
Distinct-middle x b a d =
    let h = d x in omega (arith, count-append x b (x ∷ a), count-cons x x a, same_refl x)

next-ne : (t x : ℕ) (xs : List ℕ) → count t (x ∷ xs) ≡ 0 → (x == t) ≡ false
unfolding count
next-ne t x xs h = ground arith

remove_to :
    (t x q : ℕ) (rest ts sl : List ℕ) (p : Option ℕ)
    → TaskList.get_next t ts ≡ x
    → erase t ts ≡ rest
    → (x == t) ≡ false
    → TaskList.get_prev x rest ≡ q
    → remove_active t (record { tasks = ts; sleep = sl; prev = p })
      ≡ record { tasks = rest; sleep = sl; prev = some q }
unfolding remove_active
remove_to t x q rest ts sl p next gone other back = rw (next, gone, other, back)

-- The task is unlinked, and the cursor goes to the task before the one that followed it.
pub remove_active_split :
    (t : ℕ) (before after sleep : List ℕ) (p : Option ℕ)
    → Distinct (before ++ after)
    → count t before ≡ 0
    → count t after ≡ 0
    → remove_active t (record { tasks = before ++ t ∷ after; sleep = sleep; prev = p })
      ≡ record { tasks = before ++ after; sleep = sleep; prev = get_last (after ++ before) }
unfolding remove_active
remove_active_split t [] [] sl p d h k =
    rw (get_next-split t [] [] h, erase-split t [] [] h, ==-refl t)
remove_active_split t (y ∷ b) [] sl p d h k =
    remove_to t y (last_or y b) ((y ∷ b) ++ []) ((y ∷ b) ++ t ∷ []) sl p
      (get_next-split t (y ∷ b) [] h) (erase-split t (y ∷ b) [] h) (next-ne t y b h)
      (rw append-nil (get_prev-split y [] b (count-nil y)))
remove_active_split t [] (x ∷ a) sl p d h k =
    remove_to t x (last_or x a) (x ∷ a) (t ∷ x ∷ a) sl p (get_next-split t [] (x ∷ a) h)
      (erase-split t [] (x ∷ a) h) (next-ne t x a k) (get_prev-split x [] a (count-nil x))
    ∙ rw append-nil
remove_active_split t (y ∷ b) (x ∷ a) sl p d h k =
    remove_to t x (last_or y b) ((y ∷ b) ++ x ∷ a) ((y ∷ b) ++ t ∷ x ∷ a) sl p
      (get_next-split t (y ∷ b) (x ∷ a) h) (erase-split t (y ∷ b) (x ∷ a) h) (next-ne t x a k)
      (get_prev-split x (y ∷ b) a (Distinct-middle x (y ∷ b) a d))
    ∙ rw last_or-append

get_last-snoc : (xs : List ℕ) (p : ℕ) → get_last (xs ++ p ∷ []) ≡ some p
get_last-snoc [] p = refl
get_last-snoc (x ∷ xs) p = rw (last_or-append x xs (p ∷ []))

-- With the cursor at the end of the queue `after`, `before`, that is the queue of turns.
pub record Back (before after : List ℕ) : Type 0 where
  pub order : turns_of (get_last (after ++ before)) (before ++ after) ≡ after ++ before
  pub cursor : Cursor (get_last (after ++ before)) (before ++ after)

Back-snoc :
    (i : List ℕ) (p : ℕ) (after : List ℕ)
    → Distinct ((i ++ p ∷ []) ++ after)
    → Back (i ++ p ∷ []) after
Back-snoc i p a d =
    let e : a ++ (i ++ p ∷ []) ≡ (a ++ i) ++ p ∷ [] = sym (append_assoc a i (p ∷ [])) in
    let f : (i ++ p ∷ []) ++ a ≡ i ++ p ∷ a = append_assoc i (p ∷ []) a in
    let none_before = Distinct-middle p i a (subst Distinct f d) in
    record {
      order = rw (e, get_last-snoc (a ++ i) p, f) (turns_of-split p i a none_before ∙ e);
      cursor = rw (e, get_last-snoc (a ++ i) p, f) (on p i a refl refl);
    }

Back-last : (i : List ℕ) (p : ℕ) → Distinct (i ++ p ∷ []) → Back [] (i ++ p ∷ [])
Back-last i p d = record {
  order = rw (append-nil, get_last-snoc i p) (turns_of-split p i [] (Distinct-middle p i [] d));
  cursor = rw (append-nil, get_last-snoc i p) (on p i [] refl refl);
}

-- The queue after an unlinking, and its cursor.
pub removed_Back : (before after : List ℕ) → Distinct (before ++ after) → Back before after
unfolding turns_of
removed_Back [] [] d = record { order = refl; cursor = idle refl refl }
removed_Back (y ∷ b) a d =
    let (i, e) = snoc_split y b in
    subst (λ l. Back l a) (sym e) (Back-snoc i _ a (subst (λ l. Distinct (l ++ a)) e d))
removed_Back [] (x ∷ a) d =
    let (i, e) = snoc_split x a in
    subst (λ l. Back [] l) (sym e) (Back-last i _ (subst Distinct e d))
