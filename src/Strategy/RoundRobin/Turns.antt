-- ===== src/Strategy/RoundRobin/Turns.antt =====
-- The order in which the round-robin strategy serves its runnable tasks: a queue of turns, which
-- the cursor into the task list stands for.
use bare_metal_rtos.Base.{
  ℕ, ◌≡◌, Option, none, some, List, [], ◌∷◌, ◌++◌, arith, ◌==◌, if◌then◌else◌, count, Distinct,
  count-append, count-cons, same_refl, head_or, append_assoc, append-nil,
}
use bare_metal_rtos.Strategy.TaskList.{get_next-split}
use bare_metal_rtos.Strategy.RoundRobin.{RoundRobin, get_next, advance}

-- The tasks behind `c`, then those before it (`passed` are such), then `c`.
unfoldable pub turns_from : ℕ → List ℕ → List ℕ → List ℕ
turns_from c passed [] = []
turns_from c passed (x ∷ xs) =
    if x == c then xs ++ (passed ++ x ∷ []) else turns_from c (passed ++ x ∷ []) xs

-- The turns to come, the next one first.
unfoldable pub turns_of : Option ℕ → List ℕ → List ℕ
turns_of none ts = []
turns_of (some c) ts = turns_from c [] ts

abbrev pub turns : RoundRobin → List ℕ
turns s = turns_of s.prev s.tasks

-- The cursor is null exactly if no task is runnable, and else stands on a runnable task.
pub data Cursor (p : Option ℕ) (ts : List ℕ) : Type 0 where
  idle : p ≡ none → ts ≡ [] → Cursor p ts
  on : (c : ℕ) (before after : List ℕ) → p ≡ some c → ts ≡ before ++ c ∷ after → Cursor p ts

pub record IsValid (s : RoundRobin) : Type 0 where
  pub distinct : Distinct (s.tasks ++ s.sleep)
  pub cursor : Cursor s.prev s.tasks

turns_from-split :
    (c : ℕ) (passed before after : List ℕ)
    → count c before ≡ 0
    → turns_from c passed (before ++ c ∷ after) ≡ after ++ (passed ++ before ++ c ∷ [])
unfolding turns_from count
turns_from-split c passed [] after h = ground (arith, append-nil passed)
turns_from-split c passed (x ∷ xs) after h =
    ground (arith, turns_from-split c (passed ++ x ∷ []) xs after, append_assoc passed (x ∷ []) xs)

-- In a list without repetition nothing else equals the element of a split.
pub Distinct-split :
    (c : ℕ) (before after rest : List ℕ)
    → Distinct ((before ++ c ∷ after) ++ rest)
    → (count c before ≡ 0) × (count c after ≡ 0) × (count c rest ≡ 0)
Distinct-split c before after rest d =
    let h = d c in
    let e1 = count-append c (before ++ c ∷ after) rest in
    let e2 = count-append c before (c ∷ after) in
    let e3 = count-cons c c after in let e4 = same_refl c in (omega arith, omega arith, omega arith)

pub turns_of-split :
    (c : ℕ) (before after : List ℕ)
    → count c before ≡ 0
    → turns_of (some c) (before ++ c ∷ after) ≡ after ++ (before ++ c ∷ [])
unfolding turns_of
turns_of-split c before after h = turns_from-split c [] before after h

-- The queue in which the first goes to the back.
abbrev pub rotate : List ℕ → List ℕ
rotate [] = []
rotate (x ∷ xs) = xs ++ x ∷ []

abbrev pub head : List ℕ → Option ℕ
head [] = none
head (x ∷ xs) = some x

-- Where the cursor goes from a split list.
pub advance_split :
    (c : ℕ) (before after sleep : List ℕ)
    → count c before ≡ 0
    → get_next (record { tasks = before ++ c ∷ after; sleep = sleep; prev = some c }) ≡ (
      some (head_or c (after ++ before)),
      record {
        tasks = before ++ c ∷ after;
        sleep = sleep;
        prev = some (head_or c (after ++ before));
      },
    )
unfolding get_next advance
advance_split c before after sleep h = rw (get_next-split c before after h)
