-- ===== src/Strategy/Monotonic/Sorted.antt =====
-- The order of the tasks of stk/include/strategy/stk_strategy_monotonic.h.
use bare_metal_rtos.Base.{◌==◌}
use bare_metal_rtos.Strategy.RoundRobin.Joining.{same-le}
use bare_metal_rtos.Strategy.Monotonic.{
  Monotonic, add_task, first_awake, get_next, remove_task, link_sorted,
}
use bare_metal_rtos.Base.{
  none, count-erase_cases, true, Distinct, Option, false, some, ◌≤◌, Bool, erase, refl, ap, same-ne,
  subst, inr, ℕ_discrete, inl, Bool-cases, arith, ◌++◌, ◌+◌, count, counting, same, ◌≡◌, List, ◌<◌,
  ℕ, [], ◌∷◌,
}
use bare_metal_rtos.Base.Int.{ltb_ℤ, ◌<ℤ◌, ◌≤ℤ◌, ℤ}

-- The keys do not fall from first to last.
pub data IsSorted (key : ℕ → ℤ) : List ℕ → Type 0 where
  empty : IsSorted key []
  first :
      {x : ℕ} {xs : List ℕ}
      → ((u : ℕ) → 0 < count u xs → key x ≤ℤ key u)
      → IsSorted key xs
      → IsSorted key (x ∷ xs)

-- Where a task has been put: behind all tasks whose key is not larger, so behind those with the same key, and
-- before the others, which keep their order.
pub record Placed (key : ℕ → ℤ) (t : ℕ) (was now : List ℕ) : Type 0 where
  pub before : List ℕ
  pub after : List ℕ
  pub split : was ≡ before ++ after
  pub placed : now ≡ before ++ t ∷ after
  pub not_larger : (u : ℕ) → 0 < count u before → key u ≤ℤ key t
  pub larger : (u : ℕ) → 0 < count u after → key t <ℤ key u

count-link_sorted :
    (key : ℕ → ℤ) (t : ℕ) (xs : List ℕ) (u : ℕ)
    → count u (link_sorted key t xs) ≡ same t u + count u xs
unfolding link_sorted
count-link_sorted key t [] u = omega counting
count-link_sorted key t (x ∷ xs) u = elim (Bool-cases (ltb_ℤ (key t) (key x))) [
  | inl z ↦ rw z (omega counting)
  | inr z ↦ rw z (omega (counting, count-link_sorted key t xs u))
]

same-pos : {x u : ℕ} → 0 < same x u → x ≡ u
same-pos h = ground arith

pub link_sorted-Placed :
    (key : ℕ → ℤ) (t : ℕ) (xs : List ℕ) → IsSorted key xs → Placed key t xs (link_sorted key t xs)
unfolding link_sorted
link_sorted-Placed key t [] s = record {
  before = [];
  after = [];
  split = refl;
  placed = refl;
  not_larger = λ u h. absurd (omega counting);
  larger = λ u h. absurd (omega counting);
}
link_sorted-Placed key t (x ∷ xs) (IsSorted.first f s) = elim (Bool-cases (ltb_ℤ (key t) (key x))) [
  | inl z ↦ record {
    before = [];
    after = x ∷ xs;
    split = refl;
    placed = rw z refl;
    not_larger = λ u h. absurd (omega counting);
    larger = λ u h. elim (ℕ_discrete x u) [
      | yes e ↦ subst (λ v. key t <ℤ key v) e (ground arith)
      | no ne ↦ let g = f u (omega (counting, same-ne ne)) in ground (arith, g)
    ];
  }
  | inr z ↦
      let p = link_sorted-Placed key t xs s in
      record {
        before = x ∷ p.before;
        after = p.after;
        split = ap (λ l. x ∷ l) p.split;
        placed = rw z (ap (λ l. x ∷ l) p.placed);
        not_larger = λ u h. elim (ℕ_discrete x u) [
          | yes e ↦ subst (λ v. key v ≤ℤ key t) e (ground arith)
          | no ne ↦ p.not_larger u (omega (counting, same-ne ne))
        ];
        larger = p.larger;
      }
]

link_sorted-IsSorted :
    (key : ℕ → ℤ) (t : ℕ) (xs : List ℕ) → IsSorted key xs → IsSorted key (link_sorted key t xs)
unfolding link_sorted
link_sorted-IsSorted key t [] s = IsSorted.first (λ u h. absurd (omega counting)) IsSorted.empty
link_sorted-IsSorted key t (x ∷ xs) (IsSorted.first f s) =
    elim (Bool-cases (ltb_ℤ (key t) (key x))) [
      | inl z ↦ rw z (
          IsSorted.first
            (λ (u : ℕ) (h : 0 < count u (x ∷ xs)). elim (ℕ_discrete x u) [
              | yes e ↦ subst (λ v. key t ≤ℤ key v) e (ground arith)
              | no ne ↦ let g = f u (omega (counting, same-ne ne)) in ground (arith, g)
            ])
            (IsSorted.first f s))
      | inr z ↦ rw z (
          IsSorted.first
            (λ (u : ℕ) (h : 0 < count u (link_sorted key t xs)). elim (ℕ_discrete t u) [
              | yes e ↦ subst (λ v. key x ≤ℤ key v) e (ground arith)
              | no ne ↦ f u (omega (counting, count-link_sorted key t xs u, same-ne ne))
            ])
            (link_sorted-IsSorted key t xs s))
    ]

count-erase-le : (t u : ℕ) (xs : List ℕ) → count u (erase t xs) ≤ count u xs
unfolding erase count
count-erase-le t u [] = omega arith
count-erase-le t u (x ∷ xs) = ground (arith, count-erase-le t u xs)

erase-IsSorted : (key : ℕ → ℤ) (t : ℕ) (xs : List ℕ) → IsSorted key xs → IsSorted key (erase t xs)
unfolding erase
erase-IsSorted key t [] s = s
erase-IsSorted key t (x ∷ xs) (IsSorted.first f s) = elim (Bool-cases (x == t)) [
  | inl z ↦ rw z s
  | inr z ↦ rw z (
      IsSorted.first (λ u h. f u (omega (arith, h, count-erase-le t u xs)))
        (erase-IsSorted key t xs s))
]

add_task_inv :
    (key : ℕ → ℤ) (t : ℕ) (s s' : Monotonic)
    → add_task key t s ≡ some s'
    → (count t s.tasks ≡ 0) × (s'.tasks ≡ link_sorted key t s.tasks)
unfolding add_task
add_task_inv key t s s' h = ground arith

remove_task_inv :
    (t : ℕ) (s s' : Monotonic)
    → remove_task t s ≡ some s'
    → (0 < count t s.tasks) × (s'.tasks ≡ erase t s.tasks)
unfolding remove_task
remove_task_inv t s s' h = ground arith

-- No task is listed twice, and the keys do not fall from first to last.
pub record IsOrdered (key : ℕ → ℤ) (s : Monotonic) : Type 0 where
  pub distinct : Distinct s.tasks
  pub sorted : IsSorted key s.tasks

-- AddTask() whose assertion holds keeps a valid strategy valid, and puts the task behind all tasks that have to run
-- before it or were added before with the same key, and in front of all others, which keep their order.
pub add_task-IsOrdered :
    (key : ℕ → ℤ) (t : ℕ) (s s' : Monotonic)
    → IsOrdered key s
    → add_task key t s ≡ some s'
    → IsOrdered key s' × Placed key t s.tasks s'.tasks
add_task-IsOrdered key t s s' v h =
    let (fresh, e) = add_task_inv key t s s' h in
    (
      record {
        distinct = λ u.
            rw (e, count-link_sorted)
              (same-le t u (count u s.tasks) (λ k. rw (← k) fresh) (v.distinct u));
        sorted = rw e (link_sorted-IsSorted key t s.tasks v.sorted);
      },
      rw e (link_sorted-Placed key t s.tasks v.sorted),
    )

-- RemoveTask() whose assertions hold keeps a valid strategy valid, and takes out exactly the task.
pub remove_task-IsOrdered :
    (key : ℕ → ℤ) (t : ℕ) (s s' : Monotonic)
    → IsOrdered key s
    → remove_task t s ≡ some s'
    → IsOrdered key s' × ((u : ℕ) → count u s.tasks ≡ same t u + count u s'.tasks)
remove_task-IsOrdered key t s s' v h =
    let (linked, e) = remove_task_inv t s s' h in
    (
      record {
        distinct = λ u. rw e (omega (arith, v.distinct u, count-erase_cases t u s.tasks linked));
        sorted = rw e (erase-IsSorted key t s.tasks v.sorted);
      },
      λ u. rw e (count-erase_cases t u s.tasks linked),
    )

-- A task that is the next one: it is in the list, does not sleep, and no other task that does not sleep has a
-- smaller key.
pub record IsHighest (key : ℕ → ℤ) (asleep : ℕ → Bool) (xs : List ℕ) (t : ℕ) : Type 0 where
  pub listed : 0 < count t xs
  pub awake : asleep t ≡ false
  pub least : (u : ℕ) → 0 < count u xs → asleep u ≡ false → key t ≤ℤ key u

abbrev pub SelectsByKey : (ℕ → ℤ) → (ℕ → Bool) → List ℕ → Option ℕ → Type 0
SelectsByKey key asleep xs none = (u : ℕ) → 0 < count u xs → asleep u ≡ true
SelectsByKey key asleep xs (some t) = IsHighest key asleep xs t

first_awake-SelectsByKey :
    (key : ℕ → ℤ) (asleep : ℕ → Bool) (xs : List ℕ)
    → IsSorted key xs
    → SelectsByKey key asleep xs (first_awake asleep xs)
unfolding first_awake
first_awake-SelectsByKey key asleep [] s = λ u h. absurd (omega counting)
first_awake-SelectsByKey key asleep (x ∷ xs) (IsSorted.first f s) = elim (Bool-cases (asleep x)) [
  | inr z ↦ rw z (record {
    listed = omega counting;
    awake = z;
    least = λ u h a. elim (ℕ_discrete x u) [
      | yes e ↦ subst (λ v. key x ≤ℤ key v) e (omega arith)
      | no ne ↦ f u (omega (counting, same-ne ne))
    ];
  })
  | inl z ↦ rw z (skip (first_awake asleep xs) z (first_awake-SelectsByKey key asleep xs s))
]
  where
    skip :
        (r : Option ℕ)
        → asleep x ≡ true
        → SelectsByKey key asleep xs r
        → SelectsByKey key asleep (x ∷ xs) r
    skip none z p = λ u h. elim (ℕ_discrete x u) [
      | yes e ↦ subst (λ v. asleep v ≡ true) e z
      | no ne ↦ p u (omega (counting, same-ne ne))
    ]
    skip (some t) z p = record {
      listed = omega (counting, p.listed);
      awake = p.awake;
      least = λ u h a. elim (ℕ_discrete x u) [
        | yes e ↦ absurd (let y = subst (λ v. asleep v ≡ true) e z in ground (arith, y))
        | no ne ↦ p.least u (omega (counting, same-ne ne)) a
      ];
    }

-- GetNext() of a valid strategy gives a task that does not sleep and has the smallest key among these, and null
-- exactly if all tasks sleep.
pub get_next-SelectsByKey :
    (key : ℕ → ℤ) (asleep : ℕ → Bool) (s : Monotonic)
    → IsOrdered key s
    → SelectsByKey key asleep s.tasks (get_next asleep s)
unfolding get_next
get_next-SelectsByKey key asleep s v = first_awake-SelectsByKey key asleep s.tasks v.sorted
