-- ===== src/Strategy/RoundRobin/Invariant.antt =====
-- Every operation of the round-robin strategy keeps it valid, and what it does to the turns.
use bare_metal_rtos.Base.{
  count-erase_cases, inr, erase, inl, ◌∙◌, ◌+◌, ◌⊎◌, same, Option, ap, arith, [], some, Bool, ℕ,
  ◌<◌, ◌≡◌, refl, subst, List, ◌∷◌, ◌++◌, count, Distinct, counting, split_at,
}
use bare_metal_rtos.Strategy.RoundRobin.{remove_task, on_task_sleep, RoundRobin, remove_active}
use bare_metal_rtos.Strategy.RoundRobin.Turns.{turns_of, IsValid, Cursor, Distinct-split}
use bare_metal_rtos.Strategy.RoundRobin.Moves.{remove_active_split, removed_Back}

-- The list `ts` with the cursor `p` is the list `was` without the task `t`: the task that followed
-- `t` comes next, and the rest follow in the order of the list.
pub record Unlinked (t : ℕ) (was : List ℕ) (p : Option ℕ) (ts : List ℕ) : Type 0 where
  pub before : List ℕ
  pub after : List ℕ
  pub split : was ≡ before ++ t ∷ after
  pub order : turns_of p ts ≡ after ++ before
  pub cursor : Cursor p ts
  pub left : ts ≡ before ++ after

pub remove_active-Unlinked :
    (t : ℕ) (s : RoundRobin)
    → Distinct (s.tasks ++ s.sleep)
    → 0 < count t s.tasks
    → Unlinked t s.tasks (remove_active t s).prev (remove_active t s).tasks
remove_active-Unlinked t s d h = let (b, a, e, z) = split_at t s.tasks h in go b a s.tasks e d z
  where
    go :
        (b a ts : List ℕ)
        → ts ≡ b ++ t ∷ a
        → Distinct (ts ++ s.sleep)
        → count t b ≡ 0
        → Unlinked t ts
            (remove_active t (record s { tasks = ts })).prev
            (remove_active t (record s { tasks = ts })).tasks
    go b a ts e d z =
        let d' = subst (λ l. Distinct (l ++ s.sleep)) e d in
        let rest : Distinct (b ++ a) = λ u. omega (counting, d' u) in
        let back = removed_Back b a rest in
        rw (e, remove_active_split t b a s.sleep s.prev rest z (Distinct-split t b a s.sleep d').1)
          (record {
            before = b;
            after = a;
            split = refl;
            order = back.order;
            cursor = back.cursor;
            left = refl;
          })

-- The counts after an unlinking.
pub count-Unlinked :
    (u t : ℕ) (was ts : List ℕ) {p : Option ℕ}
    → Unlinked t was p ts
    → count u was ≡ same t u + count u ts
count-Unlinked u t was ts k = ap (count u) k.split ∙ omega (counting, ap (count u) k.left)

pub sleep-remove_active : (t : ℕ) (s : RoundRobin) → (remove_active t s).sleep ≡ s.sleep
unfolding remove_active
sleep-remove_active t s = refl

-- The assertions of OnTaskSleep() and what it does when they hold.
pub on_task_sleep_inv :
    (t : ℕ) (asleep : Bool) (s s' : RoundRobin)
    → on_task_sleep t asleep s ≡ some s'
    → (0 < count t s.tasks)
      × (s'.tasks ≡ (remove_active t s).tasks)
      × (s'.prev ≡ (remove_active t s).prev)
      × (s'.sleep ≡ s.sleep ++ t ∷ [])
unfolding on_task_sleep
on_task_sleep_inv t asleep s s' h = ground (arith, sleep-remove_active t s)

-- OnTaskSleep() whose assertions hold keeps a valid strategy valid, moves exactly the task to the end of
-- the sleeping list, and makes the tasks behind it in the list the next ones to run, then those before it.
pub on_task_sleep-IsValid :
    (t : ℕ) (asleep : Bool) (s s' : RoundRobin)
    → IsValid s
    → on_task_sleep t asleep s ≡ some s'
    → IsValid s' × (s'.sleep ≡ s.sleep ++ t ∷ []) × Unlinked t s.tasks s'.prev s'.tasks
on_task_sleep-IsValid t asleep s s' v h =
    let (linked, e, f, g) = on_task_sleep_inv t asleep s s' h in
    let k : Unlinked t s.tasks s'.prev s'.tasks =
      rw (e, f) (remove_active-Unlinked t s v.distinct linked) in
    (
      record {
        distinct = λ u.
            omega (counting, v.distinct u, count-Unlinked u t s.tasks s'.tasks k, ap (count u) g);
        cursor = k.cursor;
      },
      g,
      k,
    )

pub remove_task_inv :
    (t : ℕ) (s s' : RoundRobin)
    → remove_task t s ≡ some s'
    → ((0 < count t s.tasks) × (s' ≡ remove_active t s))
      ⊎ ((count t s.tasks ≡ 0)
          × (0 < count t s.sleep)
          × (s'.tasks ≡ s.tasks)
          × (s'.prev ≡ s.prev)
          × (s'.sleep ≡ erase t s.sleep))
unfolding remove_task
remove_task_inv t s s' h = ground arith

-- RemoveTask() whose assertions hold keeps a valid strategy valid, and takes exactly the task out of the
-- two lists.
pub remove_task-IsValid :
    (t : ℕ) (s s' : RoundRobin)
    → IsValid s
    → remove_task t s ≡ some s'
    → IsValid s'
      × ((u : ℕ)
          → count u s.tasks + count u s.sleep ≡ same t u + (count u s'.tasks + count u s'.sleep))
remove_task-IsValid t s s' v h = elim (remove_task_inv t s s' h) [
  | inl (linked, e) ↦ rw e (runnable (remove_active-Unlinked t s v.distinct linked))
  | inr (no_task, linked, e, f, g) ↦
      let gone : (u : ℕ) → count u s.sleep ≡ same t u + count u s'.sleep =
        λ u. rw g (count-erase_cases t u s.sleep linked) in
      (
        record {
          distinct = λ u. omega (counting, v.distinct u, gone u, ap (count u) e);
          cursor = rw (e, f) v.cursor;
        },
        λ u. omega (counting, gone u, ap (count u) e),
      )
]
  where
    r : RoundRobin
    r = remove_active t s

    runnable :
        Unlinked t s.tasks r.prev r.tasks
        → IsValid r
          × ((u : ℕ)
              → count u s.tasks + count u s.sleep ≡ same t u + (count u r.tasks + count u r.sleep))
    runnable k = (
      record {
        distinct = λ u.
            rw sleep-remove_active
              (omega (counting, v.distinct u, count-Unlinked u t s.tasks r.tasks k));
        cursor = k.cursor;
      },
      λ u. rw sleep-remove_active (omega (counting, count-Unlinked u t s.tasks r.tasks k)),
    )
