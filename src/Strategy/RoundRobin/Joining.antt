-- ===== src/Strategy/RoundRobin/Joining.antt =====
-- Tasks that join the runnable tasks of a round-robin strategy, and the events in any order.
use bare_metal_rtos.Base.{
  count-erase_cases, ap, ℕ_discrete, erase, same, ◌+◌, Bool, subst, ◌≤◌, ==-refl, count-nil, ℕ, ◌<◌,
  ◌≡◌, refl, ◌∙◌, Option, none, some, List, [], ◌∷◌, ◌++◌, arith, count, Distinct, counting,
  last_or, last_or-append, append_assoc, append-nil, false, if◌then◌else◌,
}
use bare_metal_rtos.Strategy.TaskList.{get_last, same_task}
use bare_metal_rtos.Strategy.RoundRobin.{add_active, add_task, on_task_wake, RoundRobin}
use bare_metal_rtos.Strategy.RoundRobin.Turns.{
  turns, turns_of, Cursor, IsValid, on, turns_of-split, Distinct-split,
}
use bare_metal_rtos.Strategy.RoundRobin.Order.{valid_cases}

-- The queue `q'` is `q` with `t` put in somewhere.
pub record Inserted (t : ℕ) (q q' : List ℕ) : Type 0 where
  pub front : List ℕ
  pub back : List ℕ
  pub was : q ≡ front ++ back
  pub now : q' ≡ front ++ t ∷ back

-- The cursor after AddActive() and after AddTask().
abbrev pub woken_cursor : ℕ → Option ℕ → Option ℕ
woken_cursor t none = some t
woken_cursor t (some c) = some c

abbrev pub added_cursor : ℕ → Option ℕ → List ℕ → Option ℕ
added_cursor t p ts = if same_task p (get_last ts) then some t else p

abbrev pub Joins : ℕ → RoundRobin → Option ℕ → Type 0
Joins t s p = Inserted t (turns s) (turns_of p (s.tasks ++ t ∷ [])) × Cursor p (s.tasks ++ t ∷ [])

Joins-idle :
    (t : ℕ) (sleep : List ℕ) → Joins t (record { tasks = []; sleep = sleep; prev = none }) (some t)
Joins-idle t sl = (
  record {
    front = [];
    back = [];
    was = unfold turns_of in refl;
    now = turns_of-split t [] [] (count-nil t);
  },
  on t [] [] refl refl,
)

Joins-behind :
    (t c : ℕ) (before after sleep : List ℕ)
    → count c before ≡ 0
    → Joins t (record { tasks = before ++ c ∷ after; sleep = sleep; prev = some c }) (some c)
Joins-behind t c b a sl h =
    let e = append_assoc b (c ∷ a) (t ∷ []) in
    (
      record {
        front = a;
        back = b ++ c ∷ [];
        was = turns_of-split c b a h;
        now = rw e (turns_of-split c b (a ++ t ∷ []) h ∙ append_assoc a (t ∷ []) (b ++ c ∷ []));
      },
      on c b (a ++ t ∷ []) refl e,
    )

Joins-last :
    (t c : ℕ) (before sleep : List ℕ)
    → count c before ≡ 0
    → count t (before ++ c ∷ []) ≡ 0
    → Joins t (record { tasks = before ++ c ∷ []; sleep = sleep; prev = some c }) (some t)
Joins-last t c b sl h k = (
  record {
    front = b ++ c ∷ [];
    back = [];
    was = rw append-nil (turns_of-split c b [] h);
    now = turns_of-split t (b ++ c ∷ []) [] k;
  },
  on t (b ++ c ∷ []) [] refl refl,
)

pub woken_Joins : (t : ℕ) (s : RoundRobin) → IsValid s → Joins t s (woken_cursor t s.prev)
woken_Joins t =
    valid_cases (λ s. Joins t s (woken_cursor t s.prev)) (λ sl d. Joins-idle t sl)
      (λ c b a sl d h. Joins-behind t c b a sl h)

count-last_or : (x : ℕ) (xs : List ℕ) → 0 < count (last_or x xs) (x ∷ xs)
count-last_or x [] = omega counting
count-last_or x (y ∷ ys) = omega (counting, count-last_or y ys)

-- A cursor with tasks behind it is not at the tail.
not_tail :
    (c x : ℕ) (before after : List ℕ)
    → count c (x ∷ after) ≡ 0
    → same_task (some c) (get_last (before ++ c ∷ x ∷ after)) ≡ false
not_tail c x [] a h = ground (arith, count-last_or x a)
not_tail c x (y ∷ b) a h = rw (last_or-append y b (c ∷ x ∷ a)) (ground (arith, count-last_or x a))

pub added_Joins :
    (t : ℕ) (s : RoundRobin)
    → IsValid s
    → count t s.tasks ≡ 0
    → Joins t s (added_cursor t s.prev s.tasks)
added_Joins t s v =
    valid_cases (λ s. count t s.tasks ≡ 0 → Joins t s (added_cursor t s.prev s.tasks))
      (λ sl d k. Joins-idle t sl) split s v
  where
    split :
        (c : ℕ) (b a sl : List ℕ)
        → Distinct ((b ++ c ∷ a) ++ sl)
        → count c b ≡ 0
        → count t (b ++ c ∷ a) ≡ 0
        → Joins t
            (record { tasks = b ++ c ∷ a; sleep = sl; prev = some c })
            (added_cursor t (some c) (b ++ c ∷ a))
    split c b (x ∷ a) sl d h k =
        rw (not_tail c x b a (Distinct-split c b (x ∷ a) sl d).1) (Joins-behind t c b (x ∷ a) sl h)
    split c [] [] sl d h k = rw (==-refl c) (Joins-last t c [] sl h k)
    split c (y ∷ b) [] sl d h k =
        rw (last_or-append y b (c ∷ []), ==-refl c) (Joins-last t c (y ∷ b) sl h k)

pub on_task_wake_inv :
    (t : ℕ) (asleep : Bool) (s s' : RoundRobin)
    → on_task_wake t asleep s ≡ some s'
    → (0 < count t s.sleep)
      × (s'.tasks ≡ s.tasks ++ t ∷ [])
      × (s'.prev ≡ woken_cursor t s.prev)
      × (s'.sleep ≡ erase t s.sleep)
unfolding on_task_wake add_active
on_task_wake_inv t asleep s s' h = ground arith

-- OnTaskWake() whose assertions hold keeps a valid strategy valid, takes the task out of the sleeping list, and gives it a
-- turn among those to come, without changing the order of the others.
pub on_task_wake-IsValid :
    (t : ℕ) (asleep : Bool) (s s' : RoundRobin)
    → IsValid s
    → on_task_wake t asleep s ≡ some s'
    → IsValid s' × (s'.sleep ≡ erase t s.sleep) × Inserted t (turns s) (turns s')
on_task_wake-IsValid t asleep s s' v h =
    let (linked, e, f, g) = on_task_wake_inv t asleep s s' h in
    let (placed, cursor) = woken_Joins t s v in
    (
      record {
        distinct = λ u. omega (
          counting,
          v.distinct u,
          ap (count u) e,
          ap (count u) g,
          count-erase_cases t u s.sleep linked,
        );
        cursor = rw (e, f) cursor;
      },
      g,
      rw (e, f) placed,
    )

pub add_task_inv :
    (t : ℕ) (s s' : RoundRobin)
    → add_task t s ≡ some s'
    → (count t s.tasks ≡ 0)
      × (count t s.sleep ≡ 0)
      × (s'.tasks ≡ s.tasks ++ t ∷ [])
      × (s'.prev ≡ added_cursor t s.prev s.tasks)
      × (s'.sleep ≡ s.sleep)
unfolding add_task
add_task_inv t s s' h = ground arith

pub same-le : (t u n : ℕ) → (t ≡ u → n ≡ 0) → n ≤ 1 → same t u + n ≤ 1
same-le t u n h k = elim (ℕ_discrete t u) [ yes e ↦ ground (arith, h e) | no ne ↦ ground arith ]

-- AddTask() whose assertions hold keeps a valid strategy valid, leaves the sleeping list, and gives the new task a turn among those to come, without
-- changing the order of the others.
pub add_task-IsValid :
    (t : ℕ) (s s' : RoundRobin)
    → IsValid s
    → add_task t s ≡ some s'
    → IsValid s' × (s'.sleep ≡ s.sleep) × Inserted t (turns s) (turns s')
add_task-IsValid t s s' v h =
    let (fresh, absent, e, f, g) = add_task_inv t s s' h in
    let (placed, cursor) = added_Joins t s v fresh in
    (
      record {
        distinct = λ u.
            let one =
              same-le t u (count u s.tasks + count u s.sleep)
                (λ k. subst (λ w. count w s.tasks + count w s.sleep ≡ 0) k (omega arith))
                (omega (counting, v.distinct u)) in
            omega (counting, one, ap (count u) e, ap (count u) g);
        cursor = rw (e, f) cursor;
      },
      g,
      rw (e, f) placed,
    )
