-- ===== src/Kernel/RoundRobin.antt =====
-- The round-robin strategy of stk/include/strategy/stk_strategy_rrobin.h as a strategy of the kernel.
use bare_metal_rtos.Strategy.RoundRobin.Invariant.{sleep-remove_active}
use bare_metal_rtos.Strategy.RoundRobin.Turns.{IsValid, Cursor}
use bare_metal_rtos.Strategy.RoundRobin.Joining.{
  add_task_inv, on_task_wake_inv, add_task-IsValid, on_task_wake-IsValid,
}
use bare_metal_rtos.Strategy.RoundRobin.Invariant.{
  remove_task_inv, remove_task-IsValid, remove_active-Unlinked, count-Unlinked,
  on_task_sleep-IsValid,
}
use bare_metal_rtos.Strategy.RoundRobin.{init}
use bare_metal_rtos.Strategy.RoundRobin.Events.{init-IsValid}
use bare_metal_rtos.Strategy.RoundRobin.Order.{get_next-Serves}
use bare_metal_rtos.Strategy.RoundRobin.{
  advance, remove_active, RoundRobin, get_next, add_task, remove_task, get_first, get_size,
  on_task_sleep, on_task_wake,
}
use bare_metal_rtos.Base.{
  refl, ◌∙◌, count-erase_cases, sym, ap, erase, inr, inl, Option-cases, same, ◌⊎◌, counting, none,
  ◌≤◌, Option, false, some, true, ◌≢◌, [], ◌∷◌,
}
use bare_metal_rtos.Strategy.RoundRobin.{RoundRobin}
use bare_metal_rtos.Kernel.Strategy.{Loses, SameTasks, IsSleepAware, Strategy}
use bare_metal_rtos.Base.{arith, ◌∷◌, count-nil, ◌+◌, count, ◌<◌, ◌≡◌, length, List, ℕ}

abbrev pub strategy : Strategy RoundRobin
strategy = record {
  add_task = add_task;
  remove_task = remove_task;
  get_next = λ s. some (get_next s);
  get_first = get_first;
  get_size = get_size;
  on_task_sleep = on_task_sleep;
  on_task_wake = on_task_wake;
}

count-length : (u : ℕ) (xs : List ℕ) → length xs ≡ 0 → count u xs ≡ 0
count-length u [] h = count-nil u
count-length u (x ∷ xs) h = absurd (omega arith)

on_task_sleep-ne-none :
    (t : ℕ) (s : RoundRobin) → 0 < count t s.tasks → on_task_sleep t true s ≢ none
unfolding on_task_sleep
on_task_sleep-ne-none t s h e = ground arith

on_task_wake-ne-none :
    (t : ℕ) (s : RoundRobin) → 0 < count t s.sleep → on_task_wake t false s ≢ none
unfolding on_task_wake
on_task_wake-ne-none t s h e = ground arith

add_task-ne-none :
    (t : ℕ) (s : RoundRobin) → count t s.tasks + count t s.sleep ≡ 0 → add_task t s ≢ none
unfolding add_task
add_task-ne-none t s h e = ground arith

remove_task-ne-none :
    (t : ℕ) (s : RoundRobin) → 0 < count t s.tasks + count t s.sleep → remove_task t s ≢ none
unfolding remove_task get_size
remove_task-ne-none t s h e = ground (arith, count-length t s.tasks, count-length t s.sleep)

pub sleeps :
    (t : ℕ) (s : RoundRobin)
    → IsValid s
    → 0 < count t s.tasks
    → (s' : RoundRobin) × (on_task_sleep t true s ≡ some s')
      × IsValid s'
      × Loses t s.tasks s'.tasks
      × Loses t s'.sleep s.sleep
sleeps t s v h = elim (Option-cases (on_task_sleep t true s)) [
  | inl z ↦ absurd (on_task_sleep-ne-none t s h z)
  | inr (s', e) ↦
      let (w, f, k) = on_task_sleep-IsValid t true s s' v e in
      (s', e, w, λ u. count-Unlinked u t s.tasks s'.tasks k, λ u. omega (counting, ap (count u) f))
]

pub wakes :
    (t : ℕ) (s : RoundRobin)
    → IsValid s
    → 0 < count t s.sleep
    → (s' : RoundRobin) × (on_task_wake t false s ≡ some s')
      × IsValid s'
      × Loses t s'.tasks s.tasks
      × Loses t s.sleep s'.sleep
wakes t s v h = elim (Option-cases (on_task_wake t false s)) [
  | inl z ↦ absurd (on_task_wake-ne-none t s h z)
  | inr (s', e) ↦
      let (w, f, k) = on_task_wake-IsValid t false s s' v e in
      let (p, q, r, g) = on_task_wake_inv t false s s' e in
      (
        s',
        e,
        w,
        λ u. omega (counting, ap (count u) q),
        λ u. omega (arith, ap (count u) f, count-erase_cases t u s.sleep h),
      )
]

pub adds :
    (t : ℕ) (s : RoundRobin)
    → IsValid s
    → count t s.tasks + count t s.sleep ≡ 0
    → (s' : RoundRobin) × (add_task t s ≡ some s')
      × IsValid s'
      × Loses t s'.tasks s.tasks
      × SameTasks s.sleep s'.sleep
adds t s v h = elim (Option-cases (add_task t s)) [
  | inl z ↦ absurd (add_task-ne-none t s h z)
  | inr (s', e) ↦
      let (w, f, k) = add_task-IsValid t s s' v e in
      let (a, b, q, r, g) = add_task_inv t s s' e in
      (s', e, w, λ u. omega (counting, ap (count u) q), λ u. ap (count u) (sym f))
]

pub removes :
    (t : ℕ) (s : RoundRobin)
    → IsValid s
    → 0 < count t s.tasks + count t s.sleep
    → (s' : RoundRobin) × (remove_task t s ≡ some s')
      × IsValid s'
      × ((u : ℕ) → count u s'.tasks ≤ count u s.tasks)
      × ((u : ℕ) → count u s'.sleep ≤ count u s.sleep)
      × ((u : ℕ)
          → count u s.tasks + count u s.sleep ≡ same t u + (count u s'.tasks + count u s'.sleep))
removes t s v h = elim (Option-cases (remove_task t s)) [
  | inl z ↦ absurd (remove_task-ne-none t s h z)
  | inr (s', e) ↦
      let (w, l) = remove_task-IsValid t s s' v e in
      (
        s',
        e,
        w,
        λ u. (kept s' (remove_task_inv t s s' e) u).0,
        λ u. (kept s' (remove_task_inv t s s' e) u).1,
        l,
      )
]
  where
    kept :
        (s' : RoundRobin)
        → ((0 < count t s.tasks) × (s' ≡ remove_active t s))
          ⊎ ((count t s.tasks ≡ 0)
              × (0 < count t s.sleep)
              × (s'.tasks ≡ s.tasks)
              × (s'.prev ≡ s.prev)
              × (s'.sleep ≡ erase t s.sleep))
        → (u : ℕ) → (count u s'.tasks ≤ count u s.tasks) × (count u s'.sleep ≤ count u s.sleep)
    kept s' (inl (p, e)) u = rw e (
      omega (
        arith,
        count-Unlinked u t s.tasks (remove_active t s).tasks
            (remove_active-Unlinked t s v.distinct p),
      ),
      rw sleep-remove_active (omega arith),
    )
    kept s' (inr (p, q, e, f, g)) u =
        (rw e (omega arith), rw g (omega (arith, count-erase_cases t u s.sleep q)))

get_next-tasks :
    (s : RoundRobin)
    → ((get_next s).1.tasks ≡ s.tasks)
      × ((get_next s).1.sleep ≡ s.sleep)
      × ((get_next s).0 ≡ (get_next s).1.prev)
unfolding get_next advance
get_next-tasks s = elim (Option-cases s.prev) [
  | inl e ↦ rw e (refl, refl, refl)
  | inr (c, e) ↦ rw e (refl, refl, refl)
]

pub selects :
    (s : RoundRobin)
    → IsValid s
    → (next : Option ℕ) × (s' : RoundRobin) × (◌≡◌ {A = Option (Option ℕ × RoundRobin)}
        (some (get_next s))
        (some (next, s')))
      × IsValid s'
      × SameTasks s.tasks s'.tasks
      × SameTasks s.sleep s'.sleep
      × (((next ≡ none) × ((u : ℕ) → count u s.tasks ≡ 0))
          ⊎ ((t : ℕ) × (next ≡ some t) × (0 < count t s.tasks)))
selects s v =
    let (a, b, c) = get_next-tasks s in
    let w = (get_next-Serves s v).keeps in
    (
      (get_next s).0,
      (get_next s).1,
      refl,
      (get_next-Serves s v).keeps,
      λ u. ap (count u) (sym a),
      λ u. ap (count u) (sym b),
      elim w.cursor [
        | Cursor.idle p q ↦ inl (c ∙ p, λ u. rw (← a, q) (count-nil u))
        | Cursor.on x before after p q ↦ inr (x, c ∙ p, rw (← a, q) (omega counting))
      ],
    )

pub empty_lem :
    (s : RoundRobin) (u : ℕ) → IsValid s → get_size s ≡ 0 → count u s.tasks + count u s.sleep ≡ 0
unfolding get_size
empty_lem s u v e =
    omega (arith, count-length u s.tasks (omega arith), count-length u s.sleep (omega arith))

pub first_lem :
    (s : RoundRobin)
    → IsValid s
    → get_size s ≢ 0
    → (t : ℕ) × (get_first s ≡ some t) × (0 < count t s.tasks + count t s.sleep)
unfolding get_size get_first
first_lem s v n = go s.tasks s.sleep s.prev n
  where
    go :
        (ts sl : List ℕ) (p : Option ℕ)
        → get_size (record { tasks = ts; sleep = sl; prev = p }) ≢ 0
        → (t : ℕ) × (get_first (record { tasks = ts; sleep = sl; prev = p }) ≡ some t)
          × (0 < count t ts + count t sl)
    go (x ∷ ts) sl p n = (x, refl, omega counting)
    go [] (x ∷ sl) p n = (x, refl, omega counting)
    go [] [] p n = absurd (n refl)

pub initial_empty_lem : (u : ℕ) → count u init.tasks + count u init.sleep ≡ 0
unfolding init
initial_empty_lem u = omega counting

unfoldable pub is_sleep_aware : IsSleepAware strategy
is_sleep_aware = record {
  valid = IsValid;
  awake = λ s. s.tasks;
  asleep = λ s. s.sleep;
  initial = init;
  initial_valid = init-IsValid;
  initial_empty = initial_empty_lem;
  once = λ s u v. omega (counting, v.distinct u);
  empty = empty_lem;
  adds = adds;
  removes = removes;
  sleeps = sleeps;
  wakes = wakes;
  selects = selects;
  first = first_lem;
}
