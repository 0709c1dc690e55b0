-- ===== src/Kernel/Joining.antt =====
-- OnTaskWait() of the kernel of stk/include/stk.h, for a task that does not wait yet.
use bare_metal_rtos.Base.{
  ℕ, ◌≡◌, ◌≢◌, ◌<◌, ◌+◌, ◌++◌, ◌∙◌, ap, refl, arith, Bool, Bool-cases, false, some, List, [], ◌∷◌,
  inl, inr, count, count-cons, count-nil, count-append, same, append_assoc, not, ◌||◌, subst,
  update_same, update_other, ◌==◌, update,
}
use bare_metal_rtos.Base.Int.{ℤ, pos, neg_part, ◌-ℤ◌}
use bare_metal_rtos.Sync.WaitList.{Waiter, setup_wait, int32_max, wait_infinite, no_wait, eq_ℤ}
use bare_metal_rtos.Sync.WaitList.Found.{tids, waiter_of}
use bare_metal_rtos.Kernel.Task.{KernelTask, is_sleeping, schedule_sleep}
use bare_metal_rtos.Kernel.CallSlots.{schedule_sleep-Slot}
use bare_metal_rtos.Kernel.Strategy.{Strategy, IsSleepAware}
use bare_metal_rtos.Kernel.Reach.{change_lem}
use bare_metal_rtos.Kernel.Waiting.{
  SyncKernel, SyncList, waiters, is_waiting, add_waiter, on_task_wait,
}
use bare_metal_rtos.Kernel.TimedWaits.{Waits}

-- The wait object as SetupWait() leaves it.
abbrev pub joined : ℕ → ℤ → Waiter
joined i timeout = record { tid = i; time_wait = timeout; timeout = false }

tids_append : (xs ys : List Waiter) → tids (xs ++ ys) ≡ tids xs ++ tids ys
unfolding tids
tids_append [] ys = refl
tids_append (x ∷ xs) ys = ap (λ l. x.tid ∷ l) (tids_append xs ys)

count-tids_append :
    (t : ℕ) (xs ys : List Waiter)
    → count t (tids (xs ++ ys)) ≡ count t (tids xs) + count t (tids ys)
count-tids_append t xs ys = ap (count t) (tids_append xs ys) ∙ count-append t (tids xs) (tids ys)

count-joined : (t i : ℕ) (timeout : ℤ) → count t (tids (joined i timeout ∷ [])) ≡ same i t
unfolding tids
count-joined t i timeout = omega (arith, count-cons t i [], count-nil t)

count-add_waiter :
    (t id i : ℕ) (timeout : ℤ) (l : SyncList)
    → count t (tids (waiters (add_waiter id i timeout l))) ≡ same i t + count t (tids (waiters l))
unfolding add_waiter setup_wait waiters tids
count-add_waiter t id i timeout [] = omega (arith, count-cons t i [], count-nil t)
count-add_waiter t id i timeout ((id', ws) ∷ l) = elim (Bool-cases (id' == id)) [
  | inl z ↦ rw z (
      omega (
        arith,
        count-tids_append t ws (joined i timeout ∷ []),
        count-tids_append t (ws ++ joined i timeout ∷ []) (waiters l),
        count-tids_append t ws (waiters l),
        count-joined t i timeout,
      ))
  | inr z ↦ rw z (
      omega (
        arith,
        count-tids_append t ws (waiters (add_waiter id i timeout l)),
        count-tids_append t ws (waiters l),
        count-add_waiter t id i timeout l,
      ))
]

waiter_of-append :
    (t : ℕ) (xs ys : List Waiter) → count t (tids xs) ≡ 0 → waiter_of t (xs ++ ys) ≡ waiter_of t ys
unfolding waiter_of tids
waiter_of-append t [] ys z = refl
waiter_of-append t (x ∷ xs) ys z =
    ground (arith, waiter_of-append t xs ys, count-cons t x.tid (tids xs), z)

waiter_of-joined :
    (i : ℕ) (timeout : ℤ) (ys : List Waiter)
    → waiter_of i (joined i timeout ∷ ys) ≡ some (joined i timeout)
unfolding waiter_of
waiter_of-joined i timeout ys = ground arith

pub waiter_of-add_waiter :
    (id i : ℕ) (timeout : ℤ) (l : SyncList)
    → count i (tids (waiters l)) ≡ 0
    → waiter_of i (waiters (add_waiter id i timeout l)) ≡ some (joined i timeout)
unfolding add_waiter setup_wait waiters
waiter_of-add_waiter id i timeout [] z = waiter_of-joined i timeout []
waiter_of-add_waiter id i timeout ((id', ws) ∷ l) z =
    let s = count-tids_append i ws (waiters l) in
    let y : count i (tids ws) ≡ 0 = omega (arith, s, z) in
    elim (Bool-cases (id' == id)) [
      | inl e ↦
          rw (e, append_assoc ws (joined i timeout ∷ []) (waiters l))
            (waiter_of-append i ws (joined i timeout ∷ waiters l) y
              ∙ waiter_of-joined i timeout (waiters l))
      | inr e ↦ rw e (
          waiter_of-append i ws (waiters (add_waiter id i timeout l)) y
          ∙ waiter_of-add_waiter id i timeout l (omega (arith, s, z)))
    ]

module _ {S : Type 0} {o : Strategy S} (law : IsSleepAware o) (tasks_max : ℕ) (is_dynamic : Bool)
    (ticks_max : ℤ) where
  -- The slot as ScheduleSleep(WAIT_INFINITE) leaves it.
  abbrev pub sleeper : KernelTask → KernelTask
  sleeper t = record t {
    sleep_pending = t.sleep_pending || not (is_sleeping t);
    time_sleep = pos 0 -ℤ wait_infinite;
  }

  pub sleeper-neg_part : (t : KernelTask) → neg_part (sleeper t).time_sleep ≡ int32_max
  unfolding ◌-ℤ◌
  sleeper-neg_part t = refl

  abbrev pub waiting : ℕ → ℕ → ℤ → SyncKernel S → SyncKernel S
  waiting u id timeout k = record {
    kernel = record k.kernel { tasks = update k.kernel.tasks u (sleeper (k.kernel.tasks u)) };
    sync_list = add_waiter id u timeout k.sync_list;
  }

  schedule_infinite : (t : KernelTask) → schedule_sleep wait_infinite t ≡ some (sleeper t)
  unfolding schedule_sleep
  schedule_infinite t = refl

  pub joins :
      (u id : ℕ) (timeout : ℤ) (k : SyncKernel S)
      → eq_ℤ timeout no_wait ≡ false
      → count u (tids (waiters k.sync_list)) ≡ 0
      → on_task_wait o tasks_max u id timeout k ≡ some (waiting u id timeout k)
  unfolding on_task_wait is_waiting schedule_sleep
  joins u id timeout k h z = rw (h, z) refl

  joins-sleeps :
      (b u t id : ℕ) (timeout : ℤ) (k : SyncKernel S)
      → Waits law tasks_max is_dynamic ticks_max b k
      → b < int32_max
      → u < tasks_max
      → (k.kernel.tasks u).remove_pending ≡ false
      → 0 < count t (tids (waiters (add_waiter id u timeout k.sync_list)))
      → (t < tasks_max)
        × (b < neg_part ((waiting u id timeout k).kernel.tasks t).time_sleep)
        × (((waiting u id timeout k).kernel.tasks t).remove_pending ≡ false)
  joins-sleeps b u t id timeout k v m h f j =
      let s = sleeper-neg_part (k.kernel.tasks u) in
      elim (Bool-cases (u == t)) [
        | inl e ↦
            let q : u ≡ t = ground (arith, e) in
            subst
              (λ t.
                (t < tasks_max)
                × (b < neg_part ((waiting u id timeout k).kernel.tasks t).time_sleep)
                × (((waiting u id timeout k).kernel.tasks t).remove_pending ≡ false))
              q
              (
                h,
                rw (update_same k.kernel.tasks u (sleeper (k.kernel.tasks u)), s) m,
                rw (update_same k.kernel.tasks u (sleeper (k.kernel.tasks u))) f,
              )
        | inr e ↦
            let (x, y, g) =
              v.asleep t (ground (arith, j, e, count-add_waiter t id u timeout k.sync_list)) in
            let d =
              update_other k.kernel.tasks u t (sleeper (k.kernel.tasks u)) (ground (arith, e)) in
            (x, rw d y, rw d g)
      ]

  pub joins-Waits :
      (b u id : ℕ) (timeout : ℤ) (k : SyncKernel S)
      → Waits law tasks_max is_dynamic ticks_max b k
      → b < int32_max
      → u < tasks_max
      → (k.kernel.tasks u).user ≢ 0
      → (k.kernel.tasks u).remove_pending ≡ false
      → count u (tids (waiters k.sync_list)) ≡ 0
      → Waits law tasks_max is_dynamic ticks_max b (waiting u id timeout k)
  joins-Waits b u id timeout k v m h n f z =
      let slot = k.kernel.tasks u in
      record {
        started =
            change_lem law tasks_max is_dynamic u (schedule_sleep wait_infinite) k.kernel
              (waiting u id timeout k).kernel v.started h
              (λ t y. schedule_sleep-Slot wait_infinite slot t (v.started.coherent.slots u h) n y)
              (rw (schedule_infinite slot) refl);
        once = λ t. ground (arith, v.once t, z, count-add_waiter t id u timeout k.sync_list);
        asleep = λ t j. joins-sleeps b u t id timeout k v m h f j;
      }
