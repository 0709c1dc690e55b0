-- ===== src/Kernel/Timeouts.antt =====
-- UpdateSyncObjects() and OnTick() of the kernel of stk/include/stk.h together, for tasks that wait with a timeout.
use bare_metal_rtos.Kernel.Sleep.{tick_slots, ticked_lem}
use bare_metal_rtos.Kernel.Slots.{ticked}
use bare_metal_rtos.Base.{
  false, ◌&&◌, ◌≢◌, inr, inl, Bool-cases, zero, suc, ◌==◌, sym, Option-cases, ap, ℕ, ◌≡◌, ◌≤◌, ◌<◌,
  refl, ◌∙◌, arith, Bool, true, some, List, [], ◌∷◌, ◌++◌, ◌==◌, if◌then◌else◌, count, count-cons,
  count-nil, same_refl, update,
}
use bare_metal_rtos.Base.Int.{◌≤ℤ◌, pos, ℤ, negsuc}
use bare_metal_rtos.Sync.WaitList.{Waiter, tick}
use bare_metal_rtos.Sync.WaitList.Found.{tids, count-tick}
use bare_metal_rtos.Kernel.Task.{KernelTask, is_sleeping, wake}
use bare_metal_rtos.Kernel.Strategy.{Strategy, IsSleepAware}
use bare_metal_rtos.Kernel.Machine.{Contexts, and_then, Kernel}
use bare_metal_rtos.Kernel.Calls.{change}
use bare_metal_rtos.Kernel.CallSlots.{wake-Slot}
use bare_metal_rtos.Kernel.Reach.{Started, change_lem}
use bare_metal_rtos.Kernel.Waiting.{
  SyncKernel, on_sync_tick, is_waiting, unbinds_waiting, is_empty, SyncList, update_sync_objects,
  waiters, wakes,
}

tick-append : (e : ℕ) (xs ys : List Waiter) → (tick e (xs ++ ys)).0 ≡ (tick e xs).0 ++ (tick e ys).0
unfolding tick
tick-append e [] ys = refl
tick-append e (x ∷ xs) ys = ground (arith, tick-append e xs ys)

tick-append_left :
    (e : ℕ) (xs ys : List Waiter) → (tick e (xs ++ ys)).1 ≡ (tick e xs).1 ++ (tick e ys).1
unfolding tick
tick-append_left e [] ys = refl
tick-append_left e (x ∷ xs) ys = ground (arith, tick-append_left e xs ys)

-- The objects that still have waiters.
unfoldable pub remaining : ℕ → SyncList → SyncList
remaining e [] = []
remaining e ((id, ws) ∷ objects) =
    if is_empty (tick e ws).1
    then remaining e objects
    else (id, (tick e ws).1) ∷ remaining e objects

empty_append :
    (xs : List Waiter) (id : ℕ) (rest : SyncList)
    → waiters (if is_empty xs then rest else (id, xs) ∷ rest) ≡ xs ++ waiters rest
unfolding waiters
empty_append [] id rest = refl
empty_append (x ∷ xs) id rest = refl

waiters-remaining :
    (e : ℕ) (objects : SyncList) → waiters (remaining e objects) ≡ (tick e (waiters objects)).1
unfolding waiters remaining tick
waiters-remaining e [] = refl
waiters-remaining e ((id, ws) ∷ objects) =
    empty_append (tick e ws).1 id (remaining e objects)
    ∙ (ap (λ l. (tick e ws).1 ++ l) (waiters-remaining e objects)
        ∙ sym (tick-append_left e ws (waiters objects)))

-- The slot that Wake() leaves.
abbrev pub woken_slot : KernelTask → KernelTask
woken_slot t = record t { time_sleep = negsuc 0 }

-- What a tick makes of a slot, where the tasks `woken` time out.
abbrev pub timed : ℕ → List ℕ → ℕ → KernelTask → KernelTask
timed e woken u t = ticked e (if count u woken == 0 then t else woken_slot t)

woken-user : (b : Bool) (t : KernelTask) → t.user ≢ 0 → (if b then t else woken_slot t).user ≢ 0
woken-user true t n = n
woken-user false t n = n

woken-kept :
    (b : Bool) (t : KernelTask)
    → t.remove_pending ≡ false
    → (is_sleeping (if b then t else woken_slot t)
        && (if b then t else woken_slot t).remove_pending)
      ≡ false
woken-kept true t r = ground (arith, r)
woken-kept false t r = ground (arith, r)

is_waiting-count : (t : ℕ) (l : SyncList) → is_waiting t l ≡ true → 0 < count t (tids (waiters l))
unfolding is_waiting
is_waiting-count t l w = ground (arith, w)

-- Where every slot that waits stays bound as it is, none is unbound.
unbinds_waiting_lem :
    (n : ℕ) (was now : ℕ → KernelTask) (l : SyncList)
    → ((t : ℕ) → t < n → is_waiting t l ≡ true → (now t).user ≡ (was t).user)
    → unbinds_waiting n was now l ≡ false
unfolding unbinds_waiting
unbinds_waiting_lem zero was now l h = refl
unbinds_waiting_lem (suc n) was now l h =
    let r = unbinds_waiting_lem n was now l (λ t y w. h t (omega (arith, y)) w) in
    elim (Bool-cases (is_waiting n l)) [
      | inr off ↦ rw (off, r) refl
      | inl on ↦ rw (on, r, h n (omega arith) on) (ground arith)
    ]

module _ {S : Type 0} {o : Strategy S} (law : IsSleepAware o) (tasks_max : ℕ)
    (is_dynamic : Bool) where
  abbrev IsStarted : Kernel S → Type 0
  IsStarted k = Started law tasks_max is_dynamic k

  wake_slot :
      (t : ℕ) (k : Kernel S)
      → is_sleeping (k.tasks t) ≡ true
      → change o tasks_max t wake k
        ≡ some (record k { tasks = update k.tasks t (woken_slot (k.tasks t)) })
  unfolding wake
  wake_slot t k z = rw z refl

  wakes_lem :
      (ts : List ℕ) (k : Kernel S)
      → IsStarted k
      → ((u : ℕ) → count u ts ≤ 1)
      → ((u : ℕ) → 0 < count u ts → (u < tasks_max) × (is_sleeping (k.tasks u) ≡ true))
      → (k' : Kernel S) × (wakes o tasks_max ts k ≡ some k')
        × IsStarted k'
        × ((u : ℕ) → k'.tasks u ≡ (if count u ts == 0 then k.tasks u else woken_slot (k.tasks u)))
  unfolding wakes
  wakes_lem [] k v d p = (k, refl, v, λ u. ground (arith, count-nil u))
  wakes_lem (t ∷ ts) k v d p =
      let (h, z) = p t (omega (arith, count-cons t t ts, same_refl t)) in
      let k1 = record k { tasks = update k.tasks t (woken_slot (k.tasks t)) } in
      let e = wake_slot t k z in
      let v1 =
        change_lem law tasks_max is_dynamic t wake k k1 v h
          (λ t' y. wake-Slot (k.tasks t) t' (v.coherent.slots t h) y) e in
      let (k', f, v', g) =
        wakes_lem ts k1 v1 (λ u. omega (arith, d u, count-cons u t ts))
          (λ u m. (
            (p u (omega (arith, count-cons u t ts))).0,
            ground (arith, (p u (omega (arith, count-cons u t ts))).1),
          )) in
      (k', rw e f, v', λ u. g u ∙ ground (arith, count-cons u t ts, d u))

  wakes-append :
      (xs ys : List ℕ) (k : Kernel S)
      → wakes o tasks_max (xs ++ ys) k
        ≡ and_then (wakes o tasks_max xs k) (λ k'. wakes o tasks_max ys k')
  unfolding wakes
  wakes-append [] ys k = refl
  wakes-append (x ∷ xs) ys k = elim (Option-cases (change o tasks_max x wake k)) [
    | inl z ↦ rw z refl
    | inr (k1, z) ↦ rw z (wakes-append xs ys k1)
  ]

  -- All objects at once: the tasks that time out are woken in the order of the list.
  update_sync_objects_lem :
      (e : ℕ) (objects : SyncList) (k : Kernel S)
      → update_sync_objects o tasks_max e objects k
        ≡ and_then
            (wakes o tasks_max (tick e (waiters objects)).0 k)
            (λ k'. some (remaining e objects, k'))
  unfolding update_sync_objects waiters remaining
  update_sync_objects_lem e [] k = refl
  update_sync_objects_lem e ((id, ws) ∷ objects) k =
      rw
        (
          tick-append e ws (waiters objects),
          wakes-append (tick e ws).0 (tick e (waiters objects)).0 k,
        )
        (elim (Option-cases (wakes o tasks_max (tick e ws).0 k)) [
          | inl z ↦ rw z refl
          | inr (k1, z) ↦
              rw (z, update_sync_objects_lem e objects k1)
                (elim (Option-cases (wakes o tasks_max (tick e (waiters objects)).0 k1)) [
                  | inl y ↦ rw y refl
                  | inr (k2, y) ↦ rw y refl
                ])
        ])

  -- In a started kernel where each slot waits at most once and every slot that waits sleeps and is not to be removed,
  -- OnTick() with its synchronization objects fails no assertion, and the kernel stays started. The objects are left
  -- with the waiters that a Tick() of all their wait lists leaves. Each slot that is not to be removed while it sleeps
  -- lets the time pass, but a slot whose wait times out has one tick of sleep left before it does, so it is awake
  -- after the tick.
  pub on_sync_tick-Timed :
      (e u : ℕ) (ticks_max : ℤ) (k : SyncKernel S)
      → pos 1 ≤ℤ ticks_max
      → 0 < e
      → IsStarted k.kernel
      → u < tasks_max
      → (k.kernel.tasks u).user ≢ 0
      → (k.kernel.tasks u).remove_pending ≡ false
      → ((t : ℕ) → count t (tids (waiters k.sync_list)) ≤ 1)
      → ((t : ℕ)
          → 0 < count t (tids (waiters k.sync_list))
          → (t < tasks_max)
            × (is_sleeping (k.kernel.tasks t) ≡ true)
            × ((k.kernel.tasks t).remove_pending ≡ false))
      → (c : Contexts) × (k' : SyncKernel S) × (on_sync_tick o tasks_max is_dynamic ticks_max e k
          ≡ some (c, k'))
        × IsStarted k'.kernel
        × (waiters k'.sync_list ≡ (tick e (waiters k.sync_list)).1)
        × ((t : ℕ)
            → t < tasks_max
            → (k.kernel.tasks t).remove_pending ≡ false
            → k'.kernel.tasks t ≡ timed e (tick e (waiters k.sync_list)).0 t (k.kernel.tasks t))
  unfolding on_sync_tick
  on_sync_tick-Timed e u ticks_max k p pe v h n f d s =
      let woken = (tick e (waiters k.sync_list)).0 in
      let (k1, a, v1, g) =
        wakes_lem woken k.kernel v (λ t. omega (arith, d t, count-tick e t (waiters k.sync_list)))
          (λ t m.
            let (x, y, z) = s t (omega (arith, m, count-tick e t (waiters k.sync_list))) in
            (x, y)) in
      let (c, left, k2, b, v2, j) =
        tick_slots law tasks_max is_dynamic false ticks_max e u k1 p v1 h
          (rw (g u) (woken-user (count u woken == 0) (k.kernel.tasks u) n))
          (rw (g u) (woken-kept (count u woken == 0) (k.kernel.tasks u) f)) in
      let bound : (t : ℕ)
          → t < tasks_max
          → is_waiting t (remaining e k.sync_list) ≡ true
          → (k2.tasks t).user ≡ (k1.tasks t).user =
        λ t y w.
          let m =
            rw (waiters-remaining e k.sync_list) at
              (is_waiting-count t (remaining e k.sync_list) w) in
          let (x, y', r) = s t (omega (arith, m, count-tick e t (waiters k.sync_list))) in
          rw (j t y (rw (g t) (woken-kept (count t woken == 0) (k.kernel.tasks t) r)))
            ((ticked_lem e (k1.tasks t)).0) in
      let z = unbinds_waiting_lem tasks_max k1.tasks k2.tasks (remaining e k.sync_list) bound in
      (
        c,
        record { kernel = k2; sync_list = remaining e k.sync_list },
        rw (update_sync_objects_lem e k.sync_list k.kernel, a, b, z) refl,
        v2,
        waiters-remaining e k.sync_list,
        λ t y r.
            j t y (rw (g t) (woken-kept (count t woken == 0) (k.kernel.tasks t) r))
            ∙ ap (ticked e) (g t),
      )
