-- ===== src/Sync/MessageQueue/Calls.antt =====
-- Every call on a valid message queue does what it does on a bounded double-ended queue.
use bare_metal_rtos.Base.{
  ℕ, ◌≡◌, ◌≢◌, refl, arith, ap, ◌∙◌, false, Option, none, some, List, [], ◌∷◌, ◌++◌, inl, inr,
  Bool-cases,
}
use bare_metal_rtos.Base.Int.{ℤ}
use bare_metal_rtos.Sync.WaitList.{Waiter, eq_ℤ, no_wait, setup_wait}
use bare_metal_rtos.Sync.Semaphore.{acquired, refused, blocks}
use bare_metal_rtos.Sync.ConditionVariable.{wait}
use bare_metal_rtos.Sync.MessageQueue.{MessageQueue, Return, wait_not_full, wait_not_empty}
use bare_metal_rtos.Sync.MessageQueue.Window.{length-read}
use bare_metal_rtos.Sync.MessageQueue.Fifo.{
  IsValid, contents, Call, puts, put_fronts, perform, spec, Refines,
}

-- Only the waiting tasks of the queue change.
pub record Waits {A : Type 0} (q : MessageQueue A) (o : Option (Return A)) : Type 0 where
  pub r : Return A
  gives : o ≡ some r
  not_acquired : r.outcome ≢ acquired
  no_message : r.message ≡ none
  waiting_to_put : List Waiter
  waiting_to_get : List Waiter
  after : r.queue ≡ record q { cv_not_full = waiting_to_put; cv_not_empty = waiting_to_get }

blocks_not_acquired : blocks ≢ acquired
blocks_not_acquired e = cc

refused_not_acquired : refused ≢ acquired
refused_not_acquired e = cc

module _ {A : Type 0} (tid : ℕ) (timeout : ℤ) (q : MessageQueue A) where
  pub wait_not_full-Waits : Waits q (wait_not_full tid timeout false q)
  unfolding wait_not_full wait
  wait_not_full-Waits = elim (Bool-cases (eq_ℤ timeout no_wait)) [
    | inl e ↦ record {
      r = record { outcome = refused; message = none; woken = []; queue = q };
      gives = ground arith;
      not_acquired = refused_not_acquired;
      no_message = refl;
      waiting_to_put = q.cv_not_full;
      waiting_to_get = q.cv_not_empty;
      after = refl;
    }
    | inr e ↦ record {
      r = record {
        outcome = blocks;
        message = none;
        woken = [];
        queue = record q { cv_not_full = setup_wait tid timeout q.cv_not_full };
      };
      gives = ground arith;
      not_acquired = blocks_not_acquired;
      no_message = refl;
      waiting_to_put = setup_wait tid timeout q.cv_not_full;
      waiting_to_get = q.cv_not_empty;
      after = refl;
    }
  ]

  pub wait_not_empty-Waits : Waits q (wait_not_empty tid timeout false q)
  unfolding wait_not_empty wait
  wait_not_empty-Waits = elim (Bool-cases (eq_ℤ timeout no_wait)) [
    | inl e ↦ record {
      r = record { outcome = refused; message = none; woken = []; queue = q };
      gives = ground arith;
      not_acquired = refused_not_acquired;
      no_message = refl;
      waiting_to_put = q.cv_not_full;
      waiting_to_get = q.cv_not_empty;
      after = refl;
    }
    | inr e ↦ record {
      r = record {
        outcome = blocks;
        message = none;
        woken = [];
        queue = record q { cv_not_empty = setup_wait tid timeout q.cv_not_empty };
      };
      gives = ground arith;
      not_acquired = blocks_not_acquired;
      no_message = refl;
      waiting_to_put = q.cv_not_full;
      waiting_to_get = setup_wait tid timeout q.cv_not_empty;
      after = refl;
    }
  ]

-- The call gives a result that refines the bounded queue.
abbrev pub Succeeds : {A : Type 0} → Call A → MessageQueue A → Type 0
Succeeds {A = A} c q = (r : Return A) × (perform c false q ≡ some r) × Refines c q r

module _ {A : Type 0} (q : MessageQueue A) (v : IsValid q) where
  rewaited :
      (to_put to_get : List Waiter)
      → IsValid (record q { cv_not_full = to_put; cv_not_empty = to_get })
  rewaited to_put to_get = record {
    in_head = v.in_head;
    in_tail = v.in_tail;
    in_count = v.in_count;
    ends = v.ends;
    limit = v.limit;
  }

  -- A call that waits where the bounded queue has nothing to do.
  pub waited :
      (c : Call A) (o : Option (Return A))
      → perform c false q ≡ o
      → spec c q.capacity (contents q) ≡ none
      → Waits q o
      → Succeeds c q
  waited c o e n w = (
    w.r,
    e ∙ w.gives,
    record {
      keeps = rw w.after (rewaited w.waiting_to_put w.waiting_to_get);
      same_capacity = ap (λ k. k.capacity) w.after;
      effect = inr (w.not_acquired, n, ap contents w.after, w.no_message);
    },
  )

  pub done :
      (c : Call A) (r : Return A)
      → perform c false q ≡ some r
      → IsValid r.queue
      → r.queue.capacity ≡ q.capacity
      → r.outcome ≡ acquired
      → spec c q.capacity (contents q) ≡ some (r.message, contents r.queue)
      → Succeeds c q
  done c r e v' k a s = (r, e, record { keeps = v'; same_capacity = k; effect = inl (a, s) })

  pub full_puts :
      (tid : ℕ) (msg : A) (timeout : ℤ)
      → q.count ≡ q.capacity
      → spec (puts tid msg timeout) q.capacity (contents q) ≡ none
  unfolding spec
  full_puts tid msg timeout e = ground (arith, length-read q.capacity q.buffer q.count q.tail)

  pub full_put_fronts :
      (tid : ℕ) (msg : A) (timeout : ℤ)
      → q.count ≡ q.capacity
      → spec (put_fronts tid msg timeout) q.capacity (contents q) ≡ none
  unfolding spec
  full_put_fronts tid msg timeout e = ground (arith, length-read q.capacity q.buffer q.count q.tail)

  pub room_puts :
      (tid : ℕ) (msg : A) (timeout : ℤ)
      → q.count ≢ q.capacity
      → spec (puts tid msg timeout) q.capacity (contents q) ≡ some (none, contents q ++ msg ∷ [])
  unfolding spec
  room_puts tid msg timeout n = ground (arith, length-read q.capacity q.buffer q.count q.tail)

  pub room_put_fronts :
      (tid : ℕ) (msg : A) (timeout : ℤ)
      → q.count ≢ q.capacity
      → spec (put_fronts tid msg timeout) q.capacity (contents q) ≡ some (none, msg ∷ contents q)
  unfolding spec
  room_put_fronts tid msg timeout n = ground (arith, length-read q.capacity q.buffer q.count q.tail)
