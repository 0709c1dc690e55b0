-- ===== src/Sync/MessageQueue/Contract.antt =====
-- The contract of the message queue.
use bare_metal_rtos.Base.{
  ℕ, ◌≡◌, ◌≤◌, ◌<◌, refl, arith, ap, sym, ◌∙◌, false, none, some, [], inl, ℕ_discrete,
}
use bare_metal_rtos.Base.Int.{ℤ}
use bare_metal_rtos.Sync.Semaphore.{acquired}
use bare_metal_rtos.Sync.ConditionVariable.{notify_one}
use bare_metal_rtos.Sync.MessageQueue.{
  MessageQueue, Return, wait_not_full, wait_not_empty, put, put_loop, put_front, put_front_loop,
  get_loop, peek_loop, reset, as_list,
}
use bare_metal_rtos.Sync.MessageQueue.Window.{read}
use bare_metal_rtos.Sync.MessageQueue.Fifo.{
  IsValid, contents, Call, puts, put_fronts, gets, peeks, resets, perform, spec, spec_get,
  spec_peek, Refines,
}
use bare_metal_rtos.Sync.MessageQueue.Refine.{
  with_back, with_front, without_first, with_back-IsValid, with_front-IsValid,
  without_first-IsValid, contents-with_back, contents-with_front, contents-without_first,
}
use bare_metal_rtos.Sync.MessageQueue.Calls.{
  Succeeds, waited, done, wait_not_full-Waits, wait_not_empty-Waits, full_puts, full_put_fronts,
  room_puts, room_put_fronts,
}

module _ {A : Type 0} (q : MessageQueue A) (v : IsValid q) where
  put_refines :
      (tid : ℕ) (msg : A) (timeout : ℤ) → q.count ≤ 65533 → Succeeds (puts tid msg timeout) q
  unfolding perform put put_loop
  put_refines tid msg timeout l = elim (ℕ_discrete q.count q.capacity) [
    | yes e ↦
        waited q v (puts tid msg timeout) (wait_not_full tid timeout false q) (ground arith)
          (full_puts q v tid msg timeout e) (wait_not_full-Waits tid timeout q)
    | no n ↦
        let (woken, left) = notify_one q.cv_not_empty in
        let room : q.count < q.capacity = omega (arith, v.in_count) in
        done q v (puts tid msg timeout)
          (record {
            outcome = acquired;
            message = none;
            woken = as_list woken;
            queue = with_back q v msg left;
          })
          (ground arith) (with_back-IsValid q v msg left room) refl refl
          (room_puts q v tid msg timeout n
            ∙ ap (λ xs. some (none, xs)) (sym (contents-with_back q v msg left room)))
  ]

  put_front_refines :
      (tid : ℕ) (msg : A) (timeout : ℤ) → q.count ≤ 65533 → Succeeds (put_fronts tid msg timeout) q
  unfolding perform put_front put_front_loop
  put_front_refines tid msg timeout l = elim (ℕ_discrete q.count q.capacity) [
    | yes e ↦
        waited q v (put_fronts tid msg timeout) (wait_not_full tid timeout false q) (ground arith)
          (full_put_fronts q v tid msg timeout e) (wait_not_full-Waits tid timeout q)
    | no n ↦
        let (woken, left) = notify_one q.cv_not_empty in
        let room : q.count < q.capacity = omega (arith, v.in_count) in
        done q v (put_fronts tid msg timeout)
          (record {
            outcome = acquired;
            message = none;
            woken = as_list woken;
            queue = with_front q v msg left;
          })
          (ground arith) (with_front-IsValid q v msg left room) refl refl
          (room_put_fronts q v tid msg timeout n
            ∙ ap (λ xs. some (none, xs)) (sym (contents-with_front q v msg left room)))
  ]

  nothing_read : q.count ≡ 0 → contents q ≡ []
  unfolding read
  nothing_read e = ap (λ n. read q.capacity q.buffer n q.tail) e

  get_refines : (tid : ℕ) (timeout : ℤ) → Succeeds (gets tid timeout) q
  unfolding perform get_loop spec spec_get
  get_refines tid timeout = elim (ℕ_discrete q.count 0) [
    | yes e ↦
        waited q v (gets tid timeout) (wait_not_empty tid timeout false q) (ground arith)
          (ap spec_get (nothing_read e)) (wait_not_empty-Waits tid timeout q)
    | no n ↦
        let (woken, left) = notify_one q.cv_not_full in
        done q v (gets tid timeout)
          (record {
            outcome = acquired;
            message = some (q.buffer q.tail);
            woken = as_list woken;
            queue = without_first q v left;
          })
          (ground arith) (without_first-IsValid q v left n) refl refl
          (ap spec_get (contents-without_first q v left n))
  ]

  peek_refines : (tid : ℕ) (timeout : ℤ) → Succeeds (peeks tid timeout) q
  unfolding perform peek_loop spec spec_peek
  peek_refines tid timeout = elim (ℕ_discrete q.count 0) [
    | yes e ↦
        waited q v (peeks tid timeout) (wait_not_empty tid timeout false q) (ground arith)
          (ap spec_peek (nothing_read e)) (wait_not_empty-Waits tid timeout q)
    | no n ↦
        let first = contents-without_first q v q.cv_not_full n in
        done q v (peeks tid timeout)
          (record { outcome = acquired; message = some (q.buffer q.tail); woken = []; queue = q })
          (ground arith) v refl refl
          (ap spec_peek first ∙ ap (λ xs. some (some (q.buffer q.tail), xs)) (sym first))
  ]

  reset_refines : Succeeds resets q
  unfolding perform reset spec read
  reset_refines =
      done q v resets (reset q) refl
        (record {
          in_head = omega (arith, v.in_head);
          in_tail = omega (arith, v.in_head);
          in_count = omega arith;
          ends = inl refl;
          limit = v.limit;
        })
        refl refl refl

-- On a valid message queue with at most 65533 messages, every call from a task gives a result and never
-- fails an assertion, and the queue stays valid. The call does what it does on a bounded double-ended queue
-- of the messages: Put() puts its message behind the others and PutFront() before them, Get() takes the
-- first one out, Peek() reads it, and Reset() leaves none. Where the queue is full for Put() and
-- PutFront(), or empty for Get() and Peek(), the call gets nothing and leaves the messages as they are.
pub perform-Refines :
    {A : Type 0} (c : Call A) (q : MessageQueue A)
    → IsValid q
    → q.count ≤ 65533
    → (r : Return A) × (perform c false q ≡ some r) × Refines c q r
perform-Refines (puts tid msg timeout) q v l = put_refines q v tid msg timeout l
perform-Refines (put_fronts tid msg timeout) q v l = put_front_refines q v tid msg timeout l
perform-Refines (gets tid timeout) q v l = get_refines q v tid timeout
perform-Refines (peeks tid timeout) q v l = peek_refines q v tid timeout
perform-Refines resets q v l = reset_refines q v
