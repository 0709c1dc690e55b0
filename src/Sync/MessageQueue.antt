-- ===== src/Sync/MessageQueue.antt =====
-- stk::sync::MessageQueue of stk/include/sync/stk_sync_msgqueue.h. `buffer` gives the message in each
-- slot: the slots are `msg_size` bytes each and do not overlap, so STK_MEMCPY to a slot writes that slot
-- only. size_t has 32 bits. The waiting loop of a call is split where it suspends: `put_loop` and its kin
-- go from the test of the loop on, at the call and whenever a notification has woken the task, and
-- `blocks` means that the task has joined the wait list. A task that the kernel times out returns false
-- and changes nothing. `none` is a failed STK_ASSERT.
pub mod Window
pub mod Fifo
pub mod Refine
pub mod Calls
pub mod Contract
pub mod Tests
use bare_metal_rtos.Base.{
  ℕ, zero, suc, ◌+◌, ◌-◌, ◌%◌, ◌^◌, ◌≡◌, Bool, true, false, Option, none, some, List, [], ◌∷◌, ◌==◌,
  leb, if◌then◌else◌, update,
}
use bare_metal_rtos.Base.Int.{ℤ}
use bare_metal_rtos.Sync.WaitList.{Waiter}
use bare_metal_rtos.Sync.Semaphore.{Outcome, acquired}
use bare_metal_rtos.Sync.ConditionVariable.{wait, notify_one, notify_all}

pub record MessageQueue (A : Type 0) : Type 0 where
  pub buffer : ℕ → A
  pub capacity : ℕ
  pub count : ℕ
  pub head : ℕ
  pub tail : ℕ
  pub cv_not_empty : List Waiter
  pub cv_not_full : List Waiter

abbrev pub size_t : ℕ → ℕ
size_t n = n % 2 ^ 32

unfoldable pub next : ℕ → ℕ → ℕ
next capacity idx = size_t (idx + 1) % capacity

unfoldable pub prev : ℕ → ℕ → ℕ
prev capacity idx = if idx == 0 then capacity - 1 else idx - 1

-- What a call, or a part of it up to a suspension, gives: the message read, and the tasks woken.
pub record Return (A : Type 0) : Type 0 where
  pub outcome : Outcome
  pub message : Option A
  pub woken : List ℕ
  pub queue : MessageQueue A

abbrev pub as_list : Option ℕ → List ℕ
as_list none = []
as_list (some t) = t ∷ []

module _ {A : Type 0} where
  -- The assertions of the constructor on the sizes; the buffer is not null.
  unfoldable pub init : (ℕ → A) → ℕ → ℕ → Option (MessageQueue A)
  init buffer capacity msg_size =
      if leb 1 capacity
      then (if leb capacity 65534
          then (if leb 1 msg_size
              then some (record {
                buffer = buffer;
                capacity = capacity;
                count = 0;
                head = 0;
                tail = 0;
                cv_not_empty = [];
                cv_not_full = [];
              })
              else none)
          else none)
      else none

  -- The Wait() of a producer and of a consumer.
  unfoldable pub wait_not_full : ℕ → ℤ → Bool → MessageQueue A → Option (Return A)
  wait_not_full tid timeout_ticks in_isr q = elim (wait tid timeout_ticks in_isr q.cv_not_full) [
    | none ↦ none
    | some (o, ws) ↦
        some (record {
          outcome = o;
          message = none;
          woken = [];
          queue = record q { cv_not_full = ws };
        })
  ]

  unfoldable pub wait_not_empty : ℕ → ℤ → Bool → MessageQueue A → Option (Return A)
  wait_not_empty tid timeout_ticks in_isr q = elim (wait tid timeout_ticks in_isr q.cv_not_empty) [
    | none ↦ none
    | some (o, ws) ↦
        some (record {
          outcome = o;
          message = none;
          woken = [];
          queue = record q { cv_not_empty = ws };
        })
  ]

  unfoldable pub put_loop : ℕ → A → ℤ → Bool → MessageQueue A → Option (Return A)
  put_loop tid msg timeout_ticks in_isr q =
      if q.count == q.capacity
      then wait_not_full tid timeout_ticks in_isr q
      else (let (woken, left) = notify_one q.cv_not_empty in
          some (record {
            outcome = acquired;
            message = none;
            woken = as_list woken;
            queue = record q {
              buffer = update q.buffer q.head msg;
              head = next q.capacity q.head;
              count = size_t (q.count + 1);
              cv_not_empty = left;
            };
          }))

  unfoldable pub put : ℕ → A → ℤ → Bool → MessageQueue A → Option (Return A)
  put tid msg timeout_ticks in_isr q =
      if leb q.count 65533 then put_loop tid msg timeout_ticks in_isr q else none

  -- The tail goes back and its new slot takes the message.
  unfoldable pub put_front_loop : ℕ → A → ℤ → Bool → MessageQueue A → Option (Return A)
  put_front_loop tid msg timeout_ticks in_isr q =
      if q.count == q.capacity
      then wait_not_full tid timeout_ticks in_isr q
      else (let (woken, left) = notify_one q.cv_not_empty in
          some (record {
            outcome = acquired;
            message = none;
            woken = as_list woken;
            queue = record q {
              buffer = update q.buffer (prev q.capacity q.tail) msg;
              tail = prev q.capacity q.tail;
              count = size_t (q.count + 1);
              cv_not_empty = left;
            };
          }))

  unfoldable pub put_front : ℕ → A → ℤ → Bool → MessageQueue A → Option (Return A)
  put_front tid msg timeout_ticks in_isr q =
      if leb q.count 65533 then put_front_loop tid msg timeout_ticks in_isr q else none

  unfoldable pub get_loop : ℕ → ℤ → Bool → MessageQueue A → Option (Return A)
  get_loop tid timeout_ticks in_isr q =
      if q.count == 0
      then wait_not_empty tid timeout_ticks in_isr q
      else (let (woken, left) = notify_one q.cv_not_full in
          some (record {
            outcome = acquired;
            message = some (q.buffer q.tail);
            woken = as_list woken;
            queue = record q {
              tail = next q.capacity q.tail;
              count = size_t (q.count + 2 ^ 32 - 1);
              cv_not_full = left;
            };
          }))

  -- Peek() and PeekFront() have the same body.
  unfoldable pub peek_loop : ℕ → ℤ → Bool → MessageQueue A → Option (Return A)
  peek_loop tid timeout_ticks in_isr q =
      if q.count == 0
      then wait_not_empty tid timeout_ticks in_isr q
      else some
          (record { outcome = acquired; message = some (q.buffer q.tail); woken = []; queue = q })

  unfoldable pub reset : MessageQueue A → Return A
  reset q =
      let (woken, left) = notify_all q.cv_not_full in
      record {
        outcome = acquired;
        message = none;
        woken = woken;
        queue = record q { count = 0; head = 0; tail = 0; cv_not_full = left };
      }
