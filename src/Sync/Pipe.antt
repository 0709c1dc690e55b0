-- ===== src/Sync/Pipe.antt =====
-- stk::sync::Pipe of stk/include/sync/stk_sync_pipe.h. `buffer` gives the element in each slot: the slots are
-- `element_size` bytes each and do not overlap, so STK_MEMCPY of elements writes those slots only. size_t has 32
-- bits. `none` is a failed STK_ASSERT. Write() and Read() are split where they suspend, as in the message queue;
-- of the bulk calls the transfer under the critical section is modelled, not the waiting between two transfers.
pub mod Bulk
pub mod Stream
pub mod Transfers
pub mod Tests
use bare_metal_rtos.Base.{
  ℕ, zero, suc, ◌+◌, ◌-◌, ◌%◌, ◌^◌, Bool, true, false, Option, none, some, List, [], ◌∷◌, ◌++◌,
  ◌==◌, leb, if◌then◌else◌, update, length, min, take, drop,
}
use bare_metal_rtos.Base.Int.{ℤ}
use bare_metal_rtos.Sync.WaitList.{Waiter}
use bare_metal_rtos.Sync.Semaphore.{Outcome, acquired}
use bare_metal_rtos.Sync.ConditionVariable.{wait, notify_one, notify_all}
use bare_metal_rtos.Sync.MessageQueue.{size_t, as_list}

pub record Pipe (A : Type 0) : Type 0 where
  pub buffer : ℕ → A
  pub capacity : ℕ
  pub count : ℕ
  pub head : ℕ
  pub tail : ℕ
  pub cv_not_empty : List Waiter
  pub cv_not_full : List Waiter

unfoldable pub next : ℕ → ℕ → ℕ
next capacity idx = size_t (idx + 1) % capacity

-- The elements read, the tasks woken, and the pipe.
pub record Transfer (A : Type 0) : Type 0 where
  pub outcome : Outcome
  pub elements : List A
  pub woken : List ℕ
  pub pipe : Pipe A

module _ {A : Type 0} where
  -- The slots, the write index and the count after one element has been written.
  abbrev pub stored : A → Pipe A → Pipe A
  stored x p = record p {
    buffer = update p.buffer p.head x;
    head = next p.capacity p.head;
    count = size_t (p.count + 1);
  }

  abbrev pub dropped : Pipe A → Pipe A
  dropped p = record p { tail = next p.capacity p.tail; count = size_t (p.count + 2 ^ 32 - 1) }

  unfoldable pub write_loop : ℕ → A → ℤ → Bool → Pipe A → Option (Transfer A)
  write_loop tid x timeout_ticks in_isr p =
      if p.count == p.capacity
      then elim (wait tid timeout_ticks in_isr p.cv_not_full) [
        | none ↦ none
        | some (o, ws) ↦ some (record {
          outcome = o;
          elements = [];
          woken = [];
          pipe = record p { cv_not_full = ws };
        })
      ]
      else (let (woken, left) = notify_one p.cv_not_empty in
          some (record {
            outcome = acquired;
            elements = [];
            woken = as_list woken;
            pipe = record (stored x p) { cv_not_empty = left };
          }))

  unfoldable pub write : ℕ → A → ℤ → Bool → Pipe A → Option (Transfer A)
  write tid x timeout_ticks in_isr p =
      if leb p.count 65533 then write_loop tid x timeout_ticks in_isr p else none

  unfoldable pub read_loop : ℕ → ℤ → Bool → Pipe A → Option (Transfer A)
  read_loop tid timeout_ticks in_isr p =
      if p.count == 0
      then elim (wait tid timeout_ticks in_isr p.cv_not_empty) [
        | none ↦ none
        | some (o, ws) ↦ some (record {
          outcome = o;
          elements = [];
          woken = [];
          pipe = record p { cv_not_empty = ws };
        })
      ]
      else (let (woken, left) = notify_one p.cv_not_full in
          some (record {
            outcome = acquired;
            elements = p.buffer p.tail ∷ [];
            woken = as_list woken;
            pipe = record (dropped p) { cv_not_full = left };
          }))

  -- STK_MEMCPY of elements into, and out of, the slots from `i` on.
  unfoldable pub copy_in : (ℕ → A) → ℕ → List A → ℕ → A
  copy_in buffer i [] = buffer
  copy_in buffer i (x ∷ xs) = copy_in (update buffer i x) (i + 1) xs

  unfoldable pub copy_out : (ℕ → A) → ℕ → ℕ → List A
  copy_out buffer i zero = []
  copy_out buffer i (suc n) = buffer i ∷ copy_out buffer (i + 1) n

  -- The transfer of WriteBulk() once the pipe is not full: what fits of `src`, the elements not yet written.
  unfoldable pub write_part : List A → Pipe A → Transfer A
  write_part src p =
      let to_write = min (length src) (p.capacity - p.count) in
      let first_part = p.capacity - p.head in
      let (woken, left) = notify_all p.cv_not_empty in
      record {
        outcome = acquired;
        elements = [];
        woken = woken;
        pipe = record p {
          buffer =
              if leb to_write first_part
              then copy_in p.buffer p.head (take to_write src)
              else copy_in (copy_in p.buffer p.head (take first_part src)) 0
                  (take (to_write - first_part) (drop first_part src));
          head = size_t (p.head + to_write) % p.capacity;
          count = size_t (p.count + to_write);
          cv_not_empty = left;
        };
      }

  unfoldable pub drain_locked : ℕ → Pipe A → Transfer A
  drain_locked count p =
      let to_read = min count p.count in
      let first_part = p.capacity - p.tail in
      let (woken, left) = notify_all p.cv_not_full in
      record {
        outcome = acquired;
        elements =
            if leb to_read first_part
            then copy_out p.buffer p.tail to_read
            else copy_out p.buffer p.tail first_part ++ copy_out p.buffer 0 (to_read - first_part);
        woken = woken;
        pipe = record p {
          tail = size_t (p.tail + to_read) % p.capacity;
          count = size_t (p.count + 2 ^ 32 - to_read);
          cv_not_full = left;
        };
      }

  unfoldable pub reset : Pipe A → Transfer A
  reset p =
      let (woken, left) = notify_all p.cv_not_full in
      record {
        outcome = acquired;
        elements = [];
        woken = woken;
        pipe = record p { count = 0; head = 0; tail = 0; cv_not_full = left };
      }
