-- ===== src/Sync/MessageQueue/Refine.antt =====
-- Every call on a valid message queue does what it does on a bounded double-ended queue.
use bare_metal_rtos.Base.{
  suc, ◌+◌, ◌-◌, ◌^◌, ◌≡◌, ◌≢◌, ◌<◌, arith, ap, ap₂, ◌∙◌, List, [], ◌∷◌, ◌++◌, update, update_same,
}
use bare_metal_rtos.Sync.WaitList.{Waiter}
use bare_metal_rtos.Sync.MessageQueue.{MessageQueue, next, prev, size_t}
use bare_metal_rtos.Sync.MessageQueue.Window.{
  read, read-update, read_snoc, next_cases, prev_cases, next-prev, next_in,
}
use bare_metal_rtos.Sync.MessageQueue.Fifo.{IsValid, contents}

module _ {A : Type 0} (q : MessageQueue A) (v : IsValid q) where
  -- The queue after a message has been put behind the others.
  abbrev pub with_back : A → List Waiter → MessageQueue A
  with_back msg left = record q {
    buffer = update q.buffer q.head msg;
    head = next q.capacity q.head;
    count = size_t (q.count + 1);
    cv_not_empty = left;
  }

  abbrev pub with_front : A → List Waiter → MessageQueue A
  with_front msg left = record q {
    buffer = update q.buffer (prev q.capacity q.tail) msg;
    tail = prev q.capacity q.tail;
    count = size_t (q.count + 1);
    cv_not_empty = left;
  }

  abbrev pub without_first : List Waiter → MessageQueue A
  without_first left = record q {
    tail = next q.capacity q.tail;
    count = size_t (q.count + 2 ^ 32 - 1);
    cv_not_full = left;
  }

  pub with_back-IsValid :
      (msg : A) (left : List Waiter) → q.count < q.capacity → IsValid (with_back msg left)
  with_back-IsValid msg left l =
      let c = next_cases q.capacity q.head v.in_head v.limit in
      let e : size_t (q.count + 1) ≡ q.count + 1 = omega (arith, v.limit) in
      record {
        in_head = next_in q.capacity v.limit q.head v.in_head;
        in_tail = v.in_tail;
        in_count = omega arith;
        ends = ground (arith, c, v.ends, v.in_tail);
        limit = v.limit;
      }

  pub contents-with_back :
      (msg : A) (left : List Waiter)
      → q.count < q.capacity
      → contents (with_back msg left) ≡ contents q ++ msg ∷ []
  contents-with_back msg left l =
      let e : size_t (q.count + 1) ≡ suc q.count = omega (arith, v.limit) in
      let b = update q.buffer q.head msg in
      ap (λ n. read q.capacity b n q.tail) e
      ∙ read_snoc q.capacity v.limit b q.count q.tail q.head v.in_tail v.in_head l v.ends
      ∙ ap₂ (λ xs x. xs ++ x ∷ [])
          (read-update q.capacity v.limit q.buffer msg q.head q.count q.tail v.in_tail v.in_head
            (ground (arith, v.ends, l)))
          (update_same q.buffer q.head msg)

  pub with_front-IsValid :
      (msg : A) (left : List Waiter) → q.count < q.capacity → IsValid (with_front msg left)
  with_front-IsValid msg left l =
      let c = prev_cases q.capacity q.tail v.in_tail in
      let e : size_t (q.count + 1) ≡ q.count + 1 = omega (arith, v.limit) in
      record {
        in_head = v.in_head;
        in_tail = ground (arith, c, v.in_tail);
        in_count = omega arith;
        ends = ground (arith, c, v.ends, v.in_head);
        limit = v.limit;
      }

  pub contents-with_front :
      (msg : A) (left : List Waiter)
      → q.count < q.capacity
      → contents (with_front msg left) ≡ msg ∷ contents q
  unfolding read
  contents-with_front msg left l =
      let e : size_t (q.count + 1) ≡ suc q.count = omega (arith, v.limit) in
      let p = prev q.capacity q.tail in
      let b = update q.buffer p msg in
      let c = prev_cases q.capacity q.tail v.in_tail in
      ap (λ n. read q.capacity b n p) e
      ∙ ap₂ ◌∷◌ (update_same q.buffer p msg) (
          ap (λ i. read q.capacity b q.count i) (next-prev q.capacity q.tail v.in_tail v.limit)
          ∙ read-update q.capacity v.limit q.buffer msg p q.count q.tail v.in_tail
              (ground (arith, c, v.in_tail)) (ground (arith, c, v.in_tail, l)))

  pub without_first-IsValid : (left : List Waiter) → q.count ≢ 0 → IsValid (without_first left)
  without_first-IsValid left n =
      let c = next_cases q.capacity q.tail v.in_tail v.limit in
      let e : size_t (q.count + 2 ^ 32 - 1) + 1 ≡ q.count = omega (arith, v.limit, v.in_count) in
      record {
        in_head = v.in_head;
        in_tail = next_in q.capacity v.limit q.tail v.in_tail;
        in_count = omega (arith, v.in_count);
        ends = ground (arith, c, v.ends, v.in_head, v.in_count);
        limit = v.limit;
      }

  pub contents-without_first :
      (left : List Waiter)
      → q.count ≢ 0
      → contents q ≡ q.buffer q.tail ∷ contents (without_first left)
  unfolding read
  contents-without_first left n =
      let e : q.count ≡ suc (size_t (q.count + 2 ^ 32 - 1)) = omega (arith, v.limit, v.in_count) in
      ap (λ k. read q.capacity q.buffer k q.tail) e
