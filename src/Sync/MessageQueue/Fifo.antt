-- ===== src/Sync/MessageQueue/Fifo.antt =====
-- A message queue is a bounded double-ended queue of the messages between its tail and its head.
use bare_metal_rtos.Base.{
  ℕ, ◌≡◌, ◌≢◌, ◌≤◌, ◌<◌, arith, ap, Bool, Option, none, some, List, [], ◌∷◌, ◌++◌, ◌⊎◌, inl, length,
  ◌==◌, if◌then◌else◌,
}
use bare_metal_rtos.Base.Int.{ℤ}
use bare_metal_rtos.Sync.Semaphore.{acquired}
use bare_metal_rtos.Sync.MessageQueue.{
  MessageQueue, Return, init, put, put_front, get_loop, peek_loop, reset,
}
use bare_metal_rtos.Sync.MessageQueue.Window.{read, IsEnd}

pub record IsValid {A : Type 0} (q : MessageQueue A) : Type 0 where
  pub in_head : q.head < q.capacity
  pub in_tail : q.tail < q.capacity
  pub in_count : q.count ≤ q.capacity
  pub ends : IsEnd q.capacity q.tail q.count q.head
  pub limit : q.capacity ≤ 65534

-- The messages in the queue, the one that Get() reads next first.
abbrev pub contents : {A : Type 0} → MessageQueue A → List A
contents q = read q.capacity q.buffer q.count q.tail

-- The calls, with the calling task and the timeout.
pub data Call (A : Type 0) : Type 0 where
  puts put_fronts : ℕ → A → ℤ → Call A
  gets peeks : ℕ → ℤ → Call A
  resets : Call A

module _ {A : Type 0} where
  unfoldable pub perform : Call A → Bool → MessageQueue A → Option (Return A)
  perform (puts tid msg timeout) in_isr q = put tid msg timeout in_isr q
  perform (put_fronts tid msg timeout) in_isr q = put_front tid msg timeout in_isr q
  perform (gets tid timeout) in_isr q = get_loop tid timeout in_isr q
  perform (peeks tid timeout) in_isr q = peek_loop tid timeout in_isr q
  perform resets in_isr q = some (reset q)

  -- What a bounded double-ended queue does: the message that the call reads, and the messages after it, or
  -- nothing where the call has to wait.
  unfoldable pub spec_get : List A → Option (Option A × List A)
  spec_get [] = none
  spec_get (x ∷ xs) = some (some x, xs)

  unfoldable pub spec_peek : List A → Option (Option A × List A)
  spec_peek [] = none
  spec_peek (x ∷ xs) = some (some x, x ∷ xs)

  unfoldable pub spec : Call A → ℕ → List A → Option (Option A × List A)
  unfolding spec_get spec_peek
  spec (puts tid msg timeout) capacity xs =
      if length xs == capacity then none else some (none, xs ++ msg ∷ [])
  spec (put_fronts tid msg timeout) capacity xs =
      if length xs == capacity then none else some (none, msg ∷ xs)
  spec (gets tid timeout) capacity xs = spec_get xs
  spec (peeks tid timeout) capacity xs = spec_peek xs
  spec resets capacity xs = some (none, [])

  -- The call gives `r` on `q`, as the bounded queue does on the messages in `q`.
  pub record Refines (c : Call A) (q : MessageQueue A) (r : Return A) : Type 0 where
    pub keeps : IsValid r.queue
    pub same_capacity : r.queue.capacity ≡ q.capacity
    pub effect :
        ((r.outcome ≡ acquired)
          × (spec c q.capacity (contents q) ≡ some (r.message, contents r.queue)))
        ⊎ ((r.outcome ≢ acquired)
            × (spec c q.capacity (contents q) ≡ none)
            × (contents r.queue ≡ contents q)
            × (r.message ≡ none))

count-init :
    {A : Type 0} (buffer : ℕ → A) (capacity msg_size : ℕ) (q : MessageQueue A)
    → init buffer capacity msg_size ≡ some q
    → q.count ≡ 0
unfolding init
count-init buffer capacity size q h = ground arith

-- A new message queue is valid and empty.
pub init_empty :
    {A : Type 0} (buffer : ℕ → A) (capacity msg_size : ℕ) (q : MessageQueue A)
    → init buffer capacity msg_size ≡ some q
    → IsValid q × (contents q ≡ [])
unfolding init read
init_empty buffer capacity size q h = (
  record {
    in_head = ground arith;
    in_tail = ground arith;
    in_count = ground arith;
    ends = inl (ground arith);
    limit = ground arith;
  },
  ap (λ n. read q.capacity q.buffer n q.tail) (count-init buffer capacity size q h),
)
