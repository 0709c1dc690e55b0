-- ===== src/Sync/MessageQueue/Tests.antt =====
-- A message queue of three slots through concrete calls.
use bare_metal_rtos.Base.{inr, ℕ, ◌≡◌, refl, arith, false, some, [], ◌∷◌, update}
use bare_metal_rtos.Base.Int.{pos}
use bare_metal_rtos.Sync.MessageQueue.{MessageQueue, Return, init, next}
use bare_metal_rtos.Sync.MessageQueue.Window.{read}
use bare_metal_rtos.Sync.MessageQueue.Fifo.{IsValid, contents, gets, perform, Refines}
use bare_metal_rtos.Sync.MessageQueue.Contract.{perform-Refines}

abbrev blank : ℕ → ℕ
blank i = 0

abbrev empty : MessageQueue ℕ
empty = record {
  buffer = blank;
  capacity = 3;
  count = 0;
  head = 0;
  tail = 0;
  cv_not_empty = [];
  cv_not_full = [];
}

-- A new queue is valid and empty.
init_three : init blank 3 4 ≡ some empty
unfolding init
init_three = refl

-- Two messages around the end of the buffer.
abbrev wrapped : MessageQueue ℕ
wrapped = record {
  buffer = update (update blank 0 7) 2 9;
  capacity = 3;
  count = 2;
  head = 1;
  tail = 2;
  cv_not_empty = [];
  cv_not_full = [];
}

wrapped-IsValid : IsValid wrapped
wrapped-IsValid = record {
  in_head = omega arith;
  in_tail = omega arith;
  in_count = omega arith;
  ends = inr refl;
  limit = omega arith;
}

contents-wrapped : contents wrapped ≡ 9 ∷ 7 ∷ []
unfolding read next
contents-wrapped = refl

perform-Refines_example :
    (r : Return ℕ) × (perform (gets 1 (pos 0)) false wrapped ≡ some r)
    × Refines (gets 1 (pos 0)) wrapped r
perform-Refines_example = perform-Refines (gets 1 (pos 0)) wrapped wrapped-IsValid (omega arith)
