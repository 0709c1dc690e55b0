-- ===== src/Sync/Pipe/Transfers.antt =====
-- What the bulk transfers of stk/include/sync/stk_sync_pipe.h do to the stream of elements.
use bare_metal_rtos.Sync.MessageQueue.Window.{length-read, read}
use bare_metal_rtos.Sync.Pipe.Bulk.{take-length, write_each-parts, write_each}
use bare_metal_rtos.Sync.Pipe.Stream.{
  parts_out, wrap_cases, write_each_lem, parts_out-read, contents, IsValid,
}
use bare_metal_rtos.Sync.Pipe.{size_t, Waiter, Pipe, drain_locked, write_part}
use bare_metal_rtos.Base.{
  refl, [], ◌∷◌, zero, suc, zero, length-append, suc, append-nil, ◌∷◌, ◌≤◌, ◌%◌, sym, ◌∙◌, subst,
  ap, ◌^◌, ◌+◌, arith, ◌-◌, min, length, take, ◌++◌, ◌≡◌, List, ℕ,
}

rest_empty :
    {A : Type 0} (ys zs : List A) (n : ℕ) → length (ys ++ zs) ≡ n → length ys ≡ n → ys ++ zs ≡ ys
rest_empty ys [] n h k = append-nil ys
rest_empty ys (z ∷ zs) n h k = absurd (omega (arith, h, k, length-append ys (z ∷ zs)))

take_all : {A : Type 0} (n : ℕ) (xs : List A) → n ≡ length xs → take n xs ≡ xs
take_all zero [] h = refl
take_all zero (x ∷ xs) h = absurd (omega arith)
take_all (suc n) [] h = refl
take_all (suc n) (x ∷ xs) h = ap (λ l. x ∷ l) (take_all n xs (omega arith))

module _ {A : Type 0} where
  -- WriteBulk() puts as many elements as fit, or all, behind the elements in the pipe, in their order, whether they go
  -- round the end of the buffer or not, and changes the buffer, the write index and the count exactly as writing
  -- them one by one would.
  pub write_part-contents :
      (src : List A) (p : Pipe A)
      → IsValid p
      → IsValid (write_part src p).pipe
        × (contents (write_part src p).pipe
            ≡ contents p ++ take (min (length src) (p.capacity - p.count)) src)
        × ((write_part src p).pipe
            ≡ record (write_each (take (min (length src) (p.capacity - p.count)) src) p) {
              cv_not_empty = (write_part src p).pipe.cv_not_empty;
            })
  unfolding write_part
  write_part-contents src p v =
      let n = min (length src) (p.capacity - p.count) in
      let e =
        write_each-parts p v.limit p.buffer p.head p.count n src v.in_head (omega arith)
          (omega (arith, v.in_count)) in
      let (w, f, g, h) =
        write_each_lem (take n src) p v
          (omega (arith, take-length n src (omega arith), v.in_count)) in
      let left = (write_part src p).pipe.cv_not_empty in
      let same : record (write_each (take n src) p) { cv_not_empty = left }
          ≡ (write_part src p).pipe =
        ap (λ (q : Pipe A). record q { cv_not_empty = left }) e in
      (subst IsValid same (waking w), ap contents (sym same) ∙ f, sym same)
    where
      waking :
          {q : Pipe A} {ws : List Waiter} → IsValid q → IsValid (record q { cv_not_empty = ws })
      waking w = record {
        in_head = w.in_head;
        in_tail = w.in_tail;
        in_count = w.in_count;
        ends = w.ends;
        limit = w.limit;
      }

  -- DrainLocked() takes the first elements out of the pipe, in their order, as many as asked for or all, whether they go
  -- round the end of the buffer or not.
  pub drain_locked-contents :
      (n : ℕ) (p : Pipe A)
      → IsValid p
      → IsValid (drain_locked n p).pipe
        × (contents p ≡ (drain_locked n p).elements ++ contents (drain_locked n p).pipe)
        × (length (drain_locked n p).elements ≡ min n p.count)
  unfolding drain_locked
  drain_locked-contents n p v =
      let r = min n p.count in
      let m = p.count - r in
      let (e, f) =
        parts_out-read p.capacity v.limit p.buffer r m p.tail v.in_tail
          (omega (arith, v.in_count)) in
      let g : size_t (p.count + 2 ^ 32 - r) ≡ m = omega (arith, v.in_count, v.limit) in
      let c = wrap_cases p.capacity p.tail r v.limit v.in_tail (omega (arith, v.in_count)) in
      (
        record {
          in_head = v.in_head;
          in_tail = ground (arith, c, v.in_tail, v.in_count);
          in_count = omega (arith, g, v.in_count);
          ends = rw g (ground (arith, c, v.ends, v.in_tail, v.in_count, v.in_head));
          limit = v.limit;
        },
        ap (λ i. read p.capacity p.buffer i p.tail) (omega (arith, v.in_count))
            ∙ e
            ∙ ap
                (λ i.
                  parts_out p.capacity v.limit p.buffer r p.tail
                  ++ read p.capacity p.buffer i (size_t (p.tail + r) % p.capacity))
                (sym g),
        f,
      )

  -- Elements that fit into the pipe come out as they went in: a WriteBulk() of all of them, and then a drain of as many
  -- elements as the pipe holds, gives the elements that were in the pipe before and behind them the new ones.
  pub drain_locked-write_part :
      (src : List A) (p : Pipe A)
      → IsValid p
      → p.count + length src ≤ p.capacity
      → (drain_locked (p.count + length src) (write_part src p).pipe).elements ≡ contents p ++ src
  drain_locked-write_part src p v h =
      let (w, f, g) = write_part-contents src p v in
      let q = (write_part src p).pipe in
      let all = take_all (min (length src) (p.capacity - p.count)) src (omega (arith, h)) in
      let holds : contents q ≡ contents p ++ src = f ∙ ap (λ l. contents p ++ l) all in
      let (w2, e, n) = drain_locked-contents (p.count + length src) q w in
      let total : length (contents p ++ src) ≡ p.count + length src =
        length-append (contents p) src
        ∙ ap (λ m. m + length src) (length-read p.capacity p.buffer p.count p.tail) in
      let counted : q.count ≡ p.count + length src =
        sym (length-read q.capacity q.buffer q.count q.tail) ∙ ap length holds ∙ total in
      let out = (drain_locked (p.count + length src) q).elements in
      let left = contents (drain_locked (p.count + length src) q).pipe in
      sym (
        rest_empty out left (p.count + length src) (ap length (sym e ∙ holds) ∙ total)
          (omega (arith, n, counted)))
      ∙ sym e
      ∙ holds
