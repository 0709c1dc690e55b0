-- ===== src/Sync/Pipe/Stream.antt =====
-- The pipe of stk/include/sync/stk_sync_pipe.h as a stream of elements.
use native.Mathlib.Nat.{mod-eq_of_lt, mod-eq-sub-mod, mod_self, zero-add, suc-add}
use bare_metal_rtos.Sync.MessageQueue.Window.{next_inner}
use bare_metal_rtos.Sync.Pipe.Bulk.{wrap_word, write_each}
use bare_metal_rtos.Sync.MessageQueue.{next, size_t}
use bare_metal_rtos.Sync.MessageQueue.Window.{
  read, IsEnd, next_cases, next_in, read_snoc, read-update,
}
use bare_metal_rtos.Sync.Pipe.{copy_out, Pipe, stored, next as pipe_next}
use bare_metal_rtos.Base.{
  if◌then◌else◌, leb, length-append, inr, leb, Bool-cases, zero, ◌-◌, inl, dec_lt, ◌⊎◌, ◌%◌,
  update_same, append_assoc, ap₂, ◌∙◌, ap, append-nil, sym, update, arith, length, refl, ◌++◌, ◌+◌,
  ◌≤◌, List, ◌<◌, ◌≡◌, ℕ, suc, [], ◌∷◌,
}

pub record IsValid {A : Type 0} (p : Pipe A) : Type 0 where
  pub in_head : p.head < p.capacity
  pub in_tail : p.tail < p.capacity
  pub in_count : p.count ≤ p.capacity
  pub ends : IsEnd p.capacity p.tail p.count p.head
  pub limit : p.capacity ≤ 65534

-- The elements in the pipe, the one that is read next first.
abbrev pub contents : {A : Type 0} → Pipe A → List A
contents p = read p.capacity p.buffer p.count p.tail

-- The slots follow each other as in the message queue.
next-next : (size i : ℕ) → pipe_next size i ≡ next size i
unfolding pipe_next next
next-next size i = refl

module _ {A : Type 0} where
  stored-IsValid : (x : A) (p : Pipe A) → IsValid p → p.count < p.capacity → IsValid (stored x p)
  stored-IsValid x p v l =
      let c = next_cases p.capacity p.head v.in_head v.limit in
      let e : size_t (p.count + 1) ≡ p.count + 1 = omega (arith, v.limit) in
      let f = next-next p.capacity p.head in
      record {
        in_head = rw f (next_in p.capacity v.limit p.head v.in_head);
        in_tail = v.in_tail;
        in_count = omega arith;
        ends = rw f (ground (arith, c, v.ends, v.in_tail));
        limit = v.limit;
      }

  contents-stored :
      (x : A) (p : Pipe A)
      → IsValid p
      → p.count < p.capacity
      → contents (stored x p) ≡ contents p ++ x ∷ []
  contents-stored x p v l =
      let e : size_t (p.count + 1) ≡ suc p.count = omega (arith, v.limit) in
      let b = update p.buffer p.head x in
      ap (λ n. read p.capacity b n p.tail) e
      ∙ read_snoc p.capacity v.limit b p.count p.tail p.head v.in_tail v.in_head l v.ends
      ∙ ap₂ (λ xs y. xs ++ y ∷ [])
          (read-update p.capacity v.limit p.buffer x p.head p.count p.tail v.in_tail v.in_head
            (ground (arith, v.ends)))
          (update_same p.buffer p.head x)

  -- One element after the other.
  pub write_each_lem :
      (xs : List A) (p : Pipe A)
      → IsValid p
      → p.count + length xs ≤ p.capacity
      → IsValid (write_each xs p)
        × (contents (write_each xs p) ≡ contents p ++ xs)
        × ((write_each xs p).count ≡ p.count + length xs)
        × ((write_each xs p).capacity ≡ p.capacity)
  unfolding write_each
  write_each_lem [] p v l = (v, sym (append-nil (contents p)), omega arith, refl)
  write_each_lem (x ∷ xs) p v l =
      let e : size_t (p.count + 1) ≡ p.count + 1 = omega (arith, v.limit) in
      let (w, f, g, h) =
        write_each_lem xs (stored x p) (stored-IsValid x p v (omega arith)) (omega (arith, e)) in
      (
        w,
        f
            ∙ ap (λ l. l ++ xs) (contents-stored x p v (omega arith))
            ∙ append_assoc (contents p) (x ∷ []) xs,
        omega (arith, g, e),
        h,
      )

-- The index behind `n` slots from `i` on.
pub wrap_cases :
    (size i n : ℕ)
    → size ≤ 65534
    → i < size
    → n ≤ size
    → ((i + n < size) × (size_t (i + n) % size ≡ i + n))
      ⊎ ((size ≤ i + n) × (size_t (i + n) % size + size ≡ i + n))
wrap_cases size i n small l k =
    let e : size_t (i + n) ≡ i + n = omega arith in
    elim (dec_lt (i + n) size) [
      | yes h ↦ inl (h, ap (λ m. m % size) e ∙ mod-eq_of_lt h)
      | no h ↦
          let f : size_t (i + n) % size ≡ (i + n - size) % size =
            ap (λ m. m % size) e ∙ mod-eq-sub-mod (omega (arith, h)) in
          let g : (i + n - size) % size ≡ i + n - size = mod-eq_of_lt (omega arith) in
          inr (omega (arith, h), omega (arith, f, g, h))
    ]

module _ {A : Type 0} (size : ℕ) (small : size ≤ 65534) (b : ℕ → A) where
  read-copy_out :
      (n m t : ℕ)
      → t < size
      → t + n ≤ size
      → read size b (n + m) t ≡ copy_out b t n ++ read size b m (size_t (t + n) % size)
  unfolding copy_out read next
  read-copy_out zero m t l k =
      let e1 : size_t (t + 0) % size ≡ t =
        (let w : size_t (t + 0) ≡ t = omega arith in ap (λ n. n % size) w ∙ mod-eq_of_lt l) in
      ap₂ (λ i j. read size b i j) (zero-add m) (sym e1)
  read-copy_out (suc zero) m t l k =
      ap (λ i. read size b i t) (suc-add zero m)
      ∙ ap (λ i. b t ∷ read size b i (next size t)) (zero-add m)
  read-copy_out (suc (suc n)) m t l k =
      let e : t + 1 + suc n ≡ t + suc (suc n) = omega arith in
      ap (λ i. read size b i t) (suc-add (suc n) m)
      ∙ ap (λ i. b t ∷ read size b (suc n + m) i) (next_inner size t (omega arith) small)
      ∙ ap (λ l. b t ∷ l) (read-copy_out (suc n) m (t + 1) (omega arith) (omega arith))
      ∙ ap (λ i. b t ∷ (copy_out b (t + 1) (suc n) ++ read size b m (size_t i % size))) e

  length-copy_out : (n i : ℕ) → length (copy_out b i n) ≡ n
  unfolding copy_out
  length-copy_out zero i = refl
  length-copy_out (suc n) i = ap suc (length-copy_out n (i + 1))

  -- What the transfer reads of `n` elements, in one part or in two.
  abbrev pub parts_out : ℕ → ℕ → List A
  parts_out n t =
      if leb n (size - t)
      then copy_out b t n
      else copy_out b t (size - t) ++ copy_out b 0 (n - (size - t))

  pub parts_out-read :
      (n m t : ℕ)
      → t < size
      → n ≤ size
      → (read size b (n + m) t ≡ parts_out n t ++ read size b m (size_t (t + n) % size))
        × (length (parts_out n t) ≡ n)
  parts_out-read n m t l k = elim (Bool-cases (leb n (size - t))) [
    | inl z ↦ rw z (read-copy_out n m t l (ground (arith, z)), length-copy_out n t)
    | inr z ↦
        let f = size - t in
        let r = n - f in
        let far : f < n = ground (arith, z) in
        let w : size_t (t + f) ≡ size = omega (arith, l) in
        let e1 : size_t (t + f) % size ≡ 0 = ap (λ i. i % size) w ∙ mod_self size in
        let e2 : n + m ≡ f + (r + m) = omega (arith, far) in
        let e3 : size_t (0 + r) % size ≡ size_t (t + n) % size =
          ap (λ i. size_t i % size) (zero-add r) ∙ wrap_word size t n small l far k in
        rw z (
          ap (λ i. read size b i t) e2
              ∙ read-copy_out f (r + m) t l (omega (arith, l))
              ∙ ap (λ i. copy_out b t f ++ read size b (r + m) i) e1
              ∙ ap (λ x. copy_out b t f ++ x)
                  (read-copy_out r m 0 (omega (arith, l)) (omega (arith, far, k, l)))
              ∙ ap (λ i. copy_out b t f ++ (copy_out b 0 r ++ read size b m i)) e3
              ∙ sym (
                  append_assoc (copy_out b t f) (copy_out b 0 r)
                    (read size b m (size_t (t + n) % size))),
          length-append (copy_out b t f) (copy_out b 0 r)
              ∙ omega (arith, length-copy_out f t, length-copy_out r 0, far),
        )
  ]
