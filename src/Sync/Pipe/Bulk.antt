-- ===== src/Sync/Pipe/Bulk.antt =====
-- The bulk transfers of stk/include/sync/stk_sync_pipe.h, element by element.
use bare_metal_rtos.Sync.Pipe.{copy_in, size_t, stored, Pipe, next}
use bare_metal_rtos.Base.{
  if◌then◌else◌, leb, inr, inl, update, ◌-◌, ap₂, leb, Bool-cases, sym, refl, ◌∙◌, ap, ◌^◌, arith,
  drop, ◌%◌, ◌<◌, ◌≡◌, length, take, ◌++◌, ◌+◌, List, ◌≤◌, ℕ, zero, suc, [], ◌∷◌,
}
use native.Mathlib.Nat.{zero-add, mod-eq-sub-mod, mod-eq_of_lt, mod_self}

pub next_inner : (size i : ℕ) → i + 1 < size → size ≤ 65534 → next size i ≡ i + 1
unfolding next
next_inner size i l k =
    let w : (i + 1) % 2 ^ 32 ≡ i + 1 = omega arith in ap (λ n. n % size) w ∙ mod-eq_of_lt l

pub small_word : (n : ℕ) → n ≤ 65534 → size_t n ≡ n
small_word n h = omega arith

-- Past the end of the buffer.
pub wrap_word :
    (size h n : ℕ)
    → size ≤ 65534
    → h < size
    → size - h < n
    → n ≤ size
    → size_t (n - (size - h)) % size ≡ size_t (h + n) % size
wrap_word size h n small l far k =
    let e1 : size_t (n - (size - h)) ≡ (h + n) - size = omega arith in
    let e2 : size_t (h + n) ≡ h + n = omega arith in
    ap (λ m. m % size) e1 ∙ sym (ap (λ m. m % size) e2 ∙ mod-eq-sub-mod (omega arith))

module _ {A : Type 0} where
  pub take-length : (n : ℕ) (xs : List A) → n ≤ length xs → length (take n xs) ≡ n
  take-length zero xs h = refl
  take-length (suc n) [] h = absurd (omega arith)
  take-length (suc n) (x ∷ xs) h = ap suc (take-length n xs (omega arith))

  length-drop : (n : ℕ) (xs : List A) → length (drop n xs) ≡ length xs - n
  length-drop zero xs = omega arith
  length-drop (suc n) [] = omega arith
  length-drop (suc n) (x ∷ xs) = omega (arith, length-drop n xs)

  take-nil : (n : ℕ) → take {A = A} n [] ≡ []
  take-nil zero = refl
  take-nil (suc n) = refl

  pub take-add : (f n : ℕ) (xs : List A) → take (f + n) xs ≡ take f xs ++ take n (drop f xs)
  take-add zero n xs = ap (λ m. take m xs) (omega arith)
  take-add (suc f) n [] = take-nil (suc f + n) ∙ sym (take-nil n)
  take-add (suc f) n (x ∷ xs) =
      let e : suc f + n ≡ suc (f + n) = omega arith in
      ap (λ m. take m (x ∷ xs)) e ∙ ap (λ l. x ∷ l) (take-add f n xs)

  -- Write() once for each element, without waking a task.
  unfoldable pub write_each : List A → Pipe A → Pipe A
  write_each [] p = p
  write_each (x ∷ xs) p = write_each xs (stored x p)

  write_each-append :
      (xs ys : List A) (p : Pipe A) → write_each (xs ++ ys) p ≡ write_each ys (write_each xs p)
  unfolding write_each
  write_each-append [] ys p = refl
  write_each-append (x ∷ xs) ys p = write_each-append xs ys (stored x p)

module _ {A : Type 0} (p : Pipe A) (small : p.capacity ≤ 65534) where
  abbrev at : (ℕ → A) → ℕ → ℕ → Pipe A
  at b h c = record p { buffer = b; head = h; count = c }

  -- Up to the end of the buffer.
  write_each-copy_in :
      (xs : List A) (b : ℕ → A) (h c : ℕ)
      → h < p.capacity
      → h + length xs ≤ p.capacity
      → c + length xs ≤ p.capacity
      → write_each xs (at b h c)
        ≡ at (copy_in b h xs) (size_t (h + length xs) % p.capacity) (size_t (c + length xs))
  unfolding write_each copy_in next
  write_each-copy_in [] b h c l i k =
      let e1 : size_t (h + 0) % p.capacity ≡ h =
        (let w : size_t (h + 0) ≡ h = omega (arith, small) in
          ap (λ n. n % p.capacity) w ∙ mod-eq_of_lt l) in
      let e2 : size_t (c + 0) ≡ c = omega (arith, small) in sym (ap₂ (λ m n. at b m n) e1 e2)
  write_each-copy_in (x ∷ []) b h c l i k = refl
  write_each-copy_in (x ∷ y ∷ xs) b h c l i k =
      let e1 = next_inner p.capacity h (omega arith) small in
      let e2 = small_word (c + 1) (omega arith) in
      let e3 : (h + 1) + length (y ∷ xs) ≡ h + length (x ∷ y ∷ xs) = omega arith in
      let e4 : (c + 1) + length (y ∷ xs) ≡ c + length (x ∷ y ∷ xs) = omega arith in
      ap₂ (λ m n. write_each (y ∷ xs) (at (update b h x) m n)) e1 e2
      ∙ write_each-copy_in (y ∷ xs) (update b h x) (h + 1) (c + 1) (omega arith) (omega arith)
          (omega arith)
      ∙ ap₂ (λ m n. at (copy_in b h (x ∷ y ∷ xs)) (size_t m % p.capacity) (size_t n)) e3 e4

  -- What the transfer stores of `n` elements, in one part or in two.
  abbrev parts : (ℕ → A) → ℕ → ℕ → List A → ℕ → A
  parts b h n xs =
      if leb n (p.capacity - h)
      then copy_in b h (take n xs)
      else copy_in (copy_in b h (take (p.capacity - h) xs)) 0
          (take (n - (p.capacity - h)) (drop (p.capacity - h) xs))

  -- The writing goes round the end of the buffer.
  write_each-wrap :
      (ys zs : List A) (b : ℕ → A) (h c : ℕ)
      → h < p.capacity
      → h + length ys ≡ p.capacity
      → length zs ≤ h
      → c + length ys + length zs ≤ p.capacity
      → write_each (ys ++ zs) (at b h c)
        ≡ at
            (copy_in (copy_in b h ys) 0 zs)
            (size_t (length zs) % p.capacity)
            (size_t (c + length ys + length zs))
  write_each-wrap ys zs b h c l e i k =
      let w : size_t (h + length ys) ≡ p.capacity = omega (arith, small, e) in
      let e1 : size_t (h + length ys) % p.capacity ≡ 0 =
        ap (λ n. n % p.capacity) w ∙ mod_self p.capacity in
      let e2 = small_word (c + length ys) (omega (arith, small, k)) in
      write_each-append ys zs (at b h c)
      ∙ ap (write_each zs) (write_each-copy_in ys b h c l (omega (arith, e)) (omega (arith, k)))
      ∙ ap₂ (λ m n. write_each zs (at (copy_in b h ys) m n)) e1 e2
      ∙ write_each-copy_in zs (copy_in b h ys) 0 (c + length ys) (omega (arith, l))
          (omega (arith, i, l)) (omega (arith, k))
      ∙ ap
          (λ m.
            at (copy_in (copy_in b h ys) 0 zs) (size_t m % p.capacity)
              (size_t (c + length ys + length zs)))
          (zero-add (length zs))

  pub write_each-parts :
      (b : ℕ → A) (h c n : ℕ) (xs : List A)
      → h < p.capacity
      → n ≤ length xs
      → c + n ≤ p.capacity
      → write_each (take n xs) (at b h c)
        ≡ at (parts b h n xs) (size_t (h + n) % p.capacity) (size_t (c + n))
  write_each-parts b h c n xs l i k = elim (Bool-cases (leb n (p.capacity - h))) [
    | inl z ↦ rw z (
        let e = take-length n xs i in
        write_each-copy_in (take n xs) b h c l (ground (arith, e, z)) (omega (arith, e))
        ∙ ap (λ m. at (copy_in b h (take n xs)) (size_t (h + m) % p.capacity) (size_t (c + m))) e)
    | inr z ↦ rw z (
        let f = p.capacity - h in
        let m = n - f in
        let far : f < n = ground (arith, z) in
        let split : take n xs ≡ take f xs ++ take m (drop f xs) =
          ap (λ r. take r xs) (omega (arith, far)) ∙ take-add f m xs in
        let e1 = take-length f xs (omega (arith, far, i)) in
        let e2 = take-length m (drop f xs) (omega (arith, length-drop f xs, i)) in
        let round : size_t m % p.capacity ≡ size_t (h + n) % p.capacity =
          wrap_word p.capacity h n small l far (omega (arith, k)) in
        ap (λ r. write_each r (at b h c)) split
        ∙ write_each-wrap (take f xs) (take m (drop f xs)) b h c l (omega (arith, e1, l))
            (omega (arith, e2, k, l)) (omega (arith, e1, e2, far, k))
        ∙ ap₂
            (λ u v.
              at (copy_in (copy_in b h (take f xs)) 0 (take m (drop f xs))) (size_t v % p.capacity)
                (size_t (c + u + v)))
            e1 e2
        ∙ ap₂ (λ u v. at (copy_in (copy_in b h (take f xs)) 0 (take m (drop f xs))) u (size_t v))
            round (omega (arith, far)))
  ]
