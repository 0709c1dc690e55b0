-- ===== src/Sync/MessageQueue/Window.antt =====
-- The slots that a message queue reads: `count` of them from the tail on, around the end of the buffer.
use bare_metal_rtos.Base.{
  ℕ, zero, suc, ◌+◌, ◌%◌, ◌^◌, ◌≡◌, ◌≤◌, ◌<◌, refl, arith, ap, ap₂, sym, ◌∙◌, List, [], ◌∷◌, ◌++◌,
  ◌⊎◌, inl, inr, update, update_other, length, dec_lt,
}
use native.Mathlib.Nat.{mod-eq_of_lt, mod_self}
use bare_metal_rtos.Sync.MessageQueue.{next, prev}

pub next_inner : (size i : ℕ) → i + 1 < size → size ≤ 65534 → next size i ≡ i + 1
unfolding next
next_inner size i l k = ap (λ n. n % size) word ∙ mod-eq_of_lt l
  where
    word : (i + 1) % 2 ^ 32 ≡ i + 1
    word = omega arith

pub next_last : (size i : ℕ) → i + 1 ≡ size → size ≤ 65534 → next size i ≡ 0
unfolding next
next_last size i e k = ap (λ n. n % size) word ∙ mod_self size
  where
    word : (i + 1) % 2 ^ 32 ≡ size
    word = omega arith

-- The slot after a slot.
pub next_cases :
    (size i : ℕ)
    → i < size
    → size ≤ 65534
    → ((i + 1 < size) × (next size i ≡ i + 1)) ⊎ ((i + 1 ≡ size) × (next size i ≡ 0))
next_cases size i l k = elim (dec_lt (i + 1) size) [
  | yes h ↦ inl (h, next_inner size i h k)
  | no n ↦ inr (omega arith, next_last size i (omega arith) k)
]

pub prev_cases :
    (size i : ℕ) → i < size → ((i ≡ 0) × (prev size i + 1 ≡ size)) ⊎ (prev size i + 1 ≡ i)
unfolding prev
prev_cases size i l = ground arith

pub next-prev : (size i : ℕ) → i < size → size ≤ 65534 → next size (prev size i) ≡ i
next-prev size i l k = elim (prev_cases size i l) [
  | inl (z, e) ↦ next_last size (prev size i) e k ∙ sym z
  | inr e ↦ next_inner size (prev size i) (omega arith) k ∙ e
]

pub next_in : (size : ℕ) → size ≤ 65534 → (i : ℕ) → i < size → next size i < size
next_in size small i l = elim (next_cases size i l small) [
  | inl (h, e) ↦ omega arith
  | inr (h, e) ↦ omega arith
]

-- `h` is the slot behind `n` slots from `i` on.
abbrev pub IsEnd : ℕ → ℕ → ℕ → ℕ → Type 0
IsEnd size i n h = (h ≡ i + n) ⊎ (h + size ≡ i + n)

-- `h` is none of the `n` slots from `i` on.
abbrev pub IsOutside : ℕ → ℕ → ℕ → ℕ → Type 0
IsOutside size i n h = (i + n ≤ h) ⊎ ((h < i) × (i + n ≤ h + size))

module _ {A : Type 0} (size : ℕ) where
  unfoldable pub read : (ℕ → A) → ℕ → ℕ → List A
  read buffer zero i = []
  read buffer (suc n) i = buffer i ∷ read buffer n (next size i)

  pub length-read : (buffer : ℕ → A) (n i : ℕ) → length (read buffer n i) ≡ n
  unfolding read
  length-read buffer zero i = refl
  length-read buffer (suc n) i = ap suc (length-read buffer n (next size i))

module _ {A : Type 0} (size : ℕ) (small : size ≤ 65534) where
  -- A write outside of the slots that are read changes nothing that is read.
  pub read-update :
      (buffer : ℕ → A) (v : A) (h n i : ℕ)
      → i < size
      → h < size
      → IsOutside size i n h
      → read size (update buffer h v) n i ≡ read size buffer n i
  unfolding read
  read-update buffer v h zero i l k o = refl
  read-update buffer v h (suc n) i l k o = ap₂ ◌∷◌ (update_other buffer h i v (λ e. ground arith)) (
      read-update buffer v h n (next size i) (next_in size small i l) k
        (on (next_cases size i l small)))
    where
      on :
          ((i + 1 < size) × (next size i ≡ i + 1)) ⊎ ((i + 1 ≡ size) × (next size i ≡ 0))
          → IsOutside size (next size i) n h
      on c = ground arith

  -- One slot more is the slot at the end.
  pub read_snoc :
      (buffer : ℕ → A) (n i h : ℕ)
      → i < size
      → h < size
      → n < size
      → IsEnd size i n h
      → read size buffer (suc n) i ≡ read size buffer n i ++ buffer h ∷ []
  unfolding read
  read_snoc buffer zero i h l k lt e = ap (λ j. buffer j ∷ []) (ground arith)
  read_snoc buffer (suc n) i h l k lt e =
      ap (λ xs. buffer i ∷ xs)
        (read_snoc buffer n (next size i) h (next_in size small i l) k (omega arith)
          (on (next_cases size i l small)))
    where
      on :
          ((i + 1 < size) × (next size i ≡ i + 1)) ⊎ ((i + 1 ≡ size) × (next size i ≡ 0))
          → IsEnd size (next size i) n h
      on c = ground arith
