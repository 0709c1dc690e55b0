-- ===== src/Base/Bits.antt =====
-- Words as sequences of binary digits: what the digits of `|`, `&`, `~` and `1 << n` are.
use Prim.Native.Nat.{
  bit_and, bit_and-bitwise, ℕ, zero, suc, ◌+◌, ◌-◌, ◌*◌, ◌/◌, ◌%◌, ◌^◌, ◌≤◌, ◌<◌, min, max, digits,
  bit_and, bit_or, bit_and-bitwise, bit_or-bitwise,
}
use mathlib.Core.Path.{◌≡◌, refl, ap, sym, ◌∙◌}
use mathlib.Core.Logic.{◌≢◌}
use native.Mathlib.Nat.{pow-suc}
use native.Mathlib.Decide.{ℕ_discrete}
use native.Mathlib.Omega.{arith}

-- More fuel than digits changes nothing.
digits_fuel :
    (z : ℕ → ℕ) (f : ℕ → ℕ → ℕ) (n m a b : ℕ) → a ≤ n → a ≤ m → digits z f n a b ≡ digits z f m a b
digits_fuel z f zero zero zero b p q = refl
digits_fuel z f zero zero (suc a) b p q = absurd (omega arith)
digits_fuel z f zero (suc m) zero b p q = refl
digits_fuel z f zero (suc m) (suc a) b p q = absurd (omega arith)
digits_fuel z f (suc n) zero zero b p q = refl
digits_fuel z f (suc n) zero (suc a) b p q = absurd (omega arith)
digits_fuel z f (suc n) (suc m) zero b p q = refl
digits_fuel z f (suc n) (suc m) (suc a) b p q =
    ap (λ k. k * 2 + f (suc a % 2) (b % 2))
      (digits_fuel z f n m (suc a / 2) (b / 2) (omega arith) (omega arith))

-- The lowest digit of a disjunction, and the rest.
pub bit_or_halves : (a b : ℕ) → bit_or a b ≡ bit_or (a / 2) (b / 2) * 2 + max (a % 2) (b % 2)
bit_or_halves zero b = omega (arith, bit_or-bitwise 0 b, bit_or-bitwise 0 (b / 2))
bit_or_halves (suc a) b =
    bit_or-bitwise (suc a) b
    ∙ ap (λ k. k * 2 + max (suc a % 2) (b % 2))
        (digits_fuel (λ y. y) max a (suc a / 2) (suc a / 2) (b / 2) (omega arith) (omega arith)
          ∙ sym (bit_or-bitwise (suc a / 2) (b / 2)))

-- The same for a conjunction.
pub bit_and_halves : (a b : ℕ) → bit_and a b ≡ bit_and (a / 2) (b / 2) * 2 + min (a % 2) (b % 2)
bit_and_halves zero b = omega (arith, bit_and-bitwise 0 b, bit_and-bitwise 0 (b / 2))
bit_and_halves (suc a) b =
    bit_and-bitwise (suc a) b
    ∙ ap (λ k. k * 2 + min (suc a % 2) (b % 2))
        (digits_fuel (λ y. 0) min a (suc a / 2) (suc a / 2) (b / 2) (omega arith) (omega arith)
          ∙ sym (bit_and-bitwise (suc a / 2) (b / 2)))

-- Digit `i` of `n`.
unfoldable pub bit : ℕ → ℕ → ℕ
bit zero n = n % 2
bit (suc i) n = bit i (n / 2)

pub bit-le : (i n : ℕ) → bit i n ≤ 1
unfolding bit
bit-le zero n = omega arith
bit-le (suc i) n = bit-le i (n / 2)

pub bit-bit_or : (i a b : ℕ) → bit i (bit_or a b) ≡ max (bit i a) (bit i b)
unfolding bit
bit-bit_or zero a b = omega (arith, bit_or_halves a b)
bit-bit_or (suc i) a b =
    let half : bit_or a b / 2 ≡ bit_or (a / 2) (b / 2) = omega (arith, bit_or_halves a b) in
    ap (bit i) half ∙ bit-bit_or i (a / 2) (b / 2)

pub bit-bit_and : (i a b : ℕ) → bit i (bit_and a b) ≡ min (bit i a) (bit i b)
unfolding bit
bit-bit_and zero a b = omega (arith, bit_and_halves a b)
bit-bit_and (suc i) a b =
    let half : bit_and a b / 2 ≡ bit_and (a / 2) (b / 2) = omega (arith, bit_and_halves a b) in
    ap (bit i) half ∙ bit-bit_and i (a / 2) (b / 2)

pub bit-zero : (i : ℕ) → bit i 0 ≡ 0
unfolding bit
bit-zero zero = refl
bit-zero (suc i) = bit-zero i

-- The digits of `1 << j`.
pub bit-pow_self : (j : ℕ) → bit j (2 ^ j) ≡ 1
unfolding bit
bit-pow_self zero = refl
bit-pow_self (suc j) =
    let half : 2 ^ suc j / 2 ≡ 2 ^ j = omega (arith, pow-suc 2 j) in
    ap (bit j) half ∙ bit-pow_self j

pub bit-pow_ne : (i j : ℕ) → i ≢ j → bit i (2 ^ j) ≡ 0
unfolding bit
bit-pow_ne zero zero h = absurd (h refl)
bit-pow_ne zero (suc j) h = omega (arith, pow-suc 2 j)
bit-pow_ne (suc i) zero h = bit-zero i
bit-pow_ne (suc i) (suc j) h =
    let half : 2 ^ suc j / 2 ≡ 2 ^ j = omega (arith, pow-suc 2 j) in
    ap (bit i) half ∙ bit-pow_ne i j (λ e. h (ap suc e))

-- `~n` in a word of `w` bits.
abbrev pub bit_not : ℕ → ℕ → ℕ
bit_not w n = 2 ^ w - 1 - n

pub bit-bit_not : (w i n : ℕ) → i < w → n < 2 ^ w → bit i (bit_not w n) ≡ 1 - bit i n
unfolding bit
bit-bit_not zero i n h k = absurd (omega arith)
bit-bit_not (suc w) zero n h k = omega (arith, pow-suc 2 w)
bit-bit_not (suc w) (suc i) n h k =
    let half : bit_not (suc w) n / 2 ≡ bit_not w (n / 2) = omega (arith, pow-suc 2 w) in
    ap (bit i) half ∙ bit-bit_not w i (n / 2) (omega arith) (omega (arith, pow-suc 2 w))

-- A word is zero if all its digits are.
pub eq_zero_of_bits : (w n : ℕ) → n < 2 ^ w → ((i : ℕ) → i < w → bit i n ≡ 0) → n ≡ 0
unfolding bit
eq_zero_of_bits zero n k h = omega arith
eq_zero_of_bits (suc w) n k h = omega (
  arith,
  eq_zero_of_bits w (n / 2) (omega (arith, pow-suc 2 w)) (λ i l. h (suc i) (omega arith)),
  h 0 (omega arith),
)

-- A word with a digit 1 is not zero.
pub ne-zero_of_bit : (i n : ℕ) → bit i n ≡ 1 → n ≢ 0
ne-zero_of_bit i n h e = omega (arith, bit-zero i, ap (bit i) e)

-- The operations stay in a word of `w` bits.
pub bit_or-lt : (w a b : ℕ) → a < 2 ^ w → b < 2 ^ w → bit_or a b < 2 ^ w
bit_or-lt zero a b h k =
    let ea : a ≡ 0 = omega arith in let eb : b ≡ 0 = omega arith in rw (ea, eb) (omega arith)
bit_or-lt (suc w) a b h k = omega (
  arith,
  pow-suc 2 w,
  bit_or_halves a b,
  bit_or-lt w (a / 2) (b / 2) (omega (arith, pow-suc 2 w)) (omega (arith, pow-suc 2 w)),
)

pub bit_and-lt : (w a b : ℕ) → a < 2 ^ w → bit_and a b < 2 ^ w
bit_and-lt zero a b h = let ea : a ≡ 0 = omega arith in rw ea (omega (arith, bit_and-bitwise 0 b))
bit_and-lt (suc w) a b h = omega (
  arith,
  pow-suc 2 w,
  bit_and_halves a b,
  bit_and-lt w (a / 2) (b / 2) (omega (arith, pow-suc 2 w)),
)

-- `n & (1 << i)` is not zero exactly if digit `i` of `n` is 1.
pub mask_bit : (i n : ℕ) → bit i n ≡ 1 → bit_and n (2 ^ i) ≢ 0
mask_bit i n h = ne-zero_of_bit i _ (omega (arith, bit-bit_and i n (2 ^ i), bit-pow_self i))

pub mask_bit_zero : (w i n : ℕ) → n < 2 ^ w → bit i n ≡ 0 → bit_and n (2 ^ i) ≡ 0
mask_bit_zero w i n k h = eq_zero_of_bits w _ (bit_and-lt w n (2 ^ i) k) digit
  where
    digit : (j : ℕ) → j < w → bit j (bit_and n (2 ^ i)) ≡ 0
    digit j l = elim (ℕ_discrete j i) [
      | yes e ↦ omega (arith, bit-bit_and j n (2 ^ i), ap (λ k. bit k n) e)
      | no ne ↦ omega (arith, bit-bit_and j n (2 ^ i), bit-pow_ne j i ne)
    ]

one-le_pow : (w : ℕ) → 1 ≤ 2 ^ w
one-le_pow zero = omega arith
one-le_pow (suc w) = omega (arith, pow-suc 2 w, one-le_pow w)

-- Powers of two grow.
pub pow-lt_pow : (i w : ℕ) → i < w → 2 ^ i < 2 ^ w
pow-lt_pow i zero h = absurd (omega arith)
pow-lt_pow zero (suc w) h = omega (arith, pow-suc 2 w, one-le_pow w)
pow-lt_pow (suc i) (suc w) h = omega (arith, pow-suc 2 w, pow-suc 2 i, pow-lt_pow i w (omega arith))

-- A word that is not zero has a digit 1.
pub some_bit : (w n : ℕ) → n < 2 ^ w → n ≢ 0 → (i : ℕ) × (i < w) × (bit i n ≡ 1)
unfolding bit
some_bit zero n k h = absurd (omega arith)
some_bit (suc w) n k h = elim (ℕ_discrete (n % 2) 1) [
  | yes e ↦ (0, omega arith, e)
  | no ne ↦
      let (i, l, e) = some_bit w (n / 2) (omega (arith, pow-suc 2 w)) (λ z. h (omega arith)) in
      (suc i, omega arith, e)
]
