-- ===== src/Strategy/FixedPriority/Ready.antt =====
-- The scan for the highest ready level.
use bare_metal_rtos.Base.{subst, ℕ, zero, suc, ◌^◌, ◌≡◌, ◌≢◌, ◌<◌, arith, ℕ_discrete}
use bare_metal_rtos.Base.Bits.{bit, bit-le, mask_bit, mask_bit_zero}
use bare_metal_rtos.Strategy.FixedPriority.{highest_ready}

-- Digit `p` of the word is 1, and no digit from there up to `n` is.
pub record IsHighest (n bitmap p : ℕ) : Type 0 where
  pub below : p < n
  pub set : bit p bitmap ≡ 1
  pub above : (q : ℕ) → p < q → q < n → bit q bitmap ≡ 0

highest_ready-bit : (i bitmap : ℕ) → bit i bitmap ≡ 1 → highest_ready (suc i) bitmap ≡ i
unfolding highest_ready
highest_ready-bit i b h = ground (arith, mask_bit i b h)

highest_ready_zero :
    (w i bitmap : ℕ)
    → bitmap < 2 ^ w
    → bit i bitmap ≡ 0
    → highest_ready (suc i) bitmap ≡ highest_ready i bitmap
unfolding highest_ready
highest_ready_zero w i b k h = ground (arith, mask_bit_zero w i b k h)

IsHighest-suc :
    (w n bitmap : ℕ)
    → bitmap < 2 ^ w
    → bit n bitmap ≡ 0
    → IsHighest n bitmap (highest_ready n bitmap)
    → IsHighest (suc n) bitmap (highest_ready (suc n) bitmap)
IsHighest-suc w n b k z r = rw (highest_ready_zero w n b k z) (record {
  below = omega (arith, r.below);
  set = r.set;
  above = λ q l m. elim (ℕ_discrete q n) [ yes e ↦ rw e z | no ne ↦ r.above q l (omega arith) ];
})

-- In a word of `w` bits that has a digit 1 below `n`, the scan from bit `n - 1` down finds the highest of
-- those digits: its level is below `n`, its digit is 1, and the digits from there up to `n` are 0.
pub highest_ready-IsHighest :
    (w n bitmap i : ℕ)
    → bitmap < 2 ^ w
    → i < n
    → bit i bitmap ≡ 1
    → IsHighest n bitmap (highest_ready n bitmap)
highest_ready-IsHighest w zero b i k h one = absurd (omega arith)
highest_ready-IsHighest w (suc n) b i k h one = elim (ℕ_discrete (bit n b) 1) [
  | yes top ↦
      rw (highest_ready-bit n b top)
        (record { below = omega arith; set = top; above = λ q l m. absurd (omega arith) })
  | no low ↦
      let z : bit n b ≡ 0 = omega (arith, bit-le n b) in
      let ne : i ≢ n = (λ e. low (subst (λ j. bit j b ≡ 1) e one)) in
      IsHighest-suc w n b k z (highest_ready-IsHighest w n b i k (omega arith) one)
]
