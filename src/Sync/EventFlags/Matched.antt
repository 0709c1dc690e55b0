-- ===== src/Sync/EventFlags/Matched.antt =====
-- The flags that a successful wait returns and clears.
use bare_metal_rtos.Base.{
  ℕ, ◌-◌, ◌^◌, ◌≡◌, ◌≢◌, ◌<◌, arith, ap, ◌∙◌, sym, Bool, true, some, bit_and, min,
}
use bare_metal_rtos.Base.Int.{ℤ}
use bare_metal_rtos.Base.Bits.{bit, bit-bit_and, bit-bit_not, bit_and-lt, bit_not, bit-le}
use bare_metal_rtos.Sync.EventFlags.{EventFlags, returns, is_satisfied, take, wait_loop}

-- `r` are the flags set of those waited for, and `s'` is `s` without them, unless they are to stay.
pub record Matches (flags options r : ℕ) (s s' : EventFlags) : Type 0 where
  pub some_flag : r ≢ 0
  pub matched : (i : ℕ) → bit i r ≡ min (bit i s.flags) (bit i flags)
  pub kept : bit_and options 2 ≢ 0 → s'.flags ≡ s.flags
  pub cleared :
      bit_and options 2 ≡ 0 → (i : ℕ) → i < 32 → bit i s'.flags ≡ bit i s.flags - bit i flags
  pub same_waiters : s'.cv ≡ s.cv

module _ (flags options : ℕ) (s : EventFlags) (ok : is_satisfied flags options s ≡ true)
    (ne : flags ≢ 0) (word : s.flags < 2 ^ 32) where
  -- With either option the flags returned are those set of those waited for.
  take_matched : (take flags options s).0 ≡ bit_and s.flags flags
  unfolding take
  take_matched = ground arith

  take_some : bit_and s.flags flags ≢ 0
  take_some e = ground arith

  take_kept : bit_and options 2 ≢ 0 → (take flags options s).1 ≡ s
  unfolding take
  take_kept h = ground arith

  take_cleared :
      bit_and options 2 ≡ 0
      → (take flags options s).1.flags ≡ bit_and s.flags (bit_not 32 (take flags options s).0)
  unfolding take
  take_cleared h = ground arith

  take_waiters : (take flags options s).1.cv ≡ s.cv
  unfolding take
  take_waiters = ground arith

  take-Matches : Matches flags options (take flags options s).0 s (take flags options s).1
  take-Matches = record {
    some_flag = λ e. take_some (sym take_matched ∙ e);
    matched = λ i. ap (bit i) take_matched ∙ bit-bit_and i s.flags flags;
    kept = λ h. ap (λ k. k.flags) (take_kept h);
    cleared = λ h i l.
        let fits : (take flags options s).0 < 2 ^ 32 =
          rw take_matched (bit_and-lt 32 s.flags flags word) in
        let e1 = ap (bit i) (take_cleared h) in
        let e2 = bit-bit_and i s.flags (bit_not 32 (take flags options s).0) in
        let e3 = bit-bit_not 32 i (take flags options s).0 l fits in
        let e4 = ap (bit i) take_matched in
        let e5 = bit-bit_and i s.flags flags in
        omega (arith, e1, e2, e3, e4, e5, bit-le i s.flags, bit-le i flags);
    same_waiters = take_waiters;
  }

-- A Wait() for flags that are not zero, whose condition holds on a 32-bit flags word, returns at once exactly
-- those of the flags that are set, at least one; it clears these and no others, or none with OPT_NO_CLEAR.
pub wait_loop-Matches :
    (tid flags options : ℕ) (timed in_isr : Bool) (deadline now : ℤ) (s : EventFlags)
    → is_satisfied flags options s ≡ true
    → flags ≢ 0
    → s.flags < 2 ^ 32
    → (r : ℕ) × (s' : EventFlags) × (wait_loop tid flags options timed deadline in_isr now s
        ≡ some (returns r, s'))
      × Matches flags options r s s'
unfolding wait_loop
wait_loop-Matches tid flags options timed in_isr deadline now s ok ne word = (
  (take flags options s).0,
  (take flags options s).1,
  ground arith,
  take-Matches flags options s ok ne word,
)
