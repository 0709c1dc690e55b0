-- ===== src/Strategy/Monotonic/LeastResponse.antt =====
-- What CalculateWCRT() of stk/include/strategy/stk_strategy_monotonic.h finds for one task.
use bare_metal_rtos.Strategy.Monotonic.Response.{
  rounds, u32, next_iteration, response_time, TaskTiming, idiv_ceil, interference,
}
use bare_metal_rtos.Base.{
  false, refl, ◌%◌, ◌/◌, dec_lt, if◌then◌else◌, ltb, inr, inl, leb, ◌&&◌, ◌==◌, not, ◌∙◌,
  Bool-cases, some, sym, ap, ◌-◌, ◌<◌, arith, max, ◌*◌, ◌+◌, ◌≡◌, ℕ_discrete, ◌≢◌, List, ◌≤◌, ℕ,
  zero, suc, [], ◌∷◌,
}
use native.Mathlib.Nat.{
  mul_comm, add-mul, le_trans, div-add-mod, mod-lt, mod-eq_of_lt, mul-le-mul_right,
  div-le_of_le-mul,
}

-- How many of the first `n` releases of a task, at the times 0, period, 2 * period and so on, come before `v`.
unfoldable pub released : ℕ → ℕ → ℕ → ℕ
released zero v period = 0
released (suc k) v period = (if ltb (k * period) v then 1 else 0) + released k v period

-- The releases of a task before `v`, of which there are at most `v`. A task without a period has none.
unfoldable pub releases : ℕ → ℕ → ℕ
unfolding released
releases v period = if period == 0 then 0 else released v v period

-- The work that the tasks `higher` release before `v`, without wrap-around.
abbrev pub demand : ℕ → List TaskTiming → ℕ
demand v [] = 0
demand v (x ∷ xs) = releases v x.period * x.duration + demand v xs

-- The time that a task needs if it is ready for a time `v`.
abbrev pub needed : List TaskTiming → TaskTiming → ℕ → ℕ
needed higher x v = x.duration + demand v higher

-- No sum exceeds uint32_t up to the period of the task.
abbrev pub NoWrap : List TaskTiming → TaskTiming → Type 0
NoWrap higher x = needed higher x (max x.duration x.period) < 4294967296

idiv_ceil-zero : (x : ℕ) → idiv_ceil x 0 ≡ 0
unfolding idiv_ceil
idiv_ceil-zero x = refl

zero-test : (y : ℕ) → y ≢ 0 → (y == 0) ≡ false
zero-test y n = ground arith

idiv_ceil-covers : (x y : ℕ) → y ≢ 0 → x ≤ idiv_ceil x y * y
unfolding idiv_ceil
idiv_ceil-covers x y n =
    let f = div-add-mod x y in
    let g : x % y < y = mod-lt x (omega (arith, n)) in
    let c = mul_comm (x / y) y in
    elim (Bool-cases (ltb 0 (x % y))) [
      | inl z ↦ rw (zero-test y n, z) (omega (arith, f, g, c, add-mul (x / y) 1 y))
      | inr z ↦
          rw (zero-test y n, z) (let h : x % y ≡ 0 = ground (arith, z) in omega (arith, f, c, h))
    ]

idiv_ceil-least : (x y c : ℕ) → y ≢ 0 → x ≤ c * y → idiv_ceil x y ≤ c
unfolding idiv_ceil
idiv_ceil-least x y c n h = elim (Bool-cases (ltb 0 (x % y))) [
  | inr z ↦ rw (zero-test y n, z) (div-le_of_le-mul y (omega (arith, h, mul_comm c y)))
  | inl z ↦ elim (dec_lt (x / y) c) [
    | yes p ↦ rw (zero-test y n, z) (omega (arith, p))
    | no p ↦
        let g : c * y ≤ x / y * y = mul-le-mul_right y (omega (arith, p)) in
        let r : 0 < x % y = ground (arith, z) in
        absurd (omega (arith, div-add-mod x y, g, h, r, mul_comm (x / y) y))
  ]
]

idiv_ceil_mono : (x x' y : ℕ) → x ≤ x' → idiv_ceil x y ≤ idiv_ceil x' y
idiv_ceil_mono x x' y h = elim (ℕ_discrete y 0) [
  | yes e ↦ rw (e, idiv_ceil-zero) (omega arith)
  | no n ↦ idiv_ceil-least x y (idiv_ceil x' y) n (le_trans h (idiv_ceil-covers x' y n))
]

-- The k-th release comes before `x` exactly if k is below the quotient.
released_lem : (n x y : ℕ) → y ≢ 0 → n ≤ idiv_ceil x y → released n x y ≡ n
unfolding released
released_lem zero x y n h = refl
released_lem (suc k) x y n h =
    let c : k * y < x = elim (dec_lt (k * y) x) [
      | yes l ↦ l
      | no g ↦ absurd (omega (arith, h, idiv_ceil-least x y k n (omega (arith, g))))
    ] in
    ground (arith, c, released_lem k x y n (omega (arith, h)))

released_past : (m x y : ℕ) → y ≢ 0 → released (m + idiv_ceil x y) x y ≡ idiv_ceil x y
unfolding released
released_past zero x y n =
    let z : 0 + idiv_ceil x y ≡ idiv_ceil x y = omega arith in
    ap (λ k. released k x y) z ∙ released_lem (idiv_ceil x y) x y n (omega arith)
released_past (suc k) x y n =
    let b : idiv_ceil x y ≤ k + idiv_ceil x y = omega arith in
    let c = mul-le-mul_right y b in
    let d = idiv_ceil-covers x y n in
    let z : suc k + idiv_ceil x y ≡ suc (k + idiv_ceil x y) = omega arith in
    ap (λ m. released m x y) z ∙ ground (arith, c, d, released_past k x y n)

-- The rounded quotient counts the releases.
idiv_ceil-releases : (x y : ℕ) → idiv_ceil x y ≡ releases x y
unfolding releases
idiv_ceil-releases x y = elim (ℕ_discrete y 0) [
  | yes e ↦ rw (e, idiv_ceil-zero x) refl
  | no n ↦
      let b : 1 ≤ y = omega (arith, n) in
      let c = idiv_ceil-least x y x n (omega (arith, mul-le-mul_right x b, mul_comm x y)) in
      let e : x - idiv_ceil x y + idiv_ceil x y ≡ x = omega (arith, c) in
      rw (zero-test y n)
        (sym (ap (λ k. released k x y) (sym e) ∙ released_past (x - idiv_ceil x y) x y n))
]

releases_mono : (v w y : ℕ) → v ≤ w → releases v y ≤ releases w y
releases_mono v w y h =
    omega (arith, idiv_ceil_mono v w y h, idiv_ceil-releases v y, idiv_ceil-releases w y)

pub demand_mono : (v w : ℕ) (xs : List TaskTiming) → v ≤ w → demand v xs ≤ demand w xs
demand_mono v w [] h = omega arith
demand_mono v w (x ∷ xs) h =
    omega (arith, mul-le-mul_right x.duration (releases_mono v w x.period h), demand_mono v w xs h)

interference-eq :
    (w0 w : ℕ) (xs : List TaskTiming)
    → w + demand w0 xs < 4294967296
    → interference w0 w xs ≡ w + demand w0 xs
unfolding interference
interference-eq w0 w [] h = omega arith
interference-eq w0 w (x ∷ xs) h =
    let r = releases w0 x.period in
    let a : u32 (r * x.duration) ≡ r * x.duration = mod-eq_of_lt (omega arith) in
    let b : u32 (w + r * x.duration) ≡ w + r * x.duration = mod-eq_of_lt (omega arith) in
    rw (idiv_ceil-releases w0 x.period, a, b)
      (interference-eq w0 (w + r * x.duration) xs (omega arith) ∙ omega arith)

-- The response time `w` of the task `x` behind the tasks `higher`: it is at most every time that is enough for the
-- task, and is enough itself unless it exceeds the period.
pub record IsResponse (higher : List TaskTiming) (x : TaskTiming) (w : ℕ) : Type 0 where
  pub reached : w ≤ x.period → needed higher x w ≡ w
  pub least : (v : ℕ) → needed higher x v ≤ v → w ≤ v

module _ (higher : List TaskTiming) (x : TaskTiming) (fits : NoWrap higher x) where
  round :
      (n w0 w : ℕ)
      → interference w0 x.duration higher ≡ w
      → next_iteration (suc n) higher x.duration x.period w0 ≡ (
          if not (w == w0) && leb w x.period
          then next_iteration n higher x.duration x.period w
          else some w)
  unfolding next_iteration
  round n w0 w e = rw e refl

  next_iteration-IsResponse :
      (fuel w0 : ℕ)
      → 0 < fuel
      → x.period + 1 < fuel + w0
      → w0 ≤ max x.duration x.period
      → w0 ≤ needed higher x w0
      → ((v : ℕ) → needed higher x v ≤ v → w0 ≤ v)
      → (w : ℕ) × (next_iteration fuel higher x.duration x.period w0 ≡ some w)
        × IsResponse higher x w
  next_iteration-IsResponse zero w0 z f m g l = absurd (omega arith)
  next_iteration-IsResponse (suc n) w0 z f m g l =
      let exact : interference w0 x.duration higher ≡ needed higher x w0 =
        interference-eq w0 x.duration higher
          (omega (arith, demand_mono w0 (max x.duration x.period) higher m, fits)) in
      let w = needed higher x w0 in
      let below : (v : ℕ) → needed higher x v ≤ v → w ≤ v =
        λ v p. omega (arith, p, demand_mono w0 v higher (l v p)) in
      elim (Bool-cases (not (w == w0) && leb w x.period)) [
        | inl b ↦
            let (r, e, s) =
              next_iteration-IsResponse n w (ground arith) (ground arith) (ground arith)
                (omega (arith, demand_mono w0 w higher g)) below in
            (r, round n w0 w exact ∙ rw b e, s)
        | inr b ↦ (
          w,
          round n w0 w exact ∙ rw b refl,
          record { reached = λ p. ground arith; least = below },
        )
      ]

  -- The iteration for a task ends, within as many rounds as its period has ticks and two, and gives the worst-case
  -- response time, if no sum exceeds uint32_t: the least time that is enough for the task and all work that the
  -- tasks of higher priority release in it, or more than the period if no time up to the period is enough.
  pub response_time-IsResponse : (w : ℕ) × (response_time higher x ≡ some w) × IsResponse higher x w
  unfolding response_time
  response_time-IsResponse =
      next_iteration-IsResponse (rounds x.period) x.duration (omega arith) (omega arith)
        (omega arith) (omega arith) (λ v p. omega (arith, p))
