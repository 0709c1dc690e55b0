-- ===== src/Base/Identities.antt =====
-- Lists of object identities: how often one occurs, distinctness, the split round an occurrence,
-- and erasure.
use Prim.Native.Nat.{ℕ, ◌+◌, ◌≤◌, ◌<◌}
use mathlib.Core.Path.{◌≡◌, refl, ap}
use mathlib.Core.Logic.{◌≢◌}
use mathlib.Core.List.{List, [], ◌∷◌, ◌++◌}
use native.Mathlib.Omega.{arith}
use native.Mathlib.Decide.{ℕ_discrete}
use bare_metal_rtos.Base.Tests.{◌==◌, if◌then◌else◌}

-- 1 where the two are one object, and else 0.
abbrev pub same : ℕ → ℕ → ℕ
same x t = if x == t then 1 else 0

unfoldable pub count : ℕ → List ℕ → ℕ
count t [] = 0
count t (x ∷ xs) = same x t + count t xs

-- No identity occurs twice.
abbrev pub Distinct : List ℕ → Type 0
Distinct xs = (t : ℕ) → count t xs ≤ 1

-- The list without the first occurrence of `t`.
unfoldable pub erase : ℕ → List ℕ → List ℕ
erase t [] = []
erase t (x ∷ xs) = if x == t then xs else x ∷ erase t xs

pub count-nil : (t : ℕ) → count t [] ≡ 0
unfolding count
count-nil t = refl

pub count-cons : (t x : ℕ) (xs : List ℕ) → count t (x ∷ xs) ≡ same x t + count t xs
unfolding count
count-cons t x xs = refl

pub count-append : (t : ℕ) (xs ys : List ℕ) → count t (xs ++ ys) ≡ count t xs + count t ys
unfolding count
count-append t [] ys = omega arith
count-append t (x ∷ xs) ys = omega (arith, count-append t xs ys)

pub same_refl : (t : ℕ) → same t t ≡ 1
same_refl t = ground arith

pub same-ne : {x t : ℕ} → x ≢ t → same x t ≡ 0
same-ne h = ground arith

pub ruleset counting = (arith, count-nil, count-cons, count-append, same_refl)

-- A list in which `t` occurs splits round the first occurrence.
pub split_at :
    (t : ℕ) (xs : List ℕ)
    → 0 < count t xs
    → (before : List ℕ) × (after : List ℕ) × (xs ≡ before ++ t ∷ after) × (count t before ≡ 0)
unfolding count
split_at t [] h = absurd (omega arith)
split_at t (x ∷ xs) h = elim (ℕ_discrete x t) [
  | yes e ↦ ([], xs, ap (λ k. k ∷ xs) e, refl)
  | no n ↦
      let (b, a, e, c) = split_at t xs (omega (arith, same-ne n)) in
      (x ∷ b, a, ap (λ l. x ∷ l) e, omega (arith, same-ne n))
]

pub erase-split :
    (t : ℕ) (before after : List ℕ)
    → count t before ≡ 0
    → erase t (before ++ t ∷ after) ≡ before ++ after
unfolding erase count
erase-split t [] after h = ground arith
erase-split t (x ∷ xs) after h = ground (arith, erase-split t xs after)

-- What does not occur is not erased.
pub erase_absent : (t : ℕ) (xs : List ℕ) → count t xs ≡ 0 → erase t xs ≡ xs
unfolding erase count
erase_absent t [] h = refl
erase_absent t (x ∷ xs) h = ground (arith, erase_absent t xs)

pub count-erase_self :
    (t : ℕ) (xs : List ℕ) → 0 < count t xs → count t (erase t xs) + 1 ≡ count t xs
unfolding erase count
count-erase_self t [] h = absurd (omega arith)
count-erase_self t (x ∷ xs) h = ground (arith, count-erase_self t xs)

pub count-erase_ne : (t u : ℕ) (xs : List ℕ) → u ≢ t → count u (erase t xs) ≡ count u xs
unfolding erase count
count-erase_ne t u [] h = refl
count-erase_ne t u (x ∷ xs) h = ground (arith, count-erase_ne t u xs h)

pub count-erase-le : (t u : ℕ) (xs : List ℕ) → count u (erase t xs) ≤ count u xs
unfolding erase count
count-erase-le t u [] = omega arith
count-erase-le t u (x ∷ xs) = ground (arith, count-erase-le t u xs)

pub erase-append_left :
    (t : ℕ) (xs ys : List ℕ) → 0 < count t xs → erase t (xs ++ ys) ≡ erase t xs ++ ys
unfolding erase count
erase-append_left t [] ys h = absurd (omega arith)
erase-append_left t (x ∷ xs) ys h = ground (arith, erase-append_left t xs ys)

pub erase-append_right :
    (t : ℕ) (xs ys : List ℕ) → count t xs ≡ 0 → erase t (xs ++ ys) ≡ xs ++ erase t ys
unfolding erase count
erase-append_right t [] ys h = refl
erase-append_right t (x ∷ xs) ys h = ground (arith, erase-append_right t xs ys)

pub count-erase_cases :
    (t u : ℕ) (xs : List ℕ) → 0 < count t xs → count u xs ≡ same t u + count u (erase t xs)
unfolding erase count
count-erase_cases t u [] h = absurd (omega arith)
count-erase_cases t u (x ∷ xs) h = ground (arith, count-erase_cases t u xs)

pub same-le-one : (t u : ℕ) → same t u ≤ 1
same-le-one t u = ground arith
