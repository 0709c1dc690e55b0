-- ===== src/Strategy/Monotonic/Verdict.antt =====
-- The verdict of CalculateWCRT() of stk/include/strategy/stk_strategy_monotonic.h.
use bare_metal_rtos.Strategy.Monotonic.LeastResponse.{
  response_time-IsResponse, needed, IsResponse, NoWrap,
}
use bare_metal_rtos.Strategy.Monotonic.Response.{TaskTiming, calculate_wcrt, check_from}
use bare_metal_rtos.Base.{
  refl, arith, ◌↔◌, leb, some, true, ◌++◌, ◌≡◌, ◌≤◌, ◌&&◌, Bool, List, ℕ, [], ◌∷◌,
}

-- A time up to the period is enough for the task and all work that the tasks `higher` release in it.
abbrev pub Meets : List TaskTiming → TaskTiming → Type 0
Meets higher x = (v : ℕ) × (v ≤ x.period) × (needed higher x v ≤ v)

-- The same for each of the tasks, behind those of higher priority.
abbrev pub MeetsFrom : List TaskTiming → List TaskTiming → Type 0
MeetsFrom higher [] = Unit {0}
MeetsFrom higher (x ∷ xs) = Meets higher x × MeetsFrom (higher ++ x ∷ []) xs

abbrev pub NoWrapFrom : List TaskTiming → List TaskTiming → Type 0
NoWrapFrom higher [] = Unit {0}
NoWrapFrom higher (x ∷ xs) = NoWrap higher x × NoWrapFrom (higher ++ x ∷ []) xs

verdict :
    (higher : List TaskTiming) (x : TaskTiming) (w : ℕ)
    → IsResponse higher x w
    → (leb w x.period ≡ true) ↔ Meets higher x
verdict higher x w r = (
  (λ h. let p : w ≤ x.period = ground (arith, h) in (w, p, omega (arith, r.reached p))),
  (λ m. let (v, p, q) = m in let l = r.least v q in ground (arith, l, p)),
)

and_both : (a b : Bool) → (a && b) ≡ true → (a ≡ true) × (b ≡ true)
and_both a b h = ground (arith, h)

check_from_lem :
    (xs higher : List TaskTiming)
    → NoWrapFrom higher xs
    → (ok : Bool) × (ws : List ℕ) × (check_from higher xs ≡ some (ok, ws))
      × ((ok ≡ true) ↔ MeetsFrom higher xs)
unfolding check_from
check_from_lem [] higher n = (true, [], refl, ((λ h. tt), (λ m. refl)))
check_from_lem (x ∷ xs) higher (n, ns) =
    let (w, e, r) = response_time-IsResponse higher x n in
    let (ok, ws, f, (there, back)) = check_from_lem xs (higher ++ x ∷ []) ns in
    let (to, from) = verdict higher x w r in
    (
      leb w x.period && ok,
      w ∷ ws,
      rw (e, f) refl,
      (
        (λ h. let (a, b) = and_both (leb w x.period) ok h in (to a, there b)),
        (λ m. rw (from m.0, back m.1) refl),
      ),
    )

-- CalculateWCRT() returns, if no sum exceeds uint32_t, and says that the tasks are schedulable exactly if for each
-- task but the first some time up to its period is enough for it and all work that the tasks before it release in
-- that time. The first task's duration is not compared with its period.
pub calculate_wcrt-Meets :
    (x : TaskTiming) (xs : List TaskTiming)
    → NoWrapFrom (x ∷ []) xs
    → (ok : Bool) × (ws : List ℕ) × (calculate_wcrt (x ∷ xs) ≡ some (ok, x.duration ∷ ws))
      × ((ok ≡ true) ↔ MeetsFrom (x ∷ []) xs)
unfolding calculate_wcrt
calculate_wcrt-Meets x xs n =
    let (ok, ws, e, f) = check_from_lem xs (x ∷ []) n in (ok, ws, rw e refl, f)
