-- ===== src/Strategy/SmoothWeighted/Winner.antt =====
-- GetNext() of the smooth weighted strategy.
use bare_metal_rtos.Base.{
  ℕ, ◌≡◌, ◌≢◌, ◌<◌, refl, arith, ap, sym, ◌∙◌, subst, some, none, List, [], ◌∷◌, ◌⊎◌, inl, inr,
  count, Distinct, counting, update, update_same, update_other,
}
use bare_metal_rtos.Base.Int.{ℤ, ◌-ℤ◌, ◌≤ℤ◌, ◌<ℤ◌}
use bare_metal_rtos.Strategy.SmoothWeighted.{
  SmoothWeighted, Scan, scan, scanned, selected, get_next, int32_min,
}
use bare_metal_rtos.Strategy.SmoothWeighted.Selection.{
  candidate, Scanned, first_Scanned, scan-Scanned,
}

-- The task `n` wins: its new weight is the highest, and it alone pays the total weight.
pub record Wins (weight : ℕ → ℤ) (s s' : SmoothWeighted) (n : ℕ) : Type 0 where
  pub runnable : 0 < count n s.tasks
  pub highest :
      (u : ℕ) → 0 < count u s.tasks → candidate weight s.current u ≤ℤ candidate weight s.current n
  pub pays : s'.current n ≡ candidate weight s.current n -ℤ s.total_weight
  pub others : (u : ℕ) → u ≢ n → 0 < count u s.tasks → s'.current u ≡ candidate weight s.current u
  pub sleepers : (u : ℕ) → count u s.tasks ≡ 0 → s'.current u ≡ s.current u
  pub same_tasks : s'.tasks ≡ s.tasks
  pub same_sleep : s'.sleep ≡ s.sleep
  pub same_total : s'.total_weight ≡ s.total_weight

module _ (weight : ℕ → ℤ) (s : SmoothWeighted) where
  abbrev pub paid : Scan → ℕ → SmoothWeighted
  paid r n = record s { current = update r.weights n (r.max_weight -ℤ s.total_weight) }

  selected_best :
      (r : Scan)
      → (k : Scanned weight s.current s.tasks r)
      → selected weight s r ≡ some (some k.best, paid r k.best)
  unfolding selected
  selected_best r k = rw (k.is_next, selected) refl

  selected-Wins :
      (r : Scan) (k : Scanned weight s.current s.tasks r) → Wins weight s (paid r k.best) k.best
  selected-Wins r k = record {
    runnable = k.in_seen;
    highest = k.highest;
    pays =
        update_same r.weights k.best (r.max_weight -ℤ s.total_weight)
        ∙ ap (λ c. c -ℤ s.total_weight) k.is_max;
    others = λ u n l.
        update_other r.weights k.best u (r.max_weight -ℤ s.total_weight) (λ e. n (sym e))
        ∙ k.raised u l;
    sleepers = λ u z.
        update_other r.weights k.best u (r.max_weight -ℤ s.total_weight)
          (λ e. omega (arith, k.in_seen, ap (λ j. count j s.tasks) e, z))
        ∙ k.untouched u z;
    same_tasks = refl;
    same_sleep = refl;
    same_total = refl;
  }

  scanned-Scanned :
      (x : ℕ) (xs : List ℕ)
      → s.tasks ≡ x ∷ xs
      → Distinct s.tasks
      → int32_min <ℤ candidate weight s.current x
      → Scanned weight s.current s.tasks (scanned weight s)
  unfolding scanned scan
  scanned-Scanned x xs e d h = rw e (
      scan-Scanned weight s.current (x ∷ []) xs _ (subst Distinct e d)
        (first_Scanned weight s.current x h))

  get_next-none : s.tasks ≡ [] → get_next weight s ≡ some (none, s)
  unfolding get_next
  get_next-none e = ground arith

  get_next_some :
      (x : ℕ) (xs : List ℕ)
      → s.tasks ≡ x ∷ xs
      → get_next weight s ≡ selected weight s (scanned weight s)
  unfolding get_next
  get_next_some x xs e = ground arith

  -- In a strategy without repeated tasks, where the new weight of each runnable task is above INT32_MIN,
  -- GetNext() does not fail its assertion. It returns null if no task is runnable; else it adds to the current
  -- weight of every runnable task its static weight, returns one for which the sum is the highest, and takes
  -- the total weight from that task only.
  pub get_next-Wins :
      Distinct s.tasks
      → ((u : ℕ) → 0 < count u s.tasks → int32_min <ℤ candidate weight s.current u)
      → ((s.tasks ≡ []) × (get_next weight s ≡ some (none, s)))
        ⊎ ((n : ℕ) × (s' : SmoothWeighted) × (get_next weight s ≡ some (some n, s'))
            × Wins weight s s' n)
  get_next-Wins d h = go s.tasks refl
    where
      go :
          (ts : List ℕ)
          → s.tasks ≡ ts
          → ((s.tasks ≡ []) × (get_next weight s ≡ some (none, s)))
            ⊎ ((n : ℕ) × (s' : SmoothWeighted) × (get_next weight s ≡ some (some n, s'))
                × Wins weight s s' n)
      go [] e = inl (e, get_next-none e)
      go (x ∷ xs) e =
          let k = scanned-Scanned x xs e d (h x (rw e (omega counting))) in
          inr (
            k.best,
            paid (scanned weight s) k.best,
            get_next_some x xs e ∙ selected_best (scanned weight s) k,
            selected-Wins (scanned weight s) k,
          )
