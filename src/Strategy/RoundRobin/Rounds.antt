-- ===== src/Strategy/RoundRobin/Rounds.antt =====
-- A whole round of the round-robin strategy.
use bare_metal_rtos.Base.{
  ap₂, ℕ, zero, suc, ◌≡◌, refl, ap, sym, ◌∙◌, some, Option, List, [], ◌∷◌, ◌++◌, length, count,
  counting, append-nil, append_assoc, map,
}
use bare_metal_rtos.Strategy.RoundRobin.{RoundRobin, get_next}
use bare_metal_rtos.Strategy.RoundRobin.Turns.{
  turns, turns_of, IsValid, turns_of-split, rotate, head,
}
use bare_metal_rtos.Strategy.RoundRobin.Order.{get_next-Serves, valid_cases}

-- What `n` calls of GetNext() return, and the strategy after them.
unfoldable pub serve : ℕ → RoundRobin → List (Option ℕ) × RoundRobin
serve zero s = ([], s)
serve (suc n) s = let (t, s') = get_next s in let (ts, s'') = serve n s' in (t ∷ ts, s'')

-- Serving the front of the queue puts it behind the rest.
serve_front :
    (front back : List ℕ) (s : RoundRobin)
    → IsValid s
    → turns s ≡ front ++ back
    → ((serve (length front) s).0 ≡ map some front)
      × (turns (serve (length front) s).1 ≡ back ++ front)
      × IsValid (serve (length front) s).1
unfolding serve
serve_front [] b s v e = (refl, e ∙ sym (append-nil b), v)
serve_front (x ∷ f) b s v e =
    let r = get_next-Serves s v in
    let (firsts, order, valid) =
      serve_front f (b ++ x ∷ []) (get_next s).1 r.keeps
        (r.rotates ∙ ap rotate e ∙ append_assoc f b (x ∷ [])) in
    (ap₂ ◌∷◌ (r.first ∙ ap head e) firsts, order ∙ append_assoc b (x ∷ []) f, valid)

-- The turns are the runnable tasks, each as often.
pub count-turns : (u : ℕ) (s : RoundRobin) → IsValid s → count u (turns s) ≡ count u s.tasks
unfolding turns_of
count-turns u =
    valid_cases (λ s. count u (turns s) ≡ count u s.tasks) (λ sl d. refl)
      (λ c b a sl d h. ap (count u) (turns_of-split c b a h) ∙ omega counting)

-- In a valid strategy, as many calls of GetNext() as there are turns return every runnable task once
-- and no other, in the order of the turns, and leave the same turns to come: nobody starves.
pub serve_round :
    (s : RoundRobin)
    → IsValid s
    → ((serve (length (turns s)) s).0 ≡ map some (turns s))
      × (turns (serve (length (turns s)) s).1 ≡ turns s)
      × IsValid (serve (length (turns s)) s).1
      × ((u : ℕ) → count u (turns s) ≡ count u s.tasks)
serve_round s v =
    let (firsts, order, valid) = serve_front (turns s) [] s v (sym (append-nil (turns s))) in
    (firsts, order, valid, λ u. count-turns u s v)
