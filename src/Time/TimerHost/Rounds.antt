-- ===== src/Time/TimerHost/Rounds.antt =====
-- The loop of UpdateTime() of stk/include/time/stk_time_timer.h over the list of active timers.
use bare_metal_rtos.Base.{
  count-nil, same-ne, ℕ, ◌≡◌, ◌<◌, refl, sym, ap, subst, ◌∙◌, arith, true, Option, some, List, [],
  ◌∷◌, ◌++◌, inl, inr, Bool-cases, if◌then◌else◌, count, count-cons, count-append, erase-split,
  append_assoc, append-nil, same_refl, ℕ_discrete, Distinct,
}
use bare_metal_rtos.Base.Int.{ℤ}
use bare_metal_rtos.Time.TimerHost.{Timer, TimerHost}
use bare_metal_rtos.Time.TimerHost.Commands.{Executed}
use bare_metal_rtos.Time.TimerHost.TickTask.{visit, visit_all}
use bare_metal_rtos.Time.TimerHost.Expiry.{
  IsPunctual, fires, after, stays, nearer, visited_host, visit_lem,
}

-- The timers of the list that expire, in the form of the queue.
unfoldable pub fired : ℤ → (ℕ → Timer) → List ℕ → List (Option ℕ)
fired now f [] = []
fired now f (t ∷ ts) = if fires now (f t) then some t ∷ fired now f ts else fired now f ts

unfoldable pub kept : ℤ → (ℕ → Timer) → List ℕ → List ℕ
kept now f [] = []
kept now f (t ∷ ts) = if stays now (f t) then t ∷ kept now f ts else kept now f ts

unfoldable pub earliest : ℤ → (ℕ → Timer) → List ℕ → ℤ → ℤ
earliest now f [] n = n
earliest now f (t ∷ ts) n = earliest now f ts (nearer now (f t) n)

-- The list `pre ++ ts` once the timers in `ts` have been visited; `f` gives the timers before.
pub record Served (now : ℤ) (f : ℕ → Timer) (pre ts : List ℕ) (h h' : TimerHost) : Type 0 where
  pub queue_after : h'.queue ≡ h.queue ++ fired now f ts
  pub active_after : h'.active ≡ pre ++ kept now f ts
  pub visited : (u : ℕ) → 0 < count u ts → h'.timers u ≡ after now (f u)
  pub others : (u : ℕ) → count u ts ≡ 0 → h'.timers u ≡ h.timers u
  pub same_commands : h'.commands ≡ h.commands
  pub same_now : h'.now ≡ h.now

-- The timers that are still to be visited.
pub record IsReady (now : ℤ) (f : ℕ → Timer) (ts : List ℕ) (h : TimerHost) : Type 0 where
  pub unvisited : (u : ℕ) → 0 < count u ts → h.timers u ≡ f u
  pub on : (u : ℕ) → 0 < count u ts → (f u).is_active ≡ true
  pub punctual : (u : ℕ) → 0 < count u ts → IsPunctual now (f u)

module _ (now : ℤ) (f : ℕ → Timer) (t : ℕ) (ts pre : List ℕ) (h : TimerHost)
    (e : h.active ≡ pre ++ t ∷ ts) (d : Distinct (pre ++ t ∷ ts))
    (r : IsReady now f (t ∷ ts) h) where
  here : 0 < count t (t ∷ ts)
  here = omega (arith, count-cons t t ts, same_refl t)

  once : (count t pre ≡ 0) × (count t ts ≡ 0)
  once = (
    omega (arith, d t, count-append t pre (t ∷ ts), count-cons t t ts, same_refl t),
    omega (arith, d t, count-append t pre (t ∷ ts), count-cons t t ts, same_refl t),
  )

  visit_first : (n : ℤ) → visit now t n h ≡ some (nearer now (f t) n, visited_host now t h)
  visit_first n =
      let u : h.timers t ≡ f t = r.unvisited t here in
      subst (λ q. visit now t n h ≡ some (nearer now q n, visited_host now t h)) u
        (visit_lem now t n h (ap (λ (q : Timer). q.is_active) u ∙ r.on t here)
          (rw e (
            omega
              (arith, count-append t pre (t ∷ ts), count-cons t t ts, same_refl t, once.0, once.1)))
          (subst (IsPunctual now) (sym u) (r.punctual t here)))

  first_active :
      (visited_host now t h).active ≡ (if stays now (f t) then (pre ++ t ∷ []) ++ ts else pre ++ ts)
  unfolding visited_host
  first_active =
      rw (r.unvisited t here, e, erase-split t pre ts once.0, append_assoc pre (t ∷ []) ts) refl

  first_IsReady : IsReady now f ts (visited_host now t h)
  unfolding visited_host
  first_IsReady = record {
    unvisited = λ u m. ground (arith, r.unvisited u, count-cons u t ts, once.1);
    on = λ u m. r.on u (omega (arith, count-cons u t ts));
    punctual = λ u m. r.punctual u (omega (arith, count-cons u t ts));
  }

  -- What the first visit and the later ones do together.
  rest_Served :
      (pre' : List ℕ) (h' : TimerHost)
      → pre' ++ kept now f ts ≡ pre ++ kept now f (t ∷ ts)
      → Served now f pre' ts (visited_host now t h) h'
      → Served now f pre (t ∷ ts) h h'
  unfolding visited_host fired
  rest_Served pre' h' k s = record {
    queue_after = s.queue_after ∙ (elim (Bool-cases (fires now (f t))) [
      | inl on ↦ rw (r.unvisited t here, on) (append_assoc h.queue (some t ∷ []) (fired now f ts))
      | inr off ↦ rw (r.unvisited t here, off) refl
    ]);
    active_after = s.active_after ∙ k;
    visited = λ u m. elim (ℕ_discrete t u) [
      | yes same_timer ↦
          ground (arith, s.others u, r.unvisited t here, once.1, ap (λ v. count v ts) same_timer)
      | no other ↦ s.visited u (omega (arith, count-cons u t ts, same-ne other))
    ];
    others =
        λ u z. s.others u (omega (arith, count-cons u t ts)) ∙ ground (arith, count-cons u t ts);
    same_commands = s.same_commands;
    same_now = s.same_now;
  }

visit_all_step :
    (now : ℤ) (t : ℕ) (ts : List ℕ) (n n' : ℤ) (h m : TimerHost) (r : Executed)
    → visit now t n h ≡ some (n', m)
    → visit_all now ts n' m ≡ r
    → visit_all now (t ∷ ts) n h ≡ r
unfolding visit_all
visit_all_step now t ts n n' h m r e k = ground arith

-- The visits of the timers `ts`, after those of `pre` that stayed.
pub visit_all_lem :
    (now : ℤ) (f : ℕ → Timer) (ts pre : List ℕ) (n : ℤ) (h : TimerHost)
    → h.active ≡ pre ++ ts
    → Distinct (pre ++ ts)
    → IsReady now f ts h
    → (h' : TimerHost) × (visit_all now ts n h ≡ some (earliest now f ts n, h'))
      × Served now f pre ts h h'
unfolding visit_all earliest fired kept
visit_all_lem now f [] pre n h e d r = (
  h,
  refl,
  record {
    queue_after = sym (append-nil h.queue);
    active_after = e;
    visited = λ u m. absurd (ground (arith, count-nil u));
    others = λ u z. refl;
    same_commands = refl;
    same_now = refl;
  },
)
visit_all_lem now f (t ∷ ts) pre n h e d r =
    let m = visited_host now t h in
    elim (Bool-cases (stays now (f t))) [
      | inl stay ↦
          let a : (pre ++ t ∷ []) ++ ts ≡ pre ++ t ∷ ts = append_assoc pre (t ∷ []) ts in
          let (h', k, s) =
            visit_all_lem now f ts (pre ++ t ∷ []) (nearer now (f t) n) m
              (first_active now f t ts pre h e d r ∙ rw stay refl) (subst Distinct (sym a) d)
              (first_IsReady now f t ts pre h e d r) in
          (
            h',
            visit_all_step now t ts n _ h m _ (visit_first now f t ts pre h e d r n) k,
            rest_Served now f t ts pre h e d r (pre ++ t ∷ []) h'
                (rw stay (append_assoc pre (t ∷ []) (kept now f ts))) s,
          )
      | inr leave ↦
          let (h', k, s) =
            visit_all_lem now f ts pre (nearer now (f t) n) m
              (first_active now f t ts pre h e d r ∙ rw leave refl)
              (λ u.
                omega (
                  arith,
                  d u,
                  count-append u pre ts,
                  count-append u pre (t ∷ ts),
                  count-cons u t ts,
                ))
              (first_IsReady now f t ts pre h e d r) in
          (
            h',
            visit_all_step now t ts n _ h m _ (visit_first now f t ts pre h e d r n) k,
            rest_Served now f t ts pre h e d r pre h' (rw leave refl) s,
          )
    ]
