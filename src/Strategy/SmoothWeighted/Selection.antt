-- ===== src/Strategy/SmoothWeighted/Selection.antt =====
-- The task that the smooth weighted strategy selects.
use bare_metal_rtos.Base.{
  inr, ltb→lt, inl, Bool-cases, append_assoc, append-nil, ◌∙◌, Distinct, ap, update, ◌++◌, ℕ, ◌≡◌,
  ◌<◌, refl, arith, sym, subst, some, none, List, [], ◌∷◌, count, counting, update_same,
  update_other, ℕ_discrete, same-ne, true,
}
use bare_metal_rtos.Base.Int.{ℤ, ltb_ℤ, ◌+ℤ◌, ◌≤ℤ◌, ◌<ℤ◌}
use bare_metal_rtos.Strategy.SmoothWeighted.{scan, Scan, scan_one, int32_min}

module _ (weight : ℕ → ℤ) (current : ℕ → ℤ) where
  -- The current weight of a task after its static weight has been added.
  abbrev pub candidate : ℕ → ℤ
  candidate u = current u +ℤ weight u

  -- After the rounds for `seen`.
  pub record Scanned (seen : List ℕ) (r : Scan) : Type 0 where
    pub raised : (u : ℕ) → 0 < count u seen → r.weights u ≡ candidate u
    pub untouched : (u : ℕ) → count u seen ≡ 0 → r.weights u ≡ current u
    pub best : ℕ
    pub is_next : r.next ≡ some best
    pub in_seen : 0 < count best seen
    pub is_max : r.max_weight ≡ candidate best
    pub highest : (u : ℕ) → 0 < count u seen → candidate u ≤ℤ candidate best

  pub first_Scanned :
      (x : ℕ)
      → int32_min <ℤ candidate x
      → Scanned
          (x ∷ [])
          (scan_one weight x (record { weights = current; max_weight = int32_min; next = none }))
  unfolding scan_one
  first_Scanned x h =
      let taken : ltb_ℤ int32_min (candidate x) ≡ true = ground arith in
      let here : (u : ℕ) → 0 < count u (x ∷ []) → u ≡ x = λ u k. elim (ℕ_discrete x u) [
        | yes e ↦ sym e
        | no n ↦ absurd (omega (counting, same-ne n))
      ] in
      rw taken (record {
        raised = λ u k. rw (here u k) (update_same current x (candidate x));
        untouched = λ u k.
            update_other current x u (candidate x)
              (λ e. omega (counting, subst (λ j. count j (x ∷ []) ≡ 0) (sym e) k));
        best = x;
        is_next = refl;
        in_seen = omega counting;
        is_max = refl;
        highest = λ u k. rw (here u k) (omega arith);
      })

  weights-scan_one :
      (x : ℕ) (r : Scan)
      → (scan_one weight x r).weights ≡ update r.weights x (r.weights x +ℤ weight x)
  unfolding scan_one
  weights-scan_one x r = ground arith

  scan_one_taken :
      (x : ℕ) (r : Scan)
      → r.max_weight <ℤ r.weights x +ℤ weight x
      → ((scan_one weight x r).next ≡ some x)
        × ((scan_one weight x r).max_weight ≡ r.weights x +ℤ weight x)
  unfolding scan_one
  scan_one_taken x r h = ground arith

  scan_one_left :
      (x : ℕ) (r : Scan)
      → r.weights x +ℤ weight x ≤ℤ r.max_weight
      → ((scan_one weight x r).next ≡ r.next) × ((scan_one weight x r).max_weight ≡ r.max_weight)
  unfolding scan_one
  scan_one_left x r h = ground arith

  next_Scanned :
      (seen : List ℕ) (x : ℕ) (r : Scan)
      → count x seen ≡ 0
      → Scanned seen r
      → Scanned (seen ++ x ∷ []) (scan_one weight x r)
  next_Scanned seen x r z k =
      let mine : r.weights x +ℤ weight x ≡ candidate x =
        ap (λ c. c +ℤ weight x) (k.untouched x z) in
      let now = weights-scan_one x r in
      let up : (u : ℕ)
          → 0 < count u (seen ++ x ∷ [])
          → (scan_one weight x r).weights u ≡ candidate u =
        λ u h. ap (λ f. f u) now ∙ (elim (ℕ_discrete x u) [
          | yes e ↦
              subst (λ j. update r.weights x (r.weights x +ℤ weight x) j ≡ candidate j) e
                (update_same r.weights x (r.weights x +ℤ weight x) ∙ mine)
          | no n ↦
              update_other r.weights x u (r.weights x +ℤ weight x) n
              ∙ k.raised u (omega (counting, same-ne n))
        ]) in
      let off : (u : ℕ)
          → count u (seen ++ x ∷ []) ≡ 0
          → (scan_one weight x r).weights u ≡ current u =
        λ u h.
          ap (λ f. f u) now
          ∙ update_other r.weights x u (r.weights x +ℤ weight x)
              (λ e. omega (counting, ap (λ j. count j (seen ++ x ∷ [])) e))
          ∙ k.untouched u (omega counting) in
      elim (Bool-cases (ltb_ℤ r.max_weight (r.weights x +ℤ weight x))) [
        | inl h ↦
            let more : r.max_weight <ℤ r.weights x +ℤ weight x = ltb→lt _ _ h in
            let (n, m) = scan_one_taken x r more in
            let above : candidate k.best <ℤ candidate x =
              subst (λ c. c <ℤ candidate x) k.is_max (subst (λ c. r.max_weight <ℤ c) mine more) in
            record {
              raised = up;
              untouched = off;
              best = x;
              is_next = n;
              in_seen = omega counting;
              is_max = m ∙ mine;
              highest = λ u l. elim (ℕ_discrete x u) [
                | yes e ↦ subst (λ j. candidate j ≤ℤ candidate x) e (omega arith)
                | no ne ↦ omega (arith, above, k.highest u (omega (counting, same-ne ne)))
              ];
            }
        | inr h ↦
            let less : r.weights x +ℤ weight x ≤ℤ r.max_weight = ground arith in
            let (n, m) = scan_one_left x r less in
            let below : candidate x ≤ℤ candidate k.best =
              subst (λ c. candidate x ≤ℤ c) k.is_max (subst (λ c. c ≤ℤ r.max_weight) mine less) in
            record {
              raised = up;
              untouched = off;
              best = k.best;
              is_next = n ∙ k.is_next;
              in_seen = omega (counting, k.in_seen);
              is_max = m ∙ k.is_max;
              highest = λ u l. elim (ℕ_discrete x u) [
                | yes e ↦ subst (λ j. candidate j ≤ℤ candidate k.best) e below
                | no ne ↦ k.highest u (omega (counting, same-ne ne))
              ];
            }
      ]

  pub scan-Scanned :
      (seen rest : List ℕ) (r : Scan)
      → Distinct (seen ++ rest)
      → Scanned seen r
      → Scanned (seen ++ rest) (scan weight rest r)
  unfolding scan
  scan-Scanned seen [] r d k = rw append-nil k
  scan-Scanned seen (x ∷ rest) r d k =
      let e = append_assoc seen (x ∷ []) rest in
      subst (λ l. Scanned l (scan weight (x ∷ rest) r)) e
        (scan-Scanned (seen ++ x ∷ []) rest (scan_one weight x r) (λ u. omega (counting, d u))
          (next_Scanned seen x r (omega (counting, d x)) k))
