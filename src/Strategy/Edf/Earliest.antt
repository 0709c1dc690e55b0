-- ===== src/Strategy/Edf/Earliest.antt =====
-- The task that the earliest-deadline-first strategy selects.
use bare_metal_rtos.Base.{
  ltb→lt, Bool-cases, append-nil, ℕ, ◌≡◌, refl, arith, ap, sym, ◌∙◌, subst, none, some, List, [],
  ◌∷◌, ◌++◌, if◌then◌else◌, append_assoc, ◌⊎◌, inl, inr,
}
use bare_metal_rtos.Base.Int.{ℤ, ltb_ℤ, ◌≤ℤ◌, ◌<ℤ◌}
use bare_metal_rtos.Strategy.Edf.{Edf, scan, get_next}

-- What holds of every element.
abbrev pub All : (ℕ → Type 0) → List ℕ → Type 0
All P [] = Unit {0}
All P (x ∷ xs) = P x × All P xs

All-append : (P : ℕ → Type 0) (xs ys : List ℕ) → All P xs → All P ys → All P (xs ++ ys)
All-append P [] ys h k = k
All-append P (x ∷ xs) ys h k = (h.0, All-append P xs ys h.1 k)

All-map : (P Q : ℕ → Type 0) (xs : List ℕ) → ((x : ℕ) → P x → Q x) → All P xs → All Q xs
All-map P Q [] f h = tt
All-map P Q (x ∷ xs) f h = (f x h.0, All-map P Q xs f h.1)

-- `t` is the first task of `ts` with the smallest relative deadline.
pub record IsEarliest (deadline : ℕ → ℤ) (ts : List ℕ) (t : ℕ) : Type 0 where
  pub before : List ℕ
  pub after : List ℕ
  pub split : ts ≡ before ++ t ∷ after
  pub later : All (λ u. deadline t <ℤ deadline u) before
  pub not_earlier : All (λ u. deadline t ≤ℤ deadline u) after

module _ (deadline : ℕ → ℤ) where
  -- The entry that comes replaces the earliest one exactly if it is strictly earlier.
  extend :
      (seen : List ℕ) (next x : ℕ)
      → IsEarliest deadline seen next
      → IsEarliest deadline
          (seen ++ x ∷ [])
          (if ltb_ℤ (deadline x) (deadline next) then x else next)
  extend seen next x e = elim (Bool-cases (ltb_ℤ (deadline x) (deadline next))) [
    | inl h ↦
        let sooner : deadline x <ℤ deadline next = ltb→lt _ _ h in
        rw h (record {
          before = seen;
          after = [];
          split = refl;
          later = subst (All (λ u. deadline x <ℤ deadline u)) (sym e.split) (
              All-append (λ u. deadline x <ℤ deadline u) e.before (next ∷ e.after)
                (All-map _ (λ u. deadline x <ℤ deadline u) e.before (λ u l. omega arith) e.later)
                (
                  sooner,
                  All-map _ (λ u. deadline x <ℤ deadline u) e.after (λ u l. omega arith)
                      e.not_earlier,
                ));
          not_earlier = tt;
        })
    | inr h ↦
        let as_soon : deadline next ≤ℤ deadline x = ground arith in
        rw h (record {
          before = e.before;
          after = e.after ++ x ∷ [];
          split = ap (λ l. l ++ x ∷ []) e.split ∙ append_assoc e.before (next ∷ e.after) (x ∷ []);
          later = e.later;
          not_earlier =
              All-append (λ u. deadline next ≤ℤ deadline u) e.after (x ∷ []) e.not_earlier
                (as_soon, tt);
        })
  ]

  -- The earliest of the entries seen stays the earliest, with those that come.
  scan-IsEarliest :
      (seen rest : List ℕ) (next : ℕ)
      → IsEarliest deadline seen next
      → IsEarliest deadline (seen ++ rest) (scan deadline next rest)
  unfolding scan
  scan-IsEarliest seen [] next e = rw append-nil e
  scan-IsEarliest seen (x ∷ rest) next e =
      subst (λ l. IsEarliest deadline l (scan deadline next (x ∷ rest)))
        (append_assoc seen (x ∷ []) rest)
        (scan-IsEarliest (seen ++ x ∷ []) rest _ (extend seen next x e))

  scan_start : (x : ℕ) (xs : List ℕ) → scan deadline x (x ∷ xs) ≡ scan deadline x xs
  unfolding scan
  scan_start x xs = ap (λ k. scan deadline k xs) (ground arith)

  get_next_cons :
      (x : ℕ) (xs sleep : List ℕ)
      → get_next deadline (record { tasks = x ∷ xs; sleep = sleep })
        ≡ some (scan deadline x (x ∷ xs))
  unfolding get_next
  get_next_cons x xs sleep = refl

  get_next_nil : (sleep : List ℕ) → get_next deadline (record { tasks = []; sleep = sleep }) ≡ none
  unfolding get_next
  get_next_nil sleep = refl

  -- GetNext() returns null exactly if no task is runnable, and else the first runnable task of the
  -- list with the smallest relative deadline: those before it have larger ones, and those behind it
  -- have no smaller ones.
  pub get_next-IsEarliest :
      (s : Edf)
      → ((s.tasks ≡ []) × (get_next deadline s ≡ none))
        ⊎ ((t : ℕ) × (get_next deadline s ≡ some t) × IsEarliest deadline s.tasks t)
  get_next-IsEarliest s = go s.tasks
    where
      go :
          (ts : List ℕ)
          → ((ts ≡ []) × (get_next deadline (record s { tasks = ts }) ≡ none))
            ⊎ ((t : ℕ) × (get_next deadline (record s { tasks = ts }) ≡ some t)
                × IsEarliest deadline ts t)
      go [] = inl (refl, get_next_nil s.sleep)
      go (x ∷ xs) = inr (
        scan deadline x (x ∷ xs),
        get_next_cons x xs s.sleep,
        rw scan_start (
            scan-IsEarliest (x ∷ []) xs x
              (record { before = []; after = []; split = refl; later = tt; not_earlier = tt })),
      )
