-- ===== src/Strategy/TaskList.antt =====
-- The closed list of tasks that the strategies keep (IKernelTask::ListHeadType, a DListHead with
-- TClosedLoop = true), seen as the sequence of its entries from first to last. A task is the
-- address of its IKernelTask.
use bare_metal_rtos.Base.{
  false, some, true, ltb, none, Bool, Option, ℕ, ◌≡◌, ap, sym, ◌∙◌, List, [], ◌∷◌, ◌++◌, arith,
  ◌==◌, if◌then◌else◌, count, head_or, last_or, head_or-append, last_or-append,
}

-- The entry behind `t`, where `first` follows the last one.
follower : ℕ → ℕ → List ℕ → ℕ
follower first t [] = first
follower first t (x ∷ xs) = if x == t then head_or first xs else follower first t xs

-- The entry before `t`, where `before` stands before the first one.
leader : ℕ → ℕ → List ℕ → ℕ
leader before t [] = before
leader before t (x ∷ xs) = if x == t then before else leader x t xs

-- entry->GetNext() in a closed list
unfoldable pub get_next : ℕ → List ℕ → ℕ
unfolding follower
get_next t xs = follower (head_or t xs) t xs

-- entry->GetPrev() in a closed list
unfoldable pub get_prev : ℕ → List ℕ → ℕ
unfolding leader
get_prev t xs = leader (last_or t xs) t xs

follower-split :
    (f t : ℕ) (before after : List ℕ)
    → count t before ≡ 0
    → follower f t (before ++ t ∷ after) ≡ head_or f after
unfolding follower count
follower-split f t [] after h = ground arith
follower-split f t (x ∷ xs) after h = ground (arith, follower-split f t xs after)

leader-split :
    (p t : ℕ) (before after : List ℕ)
    → count t before ≡ 0
    → leader p t (before ++ t ∷ after) ≡ last_or p before
unfolding leader count
leader-split p t [] after h = ground arith
leader-split p t (x ∷ xs) after h = ground (arith, leader-split x t xs after)

-- The next entry of `t` is the first of the entries behind it, or goes round to the first of all.
pub get_next-split :
    (t : ℕ) (before after : List ℕ)
    → count t before ≡ 0
    → get_next t (before ++ t ∷ after) ≡ head_or t (after ++ before)
unfolding get_next
get_next-split t before after h =
    follower-split _ t before after h
    ∙ ap (λ f. head_or f after) (head_or-append t before (t ∷ after))
    ∙ sym (head_or-append t after before)

-- The entry before `t` is the last of those before it, or goes round to the last of all.
pub get_prev-split :
    (t : ℕ) (before after : List ℕ)
    → count t before ≡ 0
    → get_prev t (before ++ t ∷ after) ≡ last_or (last_or t after) before
unfolding get_prev
get_prev-split t before after h =
    leader-split _ t before after h
    ∙ ap (λ p. last_or p before) (last_or-append t before (t ∷ after))

-- entry->GetHead() == &list
abbrev pub is_linked : ℕ → List ℕ → Bool
is_linked t xs = ltb 0 (count t xs)

-- list.GetLast()
abbrev pub get_last : List ℕ → Option ℕ
get_last [] = none
get_last (x ∷ xs) = some (last_or x xs)

-- Equality of two pointers, either of which may be null.
abbrev pub same_task : Option ℕ → Option ℕ → Bool
same_task none none = true
same_task none (some b) = false
same_task (some a) none = false
same_task (some a) (some b) = a == b
