-- ===== src/Sync/WaitList.antt =====
-- ISyncObject of stk/include/stk_common.h with its wait list, ISyncObject::Tick and
-- FindWeightHigherThan of stk/include/stk_helper.h, and the part of Kernel::KernelTask::WaitObject of
-- stk/include/stk.h that the list goes through. The list holds the waiting tasks in the order of
-- their arrival; waking a task removes it. Timeouts are int32_t values, as integers.
pub mod Ticks
pub mod Found
pub mod Tests
use bare_metal_rtos.Base.{
  ℕ, zero, suc, ◌+◌, ◌-◌, ◌^◌, ◌≡◌, Bool, true, false, not, ◌&&◌, ◌||◌, Option, none, some, List,
  [], ◌∷◌, ◌++◌, ◌==◌, ltb, if◌then◌else◌,
}
use bare_metal_rtos.Base.Int.{ℤ, pos, negsuc, ltb_ℤ, ◌-ℤ◌, pos_part, neg_part}

pub record Waiter : Type 0 where
  pub tid : ℕ
  pub time_wait : ℤ
  pub timeout : Bool

abbrev pub int32_max : ℕ
int32_max = 2147483647

abbrev pub wait_infinite : ℤ
wait_infinite = pos int32_max

abbrev pub no_wait : ℤ
no_wait = pos 0

abbrev pub no_weight : ℤ
no_weight = negsuc 0

-- Equality of integers.
abbrev pub eq_ℤ : ℤ → ℤ → Bool
eq_ℤ a b = pos_part a + neg_part b == pos_part b + neg_part a

-- WaitObject::SetupWait() and AddWaitObject()
unfoldable pub setup_wait : ℕ → ℤ → List Waiter → List Waiter
setup_wait tid timeout ws = ws ++ record { tid = tid; time_wait = timeout; timeout = false } ∷ []

-- WaitObject::Tick(): the wait object after it; the call returns true if that has not timed out.
unfoldable pub tick_waiter : ℕ → Waiter → Waiter
tick_waiter elapsed w =
    if eq_ℤ w.time_wait wait_infinite
    then w
    else (if w.timeout
        then w
        else (let left = w.time_wait -ℤ pos elapsed in
            record w { time_wait = left; timeout = not (ltb_ℤ (pos 0) left) }))

-- ISyncObject::Tick(): the tasks that are woken by timeout, in order, and the list that is left.
unfoldable pub tick : ℕ → List Waiter → List ℕ × List Waiter
unfolding tick_waiter
tick elapsed [] = ([], [])
tick elapsed (w ∷ ws) =
    let w' = tick_waiter elapsed w in
    let (woken, left) = tick elapsed ws in
    if w'.timeout then (w'.tid ∷ woken, left) else (woken, w' ∷ left)

-- WakeOne(): the task that is woken, if any waits.
unfoldable pub wake_one : List Waiter → Option ℕ × List Waiter
wake_one [] = (none, [])
wake_one (w ∷ ws) = (some w.tid, ws)

-- WakeAll() wakes the first task until none is left.
unfoldable pub wake_all : List Waiter → List ℕ × List Waiter
wake_all [] = ([], [])
wake_all (w ∷ ws) = let (woken, left) = wake_all ws in (w.tid ∷ woken, left)

unfoldable pub max_weight : (ℕ → ℤ) → ℤ → List Waiter → ℤ
max_weight weight m [] = m
max_weight weight m (w ∷ ws) =
    max_weight weight (if ltb_ℤ m (weight w.tid) then weight w.tid else m) ws

-- `weight` is GetWeight() of each user task.
unfoldable pub find_weight_higher_than : (ℕ → ℤ) → ℤ → List Waiter → ℤ
unfolding max_weight
find_weight_higher_than weight comp ws =
    let m = max_weight weight no_weight ws in if ltb_ℤ comp m then m else no_weight
