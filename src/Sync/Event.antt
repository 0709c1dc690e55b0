-- ===== src/Sync/Event.antt =====
-- stk::sync::Event of stk/include/sync/stk_sync_event.h. A call runs under the critical section up to the point where it
-- blocks: `blocks` means that the task has joined the wait list, and it returns later, true when it is woken and
-- false when the kernel times it out. `in_isr` is hw::IsInsideISR(), and `none` a failed STK_ASSERT. A woken task's wait
-- object goes through RemoveWaitObject().
pub mod Waking
pub mod Signals
pub mod Tests
use bare_metal_rtos.Base.{
  ℕ, Bool, true, false, not, ◌&&◌, Option, none, some, List, [], ◌∷◌, if◌then◌else◌,
}
use bare_metal_rtos.Base.Int.{ℤ}
use bare_metal_rtos.Sync.WaitList.{Waiter, setup_wait, wake_one, wake_all, tick, eq_ℤ, no_wait}
use bare_metal_rtos.Sync.Semaphore.{Outcome, acquired, refused, blocks}

pub record Event : Type 0 where
  pub manual_reset : Bool
  pub signaled : Bool
  pub wait_list : List Waiter

unfoldable pub init : Bool → Bool → Event
init manual_reset initial_state = record {
  manual_reset = manual_reset;
  signaled = initial_state;
  wait_list = [];
}

-- RemoveWaitObject(), once the wait object is out of the list: `is_timeout` is its IsTimeout().
unfoldable pub remove_wait_object : Bool → Event → Event
remove_wait_object is_timeout e =
    if not e.manual_reset && e.signaled
    then (if not is_timeout then record e { signaled = false } else e)
    else e

-- RemoveWaitObject() for each of the tasks woken.
unfoldable pub remove_each : Bool → List ℕ → Event → Event
unfolding remove_wait_object
remove_each is_timeout [] e = e
remove_each is_timeout (t ∷ ts) e = remove_each is_timeout ts (remove_wait_object is_timeout e)

abbrev pub as_list : Option ℕ → List ℕ
as_list none = []
as_list (some t) = t ∷ []

-- WakeAll() or WakeOne(), by the mode: the tasks that are woken.
unfoldable pub wake_waiters : Event → List ℕ × Event
unfolding wake_all wake_one remove_each
wake_waiters e =
    if e.manual_reset
    then (let (woken, left) = wake_all e.wait_list in
        (woken, remove_each false woken (record e { wait_list = left })))
    else (let (woken, left) = wake_one e.wait_list in
        (as_list woken, remove_each false (as_list woken) (record e { wait_list = left })))

-- The result, and the tasks that are woken.
unfoldable pub set : Event → Bool × List ℕ × Event
unfolding wake_waiters
set e =
    if e.signaled
    then (false, [], e)
    else (let (woken, e') = wake_waiters (record e { signaled = true }) in (true, woken, e'))

unfoldable pub reset : Event → Bool × Event
reset e = (e.signaled, record e { signaled = false })

abbrev pub is_empty : List Waiter → Bool
is_empty [] = true
is_empty (w ∷ ws) = false

unfoldable pub pulse : Event → List ℕ × Event
unfolding wake_waiters
pulse e =
    let raised = record e { signaled = true } in
    let (woken, e') = if is_empty e.wait_list then ([], raised) else wake_waiters raised in
    (woken, record e' { signaled = false })

unfoldable pub wait : ℕ → ℤ → Bool → Event → Option (Outcome × Event)
wait tid timeout_ticks in_isr e =
    if in_isr
    then none
    else some (
        if e.signaled
        then (acquired, if not e.manual_reset then record e { signaled = false } else e)
        else (if not (eq_ℤ timeout_ticks no_wait)
            then (blocks, record e { wait_list = setup_wait tid timeout_ticks e.wait_list })
            else (refused, e)))

unfoldable pub try_wait : Event → Bool × Event
try_wait e =
    if e.signaled
    then (true, if not e.manual_reset then record e { signaled = false } else e)
    else (false, e)

-- The kernel's tick on the event: the tasks whose Wait() returns false.
unfoldable pub expire : ℕ → Event → List ℕ × Event
unfolding remove_each
expire elapsed e =
    let (woken, left) = tick elapsed e.wait_list in
    (woken, remove_each true woken (record e { wait_list = left }))
