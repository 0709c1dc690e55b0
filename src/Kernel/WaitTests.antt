-- ===== src/Kernel/WaitTests.antt =====
-- The theorems on waits of the kernel at concrete inputs: the first of two tasks waits for an object.
use bare_metal_rtos.Base.{ℕ, ◌<◌, ◌≡◌, arith, true, false, some, none, [], ◌∷◌, count, refl}
use bare_metal_rtos.Base.Int.{ℤ, pos}
use bare_metal_rtos.Sync.WaitList.{wait_infinite}
use bare_metal_rtos.Sync.WaitList.Found.{tids}
use bare_metal_rtos.Strategy.RoundRobin.{RoundRobin}
use bare_metal_rtos.Kernel.Task.{is_sleeping}
use bare_metal_rtos.Kernel.Machine.{Contexts}
use bare_metal_rtos.Kernel.RoundRobin.{strategy, is_sleep_aware}
use bare_metal_rtos.Kernel.Waiting.{SyncKernel, waiters, is_waiting, on_sync_tick, on_task_wait}
use bare_metal_rtos.Kernel.TimedWaits.{run_sync_ticks}
use bare_metal_rtos.Kernel.WaitCalls.{CanWait, timed_wait, endless_wait_ends}
use bare_metal_rtos.Kernel.Tests.{started, started-Started}

abbrev with_sync : SyncKernel RoundRobin
with_sync = record { kernel = started; sync_list = [] }

with_sync-CanWait : (b : ℕ) → b < 2147483647 → CanWait is_sleep_aware 2 false (pos 1) b 0 with_sync
unfolding tids waiters count
with_sync-CanWait b h = record {
  waits = record {
    started = started-Started;
    once = λ t. omega arith;
    asleep = λ t m. absurd (omega (arith, m));
  };
  int32 = h;
  slot = omega arith;
  bound = omega arith;
  stays = refl;
  free = refl;
}

timed_wait_example :
    (k0 : SyncKernel RoundRobin) × (k' : SyncKernel RoundRobin) × (on_task_wait strategy 2 0 7
        (pos 3)
        with_sync
      ≡ some k0)
    × (run_sync_ticks is_sleep_aware 2 false (pos 1) (1 ∷ 1 ∷ 1 ∷ []) k0 ≡ some k')
    × (is_sleeping (k'.kernel.tasks 0) ≡ false)
    × (is_waiting 0 k'.sync_list ≡ false)
timed_wait_example =
    timed_wait is_sleep_aware 2 false (pos 1) (1 ∷ 1 ∷ 1 ∷ []) 0 7 3 with_sync (omega arith)
      (omega arith) (with_sync-CanWait 3 (omega arith)) (omega arith) (omega arith)

endless_wait_ends_example :
    (k0 : SyncKernel RoundRobin) × (k1 : SyncKernel RoundRobin) × (c : Contexts) × (k2 : SyncKernel
      RoundRobin)
    × (on_task_wait strategy 2 0 7 wait_infinite with_sync ≡ some k0)
    × (run_sync_ticks is_sleep_aware 2 false (pos 1) (2147483646 ∷ []) k0 ≡ some k1)
    × (on_sync_tick strategy 2 false (pos 1) 1 k1 ≡ some (c, k2))
    × (is_sleeping (k1.kernel.tasks 0) ≡ true)
    × (is_sleeping (k2.kernel.tasks 0) ≡ false)
    × (is_waiting 0 k2.sync_list ≡ true)
    × ((id' : ℕ) (timeout : ℤ) → on_task_wait strategy 2 0 id' timeout k2 ≡ none)
endless_wait_ends_example =
    endless_wait_ends is_sleep_aware 2 false (pos 1) (2147483646 ∷ []) 1 0 7 with_sync (omega arith)
      (omega arith) (omega arith) (with_sync-CanWait 2147483646 (omega arith)) (omega arith)
