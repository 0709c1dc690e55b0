-- ===== src/Lib.antt =====
-- A verification library of the scheduling and synchronization core of the STK kernel (stk/include).
--
-- The program's parts. A kernel (stk/include/stk.h) keeps tasks and asks a task-switching strategy
-- (stk/include/strategy) at every tick which task runs next; it tells the strategy when a task is added,
-- removed, falls asleep, wakes, or changes its weight. Synchronization objects (stk/include/sync) keep a list
-- of waiting tasks; a task that waits sleeps until the object wakes it or the kernel's tick times it out. A
-- mutex lends the weight of a waiting task to its owner, which reaches the strategy as a change of weight. A block
-- pool (stk/include/memory) gives out blocks of memory and lets tasks wait for one. A timer host (stk/include/time)
-- takes commands from tasks and hands expired timers to a handler task.
--
-- Which file models which part:
--   Strategy/TaskList: the closed task lists of stk/include/stk_linked_list.h, as sequences of tasks
--   Strategy/RoundRobin: SwitchStrategyRoundRobin of stk/include/strategy/stk_strategy_rrobin.h; Turns the queue
--     that the cursor stands for, Order and Rounds what GetNext() serves, Moves and Invariant what takes a task
--     out, Joining what brings one in, Events any sequence of these
--   Strategy/FixedPriority: SwitchStrategyFixedPriority of stk/include/strategy/stk_strategy_fpriority.h; Ready
--     the scan of the ready bitmap, Validity the invariant, Levels, Events and Weights the operations, Select
--     GetNext(), Calls any sequence of these
--   Strategy/Edf: SwitchStrategyEDF of stk/include/strategy/stk_strategy_edf.h; Earliest what GetNext() selects
--   Strategy/SmoothWeighted: SwitchStrategySmoothWeightedRoundRobin of
--     stk/include/strategy/stk_strategy_swrrobin.h; Selection its scan, Winner what GetNext() selects
--   Strategy/Monotonic: SwitchStrategyMonotonic of stk/include/strategy/stk_strategy_monotonic.h; Sorted the order of
--     its list and what GetNext() selects, Response its SchedulabilityCheck, LeastResponse and Verdict what this finds
--   Kernel: Kernel of stk/include/stk.h; Task the slots, Strategy what the kernel expects of a strategy
--     (ITaskSwitchStrategy of stk/include/stk_common.h), Machine the tick and the state machine, Calls what tasks
--     ask for, Start the start and the stop; Slots the agreement of slots and strategy, Passed, Update and
--     Loop what the loop over the slots does, Dispatch, NextState and Tick the whole tick, CallSlots and Reach the
--     calls and any sequence of calls and ticks, Adding and Boot the way to a started kernel, Sleep how long a task
--     sleeps, RoundRobin that the round-robin strategy is as expected; Waiting the list of synchronization objects,
--     Timeouts a tick with these, Joining the call that waits, TimedWaits and Endless the ticks after it, WaitCalls
--     the two together
--   Sync/WaitList: ISyncObject of stk/include/stk_common.h and stk/include/stk_helper.h, and the wait objects of
--     stk/include/stk.h; Ticks how timeouts add up, Found a single waiter
--   Sync/Semaphore: Semaphore of stk/include/sync/stk_sync_semaphore.h; Tokens the permits over any sequence of
--     calls
--   Sync/Inheritance: the run-time weights of stk/include/stk.h; Boosts what a boost is worth
--   Sync/Mutex: Mutex of stk/include/sync/stk_sync_mutex.h; Ownership the invariant, Handover and Runs the
--     operations, Lifetime any sequence of these
--   Sync/ConditionVariable: ConditionVariable of stk/include/sync/stk_sync_cv.h
--   Sync/MessageQueue: MessageQueue of stk/include/sync/stk_sync_msgqueue.h; Window the slots that are read, Fifo
--     the bounded queue that is its specification, Refine, Calls and Contract that it is implemented
--   Sync/RwMutex: RWMutex of stk/include/sync/stk_sync_rwmutex.h; Exclusion the invariant, Steps and Lifetime
--     that it is kept, Stranded a writer that gives up
--   Sync/Pipe: Pipe of stk/include/sync/stk_sync_pipe.h; Bulk its transfers element by element, Stream the elements
--     in it, Transfers what the bulk calls do to these
--   Sync/EventFlags: EventFlags of stk/include/sync/stk_sync_eventflags.h; Matched what a wait returns and clears,
--     Deadline a timed wait near the end of int32_t
--   Sync/Event: Event of stk/include/sync/stk_sync_event.h; Waking what Set() and Pulse() do to the waiters, Signals
--     the signals over any sequence of calls
--   Sync/SpinLock: SpinLock of stk/include/sync/stk_sync_spinlock.h; Threads any interleaving of threads
--   Time/TimerHost: TimerHost of stk/include/time/stk_time_timer.h, its calls; Commands what the tick task does with
--     them, TickTask its rounds and the handler task; Consistent and Rearming the invariant of the list and of the
--     command queue, Frame what is left alone, Runs and Lifetime any order of whole calls and parts of the tick
--     task, Preempted the calls in parts that other tasks interrupt, Safety and Racing what then holds, Stuck a timer
--     marked as rearming, Expiry one visit, Rounds and Waking a whole round, Overslept the sleep between rounds
--   Time/Utilities: PeriodicTrigger and Stopwatch of stk/include/time/stk_time_util.h; Triggers when a trigger fires
--   Memory/BlockPool: BlockMemoryPool of stk/include/memory/stk_memory_blockpool.h; Ownership which blocks are
--     free or held, Building a new pool
--   Base: lists, identities, bits and integers that these share
--
-- How the code is modelled. A task is a number, the address of its IKernelTask in a strategy and its TId in a
-- synchronization object. An intrusive list is the sequence of its entries; a task that is in no list of a
-- strategy is in no list. A method is a function from the state to the state after it, in an Option where the
-- method has an STK_ASSERT or a STK_KERNEL_PANIC: `none` is that one fails. What the code reads of a task
-- through virtual calls (GetWeight(), IsSleeping(), GetHrtRelativeDeadline()) is an argument. uint16_t, uint32_t
-- and size_t values keep their wrap-around; int32_t ticks and weights are integers. A method that blocks is
-- split where it suspends: it runs under the critical section up to there, and what follows is a function of
-- its own, or, for a loop, the same function from the test of the loop on. The mutual exclusion of the critical
-- section is what makes these parts the steps of the step functions; the hardware that gives it is not modelled.
-- Where code has no critical section, as in SpinLock and in PushCommand() of a timer host, its parts are steps.
--
-- Loops are recursion on the list or on the number of levels or slots, so no fuel is needed; the scan of the
-- ready bitmap takes 32 steps, one for each bit. Only the iteration of the response-time analysis has fuel, two
-- rounds more than the period has ticks: each round but the last lengthens the response time, and goes on only
-- while this is at most the period.
--
-- Not modelled: the links of the doubly linked lists, the kernel's hard real-time mode, the length of a
-- tickless sleep where tasks wait for synchronization objects, AddTask() from a running task, OnSuspend(), the waiting
-- of a pipe's bulk calls, the allocator, the architecture ports (registers and context switches), the C, CMSIS and FreeRTOS interfaces, and the
-- tests and examples.
pub mod Base
pub mod Strategy
pub mod Sync
pub mod Time
pub mod Memory
pub mod Kernel
