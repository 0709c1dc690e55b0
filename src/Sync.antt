-- ===== src/Sync.antt =====
-- The synchronization primitives of stk/include/sync, and the wait list that they share.
pub mod WaitList
pub mod Semaphore
pub mod Inheritance
pub mod Mutex
pub mod ConditionVariable
pub mod MessageQueue
pub mod RwMutex
pub mod Pipe
pub mod EventFlags
pub mod Event
pub mod SpinLock
