-- ===== src/Kernel.antt =====
-- The kernel of stk/include/stk.h.
pub mod Task
pub mod Strategy
pub mod Machine
pub mod Slots
pub mod Passed
pub mod Update
pub mod Loop
pub mod Dispatch
pub mod NextState
pub mod Tick
pub mod Calls
pub mod CallSlots
pub mod Reach
pub mod RoundRobin
pub mod Sleep
pub mod Waiting
pub mod Timeouts
pub mod TimedWaits
pub mod Endless
pub mod Joining
pub mod WaitCalls
pub mod Start
pub mod Adding
pub mod Boot
pub mod Tests
pub mod WaitTests
