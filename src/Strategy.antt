-- ===== src/Strategy.antt =====
-- The task-switching strategies of stk/include/strategy.
pub mod TaskList
pub mod RoundRobin
pub mod FixedPriority
pub mod Edf
pub mod Monotonic
pub mod SmoothWeighted
