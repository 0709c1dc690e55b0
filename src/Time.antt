-- ===== src/Time.antt =====
-- The software timers and time utilities of stk/include/time.
pub mod TimerHost
pub mod Utilities
