-- ===== src/Memory.antt =====
-- The memory pools of stk/include/memory.
pub mod BlockPool
