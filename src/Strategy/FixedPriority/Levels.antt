-- ===== src/Strategy/FixedPriority/Levels.antt =====
-- The invariant of the fixed-priority strategy: the ready bitmap tells which levels have a task, the
-- cursors are those of the round robin of each level, and no task is in two places.
pub mod Removal
pub mod Addition
pub use Removal.{remove_active-Touched, remove_active-Unlinked, sleep-remove_active}
pub use Addition.{add_active-Touched, sleep-add_active, tasks-add_active}
