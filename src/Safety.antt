-- ===== src/Safety.antt =====
-- No handler breaks the invariant of the tables, however its calls end.
pub mod Admission
pub mod Judging
pub mod Jobs
pub mod Reaping
pub mod Ticking
pub mod Matching
