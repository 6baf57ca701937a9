-- ===== src/System.antt =====
-- The roles together: every run of the system is a sequence of the handlers' steps, in any order,
-- with any failures.
pub mod Reach
pub mod Promises
