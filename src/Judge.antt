-- ===== src/Judge.antt =====
-- internal/judge: claiming, running and settling submissions.
pub mod Store
pub mod Completion
pub mod Outcome
pub mod Output
pub mod Executor
pub mod Sandbox
pub mod Docker
pub mod Service
pub mod Fencing
pub mod Settled
pub mod Results
pub mod Claims
