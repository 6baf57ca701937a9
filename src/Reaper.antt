-- ===== src/Reaper.antt =====
-- internal/reaper: recovery of abandoned work and the end of expired matches.
pub mod Events
pub mod Leases
pub mod Matches
pub mod Sweep
pub mod Verdicts
pub mod Scores
pub mod Finalized
