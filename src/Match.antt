-- ===== src/Match.antt =====
-- internal/match: from two queued players to a durable match.
pub mod Create
pub mod Created
pub mod Service
