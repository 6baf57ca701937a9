-- ===== src/Gateway.antt =====
-- internal/gateway: what a connection asks for.
pub mod Matchmaking
pub mod Inbound
pub mod Registry
pub mod Tokens
