-- ===== src/Proto/EventId.antt =====
-- internal/proto/messages.go: the identifier of an event, the same for each retry.
use code_duel.Base.{ℕ, Bytes, codes, ◌++◌}
use code_duel.World.{Env}

-- `StableEventID`: uuid.NewSHA1 in the namespace of the events is the environment's.
abbrev pub stable_event_id : Env → Bytes → ℕ → ℕ → ℕ
stable_event_id e kind scope recipient = e.sha1_id (
    codes "codeduel:result:"
    ++ (kind ++ (codes ":" ++ (e.show_uuid scope ++ (codes ":" ++ e.show_uuid recipient)))))
