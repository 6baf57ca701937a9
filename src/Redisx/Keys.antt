-- ===== src/Redisx/Keys.antt =====
-- internal/redisx/keys.go, and publication on a user's channel.
use code_duel.Base.{ℕ, Bytes, codes, [], ◌∷◌, ◌++◌}
use code_duel.Proto.{Envelope}
use code_duel.World.{Site, Env, M, call}

abbrev pub presence_prefix : Bytes
presence_prefix = codes "codeduel:presence:"

abbrev pub user_prefix : Bytes
user_prefix = codes "codeduel:user:"

abbrev pub presence_key : Env → ℕ → ℕ → Bytes
presence_key e user connection =
    presence_prefix ++ (e.show_uuid user ++ (codes ":" ++ e.show_uuid connection))

abbrev pub user_channel : Env → ℕ → Bytes
user_channel e user = user_prefix ++ e.show_uuid user

-- PUBLISH. A message whose answer is lost has been delivered.
unfoldable pub publish : Env → Site → Bytes → Envelope → M (Unit {0})
publish e site channel payload =
    call e site
      (λ w. record w { sent = w.sent ++ record { channel = channel; payload = payload } ∷ [] })
