-- ===== src/Gateway/Matchmaking.antt =====
-- internal/gateway/matchmaking.go: admission to the queue under the lock on the user.
pub mod Admitted
use code_duel.Base.{ℕ, ◌==◌, Bool, ◌&&◌, Option, none, some, find_row}
use code_duel.Db.{Db, ActiveClaim}
use code_duel.Redisx.{QueueMember}
use code_duel.Redisx.Member.{valid_member}
use code_duel.Redisx.Queue.{Queue, enqueue}
use code_duel.Match.Create.{is_user}
use code_duel.World.{
  begin_tx, lock_user, load_active_match, missing_dependency, invalid_member, user_not_found,
  already_active, Env, M, pure, raise, gets, ◌>>=◌, ◌>>◌, query, begin_with, guard,
}

-- SELECT match_id FROM active_match_players WHERE user_id = $1
abbrev pub match_of : Option ActiveClaim → Option ℕ
match_of none = none
match_of (some claim) = some claim.match_id

abbrev pub active_match : ℕ → Db → Option ℕ
active_match user db = match_of (find_row (λ c. c.user_id == user) db.active_claims)

abbrev pub refuse_active : Option ℕ → M (Unit {0})
refuse_active none = pure tt
refuse_active (some id) = raise (already_active id)

unfoldable pub enqueue_for_match : Env → Bool → Queue → QueueMember → M (Unit {0})
enqueue_for_match e has_db queue member = do
  guard (has_db && queue.has_client) missing_dependency
  guard (valid_member e member) invalid_member
  begin_with e begin_tx
  query e (lock_user member.user_id)
  found ← gets (λ w. is_user w.working.users member.user_id)
  guard found user_not_found
  query e load_active_match
  active ← gets (λ w. active_match member.user_id w.working)
  refuse_active active
  result ← enqueue e queue member
  pure tt
