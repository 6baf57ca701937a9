-- ===== src/Db/Triggers.antt =====
-- infrastructure/migrations/000007_active_match_claims.up.sql: the triggers that keep
-- active_match_players in step with the matches. They run inside the statement that fires them.
use code_duel.Base.{
  ℕ, ◌==◌, Bool, false, ◌&&◌, Option, none, some, List, [], ◌∷◌, ◌++◌, if◌then◌else◌, by_key,
  find_row, exists_row, update_rows, delete_rows,
}
use code_duel.Db.{Match, finished, MatchPlayer, ActiveClaim, Db, is_active, is_none}

abbrev pub finish : Option ℕ → Match → Match
finish winner m = record m { status = finished; winner_id = winner }

-- WHERE id = $1 AND status = 'active' AND winner_id IS NULL
abbrev pub is_open : ℕ → Match → Bool
is_open id m = m.id == id && is_active m.status && is_none m.winner_id

abbrev pub claim_ends : ℕ → List Match → ActiveClaim → Bool
claim_ends id matches c = c.match_id == id && exists_row (is_open id) matches

-- UPDATE matches SET status = 'finished', winner_id = $2 WHERE ..., with matches_sync_active_claims.
unfoldable pub finish_match : ℕ → Option ℕ → Db → Db
finish_match id winner db = record db {
  matches = update_rows (is_open id) (finish winner) db.matches;
  active_claims = delete_rows (claim_ends id db.matches) db.active_claims;
}

abbrev pub match_at : ℕ → List Match → Option Match
match_at id matches = find_row (by_key (λ (m : Match). m.id) id) matches

abbrev pub is_active_row : Option Match → Bool
is_active_row none = false
is_active_row (some m) = is_active m.status

abbrev pub has_claim : List ActiveClaim → ℕ → Bool
has_claim claims user = exists_row (λ c. c.user_id == user) claims

-- What an INSERT INTO match_players comes to: `claim_taken` is the violation of
-- active_match_players_pkey, and `no_match` that of the foreign key.
pub data Inserted : Type 0 where
  inserted : Db → Inserted
  claim_taken no_match : Inserted

abbrev pub with_player : MatchPlayer → Db → Db
with_player p db = record db { match_players = db.match_players ++ p ∷ [] }

abbrev pub with_claim : MatchPlayer → Db → Db
with_claim p db = record db {
  match_players = db.match_players ++ p ∷ [];
  active_claims = db.active_claims ++ record { user_id = p.user_id; match_id = p.match_id } ∷ [];
}

abbrev pub insert_into : MatchPlayer → Db → Option Match → Inserted
insert_into p db none = no_match
insert_into p db (some m) =
    if is_active m.status
    then (if has_claim db.active_claims p.user_id then claim_taken else inserted (with_claim p db))
    else inserted (with_player p db)

-- INSERT INTO match_players, with match_players_claim_active.
unfoldable pub add_player : MatchPlayer → Db → Inserted
add_player p db = insert_into p db (match_at p.match_id db.matches)
