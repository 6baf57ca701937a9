-- ===== src/Db/Invariant.antt =====
-- What the tables satisfy between transactions. The part about submissions is IsSound.
use code_duel.Base.{
  ℕ, ◌≡◌, ◌==◌, Bool, true, false, ◌&&◌, none, some, List, [], ◌∷◌, exists_row, All, Keyed,
}
use code_duel.Db.{Submission, Match, MatchPlayer, ActiveClaim, Db, is_active, is_none}
use code_duel.Db.Triggers.{match_at, is_active_row}
use code_duel.Db.Lifecycle.{IsSound}
use code_duel.Submission.{is_member}

abbrev pub claims_user_in : ℕ → ℕ → ActiveClaim → Bool
claims_user_in match user c = c.user_id == user && c.match_id == match

abbrev pub is_claimed : List ActiveClaim → ℕ → ℕ → Bool
is_claimed claims match user = exists_row (claims_user_in match user) claims

-- The primary key of active_match_players.
abbrev pub OneEach : List ActiveClaim → Type 0
OneEach [] = Unit {0}
OneEach (c ∷ cs) = (exists_row (λ d. d.user_id == c.user_id) cs ≡ false) × OneEach cs

pub record IsSettled (players : List MatchPlayer) (m : Match) : Type 0 where
  pub active_open : is_active m.status ≡ true → m.winner_id ≡ none
  pub winner_played : (u : ℕ) → m.winner_id ≡ some u → is_member players m.id u ≡ true

abbrev pub IsSubmitted : List MatchPlayer → Submission → Type 0
IsSubmitted players s = is_member players s.match_id s.player_id ≡ true

abbrev pub IsStored : List Match → MatchPlayer → Type 0
IsStored matches p = is_none (match_at p.match_id matches) ≡ false

abbrev pub IsLive : List Match → ActiveClaim → Type 0
IsLive matches c = is_active_row (match_at c.match_id matches) ≡ true

abbrev pub IsHeld : List Match → List ActiveClaim → MatchPlayer → Type 0
IsHeld matches claims p =
    is_active_row (match_at p.match_id matches) ≡ true
    → is_claimed claims p.match_id p.user_id ≡ true

-- The submissions.
pub record SubmissionsOk (max : ℕ) (players : List MatchPlayer) (rows : List Submission)
    : Type 0 where
  pub key : Keyed (λ (s : Submission). s.id) rows
  pub sound : All (IsSound max) rows
  pub submitted : All (IsSubmitted players) rows

-- The matches, their players, and the claims on active players.
pub record MatchesOk (matches : List Match) (players : List MatchPlayer) (claims : List ActiveClaim)
    : Type 0 where
  pub key : Keyed (λ (m : Match). m.id) matches
  pub settled : All (IsSettled players) matches
  pub stored : All (IsStored matches) players
  pub live : All (IsLive matches) claims
  pub held : All (IsHeld matches claims) players
  pub one_each : OneEach claims

pub record DbOk (max : ℕ) (db : Db) : Type 0 where
  pub submissions_ok : SubmissionsOk max db.match_players db.submissions
  pub matches_ok : MatchesOk db.matches db.match_players db.active_claims
