-- ===== src/Match/Create.antt =====
-- internal/match/create.go: the transaction that creates a match for two players.
use code_duel.Base.{
  ℕ, ◌+◌, ◌*◌, ◌==◌, ltb, Bool, not, ◌&&◌, ◌||◌, Option, none, some, List, [], ◌∷◌, ◌++◌, map,
  if◌then◌else◌, length, select_rows, exists_row, order_by,
}
use code_duel.Db.{Match, active, MatchPlayer, ActiveClaim, Problem, Db}
use code_duel.Db.Triggers.{Inserted, inserted, claim_taken, no_match, add_player}
use code_duel.Redisx.{QueueMember}
use code_duel.Redisx.Member.{valid_member}
use code_duel.World.{
  begin_tx, commit_tx, lock_user, load_claims, reload_claims, select_problem, insert_match,
  insert_player, unavailable, invalid_arguments, invalid_player, same_player, no_problem,
  missing_dependency, ineligible, Env, M, pure, raise, gets, ◌>>=◌, ◌>>◌, query, begin_with, exec,
  commit_with, guard, some_or,
}

pub record CreatedMatch : Type 0 where
  pub match_id : ℕ
  pub problem_id : ℕ
  pub deadline : ℕ
  pub players : QueueMember × QueueMember

-- `slices.SortFunc` of the two identifiers by their bytes.
abbrev pub ordered_ids : ℕ → ℕ → List ℕ
ordered_ids a b = if ltb b a then b ∷ a ∷ [] else a ∷ b ∷ []

abbrev pub is_user : List ℕ → ℕ → Bool
is_user users id = exists_row (λ u. u == id) users

-- SELECT ... FOR UPDATE for each player: those that do not exist.
unfoldable pub lock_users : Env → List ℕ → M (List ℕ)
lock_users e [] = pure []
lock_users e (id ∷ ids) = do
  query e (lock_user id)
  found ← gets (λ w. is_user w.working.users id)
  missing ← lock_users e ids
  pure (if found then missing else id ∷ missing)

abbrev pub among : List ℕ → ActiveClaim → Bool
among ids c = exists_row (λ id. id == c.user_id) ids

-- SELECT user_id, match_id FROM active_match_players WHERE user_id = ANY($1) ORDER BY user_id
abbrev pub claims_of : List ℕ → Db → List (ℕ × ℕ)
claims_of ids db =
    map (λ c. (c.user_id, c.match_id))
      (order_by (λ a b. ltb a.user_id b.user_id) (select_rows (among ids) db.active_claims))

-- SELECT id FROM problems ORDER BY created_at, id LIMIT 1
abbrev pub problem_before : Problem → Problem → Bool
problem_before a b =
    ltb a.created_at b.created_at || (a.created_at == b.created_at && ltb a.id b.id)

abbrev first_id : List Problem → Option ℕ
first_id [] = none
first_id (p ∷ ps) = some p.id

abbrev pub oldest_problem : Db → Option ℕ
oldest_problem db = first_id (order_by problem_before db.problems)

-- INSERT INTO matches, with the defaults of the table.
abbrev pub new_match : Env → ℕ → ℕ → Match
new_match e problem milliseconds = record {
  id = e.fresh insert_match;
  problem_id = problem;
  status = active;
  winner_id = none;
  deadline = e.clock insert_match + milliseconds * 1000;
  created_at = e.clock insert_match;
}

unfoldable pub add_match : Match → Db → Db
add_match m db = record db { matches = db.matches ++ m ∷ [] }

-- The conflict on active_match_players_pkey: after the rollback, the claims are read from the pool.
unfoldable pub report_conflict : Env → List ℕ → ℕ → M (Unit {0})
report_conflict e ids slot = do
  query e (insert_player slot)
  query e reload_claims
  claims ← gets (λ w. claims_of ids w.durable)
  guard (not (ltb 0 (length claims))) (ineligible [] claims)
  raise (unavailable (insert_player slot))

unfoldable pub insert_result : Env → List ℕ → ℕ → Inserted → M (Unit {0})
insert_result e ids slot (inserted db) = exec e (insert_player slot) (λ _. db)
insert_result e ids slot claim_taken = report_conflict e ids slot
insert_result e ids slot no_match = raise (unavailable (insert_player slot))

-- One round of the loop over the players.
unfoldable pub insert_slot : Env → List ℕ → ℕ → ℕ → ℕ → M (Unit {0})
insert_slot e ids match user slot = do
  let player : MatchPlayer = record { match_id = match; user_id = user; slot = slot }
  result ← gets (λ w. add_player player w.working)
  insert_result e ids slot result

-- The part of `createMatch` for two eligible players.
unfoldable pub open_match : Env → ℕ → QueueMember → QueueMember → M CreatedMatch
open_match e milliseconds a b = do
  query e select_problem
  oldest ← gets (λ w. oldest_problem w.working)
  problem ← some_or oldest no_problem
  taken ← gets (λ w. exists_row (λ m. m.id == e.fresh insert_match) w.working.matches)
  guard (not taken) (unavailable insert_match)
  exec e insert_match (add_match (new_match e problem milliseconds))
  insert_slot e (ordered_ids a.user_id b.user_id) (e.fresh insert_match) a.user_id 1
  insert_slot e (ordered_ids a.user_id b.user_id) (e.fresh insert_match) b.user_id 2
  commit_with e commit_tx
  pure (record {
    match_id = e.fresh insert_match;
    problem_id = problem;
    deadline = e.clock insert_match + milliseconds * 1000;
    players = (a, b);
  })

-- `createMatch`, for a duration of so many whole milliseconds.
unfoldable pub create_match : Env → Bool → ℕ → QueueMember → QueueMember → M CreatedMatch
create_match e has_db milliseconds a b = do
  guard (ltb 0 milliseconds) invalid_arguments
  guard (valid_member e a) invalid_player
  guard (valid_member e b) invalid_player
  guard (not (a.user_id == b.user_id)) same_player
  guard has_db missing_dependency
  begin_with e begin_tx
  missing ← lock_users e (ordered_ids a.user_id b.user_id)
  query e load_claims
  claims ← gets (λ w. claims_of (ordered_ids a.user_id b.user_id) w.working)
  guard (not (ltb 0 (length missing) || ltb 0 (length claims))) (ineligible missing claims)
  open_match e milliseconds a b
