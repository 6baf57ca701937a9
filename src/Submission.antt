-- ===== src/Submission.antt =====
-- internal/submission/service.go: durable admission of submissions. A transaction holds the
-- advisory lock of its player and request and then the match row, so each one is one step here.
pub mod Dispatch
pub mod Runs
pub mod Outcomes
pub mod Idempotent
pub mod Replayed
use code_duel.Base.{
  ℕ, ◌==◌, ltb, Bytes, bytes_eq, Bool, true, false, not, ◌&&◌, ◌||◌, Option, none, some, List, [],
  ◌∷◌, ◌++◌, if◌then◌else◌, find_row, exists_row,
}
use code_duel.Db.{
  Language, python, cpp, java, other_language, Submission, pending, Match, MatchPlayer, Db,
  is_active,
}
use code_duel.World.{
  begin_tx, commit_tx, lock_request, find_request_site, lock_match, verify_member,
  insert_submission, invalid_request, match_not_found, not_match_player, match_not_active,
  deadline_passed, idempotency_conflict, unavailable, Env, World, M, pure, gets, ◌>>=◌, ◌>>◌,
  attempt, query, begin_with, exec, commit_with, guard, some_or,
}
use Dispatch.{Dispatcher, dispatch}

pub record Request : Type 0 where
  pub player_id : ℕ
  pub match_id : ℕ
  pub request_id : ℕ
  pub language : Language
  pub code : Bytes

-- What the service was built with: a database, and perhaps a dispatcher.
pub record Service : Type 0 where
  pub has_db : Bool
  pub dispatcher : Option Dispatcher

abbrev pub is_supported : Language → Bool
is_supported python = true
is_supported cpp = true
is_supported java = true
is_supported (other_language raw) = false

unfoldable pub language_eq : Language → Language → Bool
language_eq python python = true
language_eq cpp cpp = true
language_eq java java = true
language_eq (other_language s) (other_language t) = bytes_eq s t
language_eq _ _ = false

unfoldable pub valid : Request → Bool
valid r =
    if r.player_id == 0 || r.match_id == 0 || r.request_id == 0 || bytes_eq r.code []
    then false
    else is_supported r.language

abbrev pub same_key : ℕ → ℕ → Submission → Bool
same_key player request s = s.player_id == player && s.request_id == request

abbrev pub same_payload : Request → Submission → Bool
same_payload r s =
    s.match_id == r.match_id && language_eq s.language r.language && bytes_eq s.code r.code

abbrev found_id : Request → Option Submission → ℕ × Bool
found_id r none = (0, false)
found_id r (some s) = if same_payload r s then (s.id, true) else (0, true)

-- The identifier is 0 where the stored request has another payload.
unfoldable pub find_request : Env → Request → M (ℕ × Bool)
find_request e r = do
  query e find_request_site
  row ← gets (λ w. find_row (same_key r.player_id r.request_id) w.working.submissions)
  pure (found_id r row)

abbrev pub is_member : List MatchPlayer → ℕ → ℕ → Bool
is_member players match user = exists_row (λ p. p.match_id == match && p.user_id == user) players

-- INSERT INTO submissions, with the defaults of the table.
abbrev pub new_submission : Env → Request → Submission
new_submission e r = record {
  id = e.fresh insert_submission;
  match_id = r.match_id;
  player_id = r.player_id;
  request_id = r.request_id;
  language = r.language;
  code = r.code;
  status = pending;
  result = none;
  failure_kind = none;
  tests_passed = 0;
  attempts = 0;
  attempt_token = none;
  lease_until = none;
  last_enqueued_at = none;
  created_at = e.clock insert_submission;
  finished_at = none;
}

unfoldable pub add_submission : Submission → Db → Db
add_submission s db = record db { submissions = db.submissions ++ s ∷ [] }

-- The rest of `Accept` where the request is new. The primary key refuses an identifier that is
-- taken.
unfoldable pub admit : Env → Request → M ℕ
admit e r = do
  query e lock_match
  row ← gets (λ w. find_row (λ m. m.id == r.match_id) w.working.matches)
  m ← some_or row match_not_found
  query e verify_member
  member ← gets (λ w. is_member w.working.match_players r.match_id r.player_id)
  guard member not_match_player
  guard (is_active m.status) match_not_active
  guard (ltb (e.clock lock_match) m.deadline) deadline_passed
  taken ← gets (λ w. exists_row (λ s. s.id == e.fresh insert_submission) w.working.submissions)
  guard (not taken) (unavailable insert_submission)
  exec e insert_submission (add_submission (new_submission e r))
  commit_with e commit_tx
  pure (e.fresh insert_submission)

-- The error of the immediate dispatch is dropped: Match recovers the submission.
unfoldable pub dispatch_now : Env → Option Dispatcher → ℕ → M ℕ
dispatch_now e none id = pure id
dispatch_now e (some d) id = attempt (dispatch e d id) (λ _. pure id)

-- The rest of `Accept` where the request was stored before.
unfoldable pub replay : Env → ℕ → M ℕ
replay e id = do guard (not (id == 0)) idempotency_conflict; commit_with e commit_tx; pure id

-- The rest of `Accept` after the transaction of a new request.
unfoldable pub admit_and_dispatch : Env → Service → Request → M ℕ
admit_and_dispatch e service r = do id ← admit e r; dispatch_now e service.dispatcher id

unfoldable pub accept : Env → Service → Request → M ℕ
accept e service r = do
  guard (service.has_db && valid r) invalid_request
  begin_with e begin_tx
  query e lock_request
  known ← find_request e r
  if known.1 then replay e known.0 else admit_and_dispatch e service r
