-- ===== src/Judge/Store.antt =====
-- internal/judge/store.go: the leased claim of a submission and its fenced completion.
use code_duel.Base.{
  ℕ, ◌+◌, ◌==◌, ltb, Bytes, bytes_eq, Bool, not, ◌&&◌, ◌||◌, Option, none, some, List, [], ◌∷◌, map,
  if◌then◌else◌, length, find_row, select_rows, update_rows, order_by,
}
use code_duel.Db.{
  Language, other_language, SubmissionStatus, pending, running, completed, other_status, Verdict,
  FailureKind, Submission, Match, MatchPlayer, Problem, Db, is_pending,
}
use code_duel.World.{
  begin_tx, commit_tx, lock_submission, load_players, mark_running, invalid_arguments,
  missing_verdict, invalid_status, invalid_tests, unsupported_language, invalid_source,
  invalid_player_set, StoredTest, Env, M, pure, raise, gets, ◌>>=◌, ◌>>◌, query, begin_with, exec,
  commit_with, guard, some_or,
}

pub record TestCase : Type 0 where
  pub input : Bytes
  pub expected : Bytes

pub record ClaimedSubmission : Type 0 where
  pub submission_id : ℕ
  pub match_id : ℕ
  pub player_id : ℕ
  pub problem_id : ℕ
  pub request_id : ℕ
  pub language : Language
  pub source : Bytes
  pub tests : List TestCase
  pub players : ℕ × ℕ
  pub attempt_token : ℕ

-- The empty failure kind is `none`, and no winner is 0.
pub record CompletedSubmission : Type 0 where
  pub submission_id : ℕ
  pub match_id : ℕ
  pub player_id : ℕ
  pub request_id : ℕ
  pub players : ℕ × ℕ
  pub verdict : Verdict
  pub failure_kind : Option FailureKind
  pub tests_passed : ℕ
  pub total_tests : ℕ
  pub winner_id : ℕ

pub data ClaimResult : Type 0 where
  claim_acquired : ClaimedSubmission → ClaimResult
  claim_completed : CompletedSubmission → ClaimResult
  claim_running : ℕ → ClaimResult
  claim_expired claim_missing : ClaimResult

pub record TerminalResult : Type 0 where
  pub verdict : Verdict
  pub failure_kind : Option FailureKind
  pub tests_passed : ℕ

pub data CompletionResult : Type 0 where
  completion_applied : CompletedSubmission → CompletionResult
  completion_lost_ownership : CompletionResult

abbrev pub decode_fields : Env → Option Bytes → Option Bytes → Option TestCase
decode_fields e (some input) (some expected) =
    if e.utf8_valid input && e.utf8_valid expected
    then some (record { input = input; expected = expected })
    else none
decode_fields e _ _ = none

abbrev pub cons_test : Option TestCase → Option (List TestCase) → Option (List TestCase)
cons_test (some test) (some tests) = some (test ∷ tests)
cons_test _ _ = none

pub decode_each : Env → List StoredTest → Option (List TestCase)
decode_each e [] = some []
decode_each e (t ∷ ts) = cons_test (decode_fields e t.input t.expected) (decode_each e ts)

abbrev pub nonempty_tests : Env → List StoredTest → Option (List TestCase)
nonempty_tests e [] = none
nonempty_tests e (t ∷ ts) = decode_each e (t ∷ ts)

abbrev decode_stored : Env → Option (List StoredTest) → Option (List TestCase)
decode_stored e none = none
decode_stored e (some stored) = nonempty_tests e stored

unfoldable pub decode_stored_tests : Env → Bytes → Option (List TestCase)
unfolding decode_each
decode_stored_tests e raw = decode_stored e (e.decode_tests raw)

abbrev pub parse_stored_language : Language → Option Language
parse_stored_language (other_language raw) = none
parse_stored_language l = some l

abbrev pub by_slot : MatchPlayer → MatchPlayer → Bool
by_slot a b = ltb a.slot b.slot || (a.slot == b.slot && ltb a.user_id b.user_id)

-- SELECT user_id FROM match_players WHERE match_id = $1 ORDER BY slot, user_id
abbrev pub players_of : ℕ → Db → List ℕ
players_of match db =
    map (λ p. p.user_id)
      (order_by by_slot (select_rows (λ p. p.match_id == match) db.match_players))

-- Exactly two players, distinct, with the submitter among them.
abbrev pub player_pair : ℕ → List ℕ → Option (ℕ × ℕ)
player_pair submitter (a ∷ b ∷ []) =
    if (a == submitter || b == submitter) && not (a == b) then some (a, b) else none
player_pair submitter _ = none

unfoldable pub load_match_players : Env → ℕ → ℕ → M (ℕ × ℕ)
load_match_players e match submitter = do
  query e load_players
  rows ← gets (λ w. players_of match w.working)
  some_or (player_pair submitter rows) invalid_player_set

-- The joined row that `Claim` selects and locks.
pub record ClaimRow : Type 0 where
  pub submission : Submission
  pub match : Match
  pub problem : Problem

abbrev pub with_problem : Submission → Match → Option Problem → Option ClaimRow
with_problem s m none = none
with_problem s m (some p) = some (record { submission = s; match = m; problem = p })

abbrev pub with_match : Db → Submission → Option Match → Option ClaimRow
with_match db s none = none
with_match db s (some m) = with_problem s m (find_row (λ p. p.id == m.problem_id) db.problems)

abbrev pub with_submission : Db → Option Submission → Option ClaimRow
with_submission db none = none
with_submission db (some s) = with_match db s (find_row (λ m. m.id == s.match_id) db.matches)

unfoldable pub claim_row : ℕ → Db → Option ClaimRow
claim_row id db = with_submission db (find_row (λ s. s.id == id) db.submissions)

-- A live attempt has a token and a lease that is not over.
abbrev pub live_lease : ℕ → Option ℕ → Option ℕ → ClaimResult
live_lease now (some until) (some token) =
    if ltb now until then claim_running until else claim_expired
live_lease now _ _ = claim_expired

abbrev pub winner_or_nil : Option ℕ → ℕ
winner_or_nil none = 0
winner_or_nil (some id) = id

-- UPDATE submissions SET status = 'running', ... WHERE id = $1 AND status = 'pending'
abbrev pub start_attempt : ℕ → ℕ → Submission → Submission
start_attempt token until s = record s {
  status = running;
  attempts = s.attempts + 1;
  attempt_token = some token;
  lease_until = some until;
}

unfoldable pub start_running : ℕ → ℕ → ℕ → Db → Db
start_running id token until db = record db {
  submissions =
      update_rows (λ s. s.id == id && is_pending s.status) (start_attempt token until)
        db.submissions;
}

unfoldable pub claim_pending : Env → ClaimRow → ℕ → ℕ → M ClaimResult
claim_pending e row token lease = do
  let s = row.submission
  tests ← some_or (decode_stored_tests e row.problem.test_cases) invalid_tests
  language ← some_or (parse_stored_language s.language) unsupported_language
  guard (not (bytes_eq s.code []) && e.utf8_valid s.code) invalid_source
  players ← load_match_players e s.match_id s.player_id
  exec e mark_running (start_running s.id token (e.clock mark_running + lease))
  commit_with e commit_tx
  pure (
      claim_acquired (record {
        submission_id = s.id;
        match_id = s.match_id;
        player_id = s.player_id;
        problem_id = row.match.problem_id;
        request_id = s.request_id;
        language = language;
        source = s.code;
        tests = tests;
        players = players;
        attempt_token = token;
      }))

unfoldable pub inspect_completed : Env → ClaimRow → M ClaimResult
inspect_completed e row = do
  let s = row.submission
  verdict ← some_or s.result missing_verdict
  tests ← some_or (decode_stored_tests e row.problem.test_cases) invalid_tests
  players ← load_match_players e s.match_id s.player_id
  commit_with e commit_tx
  pure (
      claim_completed (record {
        submission_id = s.id;
        match_id = s.match_id;
        player_id = s.player_id;
        request_id = s.request_id;
        players = players;
        verdict = verdict;
        failure_kind = s.failure_kind;
        tests_passed = s.tests_passed;
        total_tests = length tests;
        winner_id = winner_or_nil row.match.winner_id;
      }))

unfoldable pub inspect_running : Env → ClaimRow → M ClaimResult
inspect_running e row = do
  commit_with e commit_tx
  pure
      (live_lease (e.clock lock_submission) row.submission.lease_until row.submission.attempt_token)

-- The `switch status` of `Claim`.
unfoldable pub claim_by_status : SubmissionStatus → Env → ClaimRow → ℕ → ℕ → M ClaimResult
claim_by_status running e row token lease = inspect_running e row
claim_by_status completed e row token lease = inspect_completed e row
claim_by_status pending e row token lease = claim_pending e row token lease
claim_by_status (other_status raw) e row token lease = raise invalid_status

unfoldable pub claim_found : Env → Option ClaimRow → ℕ → ℕ → M ClaimResult
claim_found e none token lease = pure claim_missing
claim_found e (some row) token lease = claim_by_status row.submission.status e row token lease

-- `Claim`
unfoldable pub claim : Env → Bool → ℕ → ℕ → ℕ → M ClaimResult
claim e has_db id token lease = do
  guard (has_db && not (id == 0) && not (token == 0) && ltb 0 lease) invalid_arguments
  begin_with e begin_tx
  query e lock_submission
  row ← gets (λ w. claim_row id w.working)
  claim_found e row token lease
