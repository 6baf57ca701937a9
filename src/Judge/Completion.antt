-- ===== src/Judge/Completion.antt =====
-- internal/judge/store.go: `Complete`, fenced by the attempt token.
use code_duel.Base.{
  ℕ, ◌==◌, ltb, leb, Bool, true, false, not, ◌&&◌, Option, none, some, if◌then◌else◌, length,
  find_row, exists_row, update_rows,
}
use code_duel.Db.{
  Verdict, pass, fail, error, timeout, FailureKind, wrong_answer, compile_error, runtime_error,
  output_limit, Submission, completed, Match, Db, is_running, is_active, is_pass, is_none,
}
use code_duel.Db.Triggers.{is_open, finish_match}
use code_duel.World.{
  begin_tx, commit_tx, lock_match, lock_submission, persist_result, claim_winner, load_winner,
  unavailable, invalid_claim, invalid_result, Env, M, pure, gets, ◌>>=◌, ◌>>◌, query, begin_with,
  exec, commit_with, guard, some_or,
}
use code_duel.Judge.Store.{
  ClaimedSubmission, CompletedSubmission, TerminalResult, CompletionResult, completion_applied,
  completion_lost_ownership, winner_or_nil,
}

abbrev pub valid_claimed_submission : ClaimedSubmission → Bool
valid_claimed_submission c =
    not (c.submission_id == 0)
    && not (c.match_id == 0)
    && not (c.player_id == 0)
    && not (c.request_id == 0)
    && not (c.attempt_token == 0)
    && ltb 0 (length c.tests)

-- The `switch result.Verdict` of `validateTerminalResult`.
abbrev pub verdict_fits : Verdict → Option FailureKind → ℕ → ℕ → Bool
verdict_fits pass none passed total = passed == total
verdict_fits fail (some wrong_answer) passed total = true
verdict_fits error (some compile_error) passed total = true
verdict_fits error (some runtime_error) passed total = true
verdict_fits error (some output_limit) passed total = true
verdict_fits timeout none passed total = true
verdict_fits _ _ passed total = false

unfoldable pub validate_terminal_result : TerminalResult → ℕ → Bool
validate_terminal_result r total =
    leb r.tests_passed total && verdict_fits r.verdict r.failure_kind r.tests_passed total

abbrev pub token_is : Option ℕ → ℕ → Bool
token_is none token = false
token_is (some stored) token = stored == token

-- The attempt that was claimed still owns the submission.
unfoldable pub owns : ClaimedSubmission → Submission → Bool
owns c s =
    is_running s.status
    && s.match_id == c.match_id
    && s.player_id == c.player_id
    && token_is s.attempt_token c.attempt_token

abbrev pub settle_row : TerminalResult → ℕ → Submission → Submission
settle_row r now s = record s {
  status = completed;
  result = some r.verdict;
  failure_kind = r.failure_kind;
  tests_passed = r.tests_passed;
  finished_at = some now;
  attempt_token = none;
  lease_until = none;
}

-- UPDATE submissions SET status = 'completed', ... WHERE id = $1
unfoldable pub persist : ℕ → TerminalResult → ℕ → Db → Db
persist id r now db = record db {
  submissions = update_rows (λ s. s.id == id) (settle_row r now) db.submissions;
}

abbrev winner_of : Option Match → Option ℕ
winner_of none = none
winner_of (some m) = m.winner_id

unfoldable pub established : Env → ℕ → M (Option ℕ)
established e id = do
  query e load_winner
  gets (λ w. winner_of (find_row (λ m. m.id == id) w.working.matches))

-- The winner that the guarded UPDATE returns, or the one that is established.
unfoldable pub select_winner : Env → ClaimedSubmission → M (Option ℕ)
select_winner e c = do
  hit ← gets (λ w. exists_row (is_open c.match_id) w.working.matches)
  exec e claim_winner (finish_match c.match_id (some c.player_id))
  if hit then pure (some c.player_id) else established e c.match_id

abbrev pub wins : TerminalResult → Match → Bool
wins r m = is_pass r.verdict && is_active m.status && is_none m.winner_id

abbrev pub applied_as : ClaimedSubmission → TerminalResult → Option ℕ → CompletedSubmission
applied_as c r winner = record {
  submission_id = c.submission_id;
  match_id = c.match_id;
  player_id = c.player_id;
  request_id = c.request_id;
  players = c.players;
  verdict = r.verdict;
  failure_kind = r.failure_kind;
  tests_passed = r.tests_passed;
  total_tests = length c.tests;
  winner_id = winner_or_nil winner;
}

-- The part of `Complete` after the ownership check.
unfoldable pub settle : Env → ClaimedSubmission → TerminalResult → Match → M CompletionResult
settle e c r m = do
  exec e persist_result (persist c.submission_id r (e.clock persist_result))
  winner ← if wins r m then select_winner e c else pure m.winner_id
  commit_with e commit_tx
  pure (completion_applied (applied_as c r winner))

unfoldable pub disown : Env → M CompletionResult
disown e = do commit_with e commit_tx; pure completion_lost_ownership

-- `Complete`
unfoldable pub complete : Env → Bool → ClaimedSubmission → TerminalResult → M CompletionResult
complete e has_db c r = do
  guard (has_db && valid_claimed_submission c) invalid_claim
  guard (validate_terminal_result r (length c.tests)) invalid_result
  begin_with e begin_tx
  query e lock_match
  found_match ← gets (λ w. find_row (λ m. m.id == c.match_id) w.working.matches)
  m ← some_or found_match (unavailable lock_match)
  query e lock_submission
  found ← gets (λ w. find_row (λ s. s.id == c.submission_id) w.working.submissions)
  s ← some_or found (unavailable lock_submission)
  if owns c s then settle e c r m else disown e
