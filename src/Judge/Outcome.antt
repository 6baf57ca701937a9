-- ===== src/Judge/Outcome.antt =====
-- internal/judge/result.go and the outcome kinds of executor.go: from an execution outcome to a
-- terminal result, and from a settled submission to the events for both players.
use code_duel.Base.{
  ℕ, ◌==◌, ltb, leb, Bytes, codes, Bool, not, ◌&&◌, ◌||◌, Option, none, some, List, [], ◌∷◌,
  if◌then◌else◌,
}
use code_duel.Db.{
  Verdict, pass, fail, error, timeout, FailureKind, wrong_answer, compile_error, runtime_error,
  output_limit,
}
use code_duel.Proto.EventId.{stable_event_id}
use code_duel.Proto.{win, loss, ResultData, Envelope, result}
use code_duel.World.{Env}
use code_duel.Judge.Store.{CompletedSubmission, TerminalResult}
use code_duel.Judge.Completion.{validate_terminal_result}

pub data OutcomeKind : Type 0 where
  outcome_pass outcome_wrong_answer outcome_compile_error : OutcomeKind
  outcome_runtime_error outcome_output_limit outcome_timeout : OutcomeKind
  other_outcome : Bytes → OutcomeKind

pub record ExecutionOutcome : Type 0 where
  pub kind : OutcomeKind
  pub tests_passed : ℕ

abbrev pub classify : OutcomeKind → Option (Verdict × Option FailureKind)
classify outcome_pass = some (pass, none)
classify outcome_wrong_answer = some (fail, some wrong_answer)
classify outcome_compile_error = some (error, some compile_error)
classify outcome_runtime_error = some (error, some runtime_error)
classify outcome_output_limit = some (error, some output_limit)
classify outcome_timeout = some (timeout, none)
classify (other_outcome kind) = none

abbrev checked : ℕ → ℕ → Option (Verdict × Option FailureKind) → Option TerminalResult
checked passed total none = none
checked passed total (some (verdict, failure)) =
    let r : TerminalResult = record {
      verdict = verdict;
      failure_kind = failure;
      tests_passed = passed;
    } in
    if validate_terminal_result r total then some r else none

-- `none` is the error, for an unknown kind and for a result that does not validate.
unfoldable pub terminal_result_from_outcome : ExecutionOutcome → ℕ → Option TerminalResult
unfolding validate_terminal_result
terminal_result_from_outcome o total = checked o.tests_passed total (classify o.kind)

pub record ResultEvent : Type 0 where
  pub recipient_id : ℕ
  pub payload : Envelope

abbrev pub result_kind_submission : Bytes
result_kind_submission = codes "submission-result"

abbrev pub result_kind_winner : Bytes
result_kind_winner = codes "winner-result"

abbrev pub is_player : ℕ → ℕ × ℕ → Bool
is_player id players = id == players.0 || id == players.1

-- The checks of `buildResultEvents`.
abbrev pub valid_completed : CompletedSubmission → Bool
valid_completed c =
    not (c.submission_id == 0)
    && not (c.match_id == 0)
    && not (c.player_id == 0)
    && ltb 0 c.total_tests
    && leb c.tests_passed c.total_tests

abbrev pub valid_players : CompletedSubmission → Bool
valid_players c =
    not (c.players.0 == 0)
    && not (c.players.1 == 0)
    && not (c.players.0 == c.players.1)
    && is_player c.player_id c.players

abbrev pub valid_winner : CompletedSubmission → Bool
valid_winner c = c.winner_id == 0 || is_player c.winner_id c.players

abbrev pub result_data : Env → CompletedSubmission → ℕ → ResultData
result_data e c recipient = record {
  event_id =
      stable_event_id e (if c.winner_id == 0 then result_kind_submission else result_kind_winner)
        c.submission_id recipient;
  request_id = c.request_id;
  submission_id = c.submission_id;
  match_id = c.match_id;
  player_id = c.player_id;
  verdict = c.verdict;
  tests_passed = c.tests_passed;
  total_tests = c.total_tests;
  winner_id = if c.winner_id == 0 then none else some c.winner_id;
  outcome =
      if c.winner_id == 0 then none else if recipient == c.winner_id then some win else some loss;
  failure_kind = c.failure_kind;
}

abbrev pub result_event : Env → CompletedSubmission → ℕ → ResultEvent
result_event e c recipient = record {
  recipient_id = recipient;
  payload = result (result_data e c recipient);
}

-- `none` is the error. Marshalling these plain structs has no error.
unfoldable pub build_result_events : Env → CompletedSubmission → Option (List ResultEvent)
build_result_events e c =
    if valid_completed c && valid_players c && valid_winner c
    then some (result_event e c c.players.0 ∷ result_event e c c.players.1 ∷ [])
    else none
