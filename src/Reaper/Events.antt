-- ===== src/Reaper/Events.antt =====
-- internal/reaper/events.go: the events that the reaper publishes.
use code_duel.Base.{
  ℕ, suc, ◌==◌, Bytes, codes, Bool, true, not, ◌&&◌, ◌||◌, Option, none, some, List, [], ◌∷◌,
  if◌then◌else◌,
}
use code_duel.Db.{failed, infrastructure_error}
use code_duel.Proto.EventId.{stable_event_id}
use code_duel.Proto.{Outcome, win, loss, draw, Envelope, result, match_end}
use code_duel.Redisx.Keys.{user_channel, publish}
use code_duel.World.{
  publish_to, publish_failed, Result, ok, err, Env, M, pure, ◌>>=◌, attempt, guard,
}

abbrev pub event_kind_infrastructure_failed : Bytes
event_kind_infrastructure_failed = codes "infrastructure-failed"

abbrev pub event_kind_match_finalized : Bytes
event_kind_match_finalized = codes "match-finalized"

pub record PublishedEvent : Type 0 where
  pub recipient_id : ℕ
  pub payload : Envelope

abbrev pub distinct_players : ℕ × ℕ → Bool
distinct_players players =
    not (players.0 == 0) && not (players.1 == 0) && not (players.0 == players.1)

abbrev pub failed_result_event : Env → ℕ → ℕ → ℕ → ℕ → ℕ → ℕ → PublishedEvent
failed_result_event e submission request match player total recipient = record {
  recipient_id = recipient;
  payload = result (record {
    event_id = stable_event_id e event_kind_infrastructure_failed submission recipient;
    request_id = request;
    submission_id = submission;
    match_id = match;
    player_id = player;
    verdict = failed;
    tests_passed = 0;
    total_tests = total;
    winner_id = none;
    outcome = none;
    failure_kind = some infrastructure_error;
  });
}

-- `none` is the error.
unfoldable pub build_failed_result_events :
    Env → ℕ → ℕ → ℕ → ℕ → ℕ × ℕ → ℕ → Option (List PublishedEvent)
build_failed_result_events e submission request match player players total =
    if not (submission == 0)
      && not (request == 0)
      && not (match == 0)
      && not (player == 0)
      && distinct_players players
      && (player == players.0 || player == players.1)
    then some (
        failed_result_event e submission request match player total players.0
        ∷ failed_result_event e submission request match player total players.1
        ∷ [])
    else none

abbrev pub outcome_for : ℕ → Option ℕ → Outcome
outcome_for recipient none = draw
outcome_for recipient (some winner) = if recipient == winner then win else loss

abbrev pub winner_is_player : Option ℕ → ℕ × ℕ → Bool
winner_is_player none players = true
winner_is_player (some winner) players = winner == players.0 || winner == players.1

abbrev pub match_end_event : Env → ℕ → ℕ → Option ℕ → ℕ → ℕ → PublishedEvent
match_end_event e match total winner recipient score = record {
  recipient_id = recipient;
  payload = match_end (record {
    event_id = stable_event_id e event_kind_match_finalized match recipient;
    match_id = match;
    winner_id = winner;
    outcome = outcome_for recipient winner;
    tests_passed = score;
    total_tests = total;
  });
}

-- Scores and totals are numbers here, so their tests for negative values are gone.
unfoldable pub build_match_end_events :
    Env → ℕ → ℕ × ℕ → ℕ × ℕ → ℕ → Option ℕ → Option (List PublishedEvent)
build_match_end_events e match players scores total winner =
    if not (match == 0) && distinct_players players && winner_is_player winner players
    then some (
        match_end_event e match total winner players.0 scores.0
        ∷ match_end_event e match total winner players.1 scores.1
        ∷ [])
    else none

abbrev pub add_failure : Result (Unit {0}) → ℕ → ℕ
add_failure (ok delivered) failures = failures
add_failure (err x) failures = suc failures

unfoldable pub publish_each : Env → List PublishedEvent → M ℕ
publish_each e [] = pure 0
publish_each e (event ∷ events) =
    attempt
      (publish e (publish_to event.recipient_id) (user_channel e event.recipient_id) event.payload)
      (λ r. do failures ← publish_each e events; pure (add_failure r failures))

-- `publishEvents` tries every event and fails at the end.
unfoldable pub publish_events : Env → List PublishedEvent → M (Unit {0})
publish_events e events = do
  failures ← publish_each e events
  guard (failures == 0) (publish_failed failures)
