-- ===== src/Judge/Service.antt =====
-- internal/judge/service.go: one judge job, from the claim to the removal of its stream entry.
use code_duel.Base.{ℕ, suc, ◌==◌, Bytes, true, not, Option, none, some, List, [], ◌∷◌, length}
use code_duel.Db.{Language}
use code_duel.Redisx.JudgeQueue.{JudgeJob, DecodeError, finalize}
use code_duel.Redisx.Keys.{user_channel, publish}
use code_duel.World.{
  publish_to, invalid_event, missing_entry, unknown_outcome, ownership_lost, publish_failed, Result,
  ok, err, Env, M, pure, raise, ◌>>=◌, ◌>>◌, attempt, guard, some_or,
}
use code_duel.Judge.Store.{
  TestCase, ClaimedSubmission, CompletedSubmission, ClaimResult, claim_acquired, claim_completed,
  claim_running, claim_expired, claim_missing, CompletionResult, completion_applied,
  completion_lost_ownership, claim,
}
use code_duel.Judge.Completion.{complete}
use code_duel.Judge.Outcome.{
  ExecutionOutcome, terminal_result_from_outcome, ResultEvent, build_result_events,
}

pub record ExecutionRequest : Type 0 where
  pub language : Language
  pub source : Bytes
  pub tests : List TestCase

-- What one job meets: the environments of its two transactions and of its messages, the token
-- that it draws, the executor, and the lease that it asks for.
pub record JobEnv : Type 0 where
  pub claiming : Env
  pub completing : Env
  pub delivering : Env
  pub token : ℕ
  pub execute : ExecutionRequest → Result ExecutionOutcome
  pub lease : ℕ

abbrev pub add_failure : Result (Unit {0}) → ℕ → ℕ
add_failure (ok delivered) failures = failures
add_failure (err x) failures = suc failures

-- Every event is sent, also after one has failed. The result is the number of failures.
unfoldable pub publish_each : Env → List ResultEvent → M ℕ
publish_each e [] = pure 0
publish_each e (event ∷ events) =
    attempt
      (publish e (publish_to event.recipient_id) (user_channel e event.recipient_id) event.payload)
      (λ r. do failures ← publish_each e events; pure (add_failure r failures))

unfoldable pub publish_and_finalize : Env → ℕ → CompletedSubmission → M (Unit {0})
publish_and_finalize e entry_id c = do
  events ← some_or (build_result_events e c) invalid_event
  failures ← publish_each e events
  guard (failures == 0) (publish_failed failures)
  finalize e entry_id

unfoldable pub finish_completion : Env → ℕ → CompletionResult → M (Unit {0})
finish_completion e entry_id (completion_applied c) = publish_and_finalize e entry_id c
finish_completion e entry_id completion_lost_ownership = raise ownership_lost

unfoldable pub lift : Result ExecutionOutcome → M ExecutionOutcome
lift (ok o) = pure o
lift (err x) = raise x

abbrev pub request_of : ClaimedSubmission → ExecutionRequest
request_of c = record { language = c.language; source = c.source; tests = c.tests }

-- The part of `processJob` after an acquired claim.
unfoldable pub judge_claimed : JobEnv → ℕ → ClaimedSubmission → M (Unit {0})
judge_claimed j entry_id c = do
  outcome ← lift (j.execute (request_of c))
  terminal ← some_or (terminal_result_from_outcome outcome (length c.tests)) unknown_outcome
  completion ← complete j.completing true c terminal
  finish_completion j.delivering entry_id completion

-- The `switch claim.Kind` of `processJob`.
unfoldable pub act_on_claim : JobEnv → ℕ → ClaimResult → M (Unit {0})
act_on_claim j entry_id claim_missing = finalize j.delivering entry_id
act_on_claim j entry_id (claim_running until) = finalize j.delivering entry_id
act_on_claim j entry_id claim_expired = pure tt
act_on_claim j entry_id (claim_completed c) = publish_and_finalize j.delivering entry_id c
act_on_claim j entry_id (claim_acquired c) = judge_claimed j entry_id c

unfoldable pub process_decoded : JobEnv → JudgeJob → Option DecodeError → M (Unit {0})
process_decoded j job (some why) = finalize j.delivering job.entry_id
process_decoded j job none = do
  result ← claim j.claiming true job.submission_id j.token j.lease
  act_on_claim j job.entry_id result

-- `processJob`
unfoldable pub process_job : JobEnv → JudgeJob → M (Unit {0})
process_job j job = do
  guard (not (job.entry_id == 0)) missing_entry
  process_decoded j job job.decode_err
