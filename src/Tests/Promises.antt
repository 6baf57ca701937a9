-- ===== src/Tests/Promises.antt =====
-- The promises of the system in a run: a judge job wins the duel, and the reaper ticks.
use code_duel.Base.{
  ℕ, bytes_eq, ◌<◌, ◌≤◌, ◌≡◌, refl, ◌==◌, true, false, not, none, some, [], ◌∷◌, arith, find_row,
}
use code_duel.Db.{
  Submission, finished, completed, pass, is_active, is_completed, is_running, is_none,
}
use code_duel.Db.Invariant.{DbOk}
use code_duel.Db.Triggers.{match_at, is_active_row, finish_match}
use code_duel.Redisx.JudgeQueue.{JudgeJob, finalize, finalize_reply, finalize_effect, enqueue}
use code_duel.Redisx.Keys.{publish}
use code_duel.World.{World, ok, actions}
use code_duel.Submission.{is_member}
use code_duel.Submission.Dispatch.{Dispatcher, dispatch_pending, dispatch_each, stamp_enqueued}
use code_duel.Judge.Store.{
  claim, claim_found, claim_by_status, claim_pending, claim_row, load_match_players, start_running,
  decode_stored_tests,
}
use code_duel.Judge.Completion.{
  complete, settle, select_winner, established, persist, owns, validate_terminal_result,
}
use code_duel.Judge.Outcome.{outcome_pass, terminal_result_from_outcome, build_result_events}
use code_duel.Judge.Service.{
  JobEnv, process_job, process_decoded, act_on_claim, judge_claimed, lift, finish_completion,
  publish_and_finalize, publish_each,
}
use code_duel.Reaper.Leases.{ReaperConfig}
use code_duel.Reaper.Sweep.{TickEnv, tick}
use code_duel.System.Reach.{judges, reaps, dispatches, Reaches, here, then_step, reaches-DbOk}
use code_duel.System.Promises.{one_active_match, winner_is_player, submission_sound}
use code_duel.Tests.{env, world, duel, pending_submission, db-DbOk}

abbrev config : ReaperConfig
config = record { interval = 1; max_attempts = 3; stream_min_idle = 1; batch_size = 8 }

abbrev job : JudgeJob
job = record { entry_id = 1; submission_id = 21; decode_err = none }

abbrev judging : JobEnv
judging = record {
  claiming = env;
  completing = env;
  delivering = env;
  token = 40;
  execute = λ _. ok (record { kind = outcome_pass; tests_passed = 1 });
  lease = 30;
}

abbrev judged : World
judged = (process_job judging job world).1

abbrev run : Reaches config world judged
run = then_step (here world) (judges judging job world)

abbrev ticking : TickEnv
ticking = record { locking = env; leasing = env; sweeping = env; ending = env; acquired = true }

abbrev dispatcher : Dispatcher
dispatcher = record { has_dependencies = true; stale_after = 5; batch_size = 8 }

three_attempts : 0 < 3
three_attempts = ground arith

won :
    match_at 5 judged.durable.matches ≡ some (record duel { status = finished; winner_id = some 2 })
unfolding process_job process_decoded act_on_claim judge_claimed lift finish_completion
    publish_and_finalize publish_each publish finalize finalize_reply finalize_effect claim
    claim_found claim_by_status claim_pending claim_row load_match_players start_running
    decode_stored_tests complete settle select_winner established persist owns
    validate_terminal_result terminal_result_from_outcome build_result_events finish_match actions
    bytes_eq
won = refl

reaches-DbOk_example : DbOk 3 (tick ticking dispatcher (1 ∷ []) config judged).1.durable
reaches-DbOk_example =
    reaches-DbOk config world (tick ticking dispatcher (1 ∷ []) config judged).1 three_attempts
      db-DbOk (then_step run (reaps ticking dispatcher (1 ∷ []) judged))

abbrev dispatched : World
dispatched = (dispatch_pending env dispatcher world).1

still_active : is_active_row (match_at 5 dispatched.durable.matches) ≡ true
unfolding dispatch_pending dispatch_each enqueue stamp_enqueued actions
still_active = refl

still_player : is_member dispatched.durable.match_players 5 1 ≡ true
unfolding dispatch_pending dispatch_each enqueue stamp_enqueued actions
still_player = refl

one_active_match_example : ◌≡◌ {A = ℕ} 5 5
one_active_match_example =
    one_active_match config world dispatched three_attempts db-DbOk
      (then_step (here world) (dispatches env dispatcher world)) 1 5 5 still_player still_active
      still_player still_active

winner_is_player_example :
    (is_member judged.durable.match_players 5 2 ≡ true) × (is_active finished ≡ false)
winner_is_player_example =
    winner_is_player config world judged three_attempts db-DbOk run
      (record duel { status = finished; winner_id = some 2 }) 5 2 won refl

abbrev settled_submission : Submission
settled_submission = record pending_submission {
  status = completed;
  result = some pass;
  tests_passed = 1;
  attempts = 1;
  finished_at = some 100;
}

settled : find_row (λ x. x.id == 21) judged.durable.submissions ≡ some settled_submission
unfolding process_job process_decoded act_on_claim judge_claimed lift finish_completion
    publish_and_finalize publish_each publish finalize finalize_reply finalize_effect claim
    claim_found claim_by_status claim_pending claim_row load_match_players start_running
    decode_stored_tests complete settle select_winner established persist owns
    validate_terminal_result terminal_result_from_outcome build_result_events finish_match actions
    bytes_eq
settled = refl

submission_sound_example :
    (1 ≤ 3)
    × (is_completed completed ≡ not (is_none (some pass)))
    × (is_running completed ≡ not (is_none settled_submission.attempt_token))
    × (is_member judged.durable.match_players 5 2 ≡ true)
submission_sound_example =
    submission_sound config world judged three_attempts db-DbOk run settled_submission 21 settled
