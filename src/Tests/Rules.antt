-- ===== src/Tests/Rules.antt =====
-- Results, tiebreaks and stream entries at concrete inputs.
use code_duel.Base.{ℕ, ◌<◌, ◌≡◌, ◌≢◌, refl, true, false, none, some, List, [], ◌∷◌, arith, ◌⊎◌}
use code_duel.Db.Triggers.{finish_match}
use code_duel.Db.{Submission, pass, fail, completed, wrong_answer}
use code_duel.Proto.{win, loss, draw}
use code_duel.World.{World, ok, actions}
use code_duel.Redisx.{Stream}
use code_duel.Redisx.JudgeQueue.{
  decode_judge_job, job_fields, has_entry, entry_exists, finalize, finalize_effect, finalize_reply,
}
use code_duel.Redisx.Delivery.{job_round_trip, finalize_removes}
use code_duel.Judge.Store.{CompletedSubmission, TerminalResult}
use code_duel.Judge.Completion.{validate_terminal_result}
use code_duel.Judge.Outcome.{
  outcome_wrong_answer, terminal_result_from_outcome, ResultEvent, result_event,
  build_result_events,
}
use code_duel.Judge.Results.{Agrees, told, terminal-Agrees, events_complementary}
use code_duel.Reaper.Events.{PublishedEvent, build_match_end_events, match_end_event}
use code_duel.Reaper.Matches.{
  decide_tiebreak_winner, finalize_match, score_match, end_scored, end_match,
}
use code_duel.Reaper.Verdicts.{outcome_in, match_end_agrees}
use code_duel.Reaper.Finalized.{Concluded, finalize_match-Concluded}
use code_duel.Db.Invariant.{DbOk}
use code_duel.Tests.{env, world, db, db-DbOk, running_submission, pending_submission}

abbrev wrong : TerminalResult
wrong = record { verdict = fail; failure_kind = some wrong_answer; tests_passed = 2 }

wrong_result :
    terminal_result_from_outcome (record { kind = outcome_wrong_answer; tests_passed = 2 }) 3
    ≡ some wrong
unfolding terminal_result_from_outcome validate_terminal_result
wrong_result = refl

terminal-Agrees_example :
    (validate_terminal_result wrong 3 ≡ true)
    × (wrong.tests_passed ≡ 2)
    × Agrees outcome_wrong_answer 2 3 fail
terminal-Agrees_example = terminal-Agrees outcome_wrong_answer 2 3 wrong wrong_result

abbrev won : CompletedSubmission
won = record {
  submission_id = 20;
  match_id = 5;
  player_id = 1;
  request_id = 60;
  players = (1, 2);
  verdict = pass;
  failure_kind = none;
  tests_passed = 1;
  total_tests = 1;
  winner_id = 1;
}

abbrev won_events : List ResultEvent
won_events = result_event env won 1 ∷ result_event env won 2 ∷ []

builds : build_result_events env won ≡ some won_events
unfolding build_result_events
builds = refl

events_complementary_example :
    (first second : ResultEvent) × (won_events ≡ first ∷ second ∷ [])
    × (first.recipient_id ≡ 1)
    × (second.recipient_id ≡ 2)
    × ((◌≡◌ {A = ℕ} 1 0 × (told first.payload ≡ none) × (told second.payload ≡ none))
        ⊎ (◌≡◌ {A = ℕ} 1 1 × (told first.payload ≡ some win) × (told second.payload ≡ some loss))
        ⊎ (◌≡◌ {A = ℕ} 1 2 × (told first.payload ≡ some loss) × (told second.payload ≡ some win)))
events_complementary_example = events_complementary env won won_events builds

abbrev drawn_events : List PublishedEvent
drawn_events = match_end_event env 5 1 none 1 4 ∷ match_end_event env 5 1 none 2 4 ∷ []

draws :
    build_match_end_events env 5 (1, 2) (4, 4) 1 (decide_tiebreak_winner (1, 2) (4, 4))
    ≡ some drawn_events
unfolding build_match_end_events decide_tiebreak_winner
draws = refl

match_end_agrees_example :
    (first second : PublishedEvent) × (drawn_events ≡ first ∷ second ∷ [])
    × (first.recipient_id ≡ 1)
    × (second.recipient_id ≡ 2)
    × (((4 < 4) × (outcome_in first.payload ≡ some win) × (outcome_in second.payload ≡ some loss))
        ⊎ ((4 < 4)
            × (outcome_in first.payload ≡ some loss)
            × (outcome_in second.payload ≡ some win))
        ⊎ (◌≡◌ {A = ℕ} 4 4
            × (outcome_in first.payload ≡ some draw)
            × (outcome_in second.payload ≡ some draw)))
match_end_agrees_example = match_end_agrees env 5 (1, 2) (4, 4) 1 drawn_events draws

-- Both submissions are over, and player 1 has passed a test.
abbrev over_rows : List Submission
over_rows =
    record running_submission {
      status = completed;
      result = some fail;
      tests_passed = 1;
      attempt_token = none;
      lease_until = none;
    }
    ∷ record pending_submission { status = completed; result = some fail; attempts = 1 }
    ∷ []

abbrev over : World
over = record world { working = record db { submissions = over_rows } }

over-DbOk : DbOk 3 over.working
over-DbOk = record {
  submissions_ok = record {
    key = (refl, (refl, tt));
    sound = (
      record {
        open_unsettled = λ h. cc;
        completed_settled = λ _. refl;
        idle_untaken = λ _. refl;
        running_taken = λ h. cc;
        pending_may_run = λ h. cc;
        attempts_capped = ground arith;
      },
      (
        record {
          open_unsettled = λ h. cc;
          completed_settled = λ _. refl;
          idle_untaken = λ _. refl;
          running_taken = λ h. cc;
          pending_may_run = λ h. cc;
          attempts_capped = ground arith;
        },
        tt,
      ),
    );
    submitted = (refl, (refl, tt));
  };
  matches_ok = db-DbOk.matches_ok;
}

abbrev over_events : List PublishedEvent
over_events = match_end_event env 5 1 (some 1) 1 1 ∷ match_end_event env 5 1 (some 1) 2 0 ∷ []

ends : (finalize_match env 5 over).0 ≡ ok over_events
unfolding finalize_match score_match end_scored end_match decide_tiebreak_winner
    build_match_end_events finish_match actions
ends = refl

finalize_match-Concluded_example : Concluded 5 over over_events (finalize_match env 5 over).1
finalize_match-Concluded_example = finalize_match-Concluded env 5 3 over over_events over-DbOk ends

not_nil : ◌≢◌ {A = ℕ} 20 0
not_nil h = ground arith

job_round_trip_example :
    decode_judge_job env (record { entry_id = 1; fields = job_fields env 20 })
    ≡ record { entry_id = 1; submission_id = 20; decode_err = none }
job_round_trip_example = job_round_trip env 1 20 refl not_nil

-- A stream with one delivered entry.
abbrev delivered : Stream
delivered = record {
  entries = record { entry_id = 1; fields = job_fields env 20 } ∷ [];
  pending = record { entry_id = 1; consumer = 7 ∷ []; delivered_at = 90 } ∷ [];
  last_id = 1;
  last_delivered = 1;
}

abbrev delivered_world : World
delivered_world = record world { jobs = delivered }

finalizes : (finalize env 1 delivered_world).0 ≡ ok tt
unfolding finalize finalize_reply finalize_effect actions
finalizes = refl

finalize_removes_example :
    (has_entry (finalize env 1 delivered_world).1.jobs.pending 1 ≡ false)
    × (entry_exists 1 (finalize env 1 delivered_world).1.jobs ≡ false)
finalize_removes_example = finalize_removes env 1 delivered_world finalizes

replies : finalize_reply 1 delivered ≡ 1
unfolding finalize_reply
replies = refl
