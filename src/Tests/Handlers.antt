-- ===== src/Tests/Handlers.antt =====
-- The handlers at concrete inputs.
use code_duel.Base.{
  Option, some, inr, inr, ℕ, ◌==◌, bytes_eq, ◌<◌, ◌≡◌, ◌≢◌, refl, true, none, some, [], ◌∷◌, arith,
  find_row,
}
use code_duel.Db.{python, Match, pass, is_active}
use code_duel.Db.Triggers.{finish_match, add_player}
use code_duel.Redisx.Member.{valid_member, after_prefix}
use code_duel.World.{Env, refused, unacknowledged, ok, err, unavailable, actions, begin_tx}
use code_duel.Submission.Replayed.{FromRow, accept_known}
use code_duel.Submission.{
  same_key, new_submission, language_eq, Request, Service, accept, find_request, replay, admit,
  admit_and_dispatch, dispatch_now, valid, add_submission, is_member,
}
use code_duel.Submission.Outcomes.{accept_open, accept_failed}
use code_duel.Submission.Idempotent.{accept_retry}
use code_duel.Judge.Store.{
  ClaimedSubmission, TerminalResult, completion_applied, claim_acquired, claim, claim_found,
  claim_by_status, claim_pending, claim_row, load_match_players, start_running, decode_stored_tests,
}
use code_duel.Judge.Completion.{
  complete, settle, applied_as, select_winner, established, persist, owns, validate_terminal_result,
}
use code_duel.Judge.Fencing.{complete_fenced}
use code_duel.Judge.Settled.{Settled, complete-Settled}
use code_duel.Judge.Claims.{claim_failed}
use code_duel.Judge.Claims.Started.{Started, claim_starts}
use code_duel.Match.Create.{
  CreatedMatch, create_match, lock_users, open_match, insert_slot, insert_result, add_match,
}
use code_duel.Match.Created.{Eligible, create_match-Eligible, create_failed}
use code_duel.Tests.{env, db, world, running_submission, member}

-- The attempt that runs, and one that has lost its submission.
abbrev attempt_of : ℕ → ClaimedSubmission
attempt_of token = record {
  submission_id = 20;
  match_id = 5;
  player_id = 1;
  problem_id = 9;
  request_id = 60;
  language = python;
  source = 1 ∷ [];
  tests = record { input = []; expected = [] } ∷ [];
  players = (1, 2);
  attempt_token = token;
}

abbrev passed : TerminalResult
passed = record { verdict = pass; failure_kind = none; tests_passed = 1 }

other_token : ◌≢◌ {A = Option ℕ} (some 33) (some 34)
other_token h = ground arith

complete_fenced_example : (complete env true (attempt_of 34) passed world).1.durable ≡ db
complete_fenced_example =
    complete_fenced env (attempt_of 34) passed true world running_submission refl (inr other_token)

applies :
    (complete env true (attempt_of 33) passed world).0
    ≡ ok (completion_applied (applied_as (attempt_of 33) passed (some 1)))
unfolding complete settle select_winner established persist owns validate_terminal_result
    finish_match bytes_eq actions
applies = refl

complete-Settled_example :
    Settled
      (attempt_of 33)
      passed
      100
      db
      (applied_as (attempt_of 33) passed (some 1))
      (complete env true (attempt_of 33) passed world).1.durable
complete-Settled_example =
    complete-Settled env (attempt_of 33) passed true world
      (applied_as (attempt_of 33) passed (some 1)) applies

abbrev service : Service
service = record { has_db = true; dispatcher = none }

abbrev request : Request
request = record { player_id = 1; match_id = 5; request_id = 77; language = python; code = 3 ∷ [] }

admitted : (accept env service request world).0 ≡ ok 50
unfolding accept valid find_request replay admit admit_and_dispatch dispatch_now add_submission
    bytes_eq actions
admitted = refl

real_id : ◌≢◌ {A = ℕ} 50 0
real_id h = ground arith

accept_retry_example :
    ((accept env service request (accept env service request world).1).0 ≡ ok 50)
    × ((accept env service request (accept env service request world).1).1.durable
        ≡ (accept env service request world).1.durable)
accept_retry_example =
    accept_retry env env service request world 50
      (record { begins = refl; locks = refl; finds = refl; commits = refl }) real_id admitted

stored_row :
    find_row (same_key 1 77) (accept env service request world).1.durable.submissions
    ≡ some (new_submission env request)
unfolding accept valid find_request replay admit admit_and_dispatch dispatch_now add_submission
    bytes_eq actions
stored_row = refl

sent_again : (accept env service request (accept env service request world).1).0 ≡ ok 50
unfolding accept valid find_request replay admit admit_and_dispatch dispatch_now add_submission
    language_eq bytes_eq actions
sent_again = refl

accept_known_example :
    FromRow request
      (new_submission env request)
      50
      (accept env service request world).1
      (accept env service request (accept env service request world).1).1
accept_known_example =
    accept_known env service request (accept env service request world).1
      (new_submission env request) 50 stored_row sent_again

accept_open_example :
    (m : Match) × (find_row (λ (k : Match). k.id == 5) db.matches ≡ some m)
    × (is_active m.status ≡ true)
    × (100 < m.deadline)
    × (is_member db.match_players 5 1 ≡ true)
accept_open_example = accept_open env service request world 50 refl admitted

-- An environment whose database refuses every call.
abbrev down : Env
down = record env { fault = λ _. refused }

not_unacknowledged : refused ≢ unacknowledged
not_unacknowledged h = cc

refuses : (accept down service request world).0 ≡ err (unavailable begin_tx)
unfolding accept valid bytes_eq actions
refuses = refl

accept_failed_example : (accept down service request world).1.durable ≡ db
accept_failed_example =
    accept_failed down service request world (unavailable begin_tx) not_unacknowledged refuses

abbrev acquired : ClaimedSubmission
acquired = record {
  submission_id = 21;
  match_id = 5;
  player_id = 2;
  problem_id = 9;
  request_id = 61;
  language = python;
  source = 1 ∷ [];
  tests = record { input = []; expected = [] } ∷ [];
  players = (1, 2);
  attempt_token = 40;
}

acquires : (claim env true 21 40 30 world).0 ≡ ok (claim_acquired acquired)
unfolding claim claim_found claim_by_status claim_pending claim_row load_match_players start_running
    decode_stored_tests bytes_eq actions
acquires = refl

claim_starts_example : Started 21 40 30 100 db acquired (claim env true 21 40 30 world).1.durable
claim_starts_example = claim_starts env 21 40 30 true world acquired acquires

claim_refused : (claim down true 21 40 30 world).0 ≡ err (unavailable begin_tx)
unfolding claim actions
claim_refused = refl

claim_failed_example : (claim down true 21 40 30 world).1.durable ≡ db
claim_failed_example =
    claim_failed down 21 40 30 true world (unavailable begin_tx) not_unacknowledged claim_refused

abbrev created : CreatedMatch
created = record {
  match_id = 50;
  problem_id = 9;
  deadline = 600100;
  players = (member 3, member 4);
}

creates : (create_match env true 600 (member 3) (member 4) world).0 ≡ ok created
unfolding create_match valid_member after_prefix lock_users open_match insert_slot insert_result
    add_match add_player bytes_eq actions
creates = refl

create_match-Eligible_example : Eligible env db (member 3) (member 4)
create_match-Eligible_example =
    create_match-Eligible env true 600 (member 3) (member 4) world created creates

create_refused :
    (create_match down true 600 (member 3) (member 4) world).0 ≡ err (unavailable begin_tx)
unfolding create_match valid_member after_prefix bytes_eq actions
create_refused = refl

create_failed_example : (create_match down true 600 (member 3) (member 4) world).1.durable ≡ db
create_failed_example =
    create_failed down true 600 (member 3) (member 4) world (unavailable begin_tx)
      not_unacknowledged create_refused
