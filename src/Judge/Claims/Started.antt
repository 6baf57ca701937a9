-- ===== src/Judge/Claims/Started.antt =====
-- The row of a submission whose claim was acquired.
use code_duel.Base.{
  ℕ, ◌+◌, ◌==◌, ◌≡◌, refl, ap, ◌∙◌, ◌⊎◌, inl, inr, arith, Bool-cases, ==→eq, Bool, ◌&&◌, Option,
  none, some, some_inj, find_row_test, find_row-update_some, find_row-update_apart,
}
use code_duel.Db.{pending, running, Submission, Match, Problem, Db, is_pending}
use code_duel.Db.Finish.{submission_at}
use code_duel.World.{Env, World, ok, mark_running}
use code_duel.World.Ends.{Ends-ok}
use code_duel.Judge.Store.{
  ClaimedSubmission, ClaimRow, claim_acquired, start_attempt, start_running, claim_row,
  with_submission, with_match, with_problem, claim,
}
use code_duel.Judge.Claims.{Acquired, claim_ends}

-- What an acquired claim says of the rows before and after it.
pub record Started (id token lease now : ℕ) (before : Db) (c : ClaimedSubmission) (after : Db)
    : Type 0 where
  pub row : Submission
  pub stored : submission_at id before ≡ some row
  pub was_pending : row.status ≡ pending
  pub same_submission : c.submission_id ≡ id
  pub same_player : c.player_id ≡ row.player_id
  pub same_match : c.match_id ≡ row.match_id
  pub same_source : c.source ≡ row.code
  pub fenced : c.attempt_token ≡ token
  pub running_row :
      submission_at id after
      ≡ some (record row {
        status = running;
        attempts = row.attempts + 1;
        attempt_token = some token;
        lease_until = some (now + lease);
      })
  pub other_rows : (k : ℕ) → (k ≡ id) ⊎ (submission_at k after ≡ submission_at k before)
  pub same_matches : after.matches ≡ before.matches

-- The submission of a row that a claim reads.
claim_row-submission :
    (id : ℕ) (db : Db) (row : ClaimRow)
    → claim_row id db ≡ some row
    → submission_at id db ≡ some row.submission
unfolding claim_row
claim_row-submission id db row h = go (submission_at id db) h
  where
    problems :
        (s : Submission) (m : Match) (o : Option Problem)
        → with_problem s m o ≡ some row
        → s ≡ row.submission
    problems s m none h = cc
    problems s m (some p) h = ap (λ (x : ClaimRow). x.submission) (some_inj _ row h)

    matches :
        (s : Submission) (o : Option Match) → with_match db s o ≡ some row → s ≡ row.submission
    matches s none h = cc
    matches s (some m) h = problems s m _ h

    go : (o : Option Submission) → with_submission db o ≡ some row → o ≡ some row.submission
    go none h = cc
    go (some s) h = ap some (matches s _ h)

start_running-started :
    (id token until : ℕ) (db : Db) (s : Submission)
    → submission_at id db ≡ some s
    → s.status ≡ pending
    → submission_at id (start_running id token until db) ≡ some (start_attempt token until s)
unfolding start_running
start_running-started id token until db s found waits =
    find_row-update_some (λ (x : Submission). x.id == id) (λ x. x.id == id && is_pending x.status)
      (start_attempt token until) db.submissions s (λ x. refl) found
    ∙ rw (find_row_test (λ (x : Submission). x.id == id) db.submissions s found, waits) refl

start_running-others :
    (k id token until : ℕ) (db : Db)
    → (k ≡ id) ⊎ (submission_at k (start_running id token until db) ≡ submission_at k db)
unfolding start_running
start_running-others k id token until db = elim (Bool-cases (k == id)) [
  | inl same ↦ inl (==→eq k id same)
  | inr other ↦ inr (
      find_row-update_apart (λ (s : Submission). s.id == k) (λ s. s.id == id && is_pending s.status)
        (start_attempt token until) db.submissions (λ s. refl) (λ s h. ground arith))
]

start_running-matches :
    (id token until : ℕ) (db : Db) → (start_running id token until db).matches ≡ db.matches
unfolding start_running
start_running-matches id token until db = refl

Acquired-Started :
    (e : Env) (id token lease : ℕ) (before : Db) (c : ClaimedSubmission) (after : Db)
    → Acquired e id token lease before c after
    → Started id token lease (e.clock mark_running) before c after
Acquired-Started e id token lease before c after h =
    rw (h.started, same_id)
      (record {
        row = h.row.submission;
        stored = found;
        was_pending = h.was_pending;
        same_submission = h.same_submission ∙ same_id;
        same_player = h.same_player;
        same_match = h.same_match;
        same_source = h.same_source;
        fenced = h.fenced;
        running_row =
            start_running-started id token until before h.row.submission found h.was_pending;
        other_rows = λ k. start_running-others k id token until before;
        same_matches = start_running-matches id token until before;
      })
  where
    until : ℕ
    until = e.clock mark_running + lease

    found : submission_at id before ≡ some h.row.submission
    found = claim_row-submission id before h.row h.stored

    same_id : h.row.submission.id ≡ id
    same_id =
        ==→eq h.row.submission.id id
          (find_row_test (λ (s : Submission). s.id == id) before.submissions h.row.submission found)

-- A claim that is acquired starts one attempt: the submission was pending, and runs now under the token
-- that was drawn, with one attempt more and a lease until the given time from then; the claim has its
-- identifier, player, match and source, and the token. No other submission changes, and no match.
pub claim_starts :
    (e : Env) (id token lease : ℕ) (has_db : Bool) (w : World) (c : ClaimedSubmission)
    → (claim e has_db id token lease w).0 ≡ ok (claim_acquired c)
    → Started id token lease
        (e.clock mark_running)
        w.durable
        c
        (claim e has_db id token lease w).1.durable
claim_starts e id token lease has_db w c h =
    Acquired-Started e id token lease w.durable c (claim e has_db id token lease w).1.durable (
      Ends-ok (claim e has_db id token lease) w (claim_acquired c)
        (claim_ends e id token lease has_db w) h)
