-- ===== src/Judge/Settled.antt =====
-- What an applied completion has stored, in terms of the rows.
mod Rows
use code_duel.Base.{
  ℕ, ◌==◌, ◌≤◌, ◌≡◌, ◌≢◌, refl, sym, ap, ◌∙◌, subst, ◌⊎◌, inl, inr, arith, Bool, true, false, ◌&&◌,
  Bool-cases, ==→eq, Option, none, some, List, length, find_row, update_rows, find_row_test,
  find_row-update_some, find_row-update_apart,
}
use code_duel.Db.{
  SubmissionStatus, pending, running, completed, other_status, MatchStatus, active, finished,
  other_match_status, Verdict, pass, fail, error, timeout, failed, other_verdict, Submission, Match,
  Db, is_running, is_active, is_pass, is_none,
}
use code_duel.Db.Triggers.{finish_match, match_at, is_open, finish}
use code_duel.World.{Env, World, ok, persist_result}
use code_duel.World.Ends.{Ends-ok}
use code_duel.Judge.Store.{
  ClaimedSubmission, CompletedSubmission, TerminalResult, completion_applied, winner_or_nil,
}
use code_duel.Judge.Completion.{
  token_is, owns, validate_terminal_result, persist, settle_row, wins, applied_as, complete,
}
use code_duel.Db.Columns.{pass_of, active_of, none_of}
use code_duel.Db.Finish.{finish_match-others, finish_match-won, finish_match-submissions}
use code_duel.Db.Finish.{submission_at}
use code_duel.Judge.Fencing.{Applied, Owned, Reported, complete_ends}
use Rows.{
  token_of, and_parts, and_fails, persist-others, persist-stored, persist-matches, owns_parts,
  result_in_range,
}

-- Whether a completion won its match, and what it has left of the match: the first part is a win.
abbrev pub Decided : ClaimedSubmission → TerminalResult → Match → ℕ → Db → Db → Type 0
Decided c r m winner before after =
    ((r.verdict ≡ pass)
      × (m.status ≡ active)
      × (m.winner_id ≡ none)
      × (winner ≡ c.player_id)
      × (match_at c.match_id after.matches
          ≡ some (record m { status = finished; winner_id = some c.player_id })))
    ⊎ (((r.verdict ≢ pass) ⊎ (m.status ≢ active) ⊎ (m.winner_id ≢ none))
        × (winner ≡ winner_or_nil m.winner_id)
        × (after.matches ≡ before.matches))

-- What an applied completion says of the rows before and after it.
pub record Settled (c : ClaimedSubmission) (r : TerminalResult) (now : ℕ) (before : Db)
    (d : CompletedSubmission) (after : Db) : Type 0 where
  pub row : Submission
  pub stored : submission_at c.submission_id before ≡ some row
  pub was_running : row.status ≡ running
  pub same_token : row.attempt_token ≡ some c.attempt_token
  pub same_player : row.player_id ≡ c.player_id
  pub in_range : r.tests_passed ≤ length c.tests
  pub result_stored :
      submission_at c.submission_id after
      ≡ some (record row {
        status = completed;
        result = some r.verdict;
        failure_kind = r.failure_kind;
        tests_passed = r.tests_passed;
        attempt_token = none;
        lease_until = none;
        finished_at = some now;
      })
  pub other_rows :
      (id : ℕ) → (id ≡ c.submission_id) ⊎ (submission_at id after ≡ submission_at id before)
  pub match : Match
  pub in_match : match_at c.match_id before.matches ≡ some match
  pub decided : Decided c r match d.winner_id before after
  pub other_matches :
      (id : ℕ) → (id ≡ c.match_id) ⊎ (match_at id after.matches ≡ match_at id before.matches)

not_won :
    (r : TerminalResult) (m : Match)
    → wins r m ≡ false
    → (r.verdict ≢ pass) ⊎ (m.status ≢ active) ⊎ (m.winner_id ≢ none)
not_won r m h = elim (and_fails (is_pass r.verdict) (is_active m.status) (is_none m.winner_id) h) [
  | inl v ↦ inl (λ e. cc (ap is_pass e, v))
  | inr (inl a) ↦ inr (inl (λ e. cc (ap is_active e, a)))
  | inr (inr n) ↦ inr (inr (λ e. cc (ap is_none e, n)))
]

module _ (e : Env) (c : ClaimedSubmission) (r : TerminalResult) where
  -- What the rest of a completion leaves, after the result is stored.
  abbrev Left : Match → Db → ℕ → Db → Type 0
  Left m before winner after =
      ((k : ℕ)
        → submission_at k after
          ≡ submission_at k (persist c.submission_id r (e.clock persist_result) before))
      × Decided c r m winner before after
      × ((k : ℕ) → (k ≡ c.match_id) ⊎ (match_at k after.matches ≡ match_at k before.matches))

  Applied-Left :
      (m : Match) (before : Db) (winner : Option ℕ) (after : Db)
      → match_at c.match_id before.matches ≡ some m
      → Applied e c r m before winner after
      → Left m before (winner_or_nil winner) after
  unfolding persist
  Applied-Left m before winner after found (inr (lost, same, change)) =
      rw (change, same) (λ k. refl, inr (not_won r m lost, refl, refl), λ k. inr refl)
  Applied-Left m before winner after found (inl (won, same, change)) =
      let (passed, is_on, unwon) =
        and_parts (is_pass r.verdict) (is_active m.status) (is_none m.winner_id) won in
      let free = find_row_test (λ (x : Match). x.id == c.match_id) before.matches m found in
      rw (change, same)
        (
          λ k. finish_match-submissions c.match_id k (some c.player_id) persisted,
          inl (
            pass_of r.verdict passed,
            active_of m.status is_on,
            none_of m.winner_id unwon,
            refl,
            finish_match-won c.match_id (some c.player_id) persisted m found (ground arith),
          ),
          λ k. finish_match-others k c.match_id (some c.player_id) persisted,
        )
    where
      persisted : Db
      persisted = persist c.submission_id r (e.clock persist_result) before

  Reported-Settled :
      (before : Db) (d : CompletedSubmission) (after : Db)
      → Reported e c r before (completion_applied d) after
      → Settled c r (e.clock persist_result) before d after
  Reported-Settled before d after ((s, found, own), fit, (m, winner, there, same, change)) =
      let (submissions, decided, matches) = Applied-Left m before winner after there change in
      let (runs, token, player) = owns_parts c s own in
      record {
        row = s;
        stored = found;
        was_running = runs;
        same_token = token;
        same_player = player;
        in_range = result_in_range r (length c.tests) fit;
        result_stored =
            submissions c.submission_id
            ∙ persist-stored c.submission_id r (e.clock persist_result) before s found;
        other_rows = λ k.
            kept k (submissions k)
              (persist-others k c.submission_id r (e.clock persist_result) before);
        match = m;
        in_match = there;
        decided = rw same decided;
        other_matches = matches;
      }
    where
      kept :
          (k : ℕ) {a b o : Option Submission}
          → a ≡ b
          → (k ≡ c.submission_id) ⊎ (b ≡ o)
          → (k ≡ c.submission_id) ⊎ (a ≡ o)
      kept k same (inl own) = inl own
      kept k same (inr h) = inr (same ∙ h)

  -- A completion that is applied was allowed and stores just its result: the submission ran under the
  -- attempt token of the claim, its row is completed with the verdict, the failure kind and the count
  -- of the result, which is at most that of the tests, and no other submission has changed. A pass in a
  -- match that is active and has no winner ends the match with the submitter as the winner that is
  -- reported; otherwise no match changes, and the winner is the one that the match has. No other match
  -- changes.
  pub complete-Settled :
      (has_db : Bool) (w : World) (d : CompletedSubmission)
      → (complete e has_db c r w).0 ≡ ok (completion_applied d)
      → Settled c r (e.clock persist_result) w.durable d (complete e has_db c r w).1.durable
  complete-Settled has_db w d h =
      Reported-Settled w.durable d (complete e has_db c r w).1.durable
        (Ends-ok (complete e has_db c r) w (completion_applied d) (complete_ends e c r has_db w) h)
