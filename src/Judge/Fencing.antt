-- ===== src/Judge/Fencing.antt =====
-- How a completion ends: it is applied for the attempt that owns the submission, and for no other.
use code_duel.Base.{
  none, arith, Bool-cases, ==→eq, ◌≢◌, ℕ, ◌==◌, ◌≡◌, refl, sym, ap, ◌∙◌, ◌⊎◌, inl, inr, Bool, true,
  false, Option, some, exists_row, find_row-exists, find_row_test, List, some_inj, subst, length,
}
use code_duel.Db.{is_running, Submission, Match, Db}
use code_duel.Db.Finish.{submission_at}
use code_duel.Db.Triggers.{finish_match, is_open, match_at}
use code_duel.World.{
  commit_with, ◌>>=◌, Env, World, commit_tx, unacknowledged, persist_result, pure,
}
use code_duel.World.Ends.{
  Ends, end_pure, if_ends, bind_ends, then_guard, then_begin, then_query, then_gets, then_some_or,
  then_exec, then_commit, weaken, world_of_ends,
}
use code_duel.Judge.Store.{
  ClaimedSubmission, TerminalResult, CompletionResult, completion_applied,
  completion_lost_ownership,
}
use code_duel.Judge.Completion.{
  token_is, owns, validate_terminal_result, persist, select_winner, established, applied_as, settle,
  disown, wins, complete,
}

-- The tables after an applied completion, and the winner that it reports: the result is stored, and a
-- completion that wins ends the match.
abbrev pub Applied : Env → ClaimedSubmission → TerminalResult → Match → Db → Option ℕ → Db → Type 0
Applied e c r m before winner after =
    ((wins r m ≡ true)
      × (winner ≡ some c.player_id)
      × (after
          ≡ finish_match c.match_id (some c.player_id)
              (persist c.submission_id r (e.clock persist_result) before)))
    ⊎ ((wins r m ≡ false)
        × (winner ≡ m.winner_id)
        × (after ≡ persist c.submission_id r (e.clock persist_result) before))

abbrev pub Owned : ClaimedSubmission → Db → Type 0
Owned c db = (s : Submission) × (submission_at c.submission_id db ≡ some s) × (owns c s ≡ true)

-- What an answer says about the tables before and after it.
abbrev pub Reported : Env → ClaimedSubmission → TerminalResult → Db → CompletionResult → Db → Type 0
Reported e c r before (completion_applied d) after =
    Owned c before
    × (validate_terminal_result r (length c.tests) ≡ true)
    × ((m : Match) × (winner : Option ℕ) × (match_at c.match_id before.matches ≡ some m)
        × (d ≡ applied_as c r winner)
        × Applied e c r m before winner after)
Reported e c r before completion_lost_ownership after =
    (after ≡ before)
    × ((s : Submission) × (submission_at c.submission_id before ≡ some s) × (owns c s ≡ false))

-- What a failure leaves behind.
abbrev pub Undone : Env → ClaimedSubmission → Db → Db → Type 0
Undone e c before after = (after ≡ before) ⊎ ((e.fault commit_tx ≡ unacknowledged) × Owned c before)

-- Neither a submission that is over nor one with another token is owned.
not_owner :
    (c : ClaimedSubmission) (s : Submission)
    → (is_running s.status ≡ false) ⊎ (s.attempt_token ≢ some c.attempt_token)
    → owns c s ≡ false
unfolding owns
not_owner c s (inl over) = rw over refl
not_owner c s (inr other) = elim (Bool-cases (token_is s.attempt_token c.attempt_token)) [
  | inl same ↦ absurd (other (token_of s.attempt_token c.attempt_token same))
  | inr differs ↦ ground arith
]
  where
    token_of : (o : Option ℕ) (token : ℕ) → token_is o token ≡ true → o ≡ some token
    token_of none token h = cc
    token_of (some stored) token h = ap some (==→eq _ _ h)

module _ (e : Env) (c : ClaimedSubmission) (r : TerminalResult) where
  -- While the transaction runs, nothing durable has changed.
  abbrev Settling : Match → Db → Option ℕ → World → Type 0
  Settling m before winner v = (v.durable ≡ before) × Applied e c r m before winner v.working

  persist-open :
      (before : Db)
      → exists_row (is_open c.match_id) before.matches ≡ true
      → exists_row
          (is_open c.match_id)
          (persist c.submission_id r (e.clock persist_result) before).matches
        ≡ true
  unfolding persist
  persist-open before h = h

  open_match :
      (m : Match) (matches : List Match)
      → match_at c.match_id matches ≡ some m
      → wins r m ≡ true
      → exists_row (is_open c.match_id) matches ≡ true
  open_match m matches found won =
      find_row-exists _ _ matches m found
        (ground (arith, find_row_test (λ (x : Match). x.id == c.match_id) matches m found))

  winner_ends :
      (m : Match) (w : World) (before : Db)
      → w.durable ≡ before
      → w.working ≡ persist c.submission_id r (e.clock persist_result) before
      → exists_row (is_open c.match_id) w.working.matches ≡ true
      → wins r m ≡ true
      → Ends
          (select_winner e c)
          w
          (λ winner v. Settling m before winner v)
          (λ _ v. v.durable ≡ before)
  unfolding select_winner established
  winner_ends m w before d p is_there won = then_gets _ _ w (
      then_exec e _ _ _ w
        (λ _.
          if_ends (exists_row (is_open c.match_id) w.working.matches) (pure (some c.player_id))
            (established e c.match_id) _
            (λ _.
              end_pure _ _ (d, inl (won, refl, ap (finish_match c.match_id (some c.player_id)) p)))
            (λ gone. cc))
        (λ _ v same. same.0 ∙ d))

  settle_ends :
      (m : Match) (w : World)
      → w.working ≡ w.durable
      → match_at c.match_id w.durable.matches ≡ some m
      → Owned c w.durable
      → validate_terminal_result r (length c.tests) ≡ true
      → Ends
          (settle e c r m)
          w
          (λ a v. Reported e c r w.durable a v.durable)
          (λ _ v. Undone e c w.durable v.durable)
  unfolding settle
  settle_ends m w start found own fit =
      then_exec e _ _ _ w
        (λ _. bind_ends _ _ _ (
          if_ends (wins r m) (select_winner e c) (pure m.winner_id) _
            (λ won.
              weaken _ _ (winner_ends m _ w.durable refl stored (still_open won) won)
                (λ winner v s. finish winner v s) (λ _ v s. inl s))
            (λ lost. end_pure _ _ (finish m.winner_id _ (refl, inr (lost, refl, stored))))))
        (λ _ v same. inl same.0)
    where
      stored :
          persist c.submission_id r (e.clock persist_result) w.working
          ≡ persist c.submission_id r (e.clock persist_result) w.durable
      stored = ap (persist c.submission_id r (e.clock persist_result)) start

      still_open :
          wins r m ≡ true
          → exists_row
              (is_open c.match_id)
              (persist c.submission_id r (e.clock persist_result) w.working).matches
            ≡ true
      still_open won =
          subst (λ (db : Db). exists_row (is_open c.match_id) db.matches ≡ true) (sym stored)
            (persist-open w.durable (open_match m w.durable.matches found won))

      finish :
          (winner : Option ℕ) (v : World)
          → Settling m w.durable winner v
          → Ends
              (commit_with e commit_tx >>= λ _. pure (completion_applied (applied_as c r winner)))
              v
              (λ a u. Reported e c r w.durable a u.durable)
              (λ _ u. Undone e c w.durable u.durable)
      finish winner v s =
          then_commit e _ _ v (λ _. end_pure _ _ (own, fit, (m, winner, found, refl, s.1)))
            (λ _. inl s.0) (λ lost. inr (lost, own))

  pub complete_ends :
      (has_db : Bool) (w : World)
      → Ends
          (complete e has_db c r)
          w
          (λ a v. Reported e c r w.durable a v.durable)
          (λ _ v. Undone e c w.durable v.durable)
  unfolding complete disown
  complete_ends has_db w =
      then_guard _ _ _ w
        (λ _.
          then_guard _ _ _ w
            (λ fit.
              then_begin e _ _ w
                (λ _.
                  then_query e _ _ _
                    (λ _. then_gets _ _ _ (
                      then_some_or _ _ _ _
                        (λ m there.
                          then_query e _ _ _
                            (λ _. then_gets _ _ _ (
                              then_some_or _ _ _ _
                                (λ s found.
                                  if_ends (owns c s) (settle e c r m) (disown e) _
                                    (λ own. settle_ends m _ refl there (s, found, own) fit)
                                    (λ lost.
                                      then_commit e _ _ _
                                        (λ _. end_pure _ _ (refl, (s, found, lost))) (λ _. inl refl)
                                        (λ _. inl refl)))
                                (λ _. inl refl)))
                            (λ _. inl refl))
                        (λ _. inl refl)))
                    (λ _. inl refl))
                (λ _ v same. inl same.0))
            (λ _. inl refl))
        (λ _. inl refl)

  -- A completion for a stored submission that is not running, or that runs under another attempt
  -- token, changes no durable row, whatever it answers.
  pub complete_fenced :
      (has_db : Bool) (w : World) (s : Submission)
      → submission_at c.submission_id w.durable ≡ some s
      → (is_running s.status ≡ false) ⊎ (s.attempt_token ≢ some c.attempt_token)
      → (complete e has_db c r w).1.durable ≡ w.durable
  complete_fenced has_db w s found stale = world_of_ends _ w (
      weaken _ w (complete_ends has_db w) (λ a v. unchanged a v.durable)
        (λ x v why. undone v.durable why))
    where
      not_owned : Owned c w.durable → ⊥
      not_owned (t, stored, own) = cc (
        subst (λ k. owns c k ≡ true) (some_inj t s (sym stored ∙ found)) own,
        not_owner c s stale,
      )

      unchanged : (a : CompletionResult) (v : Db) → Reported e c r w.durable a v → v ≡ w.durable
      unchanged (completion_applied d) v (own, fit, applied) = absurd (not_owned own)
      unchanged completion_lost_ownership v (same, row) = same

      undone : (v : Db) → Undone e c w.durable v → v ≡ w.durable
      undone v (inl same) = same
      undone v (inr (lost, own)) = absurd (not_owned own)
