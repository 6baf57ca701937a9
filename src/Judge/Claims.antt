-- ===== src/Judge/Claims.antt =====
-- How a claim ends: it starts one attempt of a pending submission, or it changes nothing.
pub mod Started
use code_duel.Base.{
  ℕ, ◌+◌, ◌≡◌, refl, ◌≢◌, ap, ◌∙◌, ◌⊎◌, inl, inr, Bool, Option, none, some, ltb, Bool-cases,
}
use code_duel.Db.{SubmissionStatus, pending, running, completed, other_status, Db}
use code_duel.World.{
  Env, World, ok, err, Error, commit_tx, mark_running, unacknowledged, lock_submission,
}
use code_duel.World.Ends.{
  Ends, Ends-ok, Ends-err, weaken, bind_ends, end_pure, end_raise, end_some_or, then_guard,
  then_begin, then_query, then_gets, then_some_or, then_exec, then_commit,
}
use code_duel.Judge.Store.{
  ClaimedSubmission, ClaimRow, ClaimResult, claim_acquired, claim_completed, claim_running,
  claim_expired, claim_missing, live_lease, load_match_players, start_running, claim_pending,
  inspect_completed, inspect_running, claim_by_status, claim_found, claim, claim_row,
}

-- What an acquired claim says about the row that it read, and what it leaves.
pub record Acquired (e : Env) (id token lease : ℕ) (before : Db) (c : ClaimedSubmission)
    (after : Db) : Type 0 where
  pub row : ClaimRow
  pub stored : claim_row id before ≡ some row
  pub was_pending : row.submission.status ≡ pending
  pub fenced : c.attempt_token ≡ token
  pub same_submission : c.submission_id ≡ row.submission.id
  pub same_player : c.player_id ≡ row.submission.player_id
  pub same_match : c.match_id ≡ row.submission.match_id
  pub same_source : c.source ≡ row.submission.code
  pub started : after ≡ start_running row.submission.id token (e.clock mark_running + lease) before

abbrev pub Claimed : Env → ℕ → ℕ → ℕ → Db → ClaimResult → Db → Type 0
Claimed e id token lease before (claim_acquired c) after = Acquired e id token lease before c after
Claimed e id token lease before (claim_completed c) after = after ≡ before
Claimed e id token lease before (claim_running until) after = after ≡ before
Claimed e id token lease before claim_expired after = after ≡ before
Claimed e id token lease before claim_missing after = after ≡ before

abbrev Missed : Env → Db → Db → Type 0
Missed e before after = (after ≡ before) ⊎ (e.fault commit_tx ≡ unacknowledged)

module _ (e : Env) (id token lease : ℕ) where
  players_ends :
      (match submitter : ℕ) (w : World)
      → Ends (load_match_players e match submitter) w (λ _ v. v ≡ w) (λ _ v. v ≡ w)
  unfolding load_match_players
  players_ends match submitter w =
      then_query e _ _ w (λ _. then_gets _ _ w (end_some_or _ _ w (λ _ _. refl) (λ _. refl)))
        (λ _. refl)

  pending_ends :
      (row : ClaimRow) (w : World)
      → w.working ≡ w.durable
      → claim_row id w.durable ≡ some row
      → row.submission.status ≡ pending
      → Ends
          (claim_pending e row token lease)
          w
          (λ a v. Claimed e id token lease w.durable a v.durable)
          (λ _ v. Missed e w.durable v.durable)
  unfolding claim_pending
  pending_ends row w start stored waits =
      then_some_or _ _ _ w
        (λ tests _.
          then_some_or _ _ _ w
            (λ language _.
              then_guard _ _ _ w
                (λ _. bind_ends _ _ w (
                  weaken _ w (players_ends _ _ w)
                    (λ players v same.
                      then_exec e _ _ _ v
                        (λ _.
                          then_commit e _ _ _
                            (λ _. end_pure _ _ (record {
                              row = row;
                              stored = stored;
                              was_pending = waits;
                              fenced = refl;
                              same_submission = refl;
                              same_player = refl;
                              same_match = refl;
                              same_source = refl;
                              started =
                                  ap
                                    (start_running row.submission.id token
                                      (e.clock mark_running + lease))
                                    (ap (λ (u : World). u.working) same ∙ start);
                            }))
                            (λ _. inl (ap (λ (u : World). u.durable) same)) (λ lost. inr lost))
                        (λ _ u untouched. inl (untouched.0 ∙ ap (λ (x : World). x.durable) same)))
                    (λ _ v same. inl (ap (λ (u : World). u.durable) same))))
                (λ _. inl refl))
            (λ _. inl refl))
        (λ _. inl refl)

  completed_ends :
      (row : ClaimRow) (w : World)
      → w.working ≡ w.durable
      → Ends
          (inspect_completed e row)
          w
          (λ a v. Claimed e id token lease w.durable a v.durable)
          (λ _ v. Missed e w.durable v.durable)
  unfolding inspect_completed
  completed_ends row w start =
      then_some_or _ _ _ w
        (λ verdict _.
          then_some_or _ _ _ w
            (λ tests _. bind_ends _ _ w (
              weaken _ w (players_ends _ _ w)
                (λ players v same.
                  then_commit e _ _ v
                    (λ _. end_pure _ _ (ap (λ (u : World). u.working) same ∙ start))
                    (λ _. inl (ap (λ (u : World). u.durable) same)) (λ lost. inr lost))
                (λ _ v same. inl (ap (λ (u : World). u.durable) same))))
            (λ _. inl refl))
        (λ _. inl refl)

  lease_unchanged :
      (now : ℕ) (until attempt : Option ℕ) (before after : Db)
      → after ≡ before
      → Claimed e id token lease before (live_lease now until attempt) after
  lease_unchanged now none attempt before after same = same
  lease_unchanged now (some until) none before after same = same
  lease_unchanged now (some until) (some attempt) before after same =
      elim (Bool-cases (ltb now until)) [ inl live ↦ rw live same | inr over ↦ rw over same ]

  running_ends :
      (row : ClaimRow) (w : World)
      → w.working ≡ w.durable
      → Ends
          (inspect_running e row)
          w
          (λ a v. Claimed e id token lease w.durable a v.durable)
          (λ _ v. Missed e w.durable v.durable)
  unfolding inspect_running
  running_ends row w start =
      then_commit e _ _ w
        (λ _. end_pure _ _ (
          lease_unchanged (e.clock lock_submission) row.submission.lease_until
            row.submission.attempt_token _ _ start))
        (λ _. inl refl) (λ lost. inr lost)

  found_ends :
      (o : Option ClaimRow) (w : World)
      → w.working ≡ w.durable
      → claim_row id w.durable ≡ o
      → Ends
          (claim_found e o token lease)
          w
          (λ a v. Claimed e id token lease w.durable a v.durable)
          (λ _ v. Missed e w.durable v.durable)
  unfolding claim_found claim_by_status
  found_ends none w start stored = end_pure _ _ refl
  found_ends (some row) w start stored = by_status row.submission.status refl
    where
      by_status :
          (status : SubmissionStatus)
          → row.submission.status ≡ status
          → Ends
              (claim_by_status status e row token lease)
              w
              (λ a v. Claimed e id token lease w.durable a v.durable)
              (λ _ v. Missed e w.durable v.durable)
      by_status pending p = pending_ends row w start stored p
      by_status running p = running_ends row w start
      by_status completed p = completed_ends row w start
      by_status (other_status raw) p = end_raise _ _ (inl refl)

  pub claim_ends :
      (has_db : Bool) (w : World)
      → Ends
          (claim e has_db id token lease)
          w
          (λ a v. Claimed e id token lease w.durable a v.durable)
          (λ _ v. Missed e w.durable v.durable)
  unfolding claim
  claim_ends has_db w =
      then_guard _ _ _ w
        (λ _.
          then_begin e _ _ w
            (λ _.
              then_query e _ _ _ (λ _. then_gets _ _ _ (found_ends _ _ refl refl)) (λ _. inl refl))
            (λ _ v same. inl same.0))
        (λ _. inl refl)

  -- A claim that fails changes no durable row, unless the answer to its commit was lost.
  pub claim_failed :
      (has_db : Bool) (w : World) (x : Error)
      → e.fault commit_tx ≢ unacknowledged
      → (claim e has_db id token lease w).0 ≡ err x
      → (claim e has_db id token lease w).1.durable ≡ w.durable
  claim_failed has_db w x acknowledged h =
      settled (Ends-err (claim e has_db id token lease) w x (claim_ends has_db w) h)
    where
      settled :
          Missed e w.durable (claim e has_db id token lease w).1.durable
          → (claim e has_db id token lease w).1.durable ≡ w.durable
      settled (inl same) = same
      settled (inr lost) = absurd (acknowledged lost)
