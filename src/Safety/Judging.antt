-- ===== src/Safety/Judging.antt =====
-- A judge job is claimed, completed and delivered under the invariant.
use code_duel.Base.{
  ℕ, ◌+◌, ◌==◌, ==→eq, ◌≡◌, refl, sym, Bool, true, Option, none, some, find_row, All-find_row,
  if◌then◌else◌, Bool-cases, inl, inr, arith,
}
use code_duel.Db.{
  Submission, SubmissionStatus, pending, running, completed, other_status, Match, Db,
}
use code_duel.Db.Invariant.{DbOk, IsSubmitted}
use code_duel.Db.Statements.{start_running-DbOk, persist-DbOk, finish_match-DbOk}
use code_duel.Db.Triggers.{finish_match}
use code_duel.Submission.{is_member}
use code_duel.World.{
  Env, World, pure, ◌>>=◌, unavailable, lock_submission, some_or, commit_tx, mark_running,
  persist_result,
}
use code_duel.World.Keeps.{
  Keeps, Keeps-pure, Keeps-raise, Keeps-gets, Keeps-some_or, Keeps-if, Keeps-guard, Keeps-query,
  Keeps-bind, Keeps-tx, Keeps-body, Keeps-bind-gets, InDb, InDb-exec, InDb-commit, InDurable,
  keeps_rules,
}
use code_duel.World.Known.{Knows, Knows-exec, Knows-commit, with_known}
use code_duel.Judge.Store.{
  ClaimedSubmission, ClaimRow, TerminalResult, completion_lost_ownership, load_match_players,
  claim_pending, inspect_completed, inspect_running, claim_by_status, claim_found, claim,
}
use code_duel.Judge.Completion.{
  owns, persist, select_winner, established, settle, disown, wins, complete,
}

module _ (max : ℕ) where
  players-DbOk :
      (e : Env) (id submitter : ℕ) → Keeps (InDb (DbOk max)) (load_match_players e id submitter)
  unfolding load_match_players
  players-DbOk e id submitter = search (keeps_rules)

  pending-DbOk :
      (e : Env) (row : ClaimRow) (token lease : ℕ)
      → Keeps (InDb (DbOk max)) (claim_pending e row token lease)
  unfolding claim_pending
  pending-DbOk e row token lease = Keeps-bind _ _ (Keeps-some_or _ _) (λ _.
      Keeps-bind _ _ (Keeps-some_or _ _) (λ _. Keeps-bind _ _ (Keeps-guard _ _) (λ _.
        Keeps-bind _ _ (players-DbOk e _ _) (λ _.
          Keeps-bind _ _
            (InDb-exec e _ _ (λ db h.
              start_running-DbOk max db h row.submission.id token (e.clock mark_running + lease)))
            (λ _. Keeps-bind _ _ (InDb-commit e _) (λ _. Keeps-pure _))))))

  completed-DbOk : (e : Env) (row : ClaimRow) → Keeps (InDb (DbOk max)) (inspect_completed e row)
  unfolding inspect_completed
  completed-DbOk e row = search (keeps_rules, players-DbOk)

  running-DbOk : (e : Env) (row : ClaimRow) → Keeps (InDb (DbOk max)) (inspect_running e row)
  unfolding inspect_running
  running-DbOk e row = search (keeps_rules)

  by_status-DbOk :
      (status : SubmissionStatus) (e : Env) (row : ClaimRow) (token lease : ℕ)
      → Keeps (InDb (DbOk max)) (claim_by_status status e row token lease)
  unfolding claim_by_status
  by_status-DbOk pending e row token lease = pending-DbOk e row token lease
  by_status-DbOk running e row token lease = running-DbOk e row
  by_status-DbOk completed e row token lease = completed-DbOk e row
  by_status-DbOk (other_status raw) e row token lease = Keeps-raise _

  found-DbOk :
      (e : Env) (row : Option ClaimRow) (token lease : ℕ)
      → Keeps (InDb (DbOk max)) (claim_found e row token lease)
  unfolding claim_found
  found-DbOk e none token lease = Keeps-pure _
  found-DbOk e (some row) token lease = by_status-DbOk row.submission.status e row token lease

  -- `Claim` keeps the invariant.
  pub claim-DbOk :
      (e : Env) (has_db : Bool) (id token lease : ℕ)
      → Keeps (InDurable (DbOk max)) (claim e has_db id token lease)
  unfolding claim
  claim-DbOk e has_db id token lease = Keeps-bind _ _ (Keeps-guard _ _) (λ _. Keeps-tx e _ _ (
      Keeps-body _ (
        Keeps-bind _ _ (Keeps-query e _)
          (λ _. Keeps-bind _ _ (Keeps-gets _) (λ row. found-DbOk e row token lease)))))

  -- The player of an attempt is a player of its match.
  abbrev Player : ClaimedSubmission → Db → Type 0
  Player c db = is_member db.match_players c.match_id c.player_id ≡ true

  owns-Player :
      (c : ClaimedSubmission) (db : Db) (s : Submission)
      → DbOk max db
      → find_row (λ x. x.id == c.submission_id) db.submissions ≡ some s
      → owns c s ≡ true
      → Player c db
  unfolding owns
  owns-Player c db s h found own = subst_player
    where
      submitted : IsSubmitted db.match_players s
      submitted =
          All-find_row _ (λ x. x.id == c.submission_id) db.submissions s h.submissions_ok.submitted
            found

      same_match : s.match_id ≡ c.match_id
      same_match = ==→eq _ _ (ground arith)

      same_player : s.player_id ≡ c.player_id
      same_player = ==→eq _ _ (ground arith)

      subst_player : Player c db
      subst_player = rw (sym same_match, sym same_player) submitted

  winner-DbOk :
      (e : Env) (c : ClaimedSubmission) → Keeps (Knows (DbOk max) (Player c)) (select_winner e c)
  unfolding select_winner established finish_match
  winner-DbOk e c = Keeps-bind _ _ (Keeps-gets _) (λ hit.
      Keeps-bind _ _
        (Knows-exec e _ _
          (λ db h p. finish_match-DbOk max db h c.match_id (some c.player_id) (λ u q. cc))
          (λ db p. p))
        (λ _.
          Keeps-if hit _ _ (Keeps-pure _) (Keeps-bind _ _ (Keeps-query e _) (λ _. Keeps-gets _))))

  settle-DbOk :
      (e : Env) (c : ClaimedSubmission) (r : TerminalResult) (m : Match)
      → Keeps (Knows (DbOk max) (Player c)) (settle e c r m)
  unfolding settle persist
  settle-DbOk e c r m =
      Keeps-bind _ _
        (Knows-exec e _ _
          (λ db h p. persist-DbOk max db h c.submission_id r (e.clock persist_result)) (λ db p. p))
        (λ _.
          Keeps-bind _ _ (Keeps-if (wins r m) _ (pure m.winner_id) (winner-DbOk e c) (Keeps-pure _))
            (λ _. Keeps-bind _ _ (Knows-commit e _) (λ _. Keeps-pure _)))

  decide-DbOk :
      (e : Env) (c : ClaimedSubmission) (r : TerminalResult) (m : Match) (s : Submission)
      (w : World)
      → InDb (DbOk max) w
      → find_row (λ x. x.id == c.submission_id) w.working.submissions ≡ some s
      → InDb (DbOk max) ((if owns c s then settle e c r m else disown e) w).1
  unfolding disown
  decide-DbOk e c r m s w h found = elim (Bool-cases (owns c s)) [
    | inl own ↦ rw own (
        with_known (settle e c r m) (settle-DbOk e c r m) w h
          (owns-Player c w.working s h.working_holds found own))
    | inr lost ↦ rw lost (
        (Keeps-bind _ _ (InDb-commit e commit_tx) (λ _. Keeps-pure completion_lost_ownership)).at w
          h)
  ]

  stored-DbOk :
      (e : Env) (c : ClaimedSubmission) (r : TerminalResult) (m : Match) (o : Option Submission)
      (w : World)
      → InDb (DbOk max) w
      → find_row (λ x. x.id == c.submission_id) w.working.submissions ≡ o
      → InDb
          (DbOk max)
          ((some_or o (unavailable lock_submission) >>= λ s.
              if owns c s then settle e c r m else disown e)
            w).1
  unfolding some_or ◌>>=◌
  stored-DbOk e c r m none w h found = h
  stored-DbOk e c r m (some s) w h found = decide-DbOk e c r m s w h found

  -- `Complete` keeps the invariant.
  pub complete-DbOk :
      (e : Env) (has_db : Bool) (c : ClaimedSubmission) (r : TerminalResult)
      → Keeps (InDurable (DbOk max)) (complete e has_db c r)
  unfolding complete
  complete-DbOk e has_db c r = Keeps-bind _ _ (Keeps-guard _ _) (λ _.
      Keeps-bind _ _ (Keeps-guard _ _) (λ _. Keeps-tx e _ _ (
        Keeps-body _ (
          Keeps-bind _ _ (Keeps-query e _) (λ _. Keeps-bind _ _ (Keeps-gets _) (λ found_match.
            Keeps-bind _ _ (Keeps-some_or _ _) (λ m.
              Keeps-bind _ _ (Keeps-query e _)
                (λ _. Keeps-bind-gets _ _ (λ w h. stored-DbOk e c r m _ w h refl)))))))))
