-- ===== src/Reaper/Finalized.antt =====
-- How the finalization of an overdue match ends.
mod Rows
use code_duel.Base.{
  ℕ, ◌==◌, ◌<◌, ◌≡◌, ◌≢◌, refl, sym, ap, ◌∙◌, subst, ◌⊎◌, inl, inr, Bool, true, false, ◌&&◌, ◌||◌,
  not, if_some, Bool-cases, ==→eq, eq→==, Option, none, some, some_inj, List, [], ◌∷◌, map, arith,
  All, All-implies, All-select_met, All-order_by, exists_row, exists_row_witness, find_row,
  find_row-update_some, update_rows, delete_rows, by_key, Keyed,
}
use code_duel.Db.{
  SubmissionStatus, pending, running, completed, other_status, MatchStatus, active, finished,
  other_match_status, Submission, Match, MatchPlayer, ActiveClaim, Db, is_active, is_none,
  is_pending, is_running,
}
use code_duel.Db.Invariant.{DbOk}
use code_duel.Safety.Reaping.{players_are_members}
use code_duel.Db.Triggers.{finish_match, finish, is_open, match_at, claim_ends}
use code_duel.Db.Columns.{active_of, none_of}
use code_duel.Db.Finish.{finish_match-won, finish_match-none}
use code_duel.Submission.{is_member}
use code_duel.Judge.Store.{by_slot}
use code_duel.World.{Env, World, ok, pure, some_or, invalid_event}
use code_duel.World.Ends.{
  Ends, Ends-ok, then_query, then_gets, then_exec, then_some_or, if_ends, end_pure, end_some_or,
}
use code_duel.Reaper.Events.{PublishedEvent, distinct_players, build_match_end_events}
use code_duel.Reaper.Matches.{
  decide_tiebreak_winner, best_score, has_open_submission, score_rows, score_pair, total_tests,
  end_match, end_scored, score_match, finalize_match,
}
use code_duel.Reaper.Scores.{IsBest, best_score-IsBest}
use code_duel.Reaper.Verdicts.{tiebreak_decides, match_end_agrees}
use Rows.{NotOpen, Scores, none_open_of, score_pair-Scores, open_row, open_parts}

-- What is left of a match that is over, and what its players are told.
pub record Finalized (id : ℕ) (before : Db) (events : List PublishedEvent) (after : Db)
    : Type 0 where
  pub none_open : All (NotOpen id) before.submissions
  pub players : ℕ × ℕ
  pub scores : ℕ × ℕ
  pub distinct : players.0 ≢ players.1
  pub members :
      (is_member before.match_players id players.0 ≡ true)
      × (is_member before.match_players id players.1 ≡ true)
  pub best :
      IsBest id players.0 before.submissions scores.0
      × IsBest id players.1 before.submissions scores.1
  pub winner : Option ℕ
  pub decided :
      ((scores.1 < scores.0) × (winner ≡ some players.0))
      ⊎ ((scores.0 < scores.1) × (winner ≡ some players.1))
      ⊎ ((scores.0 ≡ scores.1) × (winner ≡ none))
  pub match : Match
  pub found : match_at id before.matches ≡ some match
  pub was_open : (match.status ≡ active) × (match.winner_id ≡ none)
  pub ended :
      match_at id after.matches ≡ some (record match { status = finished; winner_id = winner })
  pub told :
      (first second : PublishedEvent) × (events ≡ first ∷ second ∷ [])
      × (first.recipient_id ≡ players.0)
      × (second.recipient_id ≡ players.1)

-- A finalization that returned: nothing happened, or the match is over.
abbrev pub Concluded : ℕ → World → List PublishedEvent → World → Type 0
Concluded id w events v = ((events ≡ []) × (v ≡ w)) ⊎ Finalized id w.working events v.working

module _ (e : Env) (id : ℕ) where
  ended-Finalized :
      (players scores : ℕ × ℕ) (total : ℕ) (events : List PublishedEvent) (db : Db)
      → Keyed (λ (m : Match). m.id) db.matches
      → has_open_submission id db ≡ false
      → Scores id db (players, scores)
      → exists_row (is_open id) db.matches ≡ true
      → build_match_end_events e id players scores total (decide_tiebreak_winner players scores)
        ≡ some events
      → Finalized id db events (finish_match id (decide_tiebreak_winner players scores) db)
  ended-Finalized players scores total events db keyed idle (apart, known, best) there built =
      let (m, found, free) = open_row id db.matches keyed there in
      let (first, second, same, to_first, to_second, _) =
        match_end_agrees e id players scores total events built in
      record {
        none_open = none_open_of id db.submissions idle;
        players = players;
        scores = scores;
        distinct = λ same_player. cc (eq→== players.0 players.1 same_player, distinct_parts apart);
        members = known;
        best = best;
        winner = decide_tiebreak_winner players scores;
        decided = tiebreak_decides players scores;
        match = m;
        found = found;
        was_open = open_parts id m free;
        ended = finish_match-won id (decide_tiebreak_winner players scores) db m found free;
        told = (first, second, same, to_first, to_second);
      }
    where
      distinct_parts : distinct_players players ≡ true → (players.0 == players.1) ≡ false
      distinct_parts h = ground arith

  end_match-Concluded :
      (players scores : ℕ × ℕ) (w : World)
      → Keyed (λ (m : Match). m.id) w.working.matches
      → has_open_submission id w.working ≡ false
      → Scores id w.working (players, scores)
      → Ends (end_match e id players scores) w (λ a v. Concluded id w a v) (λ _ _. Unit {0})
  unfolding end_match
  end_match-Concluded players scores w keyed idle good =
      then_query e _ _ w
        (λ _. then_gets _ _ w (
          then_some_or _ _ _ w
            (λ total _. then_gets _ _ w (
              then_exec e _ _ _ w
                (λ _.
                  if_ends (exists_row (is_open id) w.working.matches) _ (pure []) _
                    (λ there.
                      end_some_or _ _ _
                        (λ events built. inr (
                          ended-Finalized players scores total events w.working keyed idle good
                            there built))
                        (λ _. tt))
                    (λ gone. end_pure _ _ (
                      inl (
                        refl,
                        ap (λ db. record w { working = db })
                            (finish_match-none id (decide_tiebreak_winner players scores) w.working
                              gone),
                      ))))
                (λ _ _ _. tt)))
            (λ _. tt)))
        (λ _. tt)

  end_scored-Concluded :
      (o : Option ((ℕ × ℕ) × (ℕ × ℕ))) (w : World)
      → Keyed (λ (m : Match). m.id) w.working.matches
      → has_open_submission id w.working ≡ false
      → score_pair (score_rows id w.working) ≡ o
      → Ends (end_scored e id o) w (λ a v. Concluded id w a v) (λ _ _. Unit {0})
  unfolding end_scored
  end_scored-Concluded none w keyed idle pair = end_pure _ _ (inl (refl, refl))
  end_scored-Concluded (some (players, scores)) w keyed idle pair =
      end_match-Concluded players scores w keyed idle (
        score_pair-Scores id w.working _ (players, scores)
          (All-order_by _ by_slot _ (
            All-select_met _ _ (λ p. p.match_id == id) w.working.match_players
              (λ p member hit. member hit) (players_are_members id w.working.match_players)))
          pair)

  -- A finalization of a match that returns, in tables that satisfy the invariant, has changed nothing
  -- and gives no events, or it has ended the match: no submission of it was pending or running, the
  -- match was active without a winner and is finished, and its winner is the one of its two players
  -- whose best completed submission passed more tests than the other's, or nobody where they are equal;
  -- there is one event for each of the two.
  pub finalize_match-Concluded :
      (max : ℕ) (w : World) (events : List PublishedEvent)
      → DbOk max w.working
      → (finalize_match e id w).0 ≡ ok events
      → Concluded id w events (finalize_match e id w).1
  unfolding finalize_match score_match
  finalize_match-Concluded max w events good h = Ends-ok (finalize_match e id) w events run h
    where
      run : Ends (finalize_match e id) w (λ a v. Concluded id w a v) (λ _ _. Unit {0})
      run =
          then_query e _ _ w
            (λ _. then_gets _ _ w (
              if_ends (has_open_submission id w.working) (pure []) (score_match e id) w
                (λ _. end_pure _ _ (inl (refl, refl)))
                (λ idle.
                  then_query e _ _ w
                    (λ _. then_gets _ _ w (end_scored-Concluded _ w good.matches_ok.key idle refl))
                    (λ _. tt))))
            (λ _. tt)
