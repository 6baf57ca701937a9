-- ===== src/Db/Statements.antt =====
-- Every statement of the handlers keeps the invariant of the tables.
use code_duel.Base.{
  ℕ, ◌<◌, ◌==◌, ◌≡◌, refl, true, false, Option, none, some, List, [], ◌∷◌, ◌++◌, inl, inr,
  Bool-cases, exists_row,
}
use code_duel.Db.{Submission, Match, MatchPlayer, Db, is_active}
use code_duel.Db.Triggers.{
  finish_match, match_at, Inserted, inserted, claim_taken, no_match, add_player, has_claim,
  insert_into,
}
use code_duel.Db.Invariant.{DbOk, SubmissionsOk}
use code_duel.Db.SubmissionRows.{
  add-SubmissionsOk, stamp-SubmissionsOk, start-SubmissionsOk, settle-SubmissionsOk, Expired,
  reclaim-SubmissionsOk, later-SubmissionsOk,
}
use code_duel.Db.MatchRows.{finish-MatchesOk, add_claimed-MatchesOk, add_unclaimed-MatchesOk}
use code_duel.World.{Env}
use code_duel.Submission.{Request, new_submission, add_submission, is_member}
use code_duel.Submission.Dispatch.{stamp_enqueued}
use code_duel.Judge.Store.{start_running, TerminalResult}
use code_duel.Judge.Completion.{persist}
use code_duel.Reaper.Leases.{reclaim_rows}

-- An insert that succeeds.
abbrev pub InsertedOk : ℕ → Inserted → Type 0
InsertedOk max (inserted db) = DbOk max db
InsertedOk max claim_taken = Unit {0}
InsertedOk max no_match = Unit {0}

module _ (max : ℕ) (db : Db) (h : DbOk max db) where
  pub add_submission-DbOk :
      (e : Env) (r : Request)
      → 0 < max
      → exists_row (λ s. s.id == (new_submission e r).id) db.submissions ≡ false
      → is_member db.match_players r.match_id r.player_id ≡ true
      → DbOk max (add_submission (new_submission e r) db)
  unfolding add_submission
  add_submission-DbOk e r pos free member = record {
    submissions_ok =
        add-SubmissionsOk max db.match_players db.submissions e r pos free member h.submissions_ok;
    matches_ok = h.matches_ok;
  }

  pub stamp_enqueued-DbOk : (id now : ℕ) → DbOk max (stamp_enqueued id now db)
  unfolding stamp_enqueued
  stamp_enqueued-DbOk id now = record {
    submissions_ok =
        stamp-SubmissionsOk max db.match_players db.submissions id now h.submissions_ok;
    matches_ok = h.matches_ok;
  }

  pub start_running-DbOk : (id token until : ℕ) → DbOk max (start_running id token until db)
  unfolding start_running
  start_running-DbOk id token until = record {
    submissions_ok =
        start-SubmissionsOk max db.match_players db.submissions id token until h.submissions_ok;
    matches_ok = h.matches_ok;
  }

  pub persist-DbOk : (id : ℕ) (r : TerminalResult) (now : ℕ) → DbOk max (persist id r now db)
  unfolding persist
  persist-DbOk id r now = record {
    submissions_ok =
        settle-SubmissionsOk max db.match_players db.submissions id now r h.submissions_ok;
    matches_ok = h.matches_ok;
  }

  pub reclaim_rows-DbOk :
      (selected : List Submission) (now : ℕ)
      → Expired max db.match_players db.submissions selected
      → DbOk max (reclaim_rows selected max now db)
  unfolding reclaim_rows
  reclaim_rows-DbOk selected now expired = record {
    submissions_ok =
        reclaim-SubmissionsOk max db.match_players db.submissions selected now expired
          h.submissions_ok;
    matches_ok = h.matches_ok;
  }

  pub finish_match-DbOk :
      (id : ℕ) (winner : Option ℕ)
      → ((u : ℕ) → winner ≡ some u → is_member db.match_players id u ≡ true)
      → DbOk max (finish_match id winner db)
  unfolding finish_match
  finish_match-DbOk id winner played = record {
    submissions_ok = h.submissions_ok;
    matches_ok =
        finish-MatchesOk db.matches db.match_players db.active_claims id winner played h.matches_ok;
  }

  pub add_player-DbOk : (p : MatchPlayer) → InsertedOk max (add_player p db)
  unfolding add_player
  add_player-DbOk p = go (match_at p.match_id db.matches) refl
    where
      later : SubmissionsOk max (db.match_players ++ p ∷ []) db.submissions
      later = later-SubmissionsOk max db.match_players db.submissions p h.submissions_ok

      go :
          (o : Option Match)
          → match_at p.match_id db.matches ≡ o
          → InsertedOk max (insert_into p db o)
      go none e = tt
      go (some m) e = elim (Bool-cases (is_active m.status)) [
        | inr idle ↦ rw idle (record {
          submissions_ok = later;
          matches_ok =
              add_unclaimed-MatchesOk db.matches db.match_players db.active_claims p m e idle
                h.matches_ok;
        })
        | inl act ↦ elim (Bool-cases (has_claim db.active_claims p.user_id)) [
          | inl taken ↦ rw (act, taken) tt
          | inr free ↦
              rw (act, free)
                (record {
                  submissions_ok = later;
                  matches_ok =
                      add_claimed-MatchesOk db.matches db.match_players db.active_claims p m e act
                        free h.matches_ok;
                })
        ]
      ]
