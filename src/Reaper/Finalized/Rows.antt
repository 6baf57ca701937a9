-- ===== src/Reaper/Finalized/Rows.antt =====
-- What the queries of a finalization say of the rows.
use code_duel.Base.{
  ℕ, ◌==◌, ◌≡◌, ◌≢◌, ap, subst, ◌⊎◌, inl, inr, true, false, ◌&&◌, ◌||◌, if_some, Bool-cases, ==→eq,
  eq→==, none, some, List, [], ◌∷◌, map, arith, All, exists_row, exists_row_witness, Keyed,
}
use code_duel.Db.{
  SubmissionStatus, pending, running, active, Submission, Match, MatchPlayer, Db, is_pending,
  is_running,
}
use code_duel.Db.Triggers.{is_open, match_at}
use code_duel.Db.Columns.{active_of, none_of}
use code_duel.Submission.{is_member}
use code_duel.Reaper.Events.{distinct_players}
use code_duel.Reaper.Matches.{best_score, score_pair}
use code_duel.Reaper.Scores.{IsBest, best_score-IsBest}

-- A submission that is not an open one of the match.
abbrev pub NotOpen : ℕ → Submission → Type 0
NotOpen id s = (s.match_id ≢ id) ⊎ ((s.status ≢ pending) × (s.status ≢ running))

pub idle_status :
    (s : SubmissionStatus)
    → is_pending s ≡ false
    → is_running s ≡ false
    → (s ≢ pending) × (s ≢ running)
idle_status s p r = (λ e. cc (ap is_pending e, p), λ e. cc (ap is_running e, r))

pub none_open_of :
    (id : ℕ) (rows : List Submission)
    → exists_row (λ s. s.match_id == id && (is_pending s.status || is_running s.status)) rows
      ≡ false
    → All (NotOpen id) rows
none_open_of id [] h = tt
none_open_of id (s ∷ rest) h = (
  elim (Bool-cases (s.match_id == id)) [
    | inr other ↦ inl (λ e. cc (eq→== s.match_id id e, other))
    | inl there ↦ inr (idle_status s.status (ground arith) (ground arith))
  ],
  none_open_of id rest (ground arith),
)

-- The two players with their scores that the query gives.
abbrev pub Scores : ℕ → Db → (ℕ × ℕ) × (ℕ × ℕ) → Type 0
Scores id db (players, scores) =
    (distinct_players players ≡ true)
    × ((is_member db.match_players id players.0 ≡ true)
        × (is_member db.match_players id players.1 ≡ true))
    × (IsBest id players.0 db.submissions scores.0 × IsBest id players.1 db.submissions scores.1)

pub score_pair-Scores :
    (id : ℕ) (db : Db) (rows : List MatchPlayer) (o : (ℕ × ℕ) × (ℕ × ℕ))
    → All (λ p. is_member db.match_players id p.user_id ≡ true) rows
    → score_pair
        (map (λ (p : MatchPlayer). (p.user_id, best_score id p.user_id db.submissions)) rows)
      ≡ some o
    → Scores id db o
score_pair-Scores id db [] o m h = cc
score_pair-Scores id db (a ∷ []) o m h = cc
score_pair-Scores id db (a ∷ b ∷ []) o m h =
    let (fine, same) = if_some (distinct_players (a.user_id, b.user_id)) _ o h in
    subst (Scores id db) same (
      fine,
      (m.0, m.1.0),
      (
        best_score-IsBest id a.user_id db.submissions,
        best_score-IsBest id b.user_id db.submissions,
      ),
    )
score_pair-Scores id db (a ∷ b ∷ c ∷ rest) o m h = cc

-- The open row of a match is the one that its key finds.
pub open_row :
    (id : ℕ) (matches : List Match)
    → Keyed (λ (m : Match). m.id) matches
    → exists_row (is_open id) matches ≡ true
    → (m : Match) × (match_at id matches ≡ some m) × (is_open id m ≡ true)
open_row id matches keyed there =
    let (m, found, free) = exists_row_witness _ (is_open id) matches keyed there in
    (m, subst (λ k. match_at k matches ≡ some m) (==→eq m.id id (ground arith)) found, free)

pub open_parts :
    (id : ℕ) (m : Match) → is_open id m ≡ true → (m.status ≡ active) × (m.winner_id ≡ none)
open_parts id m h = (active_of m.status (ground arith), none_of m.winner_id (ground arith))
