-- ===== src/Reaper/Matches.antt =====
-- internal/reaper/matches.go: expired matches end by their best scores.
use code_duel.Base.{
  ℕ, ◌==◌, ltb, leb, Bool, ◌&&◌, ◌||◌, Option, none, some, List, [], ◌∷◌, ◌++◌, map, if◌then◌else◌,
  take, find_row, select_rows, exists_row, order_by,
}
use code_duel.Db.{Submission, Match, Problem, Db, is_pending, is_running, is_completed, is_active}
use code_duel.Db.Triggers.{is_open, finish_match}
use code_duel.Judge.Store.{by_slot}
use code_duel.World.{
  begin_tx, commit_tx, select_rows_site, count_open, load_scores, load_tests, update_match,
  unavailable, invalid_event, Env, M, pure, gets, ◌>>=◌, ◌>>◌, query, begin_with, exec, commit_with,
  some_or,
}
use code_duel.Reaper.Events.{
  PublishedEvent, distinct_players, build_match_end_events, publish_events,
}
use code_duel.Reaper.Leases.{ReaperConfig}

unfoldable pub decide_tiebreak_winner : ℕ × ℕ → ℕ × ℕ → Option ℕ
decide_tiebreak_winner players scores =
    if ltb scores.1 scores.0
    then some players.0
    else if ltb scores.0 scores.1
    then some players.1
    else none

abbrev pub is_overdue : ℕ → Match → Bool
is_overdue now m = is_active m.status && leb m.deadline now

-- ORDER BY deadline, id
abbrev pub deadline_before : Match → Match → Bool
deadline_before a b = ltb a.deadline b.deadline || (a.deadline == b.deadline && ltb a.id b.id)

abbrev pub overdue_ids : ℕ → ℕ → Db → List ℕ
overdue_ids now batch db =
    map (λ m. m.id)
      (take batch (order_by deadline_before (select_rows (is_overdue now) db.matches)))

-- COUNT(*) > 0 over status IN ('pending', 'running')
abbrev pub has_open_submission : ℕ → Db → Bool
has_open_submission id db =
    exists_row (λ s. s.match_id == id && (is_pending s.status || is_running s.status))
      db.submissions

abbrev pub counts_for : ℕ → ℕ → Submission → Bool
counts_for match user s = s.match_id == match && s.player_id == user && is_completed s.status

abbrev pub larger : ℕ → ℕ → ℕ
larger a b = if ltb a b then b else a

-- COALESCE(MAX(tests_passed) FILTER (WHERE status = 'completed'), 0)
abbrev pub best_score : ℕ → ℕ → List Submission → ℕ
best_score match user [] = 0
best_score match user (s ∷ rest) =
    let best = best_score match user rest in
    if counts_for match user s then larger s.tests_passed best else best

abbrev pub score_rows : ℕ → Db → List (ℕ × ℕ)
score_rows id db =
    map (λ p. (p.user_id, best_score id p.user_id db.submissions))
      (order_by by_slot (select_rows (λ p. p.match_id == id) db.match_players))

-- Exactly two valid players, with their scores.
abbrev pub score_pair : List (ℕ × ℕ) → Option ((ℕ × ℕ) × (ℕ × ℕ))
score_pair ((a, x) ∷ (b, y) ∷ []) = if distinct_players (a, b) then some ((a, b), (x, y)) else none
score_pair _ = none

abbrev tests_of : Env → Option Problem → Option ℕ
tests_of e none = none
tests_of e (some p) = e.array_length p.test_cases

abbrev problem_of : Db → Option Match → Option Problem
problem_of db none = none
problem_of db (some m) = find_row (λ p. p.id == m.problem_id) db.problems

abbrev pub total_tests : Env → ℕ → Db → Option ℕ
total_tests e id db = tests_of e (problem_of db (find_row (λ m. m.id == id) db.matches))

-- The end of `finalizeMatch`: the guarded update, and the events if it hit a row.
unfoldable pub end_match : Env → ℕ → ℕ × ℕ → ℕ × ℕ → M (List PublishedEvent)
end_match e id players scores = do
  query e (load_tests id)
  found ← gets (λ w. total_tests e id w.working)
  total ← some_or found (unavailable (load_tests id))
  hit ← gets (λ w. exists_row (is_open id) w.working.matches)
  exec e (update_match id) (finish_match id (decide_tiebreak_winner players scores))
  if hit
      then some_or
          (build_match_end_events e id players scores total (decide_tiebreak_winner players scores))
          invalid_event
      else pure []

unfoldable pub end_scored : Env → ℕ → Option ((ℕ × ℕ) × (ℕ × ℕ)) → M (List PublishedEvent)
end_scored e id none = pure []
end_scored e id (some (players, scores)) = end_match e id players scores

unfoldable pub score_match : Env → ℕ → M (List PublishedEvent)
score_match e id = do
  query e (load_scores id)
  rows ← gets (λ w. score_rows id w.working)
  end_scored e id (score_pair rows)

-- `finalizeMatch`
unfoldable pub finalize_match : Env → ℕ → M (List PublishedEvent)
finalize_match e id = do
  query e (count_open id)
  busy ← gets (λ w. has_open_submission id w.working)
  if busy then pure [] else score_match e id

unfoldable pub finalize_each : Env → List ℕ → M (List PublishedEvent)
finalize_each e [] = pure []
finalize_each e (id ∷ ids) = do
  events ← finalize_match e id
  more ← finalize_each e ids
  pure (events ++ more)

-- `finalizeMatches`
unfoldable pub finalize_matches : Env → ReaperConfig → M (Unit {0})
finalize_matches e cfg = do
  begin_with e begin_tx
  query e select_rows_site
  ids ← gets (λ w. overdue_ids (e.clock select_rows_site) cfg.batch_size w.working)
  events ← finalize_each e ids
  commit_with e commit_tx
  publish_events e events
