-- ===== src/Reaper/Leases.antt =====
-- internal/reaper/leases.go: expired attempts go back to the queue, or are given up after the last.
use code_duel.Base.{
  ℕ, ◌==◌, ltb, leb, Bool, true, false, not, ◌&&◌, ◌||◌, Option, none, some, List, [], ◌∷◌, ◌++◌,
  map, if◌then◌else◌, take, find_row, select_rows, exists_row, update_rows, order_by,
}
use code_duel.Db.{
  Submission, pending, completed, failed, infrastructure_error, Match, MatchPlayer, Problem, Db,
  is_running,
}
use code_duel.World.{
  begin_tx, commit_tx, select_rows_site, unavailable, invalid_event, Env, M, gets, ◌>>=◌, ◌>>◌,
  begin_with, exec, commit_with, some_or,
}
use code_duel.Reaper.Events.{PublishedEvent, build_failed_result_events, publish_events}

pub record ReaperConfig : Type 0 where
  pub interval : ℕ
  pub max_attempts : ℕ
  pub stream_min_idle : ℕ
  pub batch_size : ℕ

-- A reset action has no data but the submission's identifier.
pub data LeaseAction : Type 0 where
  reset_action : ℕ → LeaseAction
  poisoned_action : (id request match player opponent total : ℕ) → LeaseAction

abbrev pub lease_over : ℕ → Option ℕ → Bool
lease_over now none = true
lease_over now (some until) = leb until now

abbrev pub is_expired : ℕ → Submission → Bool
is_expired now s = is_running s.status && lease_over now s.lease_until

abbrev pub before_lease : Option ℕ → Option ℕ → ℕ → ℕ → Bool
before_lease none none a b = ltb a b
before_lease none (some y) a b = true
before_lease (some x) none a b = false
before_lease (some x) (some y) a b = ltb x y || (x == y && ltb a b)

-- ORDER BY lease_until NULLS FIRST, id
abbrev pub lease_before : Submission → Submission → Bool
lease_before a b = before_lease a.lease_until b.lease_until a.id b.id

-- The CTE `expired`.
abbrev pub expired_rows : ℕ → ℕ → Db → List Submission
expired_rows now batch db =
    take batch (order_by lease_before (select_rows (is_expired now) db.submissions))

abbrev pub reset_row : Submission → Submission
reset_row s = record s {
  status = pending;
  attempt_token = none;
  lease_until = none;
  last_enqueued_at = none;
}

abbrev pub poison_row : ℕ → Submission → Submission
poison_row now s = record s {
  status = completed;
  result = some failed;
  failure_kind = some infrastructure_error;
  attempt_token = none;
  lease_until = none;
  finished_at = some now;
}

-- The CTEs `reset` and `poisoned` split the expired rows by their attempts.
abbrev pub reclaim_row : ℕ → ℕ → Submission → Submission
reclaim_row max now s = if ltb s.attempts max then reset_row s else poison_row now s

abbrev pub in_rows : List Submission → Submission → Bool
in_rows rows s = exists_row (λ x. x.id == s.id) rows

unfoldable pub reclaim_rows : List Submission → ℕ → ℕ → Db → Db
reclaim_rows rows max now db = record db {
  submissions = update_rows (in_rows rows) (reclaim_row max now) db.submissions;
}

-- The scalar subquery for the opponent: NULL is 0, and two rows are an error of the statement.
abbrev pub opponent_of : List MatchPlayer → Option ℕ
opponent_of [] = some 0
opponent_of (p ∷ []) = some p.user_id
opponent_of _ = none

abbrev action_with : Submission → Option ℕ → Option ℕ → Option (List LeaseAction)
action_with s (some opponent) (some total) =
    some (poisoned_action s.id s.request_id s.match_id s.player_id opponent total ∷ [])
action_with _ _ _ = none

abbrev with_problem : Env → Db → Submission → Option Problem → Option (List LeaseAction)
with_problem e db s none = some []
with_problem e db s (some p) =
    action_with s
      (opponent_of (
        select_rows (λ mp. mp.match_id == s.match_id && not (mp.user_id == s.player_id))
          db.match_players))
      (e.array_length p.test_cases)

abbrev with_match : Env → Db → Submission → Option Match → Option (List LeaseAction)
with_match e db s none = some []
with_match e db s (some m) = with_problem e db s (find_row (λ p. p.id == m.problem_id) db.problems)

-- One row of the second branch of the UNION, through its joins.
abbrev pub poison_action : Env → Db → Submission → Option (List LeaseAction)
poison_action e db s = with_match e db s (find_row (λ m. m.id == s.match_id) db.matches)

abbrev pub join_actions :
    Option (List LeaseAction) → Option (List LeaseAction) → Option (List LeaseAction)
join_actions (some xs) (some ys) = some (xs ++ ys)
join_actions _ _ = none

unfoldable pub poison_actions : Env → Db → List Submission → Option (List LeaseAction)
poison_actions e db [] = some []
poison_actions e db (s ∷ rows) = join_actions (poison_action e db s) (poison_actions e db rows)

abbrev pub has_attempts_left : ℕ → Submission → Bool
has_attempts_left max s = ltb s.attempts max

unfoldable pub lease_actions : Env → ℕ → List Submission → Db → Option (List LeaseAction)
unfolding poison_actions
lease_actions e max rows db =
    join_actions (some (map (λ s. reset_action s.id) (select_rows (has_attempts_left max) rows)))
      (poison_actions e db (select_rows (λ s. not (has_attempts_left max s)) rows))

abbrev pub join_events :
    Option (List PublishedEvent) → Option (List PublishedEvent) → Option (List PublishedEvent)
join_events (some xs) (some ys) = some (xs ++ ys)
join_events _ _ = none

-- The loop over the actions, after the commit.
unfoldable pub action_events : Env → List LeaseAction → Option (List PublishedEvent)
action_events e [] = some []
action_events e (reset_action id ∷ rest) = action_events e rest
action_events e (poisoned_action id request match player opponent total ∷ rest) =
    join_events (build_failed_result_events e id request match player (player, opponent) total)
      (action_events e rest)

-- `reclaimLeases`: one statement selects, resets and gives up.
unfoldable pub reclaim_leases : Env → ReaperConfig → M (Unit {0})
reclaim_leases e cfg = do
  begin_with e begin_tx
  rows ← gets (λ w. expired_rows (e.clock select_rows_site) cfg.batch_size w.working)
  found ← gets (λ w. lease_actions e cfg.max_attempts rows w.working)
  actions ← some_or found (unavailable select_rows_site)
  exec e select_rows_site (reclaim_rows rows cfg.max_attempts (e.clock select_rows_site))
  commit_with e commit_tx
  events ← some_or (action_events e actions) invalid_event
  publish_events e events
