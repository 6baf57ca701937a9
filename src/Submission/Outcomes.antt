-- ===== src/Submission/Outcomes.antt =====
-- What an admission returns and leaves behind, on every branch of `Accept`.
use code_duel.Base.{ℕ, ◌<◌, ◌≡◌, ◌≢◌, ◌⊎◌, inl, inr, ◌==◌, ltb→lt, true, none, some, find_row}
use code_duel.Db.{Match, is_active}
use code_duel.World.{commit_tx, lock_match, unacknowledged, Error, ok, err, Env, World}
use code_duel.World.Ends.{Ends, Ends-ok, Ends-err}
use code_duel.Submission.{Request, Service, accept, same_key, is_member}
use code_duel.Submission.Runs.{Open, Lost, accept_ends}

-- A request that no stored submission answers is admitted only into an active match of the player,
-- before the deadline.
pub accept_open :
    (e : Env) (service : Service) (r : Request) (w : World) (id : ℕ)
    → find_row (same_key r.player_id r.request_id) w.durable.submissions ≡ none
    → (accept e service r w).0 ≡ ok id
    → (m : Match) × (find_row (λ k. k.id == r.match_id) w.durable.matches ≡ some m)
      × (is_active m.status ≡ true)
      × (e.clock lock_match < m.deadline)
      × (is_member w.durable.match_players r.match_id r.player_id ≡ true)
accept_open e service r w id unknown h = opened (Ends-ok (accept e service r) w id run h)
  where
    run : Ends (accept e service r) w (λ _ _. Open e r w.durable) (λ _ _. Unit {0})
    run = accept_ends e service r w (λ s _ p _ _ _. cc (unknown, p)) (λ _ _ o _ _. o) (λ _ _ _. tt)

    opened :
        Open e r w.durable
        → (m : Match) × (find_row (λ k. k.id == r.match_id) w.durable.matches ≡ some m)
          × (is_active m.status ≡ true)
          × (e.clock lock_match < m.deadline)
          × (is_member w.durable.match_players r.match_id r.player_id ≡ true)
    opened o = (o.match, o.stored, o.active_status, ltb→lt _ _ o.in_time, o.member)

-- An admission that fails changes no durable row, unless the answer to its commit was lost.
pub accept_failed :
    (e : Env) (service : Service) (r : Request) (w : World) (x : Error)
    → e.fault commit_tx ≢ unacknowledged
    → (accept e service r w).0 ≡ err x
    → (accept e service r w).1.durable ≡ w.durable
accept_failed e service r w x told h = unchanged (Ends-err (accept e service r) w x run h)
  where
    run :
        Ends
          (accept e service r)
          w
          (λ _ _. Unit {0})
          (λ _ v. (v.durable ≡ w.durable) ⊎ Lost e r w.durable v.durable)
    run = accept_ends e service r w (λ _ _ _ _ _ _. tt) (λ _ _ _ _ _. tt) (λ _ _ why. why)

    unchanged :
        ((accept e service r w).1.durable ≡ w.durable)
          ⊎ Lost e r w.durable (accept e service r w).1.durable
        → (accept e service r w).1.durable ≡ w.durable
    unchanged (inl same) = same
    unchanged (inr lost) = absurd (told lost.untold)
