-- ===== src/Safety/Reaping.antt =====
-- Expired attempts are reclaimed and overdue matches are ended under the invariant.
use code_duel.Base.{
  ℕ, ltb, some_inj, subst, ◌==◌, ◌≡◌, ◌≢◌, inl, inr, true, Bool-cases, Option, none, some, List, [],
  ◌∷◌, map, All, All-implies, All-select_met, All-order_by, All-take, arith,
}
use code_duel.Db.{Submission, MatchPlayer, Db}
use code_duel.Db.Invariant.{DbOk}
use code_duel.Db.SubmissionRows.{Expired}
use code_duel.Db.Statements.{reclaim_rows-DbOk, finish_match-DbOk}
use code_duel.Db.Triggers.{finish_match}
use code_duel.Submission.{is_member}
use code_duel.World.{Env, World, pure, ◌>>=◌, select_rows_site, commit_tx, commit_with}
use code_duel.World.Keeps.{
  Keeps, Keeps-pure, Keeps-gets, Keeps-some_or, Keeps-if, Keeps-guard, Keeps-query, Keeps-bind,
  Keeps-attempt, Keeps-tx, Keeps-bind-gets, InDb, InDurable,
}
use code_duel.World.Known.{Knows, Knows-exec, with_known}
use code_duel.World.Ends.{
  Ends, weaken, then_query, bind_ends, then_gets, then_some_or, then_exec, then_commit,
  world_of_ends, ends_of_keeps,
}
use code_duel.Judge.Store.{by_slot}
use code_duel.Reaper.Events.{distinct_players, PublishedEvent, publish_each, publish_events}
use code_duel.Reaper.Leases.{
  ReaperConfig, expired_rows, is_expired, lease_before, reclaim_rows, reclaim_leases,
}
use code_duel.Reaper.Matches.{
  decide_tiebreak_winner, score_rows, score_pair, best_score, end_match, end_scored, score_match,
  finalize_match, finalize_each, finalize_matches,
}
use code_duel.Safety.Jobs.{Durable-publish}

module _ (P : Db → Type 0) where
  each-Durable :
      (e : Env) (events : List PublishedEvent) → Keeps (InDurable P) (publish_each e events)
  unfolding publish_each
  each-Durable e [] = Keeps-pure _
  each-Durable e (event ∷ events) =
      Keeps-attempt _ _ (Durable-publish P e _ _ _)
        (λ r. Keeps-bind _ _ (each-Durable e events) (λ failures. Keeps-pure _))

  events-Durable :
      (e : Env) (events : List PublishedEvent) → Keeps (InDurable P) (publish_events e events)
  unfolding publish_events
  events-Durable e events = Keeps-bind _ _ (each-Durable e events) (λ failures. Keeps-guard _ _)

-- The rows that the statement selects are stored, and running.
selected-Expired :
    (max now batch : ℕ) (db : Db)
    → DbOk max db
    → Expired max db.match_players db.submissions (expired_rows now batch db)
selected-Expired max now batch db h = All-take _ batch _ (
    All-order_by _ lease_before _ (
      All-select_met _ _ (is_expired now) db.submissions (λ s own hit. (own, ground arith))
        h.submissions_ok.key))

-- `reclaimLeases` keeps the invariant for its own limit of attempts.
module _ (e : Env) (cfg : ReaperConfig) where
  pub leases-DbOk : Keeps (InDurable (DbOk cfg.max_attempts)) (reclaim_leases e cfg)
  unfolding reclaim_leases
  leases-DbOk = Keeps-tx e _ _ (λ w h. world_of_ends _ w (
      then_gets _ _ w (
        then_gets _ _ w (
          then_some_or _ _ _ w
            (λ actions _.
              then_exec e _ _ _ w
                (λ _.
                  then_commit e _ _ _
                    (λ _.
                      ends_of_keeps _
                        (Keeps-bind _ _ (Keeps-some_or _ _)
                          (λ events. events-Durable (DbOk cfg.max_attempts) e events))
                        _ (changed w h))
                    (λ _. h.durable_holds) (λ _. changed w h))
                (λ _ v same. rw same.0 h.durable_holds))
            (λ _. h.durable_holds)))))
    where
      changed :
          (w : World)
          → InDb (DbOk cfg.max_attempts) w
          → DbOk cfg.max_attempts (
              reclaim_rows
                (expired_rows (e.clock select_rows_site) cfg.batch_size w.working)
                cfg.max_attempts
                (e.clock select_rows_site)
                w.working)
      changed w h =
          reclaim_rows-DbOk cfg.max_attempts w.working h.working_holds _ _
            (selected-Expired _ _ _ w.working h.working_holds)

-- The players that the score query returns.
abbrev Pair : ℕ → ℕ × ℕ → Db → Type 0
Pair id players db =
    (is_member db.match_players id players.0 ≡ true)
    × (is_member db.match_players id players.1 ≡ true)

abbrev scored : ℕ → List Submission → MatchPlayer → ℕ × ℕ
scored id rows p = (p.user_id, best_score id p.user_id rows)

abbrev PairOf : ℕ → Db → Option ((ℕ × ℕ) × (ℕ × ℕ)) → Type 0
PairOf id db none = Unit {0}
PairOf id db (some (players, scores)) = Pair id players db

PairOf-scored :
    (id : ℕ) (db : Db) (rows : List MatchPlayer)
    → All (λ p. is_member db.match_players id p.user_id ≡ true) rows
    → PairOf id db (score_pair (map (scored id db.submissions) rows))
PairOf-scored id db [] h = tt
PairOf-scored id db (a ∷ []) h = tt
PairOf-scored id db (a ∷ b ∷ []) h = elim (Bool-cases (distinct_players (a.user_id, b.user_id))) [
  | inl fine ↦ rw fine (h.0, h.1.0)
  | inr bad ↦ rw bad tt
]
PairOf-scored id db (a ∷ b ∷ c ∷ rest) h = tt

pub players_are_members :
    (id : ℕ) (players : List MatchPlayer)
    → All (λ p. p.match_id == id ≡ true → is_member players id p.user_id ≡ true) players
players_are_members id [] = tt
players_are_members id (p ∷ ps) = (
  λ hit. ground arith,
  All-implies _ _ ps (λ q h hit. rw (h hit) (ground arith)) (players_are_members id ps),
)

scores_of_members : (id : ℕ) (db : Db) → PairOf id db (score_pair (score_rows id db))
scores_of_members id db = PairOf-scored id db _ (
    All-order_by _ by_slot _ (
      All-select_met _ _ (λ p. p.match_id == id) db.match_players (λ p member hit. member hit)
        (players_are_members id db.match_players)))

not_some : (u : ℕ) → none ≢ some u
not_some u h = cc

-- The tiebreak names a player, or nobody.
tiebreak_member :
    (id : ℕ) (db : Db) (players scores : ℕ × ℕ)
    → Pair id players db
    → (u : ℕ) → decide_tiebreak_winner players scores ≡ some u
    → is_member db.match_players id u ≡ true
unfolding decide_tiebreak_winner
tiebreak_member id db players scores pair u h = elim (Bool-cases (ltb scores.1 scores.0)) [
  | inl first ↦
      subst (λ v. is_member db.match_players id v ≡ true) (some_inj _ _ (rw first at h)) pair.0
  | inr behind ↦ elim (Bool-cases (ltb scores.0 scores.1)) [
    | inl second ↦
        subst (λ v. is_member db.match_players id v ≡ true)
          (some_inj _ _ (rw (behind, second) at h)) pair.1
    | inr even ↦ absurd (not_some _ (rw (behind, even) at h))
  ]
]

module _ (max : ℕ) (e : Env) where
  end-DbOk :
      (id : ℕ) (players scores : ℕ × ℕ)
      → Keeps (Knows (DbOk max) (Pair id players)) (end_match e id players scores)
  unfolding end_match finish_match
  end-DbOk id players scores = Keeps-bind _ _ (Keeps-query e _) (λ _.
      Keeps-bind _ _ (Keeps-gets _) (λ found. Keeps-bind _ _ (Keeps-some_or _ _) (λ total.
        Keeps-bind _ _ (Keeps-gets _) (λ hit.
          Keeps-bind _ _
            (Knows-exec e _ _
              (λ db h pair.
                finish_match-DbOk max db h id _ (tiebreak_member id db players scores pair))
              (λ db pair. pair))
            (λ _. Keeps-if hit _ (pure []) (Keeps-some_or _ _) (Keeps-pure _))))))

  end_scored-DbOk :
      (id : ℕ) (o : Option ((ℕ × ℕ) × (ℕ × ℕ))) (w : World)
      → InDb (DbOk max) w
      → PairOf id w.working o
      → InDb (DbOk max) (end_scored e id o w).1
  unfolding end_scored
  end_scored-DbOk id none w h pair = (Keeps-pure {P = InDb (DbOk max)} []).at w h
  end_scored-DbOk id (some (players, scores)) w h pair =
      with_known (end_match e id players scores) (end-DbOk id players scores) w h pair

  finalize_match-DbOk : (id : ℕ) → Keeps (InDb (DbOk max)) (finalize_match e id)
  unfolding finalize_match score_match
  finalize_match-DbOk id = Keeps-bind _ _ (Keeps-query e _) (λ _.
      Keeps-bind _ _ (Keeps-gets _) (λ busy. Keeps-if busy (pure []) _ (Keeps-pure _) (
        Keeps-bind _ _ (Keeps-query e _) (λ _.
          Keeps-bind-gets _ _ (λ w h. end_scored-DbOk id _ w h (scores_of_members id w.working))))))

  each-DbOk : (ids : List ℕ) → Keeps (InDb (DbOk max)) (finalize_each e ids)
  unfolding finalize_each
  each-DbOk [] = Keeps-pure _
  each-DbOk (id ∷ ids) =
      Keeps-bind _ _ (finalize_match-DbOk id)
        (λ events. Keeps-bind _ _ (each-DbOk ids) (λ more. Keeps-pure _))

  -- `finalizeMatches` keeps the invariant.
  pub matches-DbOk : (cfg : ReaperConfig) → Keeps (InDurable (DbOk max)) (finalize_matches e cfg)
  unfolding finalize_matches
  matches-DbOk cfg = Keeps-tx e _ _ (λ w h.
      world_of_ends _ w
        (then_query e _ _ w (λ _. then_gets _ _ w (held cfg _ w h)) (λ _. h.durable_holds)))
    where
      held :
          (cfg : ReaperConfig) (ids : List ℕ) (w : World)
          → InDb (DbOk max) w
          → Ends
              (finalize_each e ids >>= λ events.
                commit_with e commit_tx >>= λ _. publish_events e events)
              w
              (λ _ v. DbOk max v.durable)
              (λ _ v. DbOk max v.durable)
      held cfg ids w h = bind_ends _ _ w (
          weaken _ w (ends_of_keeps _ (each-DbOk ids) w h)
            (λ events v k.
              then_commit e _ _ v
                (λ _. ends_of_keeps _ (events-Durable (DbOk max) e events) _ k.working_holds)
                (λ _. k.durable_holds) (λ _. k.working_holds))
            (λ _ v k. k.durable_holds))
