-- ===== src/Safety/Matching.antt =====
-- A match is created under the invariant.
use code_duel.Base.{
  ℕ, ◌==◌, ◌≡◌, refl, Bool, true, false, not, none, List, [], ◌∷◌, exists_row, find_row-none, arith,
}
use code_duel.Db.{Match, Db}
use code_duel.Db.Invariant.{DbOk}
use code_duel.Db.MatchRows.{add_match-MatchesOk}
use code_duel.Db.Statements.{InsertedOk, add_player-DbOk}
use code_duel.Db.Triggers.{Inserted, inserted, claim_taken, no_match}
use code_duel.Redisx.{QueueMember}
use code_duel.World.{Env, World, exec, insert_match}
use code_duel.World.Keeps.{
  Keeps, Keeps-pure, Keeps-raise, Keeps-gets, Keeps-some_or, Keeps-guard, Keeps-query, Keeps-bind,
  Keeps-tx, Keeps-body, Keeps-bind-gets, Keeps-call, InDb, InDb-commit, InDurable,
}
use code_duel.World.Ends.{world_of_ends, then_guard, then_call, ends_of_keeps}
use code_duel.Match.Create.{
  new_match, add_match, lock_users, report_conflict, insert_result, insert_slot, open_match,
  create_match,
}

module _ (max : ℕ) (e : Env) where
  users-DbOk : (ids : List ℕ) → Keeps (InDb (DbOk max)) (lock_users e ids)
  unfolding lock_users
  users-DbOk [] = Keeps-pure _
  users-DbOk (id ∷ ids) = Keeps-bind _ _ (Keeps-query e _) (λ _.
      Keeps-bind _ _ (Keeps-gets _)
        (λ found. Keeps-bind _ _ (users-DbOk ids) (λ missing. Keeps-pure _)))

  conflict-DbOk : (ids : List ℕ) (slot : ℕ) → Keeps (InDb (DbOk max)) (report_conflict e ids slot)
  unfolding report_conflict
  conflict-DbOk ids slot = Keeps-bind _ _ (Keeps-query e _) (λ _.
      Keeps-bind _ _ (Keeps-query e _) (λ _.
        Keeps-bind _ _ (Keeps-gets _)
          (λ claims. Keeps-bind _ _ (Keeps-guard _ _) (λ _. Keeps-raise _))))

  result-DbOk :
      (ids : List ℕ) (slot : ℕ) (r : Inserted)
      → InsertedOk max r
      → Keeps (InDb (DbOk max)) (insert_result e ids slot r)
  unfolding insert_result exec
  result-DbOk ids slot (inserted db) h =
      Keeps-call e _ _ (λ w k. record { durable_holds = k.durable_holds; working_holds = h })
  result-DbOk ids slot claim_taken h = conflict-DbOk ids slot
  result-DbOk ids slot no_match h = Keeps-raise _

  slot-DbOk :
      (ids : List ℕ) (match user slot : ℕ)
      → Keeps (InDb (DbOk max)) (insert_slot e ids match user slot)
  unfolding insert_slot
  slot-DbOk ids match user slot =
      Keeps-bind-gets _ _
        (λ w h. (result-DbOk ids slot _ (add_player-DbOk max w.working h.working_holds _)).at w h)

  add_match-DbOk :
      (m : Match) (db : Db)
      → DbOk max db
      → exists_row (λ k. k.id == m.id) db.matches ≡ false
      → m.winner_id ≡ none
      → DbOk max (add_match m db)
  unfolding add_match
  add_match-DbOk m db h free unwon = record {
    submissions_ok = h.submissions_ok;
    matches_ok =
        add_match-MatchesOk db.matches db.match_players db.active_claims m
          (find_row-none _ db.matches free) unwon h.matches_ok;
  }

  open-DbOk :
      (milliseconds : ℕ) (a b : QueueMember)
      → Keeps (InDb (DbOk max)) (open_match e milliseconds a b)
  unfolding open_match exec
  open-DbOk milliseconds a b = Keeps-bind _ _ (Keeps-query e _) (λ _.
      Keeps-bind _ _ (Keeps-gets _) (λ oldest. Keeps-bind _ _ (Keeps-some_or _ _) (λ problem.
        Keeps-bind-gets _ _ (λ w h. world_of_ends _ w (
          then_guard _ _ _ w
            (λ free.
              then_call e _ _ _ w
                (λ _.
                  ends_of_keeps _
                    (Keeps-bind _ _ (slot-DbOk _ _ _ 1) (λ _.
                      Keeps-bind _ _ (slot-DbOk _ _ _ 2)
                        (λ _. Keeps-bind _ _ (InDb-commit e _) (λ _. Keeps-pure _))))
                    _ (stored problem w h free))
                (λ _. h) (λ _. stored problem w h free))
            (λ _. h))))))
    where
      stored :
          (problem : ℕ) (w : World)
          → InDb (DbOk max) w
          → not (exists_row (λ m. m.id == e.fresh insert_match) w.working.matches) ≡ true
          → InDb
              (DbOk max)
              (record w { working = add_match (new_match e problem milliseconds) w.working })
      stored problem w h free = record {
        durable_holds = h.durable_holds;
        working_holds =
            add_match-DbOk (new_match e problem milliseconds) w.working h.working_holds
              (ground arith) refl;
      }

  -- `createMatch` keeps the invariant.
  pub create_match-DbOk :
      (has_db : Bool) (milliseconds : ℕ) (a b : QueueMember)
      → Keeps (InDurable (DbOk max)) (create_match e has_db milliseconds a b)
  unfolding create_match
  create_match-DbOk has_db milliseconds a b = Keeps-bind _ _ (Keeps-guard _ _) (λ _.
      Keeps-bind _ _ (Keeps-guard _ _) (λ _. Keeps-bind _ _ (Keeps-guard _ _) (λ _.
        Keeps-bind _ _ (Keeps-guard _ _) (λ _. Keeps-bind _ _ (Keeps-guard _ _) (λ _.
          Keeps-tx e _ _ (
            Keeps-body _ (
              Keeps-bind _ _ (users-DbOk _) (λ missing. Keeps-bind _ _ (Keeps-query e _) (λ _.
                Keeps-bind _ _ (Keeps-gets _) (λ claims.
                  Keeps-bind _ _ (Keeps-guard _ _) (λ _. open-DbOk milliseconds a b)))))))))))
