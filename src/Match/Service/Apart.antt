-- ===== src/Match/Service/Apart.antt =====
-- Creating a match does not touch the queue.
use code_duel.Base.{ℕ, Bool, List, [], ◌∷◌}
use code_duel.Db.Triggers.{Inserted, inserted, claim_taken, no_match}
use code_duel.Redisx.{QueueState, QueueMember}
use code_duel.Match.Create.{
  lock_users, report_conflict, insert_result, insert_slot, open_match, create_match,
}
use code_duel.World.{Env, World, exec, begin_with, commit_with}
use code_duel.World.Keeps.{
  Keeps, Keeps-pure, Keeps-raise, Keeps-gets, Keeps-some_or, Keeps-guard, Keeps-call, Keeps-query,
  Keeps-bind,
}

module _ (e : Env) (P : QueueState → Type 0) where
  abbrev InQueue : World → Type 0
  InQueue w = P w.queue

  users-InQueue : (ids : List ℕ) → Keeps InQueue (lock_users e ids)
  unfolding lock_users
  users-InQueue [] = Keeps-pure _
  users-InQueue (id ∷ ids) = Keeps-bind _ _ (Keeps-query e _) (λ _.
      Keeps-bind _ _ (Keeps-gets _)
        (λ found. Keeps-bind _ _ (users-InQueue ids) (λ missing. Keeps-pure _)))

  result-InQueue :
      (ids : List ℕ) (slot : ℕ) (r : Inserted) → Keeps InQueue (insert_result e ids slot r)
  unfolding insert_result exec report_conflict
  result-InQueue ids slot (inserted db) = Keeps-call e _ _ (λ w h. h)
  result-InQueue ids slot claim_taken = Keeps-bind _ _ (Keeps-query e _) (λ _.
      Keeps-bind _ _ (Keeps-query e _) (λ _.
        Keeps-bind _ _ (Keeps-gets _)
          (λ claims. Keeps-bind _ _ (Keeps-guard _ _) (λ _. Keeps-raise _))))
  result-InQueue ids slot no_match = Keeps-raise _

  slot-InQueue :
      (ids : List ℕ) (match user slot : ℕ) → Keeps InQueue (insert_slot e ids match user slot)
  unfolding insert_slot
  slot-InQueue ids match user slot = Keeps-bind _ _ (Keeps-gets _) (λ r. result-InQueue ids slot r)

  open-InQueue :
      (milliseconds : ℕ) (a b : QueueMember) → Keeps InQueue (open_match e milliseconds a b)
  unfolding open_match exec commit_with
  open-InQueue milliseconds a b = Keeps-bind _ _ (Keeps-query e _) (λ _.
      Keeps-bind _ _ (Keeps-gets _) (λ oldest. Keeps-bind _ _ (Keeps-some_or _ _) (λ problem.
        Keeps-bind _ _ (Keeps-gets _) (λ taken. Keeps-bind _ _ (Keeps-guard _ _) (λ _.
          Keeps-bind _ _ (Keeps-call e _ _ (λ w h. h)) (λ _.
            Keeps-bind _ _ (slot-InQueue _ _ _ _) (λ _.
              Keeps-bind _ _ (slot-InQueue _ _ _ _)
                (λ _. Keeps-bind _ _ (Keeps-call e _ _ (λ w h. h)) (λ _. Keeps-pure _)))))))))

  pub create_match-InQueue :
      (has_db : Bool) (milliseconds : ℕ) (a b : QueueMember)
      → Keeps InQueue (create_match e has_db milliseconds a b)
  unfolding create_match begin_with
  create_match-InQueue has_db milliseconds a b = Keeps-bind _ _ (Keeps-guard _ _) (λ _.
      Keeps-bind _ _ (Keeps-guard _ _) (λ _. Keeps-bind _ _ (Keeps-guard _ _) (λ _.
        Keeps-bind _ _ (Keeps-guard _ _) (λ _. Keeps-bind _ _ (Keeps-guard _ _) (λ _.
          Keeps-bind _ _ (Keeps-call e _ _ (λ w h. h)) (λ _.
            Keeps-bind _ _ (users-InQueue _) (λ missing. Keeps-bind _ _ (Keeps-query e _) (λ _.
              Keeps-bind _ _ (Keeps-gets _) (λ claims.
                Keeps-bind _ _ (Keeps-guard _ _) (λ _. open-InQueue milliseconds a b))))))))))
