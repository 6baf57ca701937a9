-- ===== src/Safety/Admission.antt =====
-- Submissions are admitted and dispatched under the invariant.
use code_duel.Base.{ℕ, ◌<◌, ◌≡◌, ◌⊎◌, inl, inr, List, [], ◌∷◌}
use code_duel.Db.{Db}
use code_duel.Db.Invariant.{DbOk}
use code_duel.Db.Statements.{add_submission-DbOk, stamp_enqueued-DbOk}
use code_duel.World.{Env, World, insert_submission, mark_enqueued}
use code_duel.World.Keeps.{
  Keeps, Keeps-pure, Keeps-gets, Keeps-guard, Keeps-query, Keeps-bind, InDb-commit, Keeps-call,
  Keeps-tx, Keeps-body, InDb, InDb-exec, InDurable, Durable-exec_now,
}
use code_duel.World.Ends.{Keeps-of_ends}
use code_duel.Redisx.JudgeQueue.{enqueue}
use code_duel.Submission.{Request, Service, accept, new_submission, add_submission}
use code_duel.Submission.Runs.{Open, Lost, accept_ends}
use code_duel.Submission.Dispatch.{
  Dispatcher, dispatch, dispatch_each, dispatch_pending, stamp_enqueued,
}

module _ (max : ℕ) where
  added :
      (e : Env) (r : Request) (db : Db)
      → 0 < max
      → DbOk max db
      → Open e r db
      → DbOk max (add_submission (new_submission e r) db)
  added e r db pos h o = add_submission-DbOk max db h e r pos o.free o.member

  -- `Accept` keeps the invariant.
  pub accept-DbOk :
      (e : Env) (service : Service) (r : Request)
      → 0 < max
      → Keeps (InDurable (DbOk max)) (accept e service r)
  accept-DbOk e service r pos = Keeps-of_ends _ λ w h.
      accept_ends e service r w (λ _ _ _ _ v p. rw p h) (λ _ _ o v how. stored w h o v.durable how)
        (λ _ v why. failed w h v.durable why)
    where
      stored :
          (w : World)
          → DbOk max w.durable
          → Open e r w.durable
          → (db : Db)
          → (db ≡ add_submission (new_submission e r) w.durable)
            ⊎ (db
                ≡ stamp_enqueued
                    (e.fresh insert_submission)
                    (e.clock (mark_enqueued (e.fresh insert_submission)))
                    (add_submission (new_submission e r) w.durable))
          → DbOk max db
      stored w h o db (inl p) = rw p (added e r w.durable pos h o)
      stored w h o db (inr p) = rw p (stamp_enqueued-DbOk max _ (added e r w.durable pos h o) _ _)

      failed :
          (w : World)
          → DbOk max w.durable
          → (db : Db) → (db ≡ w.durable) ⊎ Lost e r w.durable db
          → DbOk max db
      failed w h db (inl p) = rw p h
      failed w h db (inr lost) = rw lost.stored_row (added e r w.durable pos h lost.opened)

  pub enqueue-DbOk : (e : Env) (id : ℕ) → Keeps (InDurable (DbOk max)) (enqueue e id)
  unfolding enqueue
  enqueue-DbOk e id =
      Keeps-bind _ _ (Keeps-guard _ _)
        (λ _. Keeps-bind _ _ (Keeps-call e _ _ (λ w h. h)) (λ _. Keeps-gets _))

  enqueue-in_tx : (e : Env) (id : ℕ) → Keeps (InDb (DbOk max)) (enqueue e id)
  unfolding enqueue
  enqueue-in_tx e id = Keeps-bind _ _ (Keeps-guard _ _) (λ _.
      Keeps-bind _ _
        (Keeps-call e _ _
          (λ w h. record { durable_holds = h.durable_holds; working_holds = h.working_holds }))
        (λ _. Keeps-gets _))

  -- `Dispatch` keeps the invariant.
  pub dispatch-DbOk :
      (e : Env) (d : Dispatcher) (id : ℕ) → Keeps (InDurable (DbOk max)) (dispatch e d id)
  unfolding dispatch
  dispatch-DbOk e d id = Keeps-bind _ _ (Keeps-guard _ _) (λ _.
      Keeps-bind _ _ (Keeps-guard _ _) (λ _. Keeps-bind _ _ (enqueue-DbOk e id) (λ _.
        Durable-exec_now e _ _
          (λ db h. stamp_enqueued-DbOk max db h id (e.clock (mark_enqueued id))))))

  dispatch_each-DbOk : (e : Env) (ids : List ℕ) → Keeps (InDb (DbOk max)) (dispatch_each e ids)
  unfolding dispatch_each
  dispatch_each-DbOk e [] = Keeps-pure tt
  dispatch_each-DbOk e (id ∷ ids) = Keeps-bind _ _ (enqueue-in_tx e id) (λ _.
      Keeps-bind _ _
        (InDb-exec e _ _ (λ db h. stamp_enqueued-DbOk max db h id (e.clock (mark_enqueued id))))
        (λ _. dispatch_each-DbOk e ids))

  -- `DispatchPending` keeps the invariant.
  pub dispatch_pending-DbOk :
      (e : Env) (d : Dispatcher) → Keeps (InDurable (DbOk max)) (dispatch_pending e d)
  unfolding dispatch_pending
  dispatch_pending-DbOk e d = Keeps-bind _ _ (Keeps-guard _ _) (λ _. Keeps-tx e _ _ (
      Keeps-body _ (
        Keeps-bind _ _ (Keeps-query e _) (λ _. Keeps-bind _ _ (Keeps-gets _) (λ ids.
          Keeps-bind _ _ (dispatch_each-DbOk e ids)
            (λ _. Keeps-bind _ _ (InDb-commit e _) (λ _. Keeps-pure _)))))))
