-- ===== src/Gateway/Matchmaking/Admitted.antt =====
-- Whom the gateway admits to the queue, and what a refusal leaves behind.
use code_duel.Base.{ℕ, ◌≡◌, refl, ◌⊎◌, inl, inr, Bool, true, Option, none, some}
use code_duel.Db.{Db}
use code_duel.Redisx.{QueueState, QueueMember}
use code_duel.Redisx.Member.{valid_member}
use code_duel.Redisx.Scripts.{enqueue_script}
use code_duel.Redisx.Queue.{Queue, enqueue}
use code_duel.Match.Create.{is_user}
use code_duel.Match.Service.Steps.{enqueue-InDurable}
use code_duel.Gateway.Matchmaking.{active_match, refuse_active, enqueue_for_match}
use code_duel.World.{run_enqueue, unacknowledged, Env, World, ◌>>=◌, pure, begin_with}
use code_duel.World.Keeps.{
  Keeps, Keeps-pure, Keeps-raise, Keeps-gets, Keeps-guard, Keeps-query, Keeps-call, Keeps-bind,
  InDurable,
}
use code_duel.World.Ends.{
  Ends, weaken, bind_ends, end_pure, end_raise, then_guard, then_begin, then_query, then_gets,
  then_call,
}

module _ (e : Env) (queue : Queue) (m : QueueMember) where
  -- The state of the queue after the member has been enqueued.
  abbrev pub Enqueued : QueueState → QueueState
  Enqueued q =
      (enqueue_script (e.show_uuid m.user_id) (e.encode_json m) (e.clock (run_enqueue m.user_id))
        q).1

  -- Who may be enqueued.
  pub record Admissible (db : Db) : Type 0 where
    pub valid : valid_member e m ≡ true
    pub known : is_user db.users m.user_id ≡ true
    pub unmatched : active_match m.user_id db ≡ none

  abbrev pub Refused : World → World → Type 0
  Refused w v = (v.queue ≡ w.queue) ⊎ (e.fault (run_enqueue m.user_id) ≡ unacknowledged)

  enqueue_ends :
      (w : World)
      → Ends (enqueue e queue m) w (λ _ v. v.queue ≡ Enqueued w.queue) (λ _ v. Refused w v)
  unfolding enqueue
  enqueue_ends w =
      then_guard _ _ _ w
        (λ _.
          then_guard _ _ _ w
            (λ _.
              then_gets _ _ w
                (then_call e _ _ _ w (λ _. end_pure _ _ refl) (λ _. inl refl) (λ lost. inr lost)))
            (λ _. inl refl))
        (λ _. inl refl)

  -- Where admission to the queue returns, the member is valid, the user exists, no active match holds
  -- the user, and enqueue.lua has run for the member; where it fails, the queue is as it was, unless the
  -- answer of that script was lost.
  pub admission_ends :
      (has_db : Bool) (w : World)
      → Ends
          (enqueue_for_match e has_db queue m)
          w
          (λ _ v. Admissible w.durable × (v.queue ≡ Enqueued w.queue))
          (λ _ v. Refused w v)
  unfolding enqueue_for_match
  admission_ends has_db w =
      then_guard _ _ _ w
        (λ _.
          then_guard _ _ _ w
            (λ valid.
              then_begin e _ _ w
                (λ _.
                  then_query e _ _ _
                    (λ _. then_gets _ _ _ (
                      then_guard _ _ _ _
                        (λ known.
                          then_query e _ _ _
                            (λ _. then_gets _ _ _ (
                              unclaimed (active_match m.user_id w.durable) (λ none_active. record {
                                valid = valid;
                                known = known;
                                unmatched = none_active;
                              })))
                            (λ _. inl refl))
                        (λ _. inl refl)))
                    (λ _. inl refl))
                (λ _ v same. inl same.2))
            (λ _. inl refl))
        (λ _. inl refl)
    where
      unclaimed :
          (o : Option ℕ)
          → (o ≡ none → Admissible w.durable)
          → Ends
              (refuse_active o >>= λ _. enqueue e queue m >>= λ _. pure tt)
              (record w { working = w.durable })
              (λ _ v. Admissible w.durable × (v.queue ≡ Enqueued w.queue))
              (λ _ v. Refused w v)
      unclaimed none may = bind_ends _ _ _ (
          end_pure _ _ (
            bind_ends _ _ _ (
              weaken _ _ (enqueue_ends (record w { working = w.durable }))
                (λ _ v same. end_pure _ v (may refl, same)) (λ _ _ kept. kept))))
      unclaimed (some id) may = bind_ends _ _ _ (end_raise _ _ (inl refl))

-- Admission to the queue keeps what holds of the durable tables.
pub admission-InDurable :
    (e : Env) (P : Db → Type 0) (has_db : Bool) (queue : Queue) (m : QueueMember)
    → Keeps (InDurable P) (enqueue_for_match e has_db queue m)
unfolding enqueue_for_match begin_with
admission-InDurable e P has_db queue m = Keeps-bind _ _ (Keeps-guard _ _) (λ _.
    Keeps-bind _ _ (Keeps-guard _ _) (λ _. Keeps-bind _ _ (Keeps-call e _ _ (λ w h. h)) (λ _.
      Keeps-bind _ _ (Keeps-query e _) (λ _. Keeps-bind _ _ (Keeps-gets _) (λ found.
        Keeps-bind _ _ (Keeps-guard _ _) (λ _. Keeps-bind _ _ (Keeps-query e _) (λ _.
          Keeps-bind _ _ (Keeps-gets _) (λ active.
            Keeps-bind _ _ (refused active)
              (λ _. Keeps-bind _ _ (enqueue-InDurable e P queue m) (λ _. Keeps-pure tt))))))))))
  where
    refused : (o : Option ℕ) → Keeps (InDurable P) (refuse_active o)
    refused none = Keeps-pure tt
    refused (some id) = Keeps-raise _
