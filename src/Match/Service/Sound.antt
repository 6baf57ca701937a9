-- ===== src/Match/Service/Sound.antt =====
-- What a step of the matchmaker keeps: the invariant of the queue, with the entries that it holds
-- back, and the invariant of the tables.
use code_duel.Base.{ℕ, ◌≤◌, ◌≡◌, refl, Bytes, List, subst, sym}
use code_duel.Redisx.Keys.{publish}
use code_duel.Redisx.Queue.{QueueEntry}
use code_duel.Redisx.QueueOk.{QueueOk}
use code_duel.Redisx.QueueOk.Runs.{QueueAt, Serves, Scored, requeue-QueueAt}
use code_duel.Redisx.QueueOk.Given.{pop_pair-QueueAt}
use code_duel.Match.Service.{Matchmaker, step}
use code_duel.Match.Service.Apart.{create_match-InQueue}
use code_duel.Match.Service.Frame.{Frame, step-Goes}
use code_duel.Proto.{Envelope}
use code_duel.World.{Site, Env, World, Result, ok, err}
use code_duel.World.Keeps.{Keeps, Keeps-call}
use code_duel.World.Ends.{Ends, HoldsOf}

module _ (e : Env) where
  publish-Serves :
      (last : ℕ) (s : Site) (channel : Bytes) (payload : Envelope)
      → Keeps (Serves e last) (publish e s channel payload)
  unfolding publish
  publish-Serves last s channel payload = Keeps-call e s _ (λ w h. h)

  abbrev queue_frame : ℕ → Frame e
  queue_frame last = record {
    Holds = Serves e last;
    Fits = λ x. x.score ≤ last;
    requeue_keeps = requeue-QueueAt e last;
    pop_ends = pop_pair-QueueAt e last;
    create_keeps = create_match-InQueue e (QueueAt e last);
    publish_keeps = publish-Serves last;
  }

  -- The matchmaker's state is sound: the queue satisfies its invariant, and the scores of the entries
  -- held back are ones that the queue has given.
  pub record ServiceOk (pending : List QueueEntry) (w : World) : Type 0 where
    pub queue_ok : QueueOk e w.queue
    pub pending_ok : Scored w.queue.last_score pending

  -- A step of the matchmaker, from a state whose queue satisfies the invariant QueueOk and whose
  -- pending entries have scores that the queue has given, returns, and ends in such a state.
  pub step-ServiceOk :
      (s : Matchmaker) (pending : List QueueEntry) (w : World)
      → ServiceOk pending w
      → (r : ℕ × List QueueEntry) × ((step e s pending w).0 ≡ ok r)
        × ServiceOk r.1 (step e s pending w).1
  step-ServiceOk s pending w h = go (step e s pending w).0 (step e s pending w).1 refl run.holds
    where
      run :
          Ends
            (step e s pending)
            w
            (λ r v. Serves e w.queue.last_score v × Scored w.queue.last_score r.1)
            (λ _ _. ⊥)
      run =
          step-Goes e (queue_frame w.queue.last_score) s pending w
            (record { queue_ok = h.queue_ok; last_ok = refl }) h.pending_ok

      go :
          (r : Result (ℕ × List QueueEntry)) (v : World)
          → (step e s pending w).0 ≡ r
          → HoldsOf
              (λ r v. Serves e w.queue.last_score v × Scored w.queue.last_score r.1)
              (λ _ _. ⊥)
              r
              v
          → (out : ℕ × List QueueEntry) × ((step e s pending w).0 ≡ ok out) × ServiceOk out.1 v
      go (ok out) v same k = (
        out,
        same,
        record {
          queue_ok = k.0.queue_ok;
          pending_ok = subst (λ n. Scored n out.1) (sym k.0.last_ok) k.1;
        },
      )
      go (err x) v same k = absurd k
