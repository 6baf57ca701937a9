-- ===== src/Match/Service/Steps.antt =====
-- A step of the matchmaker keeps the invariant of the tables.
use code_duel.Base.{ℕ, Bytes, Option, none, some, List, [], ◌∷◌, All}
use code_duel.Db.{Db}
use code_duel.Db.Invariant.{DbOk}
use code_duel.Proto.{Envelope}
use code_duel.Redisx.{QueueMember}
use code_duel.Redisx.Keys.{publish}
use code_duel.Redisx.Queue.{
  Queue, QueueEntry, pop_pair, requeue, read_pair, checked_pair, decode_entry, enqueue,
}
use code_duel.Redisx.QueueOk.Runs.{check_entries-Keeps}
use code_duel.Redisx.QueueOk.Given.{BothFit}
use code_duel.Match.Service.{Matchmaker, step}
use code_duel.Match.Service.Frame.{Frame, step-Goes}
use code_duel.Safety.Matching.{create_match-DbOk}
use code_duel.World.{Site, Env}
use code_duel.World.Keeps.{
  Keeps, Keeps-pure, Keeps-raise, Keeps-gets, Keeps-guard, Keeps-call, Keeps-bind, InDurable,
}
use code_duel.World.Ends.{weaken, ends_of_keeps, Keeps-of_ends}

-- The calls of the queue do not touch the tables.
module _ (e : Env) (P : Db → Type 0) where
  requeue-InDurable :
      (queue : Queue) (entries : List QueueEntry) → Keeps (InDurable P) (requeue e queue entries)
  unfolding requeue
  requeue-InDurable queue [] = Keeps-pure tt
  requeue-InDurable queue (x ∷ xs) =
      Keeps-bind _ _ (Keeps-guard _ _)
        (λ _. Keeps-bind _ _ (check_entries-Keeps e (x ∷ xs)) (λ _. Keeps-call e _ _ (λ w h. h)))

  pub enqueue-InDurable :
      (queue : Queue) (m : QueueMember) → Keeps (InDurable P) (enqueue e queue m)
  unfolding enqueue
  enqueue-InDurable queue m = Keeps-bind _ _ (Keeps-guard _ _) (λ _.
      Keeps-bind _ _ (Keeps-guard _ _) (λ _.
        Keeps-bind _ _ (Keeps-gets _)
          (λ reply. Keeps-bind _ _ (Keeps-call e _ _ (λ w h. h)) (λ _. Keeps-pure _))))

  read_pair-InDurable : (reply : List (Bytes × ℕ)) → Keeps (InDurable P) (read_pair e reply)
  unfolding read_pair
  read_pair-InDurable [] = Keeps-pure none
  read_pair-InDurable (x ∷ []) = Keeps-raise _
  read_pair-InDurable (x ∷ y ∷ z ∷ rest) = Keeps-raise _
  read_pair-InDurable (x ∷ y ∷ []) = both (decode_entry e x) (decode_entry e y)
    where
      both : (a b : Option QueueEntry) → Keeps (InDurable P) (checked_pair a b)
      both none b = Keeps-raise _
      both (some a) none = Keeps-raise _
      both (some a) (some b) = Keeps-bind _ _ (Keeps-guard _ _) (λ _. Keeps-pure _)

  pop_pair-InDurable : (queue : Queue) → Keeps (InDurable P) (pop_pair e queue)
  unfolding pop_pair
  pop_pair-InDurable queue = Keeps-bind _ _ (Keeps-guard _ _) (λ _.
      Keeps-bind _ _ (Keeps-gets _)
        (λ reply. Keeps-bind _ _ (Keeps-call e _ _ (λ w h. h)) (λ _. read_pair-InDurable reply)))

pub any_pair : (o : Option (QueueEntry × QueueEntry)) → BothFit (λ _. Unit) o
any_pair none = tt
any_pair (some pair) = (tt, tt)

pub any_entry : (entries : List QueueEntry) → All (λ _. Unit {0}) entries
any_entry [] = tt
any_entry (x ∷ xs) = (tt, any_entry xs)

module _ (max : ℕ) (e : Env) where
  publish-InDurable :
      (s : Site) (channel : Bytes) (payload : Envelope)
      → Keeps (InDurable (DbOk max)) (publish e s channel payload)
  unfolding publish
  publish-InDurable s channel payload = Keeps-call e s _ (λ w h. h)

  abbrev tables_frame : Frame e
  tables_frame = record {
    Holds = InDurable (DbOk max);
    Fits = λ _. Unit;
    requeue_keeps = λ queue entries _. requeue-InDurable e (DbOk max) queue entries;
    pop_ends = λ queue w h.
        weaken _ w (ends_of_keeps _ (pop_pair-InDurable e (DbOk max) queue) w h)
          (λ o v k. (k, any_pair o)) (λ _ _ k. k);
    create_keeps = create_match-DbOk max e;
    publish_keeps = publish-InDurable;
  }

  pub step-DbOk :
      (s : Matchmaker) (pending : List QueueEntry) → Keeps (InDurable (DbOk max)) (step e s pending)
  step-DbOk s pending = Keeps-of_ends _ (λ w h.
      weaken _ w (step-Goes e tables_frame s pending w h (any_entry pending)) (λ _ _ k. k.0)
        (λ _ _ f. absurd f))
