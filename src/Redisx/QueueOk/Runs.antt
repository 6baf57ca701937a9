-- ===== src/Redisx/QueueOk/Runs.antt =====
-- The calls of internal/redisx/queue.go keep the invariant of the queue, however they end.
use code_duel.Base.{
  ℕ, ◌≤◌, Bytes, bytes_eq, not, ◌&&◌, Option, none, some, List, [], ◌∷◌, ◌≡◌, refl, ◌∙◌, inl, inr,
  Bool-cases, All,
}
use code_duel.Redisx.{QueueState, QueueMember}
use code_duel.Redisx.Scripts.{
  user_of, is_value, queued, is_present, restore_over, requeue_entry, dequeue_script,
}
use code_duel.Redisx.Queue.{
  Queue, QueueEntry, on_queue, enqueue, dequeue, check_entries, requeue_script, requeue,
}
use code_duel.Redisx.QueueOk.{QueueOk}
use code_duel.Redisx.QueueOk.Enqueued.{enqueue-QueueOk}
use code_duel.Redisx.QueueOk.Restored.{dequeue-QueueOk, requeue-QueueOk}
use code_duel.World.{Env, World}
use code_duel.World.Keeps.{Keeps, Keeps-pure, Keeps-gets, Keeps-guard, Keeps-call, Keeps-bind}

-- The queue satisfies the invariant and has given out scores up to `last`.
pub record QueueAt (e : Env) (last : ℕ) (q : QueueState) : Type 0 where
  pub queue_ok : QueueOk e q
  pub last_ok : q.last_score ≡ last

abbrev pub Serves : Env → ℕ → World → Type 0
Serves e last w = QueueAt e last w.queue

abbrev pub Scored : ℕ → List QueueEntry → Type 0
Scored last entries = All (λ x. x.score ≤ last) entries

module _ (e : Env) where
  requeue_entry-last :
      (user raw : Bytes) (score : ℕ) (q : QueueState)
      → (requeue_entry e user raw score q).last_score ≡ q.last_score
  unfolding requeue_entry
  requeue_entry-last user raw score q =
      elim (Bool-cases (is_value user (user_of e raw) && is_present e raw q)) [
        | inr stale ↦ rw stale refl
        | inl fits ↦ rw fits (over (q.members user))
      ]
    where
      over : (o : Option Bytes) → (restore_over o user raw score q).last_score ≡ q.last_score
      over none = refl
      over (some old) = elim (Bool-cases (bytes_eq old raw && not (queued raw q.ordered))) [
        | inl free ↦ rw free refl
        | inr taken ↦ rw taken refl
      ]

  requeue_script-QueueOk :
      (last : ℕ) (entries : List QueueEntry) (q : QueueState)
      → Scored last entries
      → QueueOk e q
      → q.last_score ≡ last
      → QueueOk e (requeue_script e entries q) × ((requeue_script e entries q).last_score ≡ last)
  unfolding requeue_script
  requeue_script-QueueOk last [] q small h at_last = (h, at_last)
  requeue_script-QueueOk last (x ∷ xs) q small h at_last =
      requeue_script-QueueOk last xs
        (requeue_entry e (e.show_uuid x.member.user_id) x.encoded x.score q) small.1
        (requeue-QueueOk e (e.show_uuid x.member.user_id) x.encoded x.score q (rw at_last small.0)
          h)
        (requeue_entry-last (e.show_uuid x.member.user_id) x.encoded x.score q ∙ at_last)

  pub check_entries-Keeps :
      {P : World → Type 0} (entries : List QueueEntry) → Keeps P (check_entries e entries)
  unfolding check_entries
  check_entries-Keeps [] = Keeps-pure tt
  check_entries-Keeps (x ∷ xs) =
      Keeps-bind _ _ (Keeps-guard _ _)
        (λ _. Keeps-bind _ _ (Keeps-guard _ _) (λ _. check_entries-Keeps xs))

  pub requeue-QueueAt :
      (last : ℕ) (queue : Queue) (entries : List QueueEntry)
      → Scored last entries
      → Keeps (Serves e last) (requeue e queue entries)
  unfolding requeue
  requeue-QueueAt last queue [] small = Keeps-pure tt
  requeue-QueueAt last queue (x ∷ xs) small = Keeps-bind _ _ (Keeps-guard _ _) (λ _.
      Keeps-bind _ _ (check_entries-Keeps (x ∷ xs)) (λ _. Keeps-call e _ _ (λ w h. restored w h)))
    where
      restored :
          (w : World) → Serves e last w → Serves e last (on_queue (requeue_script e (x ∷ xs)) w)
      restored w h =
          let (ok, same) =
            requeue_script-QueueOk last (x ∷ xs) w.queue small h.queue_ok h.last_ok in
          record { queue_ok = ok; last_ok = same }

  pub dequeue-QueueAt :
      (last : ℕ) (queue : Queue) (m : QueueMember) → Keeps (Serves e last) (dequeue e queue m)
  unfolding dequeue dequeue_script
  dequeue-QueueAt last queue m = Keeps-bind _ _ (Keeps-guard _ _) (λ _.
      Keeps-bind _ _ (Keeps-guard _ _) (λ _. Keeps-bind _ _ (Keeps-gets _) (λ removed.
        Keeps-bind _ _
          (Keeps-call e _ _ (λ w h. record {
            queue_ok = dequeue-QueueOk e _ _ w.queue h.queue_ok;
            last_ok = last_same (e.show_uuid m.user_id) (e.encode_json m) w.queue ∙ h.last_ok;
          }))
          (λ _. Keeps-pure removed))))
    where
      last_same :
          (user raw : Bytes) (q : QueueState)
          → (dequeue_script user raw q).1.last_score ≡ q.last_score
      last_same user raw q = elim (Bool-cases (is_value raw (q.members user))) [
        | inl held ↦ rw held refl
        | inr free ↦ rw free refl
      ]

  -- Its identifier is what the JSON of a member says.
  pub enqueue-QueueOk_kept :
      (queue : Queue) (m : QueueMember)
      → user_of e (e.encode_json m) ≡ some (e.show_uuid m.user_id)
      → Keeps (λ w. QueueOk e w.queue) (enqueue e queue m)
  unfolding enqueue
  enqueue-QueueOk_kept queue m own = Keeps-bind _ _ (Keeps-guard _ _) (λ _.
      Keeps-bind _ _ (Keeps-guard _ _) (λ _. Keeps-bind _ _ (Keeps-gets _) (λ reply.
        Keeps-bind _ _ (Keeps-call e _ _ (λ w h. enqueue-QueueOk e _ _ _ w.queue own h))
          (λ _. Keeps-pure _))))
