-- ===== src/Redisx/QueueOk/Restored.antt =====
-- scripts/requeue.lua keeps the invariant of the queue.
use code_duel.Base.{
  ℕ, ◌≤◌, Bytes, bytes_eq, bytes_eq→eq, true, false, not, ◌&&◌, Option, none, some, ◌≡◌, refl, inl,
  inr, Bool-cases,
}
use code_duel.Redisx.{QueueState}
use code_duel.Redisx.Scripts.{
  queued, zrem, zadd, hdel, is_value, user_of, dequeue_script, restore_over, requeue_entry,
  is_present,
}
use code_duel.Redisx.SortedSet.{
  ZsetOk-zrem, ZsetOk-zadd, queued-zrem, queued-zadd, queued-zadd_other,
}
use code_duel.World.{Env}
use code_duel.Redisx.QueueOk.{QueueOk, Mapped-hset, differ}

module _ (e : Env) where
  is_value-some : (raw : Bytes) (o : Option Bytes) → is_value raw o ≡ true → o ≡ some raw
  is_value-some raw none h = cc
  is_value-some raw (some r) h = rw (bytes_eq→eq r raw h) refl

  hdel-some :
      (user : Bytes) (hash : Bytes → Option Bytes) (u r : Bytes)
      → hdel user hash u ≡ some r
      → (bytes_eq u user ≡ false) × (hash u ≡ some r)
  hdel-some user hash u r h = elim (Bool-cases (bytes_eq u user)) [
    | inl same ↦ gone (rw same at h)
    | inr other ↦ (other, rw other at h)
  ]
    where
      gone : none ≡ some r → (bytes_eq u user ≡ false) × (hash u ≡ some r)
      gone eq = cc

  pub dequeue-QueueOk :
      (user raw : Bytes) (q : QueueState) → QueueOk e q → QueueOk e (dequeue_script user raw q).1
  unfolding dequeue_script
  dequeue-QueueOk user raw q h = elim (Bool-cases (is_value raw (q.members user))) [
    | inr free ↦ rw free h
    | inl held ↦ rw held (taken (is_value-some raw (q.members user) held))
  ]
    where
      taken :
          q.members user ≡ some raw
          → QueueOk e (record q { ordered = zrem raw q.ordered; members = hdel user q.members })
      taken maps = record {
        ordered_ok = ZsetOk-zrem q.last_score raw q.ordered h.ordered_ok;
        mapped_ok = λ u r left.
            (let (other, theirs) = hdel-some user q.members u r left in
              let own : user_of e r ≡ some u = (h.mapped_ok u r theirs).0 in
              (
                own,
                queued-zrem r raw q.ordered
                    (differ e r raw u user own (h.mapped_ok user raw maps).0 other)
                    (h.mapped_ok u r theirs).1,
              ));
      }

  restore_over-QueueOk :
      (o : Option Bytes) (user raw : Bytes) (score : ℕ) (q : QueueState)
      → user_of e raw ≡ some user
      → score ≤ q.last_score
      → QueueOk e q
      → QueueOk e (restore_over o user raw score q)
  restore_over-QueueOk none user raw score q own small h = record {
    ordered_ok = ZsetOk-zadd q.last_score raw score q.ordered small h.ordered_ok;
    mapped_ok =
        Mapped-hset e user raw q.members q.ordered (zadd raw score q.ordered) own
          (queued-zadd raw score q.ordered)
          (λ u r other theirs in_set. queued-zadd_other r raw score q.ordered in_set) h.mapped_ok;
  }
  restore_over-QueueOk (some old) user raw score q own small h =
      elim (Bool-cases (bytes_eq old raw && not (queued raw q.ordered))) [
        | inr taken ↦ rw taken h
        | inl free ↦ rw free (record {
          ordered_ok = ZsetOk-zadd q.last_score raw score q.ordered small h.ordered_ok;
          mapped_ok = λ u r theirs. (
            (h.mapped_ok u r theirs).0,
            queued-zadd_other r raw score q.ordered (h.mapped_ok u r theirs).1,
          );
        })
      ]

  pub requeue-QueueOk :
      (user raw : Bytes) (score : ℕ) (q : QueueState)
      → score ≤ q.last_score
      → QueueOk e q
      → QueueOk e (requeue_entry e user raw score q)
  unfolding requeue_entry
  requeue-QueueOk user raw score q small h = elim (Bool-cases (is_value user (user_of e raw))) [
    | inr other ↦ rw other h
    | inl own ↦ elim (Bool-cases (is_present e raw q)) [
      | inr gone ↦ rw (own, gone) h
      | inl here ↦
          rw (own, here)
            (restore_over-QueueOk (q.members user) user raw score q
              (is_value-some user (user_of e raw) own) small h)
    ]
  ]
