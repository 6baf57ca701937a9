-- ===== src/Redisx/QueueOk/Enqueued.antt =====
-- scripts/enqueue.lua and scripts/dequeue.lua keep the invariant of the queue.
use native.Mathlib.Nat.{le_refl}
use code_duel.Base.{
  ℕ, ◌≤◌, suc, Bytes, bytes_eq, true, false, Option, none, some, List, ◌≡◌, refl, inl, inr, arith,
  Bool-cases, some_inj, All-find_row, find_row, subst,
}
use code_duel.Redisx.{QueueState}
use code_duel.Redisx.Scripts.{
  is_entry, score_of, queued, zrem, zscore, zadd, user_of, next_score, without_old, add_member,
  replace_member, added_at, kept_at, enqueue_for, enqueue_script,
}
use code_duel.Redisx.SortedSet.{
  ZsetOk, ZsetOk-zrem, ZsetOk-zadd, ZsetOk-weaken, queued-zrem, queued-zadd, queued-zadd_other,
}
use code_duel.World.{Env}
use code_duel.Redisx.QueueOk.{QueueOk, Mapped, Mapped-hset, differ}

module _ (e : Env) where
  -- Nobody else's member is taken away with a user's own.
  others_stay :
      (user old : Bytes) (q : QueueState)
      → Mapped e q.members q.ordered
      → q.members user ≡ some old
      → (u r : Bytes) → bytes_eq u user ≡ false
      → q.members u ≡ some r
      → queued r q.ordered ≡ true
      → queued r (zrem old q.ordered) ≡ true
  others_stay user old q h maps u r other theirs in_set =
      queued-zrem r old q.ordered (differ e r old u user (h u r theirs).0 (h user old maps).0 other)
        in_set

  without_old-stay :
      (user raw : Bytes) (q : QueueState)
      → Mapped e q.members q.ordered
      → (o : Option Bytes) → q.members user ≡ o
      → (u r : Bytes) → bytes_eq u user ≡ false
      → q.members u ≡ some r
      → queued r q.ordered ≡ true
      → queued r (without_old o raw q.ordered) ≡ true
  without_old-stay user raw q h none maps u r other theirs in_set = in_set
  without_old-stay user raw q h (some old) maps u r other theirs in_set =
      elim (Bool-cases (bytes_eq old raw)) [
        | inl same ↦ rw same in_set
        | inr new ↦ rw new (others_stay user old q h maps u r other theirs in_set)
      ]

  ZsetOk-without_old :
      (bound : ℕ) (o : Option Bytes) (raw : Bytes) (xs : List (Bytes × ℕ))
      → ZsetOk bound xs
      → ZsetOk bound (without_old o raw xs)
  ZsetOk-without_old bound none raw xs h = h
  ZsetOk-without_old bound (some old) raw xs h = elim (Bool-cases (bytes_eq old raw)) [
    | inl same ↦ rw same h
    | inr new ↦ rw new (ZsetOk-zrem bound old xs h)
  ]

  add_member-QueueOk :
      (user raw : Bytes) (score : ℕ) (q : QueueState)
      → user_of e raw ≡ some user
      → q.last_score ≤ score
      → QueueOk e q
      → QueueOk e (add_member user raw score q)
  add_member-QueueOk user raw score q own large h = record {
    ordered_ok =
        ZsetOk-zadd score raw score (without_old (q.members user) raw q.ordered) (le_refl score) (
          ZsetOk-without_old score (q.members user) raw q.ordered
            (ZsetOk-weaken q.last_score score q.ordered large h.ordered_ok));
    mapped_ok =
        Mapped-hset e user raw q.members q.ordered
          (zadd raw score (without_old (q.members user) raw q.ordered)) own
          (queued-zadd raw score (without_old (q.members user) raw q.ordered))
          (λ u r other theirs in_set.
            queued-zadd_other r raw score (without_old (q.members user) raw q.ordered) (
              without_old-stay user raw q h.mapped_ok (q.members user) refl u r other theirs
                in_set))
          h.mapped_ok;
  }

  replace_member-QueueOk :
      (user old raw : Bytes) (score : ℕ) (q : QueueState)
      → user_of e raw ≡ some user
      → q.members user ≡ some old
      → score ≤ q.last_score
      → QueueOk e q
      → QueueOk e (replace_member user old raw score q)
  replace_member-QueueOk user old raw score q own maps small h = record {
    ordered_ok =
        ZsetOk-zadd q.last_score raw score (zrem old q.ordered) small
          (ZsetOk-zrem q.last_score old q.ordered h.ordered_ok);
    mapped_ok =
        Mapped-hset e user raw q.members q.ordered (zadd raw score (zrem old q.ordered)) own
          (queued-zadd raw score (zrem old q.ordered))
          (λ u r other theirs in_set.
            queued-zadd_other r raw score (zrem old q.ordered)
              (others_stay user old q h.mapped_ok maps u r other theirs in_set))
          h.mapped_ok;
  }

  pub next_score-later : (now last : ℕ) → suc last ≤ next_score now last
  next_score-later now last = ground arith

  zscore-le :
      (raw : Bytes) (score : ℕ) (q : QueueState)
      → QueueOk e q
      → zscore raw q.ordered ≡ some score
      → score ≤ q.last_score
  zscore-le raw score q h found = go (find_row (is_entry raw) q.ordered) refl found
    where
      go :
          (o : Option (Bytes × ℕ))
          → find_row (is_entry raw) q.ordered ≡ o
          → score_of o ≡ some score
          → score ≤ q.last_score
      go none at_none f = cc
      go (some x) at_x f =
          subst (λ s. s ≤ q.last_score) (some_inj x.1 score f)
            (All-find_row _ (is_entry raw) q.ordered x h.ordered_ok.bounded at_x)

  enqueue_for-QueueOk :
      (user raw : Bytes) (now : ℕ) (o : Option Bytes) (q : QueueState)
      → user_of e raw ≡ some user
      → q.members user ≡ o
      → QueueOk e q
      → QueueOk e (enqueue_for user raw now o q).1
  enqueue_for-QueueOk user raw now none q own maps h =
      add_member-QueueOk user raw (next_score now q.last_score) q own
        (ground (arith, next_score-later now q.last_score)) h
  enqueue_for-QueueOk user raw now (some old) q own maps h = kept (zscore old q.ordered) refl
    where
      kept : (s : Option ℕ) → zscore old q.ordered ≡ s → QueueOk e (kept_at user raw now old s q).1
      kept none at_none = enqueue_for-QueueOk_new
        where
          enqueue_for-QueueOk_new : QueueOk e (added_at user raw now q).1
          enqueue_for-QueueOk_new =
              add_member-QueueOk user raw (next_score now q.last_score) q own
                (ground (arith, next_score-later now q.last_score)) h
      kept (some score) found = elim (Bool-cases (bytes_eq old raw)) [
        | inl same ↦ rw same h
        | inr new ↦
            rw new (
              replace_member-QueueOk user old raw score q own maps (zscore-le old score q h found)
                h)
      ]

  pub enqueue-QueueOk :
      (user raw : Bytes) (now : ℕ) (q : QueueState)
      → user_of e raw ≡ some user
      → QueueOk e q
      → QueueOk e (enqueue_script user raw now q).1
  unfolding enqueue_script
  enqueue-QueueOk user raw now q own h =
      enqueue_for-QueueOk user raw now (q.members user) q own refl h
