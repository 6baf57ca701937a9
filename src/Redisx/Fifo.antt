-- ===== src/Redisx/Fifo.antt =====
-- The order of the queue: scripts/enqueue.lua puts new users last and leaves the others in place.
use code_duel.Base.{
  ℕ, ◌<◌, Bytes, bytes_eq, bytes_eq→eq, bytes_eq_refl, true, false, none, some, List, [], ◌∷◌, ◌++◌,
  ◌≡◌, refl, inl, inr, arith, Bool-cases, find_row, insert_by,
}
use code_duel.Redisx.{QueueState}
use code_duel.Redisx.Scripts.{
  is_entry, queued, zrem, zscore, zadd, entry_before, next_score, without_old, enqueue_script,
}
use code_duel.Redisx.SortedSet.{zadd-append, zrem-gone}
use code_duel.Redisx.QueueOk.{QueueOk}
use code_duel.Redisx.QueueOk.Enqueued.{next_score-later}
use code_duel.World.{Env}
use code_duel.Base.{All}

-- A user who is not in the queue is added behind all others, with a score above all others: the
-- queue satisfies the invariant QueueOk, the user maps to no member, and the member is not in the
-- sorted set.
pub enqueue_appends :
    (e : Env) (user raw : Bytes) (now : ℕ) (q : QueueState)
    → QueueOk e q
    → q.members user ≡ none
    → queued raw q.ordered ≡ false
    → ((enqueue_script user raw now q).0.0 ≡ true)
      × (q.last_score < (enqueue_script user raw now q).0.1)
      × ((enqueue_script user raw now q).1.ordered
          ≡ q.ordered ++ (raw, (enqueue_script user raw now q).0.1) ∷ [])
unfolding enqueue_script
enqueue_appends e user raw now q h free new = rw free (refl, later, placed)
  where
    later : q.last_score < next_score now q.last_score
    later = ground (arith, next_score-later e now q.last_score)

    placed :
        zadd raw (next_score now q.last_score) (without_old (q.members user) raw q.ordered)
        ≡ q.ordered ++ (raw, next_score now q.last_score) ∷ []
    placed = rw free (
        zadd-append raw (next_score now q.last_score) q.last_score q.ordered h.ordered_ok later new)

find_row-insert_by :
    (raw : Bytes) (score : ℕ) (ys : List (Bytes × ℕ))
    → All (λ y. is_entry raw y ≡ false) ys
    → find_row (is_entry raw) (insert_by entry_before (raw, score) ys) ≡ some (raw, score)
find_row-insert_by raw score [] h = rw (bytes_eq_refl raw) refl
find_row-insert_by raw score (y ∷ ys) h = elim (Bool-cases (entry_before y (raw, score))) [
  | inl first ↦ rw (first, h.0) (find_row-insert_by raw score ys h.1)
  | inr later ↦ rw (later, bytes_eq_refl raw) refl
]

zscore-zadd :
    (raw : Bytes) (score : ℕ) (xs : List (Bytes × ℕ)) → zscore raw (zadd raw score xs) ≡ some score
zscore-zadd raw score xs = rw (find_row-insert_by raw score (zrem raw xs) (zrem-gone raw xs)) refl

-- A user whose member is in the sorted set keeps its score when it connects again: the new member
-- takes the place of the old one, and the user maps to it.
pub enqueue_again :
    (user raw old : Bytes) (now score : ℕ) (q : QueueState)
    → q.members user ≡ some old
    → zscore old q.ordered ≡ some score
    → ((enqueue_script user raw now q).0 ≡ (false, score))
      × (zscore raw (enqueue_script user raw now q).1.ordered ≡ some score)
      × ((enqueue_script user raw now q).1.members user ≡ some raw)
      × ((enqueue_script user raw now q).1.last_score ≡ q.last_score)
unfolding enqueue_script
enqueue_again user raw old now score q maps placed =
    rw (maps, placed)
      (elim (Bool-cases (bytes_eq old raw)) [
        | inl same ↦ rw same (
          refl,
          rw (bytes_eq→eq old raw same) at placed,
          rw (bytes_eq→eq old raw same) at maps,
          refl,
        )
        | inr new ↦
            rw new
              (refl, zscore-zadd raw score (zrem old q.ordered), rw (bytes_eq_refl user) refl, refl)
      ])
