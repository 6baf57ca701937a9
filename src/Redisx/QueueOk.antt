-- ===== src/Redisx/QueueOk.antt =====
-- What holds of the queue's state between scripts (internal/redisx/scripts).
pub mod Enqueued
pub mod Popped
pub mod Restored
pub mod Runs
pub mod Given
use native.Mathlib.Nat.{le_trans, le_refl}
use code_duel.Base.{
  ℕ, ◌≤◌, suc, leb, ltb, length, Bytes, bytes_eq, bytes_eq→eq, bytes_eq_refl, Bool, true, false,
  not, ◌&&◌, Option, none, some, List, [], ◌∷◌, ◌≡◌, refl, sym, ◌∙◌, inl, inr, arith, Bool-cases,
  Option-cases, if◌then◌else◌, some_inj, All, take, All-find_row, find_row, subst,
}
use code_duel.Redisx.{QueueState}
use code_duel.Redisx.Scripts.{
  is_entry, score_of, queued, zrem, zscore, zadd, hset, is_value, user_of, unmap, next_score,
  without_old, add_member, replace_member, added_at, kept_at, enqueue_for, enqueue_script,
  dequeue_script, remove_member, scan_entry, scan_entries, holds_member, remove_selected,
  pop_selected, pop_pair_script, restore_over, requeue_entry, valid_entry, is_mapped, is_present,
}
use code_duel.Redisx.SortedSet.{
  ZsetOk, ZsetOk-zrem, ZsetOk-zadd, ZsetOk-weaken, queued-zrem, queued-zadd, queued-zadd_other,
}
use code_duel.World.{Env}

module _ (e : Env) where
  -- The member that a user maps to is that user's, and stands in the sorted set.
  abbrev pub Mapped : (Bytes → Option Bytes) → List (Bytes × ℕ) → Type 0
  Mapped hash entries =
      (user raw : Bytes)
      → hash user ≡ some raw
      → (user_of e raw ≡ some user) × (queued raw entries ≡ true)

  -- The invariant of the queue: scores in order and at most the last score, distinct members, and
  -- for each user the member of the hash.
  pub record QueueOk (q : QueueState) : Type 0 where
    pub ordered_ok : ZsetOk q.last_score q.ordered
    pub mapped_ok : Mapped q.members q.ordered

  -- A user may map to a member that is there.
  pub Mapped-hset :
      (user raw : Bytes) (hash : Bytes → Option Bytes) (entries rest : List (Bytes × ℕ))
      → user_of e raw ≡ some user
      → queued raw rest ≡ true
      → ((u r : Bytes)
          → bytes_eq u user ≡ false
          → hash u ≡ some r
          → queued r entries ≡ true
          → queued r rest ≡ true)
      → Mapped hash entries
      → Mapped (hset user raw hash) rest
  Mapped-hset user raw hash entries rest own there stay h u r maps =
      elim (Bool-cases (bytes_eq u user)) [
        | inl same ↦ new (bytes_eq→eq u user same) (some_inj raw r (rw same at maps))
        | inr other ↦
            let (mine, in_set) = h u r (rw other at maps) in
            (mine, stay u r other (rw other at maps) in_set)
      ]
    where
      new : u ≡ user → raw ≡ r → (user_of e r ≡ some u) × (queued r rest ≡ true)
      new a b = (rw (a, sym b) own, rw (sym b) there)

  pub differ :
      (r s u v : Bytes)
      → user_of e r ≡ some u
      → user_of e s ≡ some v
      → bytes_eq u v ≡ false
      → bytes_eq r s ≡ false
  differ r s u v a b h = elim (Bool-cases (bytes_eq r s)) [
    | inl same ↦ clash (bytes_eq→eq r s same) (bytes_eq_refl u)
    | inr other ↦ other
  ]
    where
      same_user : r ≡ s → some u ≡ some v
      same_user eq = sym a ∙ rw eq b

      clash : r ≡ s → bytes_eq u u ≡ true → bytes_eq r s ≡ false
      clash eq yes_same = let uv : u ≡ v = some_inj u v (same_user eq) in cc
