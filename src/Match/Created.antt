-- ===== src/Match/Created.antt =====
-- What a created match rests on, and what a refusal leaves behind.
use code_duel.Base.{
  ℕ, suc, All, ◌==◌, ltb, ◌≡◌, refl, ◌≢◌, ◌∙◌, ◌⊎◌, inl, inr, Bool, true, false, not, ◌||◌,
  Bool-cases, List, [], ◌∷◌, if◌then◌else◌, length, arith, ap, subst,
}
use code_duel.Db.{Db}
use code_duel.Db.Triggers.{Inserted, inserted, claim_taken, no_match}
use code_duel.Redisx.{QueueMember}
use code_duel.Redisx.Member.{valid_member}
use code_duel.World.{Env, World, ok, err, Error, commit_tx, unacknowledged, exec}
use code_duel.World.Ends.{
  Ends, Ends-ok, Ends-err, weaken, bind_ends, end_pure, end_raise, end_call, then_guard, then_begin,
  then_query, then_gets, then_some_or, then_exec, then_commit,
}
use code_duel.Match.Create.{
  CreatedMatch, ordered_ids, is_user, claims_of, lock_users, insert_slot, insert_result,
  report_conflict, open_match, create_match,
}

-- Who may be put into a match together.
pub record Eligible (e : Env) (db : Db) (a b : QueueMember) : Type 0 where
  valid_members : (valid_member e a ≡ true) × (valid_member e b ≡ true)
  distinct_users : a.user_id ≢ b.user_id
  known_users : (is_user db.users a.user_id ≡ true) × (is_user db.users b.user_id ≡ true)
  unclaimed : length (claims_of (ordered_ids a.user_id b.user_id) db) ≡ 0

-- Until the commit nothing durable changes.
module _ (e : Env) where
  abbrev Found : List ℕ → World → List ℕ → Type 0
  Found ids w missing =
      ltb 0 (length missing) ≡ false → All (λ id. is_user w.working.users id ≡ true) ids

  Found-more :
      (id : ℕ) (ids missing : List ℕ) (w : World)
      → Found ids w missing
      → Found (id ∷ ids) w (if is_user w.working.users id then missing else id ∷ missing)
  Found-more id ids missing w rest h = elim (Bool-cases (is_user w.working.users id)) [
    | inl known ↦ (known, rest (rw known at h))
    | inr unknown ↦ absurd (none_missing (length missing) (rw unknown at h))
  ]
    where
      none_missing : (n : ℕ) → ltb 0 (suc n) ≢ false
      none_missing n h = ground arith

  users_ends :
      (ids : List ℕ) (w : World)
      → Ends (lock_users e ids) w (λ missing v. (v ≡ w) × Found ids w missing) (λ _ v. v ≡ w)
  unfolding lock_users
  users_ends [] w = end_pure _ _ (refl, λ _. tt)
  users_ends (id ∷ ids) w =
      then_query e _ _ w
        (λ _. then_gets _ _ w (
          bind_ends _ _ w (
            weaken _ w (users_ends ids w)
              (λ missing v k. end_pure _ _ (k.0, Found-more id ids missing w k.1))
              (λ _ v same. same))))
        (λ _. refl)

  slot_ends :
      (ids : List ℕ) (match user slot : ℕ) (w : World)
      → Ends
          (insert_slot e ids match user slot)
          w
          (λ _ v. v.durable ≡ w.durable)
          (λ _ v. v.durable ≡ w.durable)
  unfolding insert_slot insert_result report_conflict exec
  slot_ends ids match user slot w = then_gets _ _ w (result _)
    where
      result :
          (r : Inserted)
          → Ends
              (insert_result e ids slot r)
              w
              (λ _ v. v.durable ≡ w.durable)
              (λ _ v. v.durable ≡ w.durable)
      result (inserted db) = end_call e _ _ w (λ _. refl) (λ _. refl) (λ _. refl)
      result claim_taken =
          then_query e _ _ w
            (λ _.
              then_query e _ _ w
                (λ _. then_gets _ _ w (then_guard _ _ _ w (λ _. end_raise _ _ refl) (λ _. refl)))
                (λ _. refl))
            (λ _. refl)
      result no_match = end_raise _ _ refl

  open_ends :
      (milliseconds : ℕ) (a b : QueueMember) (w : World)
      → Ends
          (open_match e milliseconds a b)
          w
          (λ _ _. Unit {0})
          (λ _ v. (v.durable ≡ w.durable) ⊎ (e.fault commit_tx ≡ unacknowledged))
  unfolding open_match
  open_ends milliseconds a b w =
      then_query e _ _ w
        (λ _. then_gets _ _ w (
          then_some_or _ _ _ w
            (λ problem _. then_gets _ _ w (
              then_guard _ _ _ w
                (λ _.
                  then_exec e _ _ _ w
                    (λ _. bind_ends _ _ _ (
                      weaken _ _ (slot_ends _ _ _ 1 _)
                        (λ _ u p. bind_ends _ _ u (
                          weaken _ u (slot_ends _ _ _ 2 u)
                            (λ _ v q.
                              then_commit e _ _ v (λ _. end_pure _ _ tt) (λ _. inl (q ∙ p))
                                (λ lost. inr lost))
                            (λ _ v q. inl (q ∙ p))))
                        (λ _ u p. inl p)))
                    (λ _ v same. inl same.0))
                (λ _. inl refl)))
            (λ _. inl refl)))
        (λ _. inl refl)

  both_known :
      (a b : ℕ) (users : List ℕ)
      → All (λ id. is_user users id ≡ true) (ordered_ids a b)
      → (is_user users a ≡ true) × (is_user users b ≡ true)
  both_known a b users h = elim (Bool-cases (ltb b a)) [
    | inl swapped ↦ ((rw swapped at h).1.0, (rw swapped at h).0)
    | inr kept ↦ ((rw kept at h).0, (rw kept at h).1.0)
  ]

  create_ends :
      (has_db : Bool) (milliseconds : ℕ) (a b : QueueMember) (w : World)
      → Ends
          (create_match e has_db milliseconds a b)
          w
          (λ _ _. Eligible e w.durable a b)
          (λ _ v. (v.durable ≡ w.durable) ⊎ (e.fault commit_tx ≡ unacknowledged))
  unfolding create_match
  create_ends has_db milliseconds a b w =
      then_guard _ _ _ w
        (λ _.
          then_guard _ _ _ w
            (λ va.
              then_guard _ _ _ w
                (λ vb.
                  then_guard _ _ _ w
                    (λ apart.
                      then_guard _ _ _ w
                        (λ _.
                          then_begin e _ _ w
                            (λ _. bind_ends _ _ _ (
                              weaken _ _ (users_ends _ _)
                                (λ missing v k.
                                  then_query e _ _ v
                                    (λ _. then_gets _ _ v (
                                      then_guard _ _ _ v
                                        (λ fine.
                                          weaken _ v (open_ends milliseconds a b v)
                                            (λ _ _ _. eligible va vb apart missing v k.0 k.1 fine)
                                            (λ _ u why.
                                              settled u v (ap (λ (u : World). u.durable) k.0) why))
                                        (λ _. inl (ap (λ (u : World). u.durable) k.0))))
                                    (λ _. inl (ap (λ (u : World). u.durable) k.0)))
                                (λ _ v same. inl (ap (λ (u : World). u.durable) same))))
                            (λ _ v same. inl same.0))
                        (λ _. inl refl))
                    (λ _. inl refl))
                (λ _. inl refl))
            (λ _. inl refl))
        (λ _. inl refl)
    where
      settled :
          (u v : World)
          → v.durable ≡ w.durable
          → (u.durable ≡ v.durable) ⊎ (e.fault commit_tx ≡ unacknowledged)
          → (u.durable ≡ w.durable) ⊎ (e.fault commit_tx ≡ unacknowledged)
      settled u v p (inl q) = inl (q ∙ p)
      settled u v p (inr lost) = inr lost

      differ : (i k : ℕ) → not (i == k) ≡ true → i ≢ k
      differ i k h same = ground arith

      or_left : (i k : Bool) → not (i || k) ≡ true → i ≡ false
      or_left i k h = ground arith

      or_right : (i k : Bool) → not (i || k) ≡ true → k ≡ false
      or_right i k h = ground arith

      none_left : (n : ℕ) → ltb 0 n ≡ false → n ≡ 0
      none_left n h = ground arith

      eligible :
          valid_member e a ≡ true
          → valid_member e b ≡ true
          → not (a.user_id == b.user_id) ≡ true
          → (missing : List ℕ) (v : World) → v ≡ record w { working = w.durable }
          → Found (ordered_ids a.user_id b.user_id) (record w { working = w.durable }) missing
          → not (
              ltb 0 (length missing)
              || ltb 0 (length (claims_of (ordered_ids a.user_id b.user_id) v.working)))
            ≡ true
          → Eligible e w.durable a b
      eligible va vb apart missing v start found fine = record {
        valid_members = (va, vb);
        distinct_users = differ a.user_id b.user_id apart;
        known_users = both_known a.user_id b.user_id w.durable.users (
            found (
              or_left (ltb 0 (length missing))
                (ltb 0 (length (claims_of (ordered_ids a.user_id b.user_id) v.working))) fine));
        unclaimed =
            subst (λ db. length (claims_of (ordered_ids a.user_id b.user_id) db) ≡ 0)
              (ap (λ (u : World). u.working) start)
              (none_left (length (claims_of (ordered_ids a.user_id b.user_id) v.working)) (
                or_right (ltb 0 (length missing))
                  (ltb 0 (length (claims_of (ordered_ids a.user_id b.user_id) v.working))) fine));
      }

-- A match is created only for two valid and distinct members who exist and of whom nobody has a
-- claim in an active match.
pub create_match-Eligible :
    (e : Env) (has_db : Bool) (milliseconds : ℕ) (a b : QueueMember) (w : World) (m : CreatedMatch)
    → (create_match e has_db milliseconds a b w).0 ≡ ok m
    → Eligible e w.durable a b
create_match-Eligible e has_db milliseconds a b w m h =
    Ends-ok (create_match e has_db milliseconds a b) w m (create_ends e has_db milliseconds a b w) h

-- A match that could not be created changes no durable row, unless the answer to its commit was
-- lost.
pub create_failed :
    (e : Env) (has_db : Bool) (milliseconds : ℕ) (a b : QueueMember) (w : World) (x : Error)
    → e.fault commit_tx ≢ unacknowledged
    → (create_match e has_db milliseconds a b w).0 ≡ err x
    → (create_match e has_db milliseconds a b w).1.durable ≡ w.durable
create_failed e has_db milliseconds a b w x acknowledged h = unchanged (
    Ends-err (create_match e has_db milliseconds a b) w x (create_ends e has_db milliseconds a b w)
      h)
  where
    unchanged :
        ((create_match e has_db milliseconds a b w).1.durable ≡ w.durable)
          ⊎ (e.fault commit_tx ≡ unacknowledged)
        → (create_match e has_db milliseconds a b w).1.durable ≡ w.durable
    unchanged (inl same) = same
    unchanged (inr lost) = absurd (acknowledged lost)
