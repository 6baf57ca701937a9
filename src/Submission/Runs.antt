-- ===== src/Submission/Runs.antt =====
-- How the parts of `Accept` end, one rule for each part.
use code_duel.Base.{
  ℕ, ◌==◌, ltb, ◌≡◌, refl, ◌≢◌, ◌⊎◌, inl, inr, Bool, true, false, not, ◌&&◌, Option, none, some,
  find_row, exists_row, Bool-cases, sym, subst, arith,
}
use code_duel.Db.{Match, Submission, Db, is_active}
use code_duel.World.{
  commit_tx, find_request_site, lock_match, insert_submission, mark_enqueued, done, unacknowledged,
  Error, unavailable, Env, World, M, ◌>>=◌,
}
use code_duel.World.Ends.{
  Ends, weaken, if_ends, then_begin, end_pure, then_guard, then_query, then_exec, then_commit,
  then_gets, then_some_or, bind_ends, attempt_ends,
}
use code_duel.Submission.Dispatch.{Dispatcher, stamp_enqueued}
use code_duel.Submission.Dispatch.Runs.{Stamped, dispatch_ends}
use code_duel.Submission.{
  Request, Service, accept, admit, replay, admit_and_dispatch, dispatch_now, find_request, same_key,
  same_payload, found_id, is_member, valid, add_submission, new_submission,
}

module _ {B : Type 0} {Q : B → World → Type 0} {R : Error → World → Type 0} (e : Env) where
  pub then_find_request :
      (r : Request) (k : ℕ × Bool → M B) (w : World)
      → (e.fault find_request_site ≡ done
          → Ends
              (k (found_id r (find_row (same_key r.player_id r.request_id) w.working.submissions)))
              w
              Q
              R)
      → (e.fault find_request_site ≢ done → R (unavailable find_request_site) w)
      → Ends (find_request e r >>= k) w Q R
  unfolding find_request
  then_find_request r k w q f =
      bind_ends _ k w (then_query e _ _ w (λ p. then_gets _ _ w (end_pure _ w (q p))) f)

-- What the checks of `admit` have established where it inserts.
pub record Open (e : Env) (r : Request) (db : Db) : Type 0 where
  pub match : Match
  pub stored : find_row (λ m. m.id == r.match_id) db.matches ≡ some match
  pub active_status : is_active match.status ≡ true
  pub in_time : ltb (e.clock lock_match) match.deadline ≡ true
  pub member : is_member db.match_players r.match_id r.player_id ≡ true
  pub free : exists_row (λ s. s.id == (new_submission e r).id) db.submissions ≡ false

-- A commit took effect and its answer was lost.
pub record Lost (e : Env) (r : Request) (db after : Db) : Type 0 where
  pub untold : e.fault commit_tx ≡ unacknowledged
  pub opened : Open e r db
  pub stored_row : after ≡ add_submission (new_submission e r) db

module _ {Q : ℕ → World → Type 0} {R : Error → World → Type 0} (e : Env) where
  -- `admit` inserts one row and commits it, or leaves what is durable as it was.
  pub admit_ends :
      (r : Request) (w : World)
      → (Open e r w.working
          → (v : World) → v.durable ≡ add_submission (new_submission e r) w.working
          → Q (e.fresh insert_submission) v)
      → ((x : Error) (v : World) → (v.durable ≡ w.durable) ⊎ Lost e r w.working v.durable → R x v)
      → Ends (admit e r) w Q R
  unfolding admit
  admit_ends r w q f =
      then_query e _ _ w
        (λ _. then_gets _ _ w (
          then_some_or _ _ _ w
            (λ m stored.
              then_query e _ _ w
                (λ _. then_gets _ _ w (
                  then_guard _ _ _ w
                    (λ member.
                      then_guard _ _ _ w
                        (λ act.
                          then_guard _ _ _ w
                            (λ in_time. then_gets _ _ w (
                              then_guard _ _ _ w
                                (λ free.
                                  then_exec e _ _ _ w
                                    (λ _.
                                      then_commit e _ _ _
                                        (λ _.
                                          end_pure _ _
                                            (q (opened m stored member act in_time free) _ refl))
                                        (λ _. f _ _ (inl refl))
                                        (λ p. f _ _ (
                                          inr (record {
                                            untold = p;
                                            opened = opened m stored member act in_time free;
                                            stored_row = refl;
                                          }))))
                                    (λ _ v same. f _ v (inl same.0)))
                                (λ _. f _ w (inl refl))))
                            (λ _. f _ w (inl refl)))
                        (λ _. f _ w (inl refl)))
                    (λ _. f _ w (inl refl))))
                (λ _. f _ w (inl refl)))
            (λ _. f _ w (inl refl))))
        (λ _. f _ w (inl refl))
    where
      opened :
          (m : Match)
          → find_row (λ k. k.id == r.match_id) w.working.matches ≡ some m
          → is_member w.working.match_players r.match_id r.player_id ≡ true
          → is_active m.status ≡ true
          → ltb (e.clock lock_match) m.deadline ≡ true
          → not (exists_row (λ s. s.id == e.fresh insert_submission) w.working.submissions) ≡ true
          → Open e r w.working
      opened m stored member act in_time free = record {
        match = m;
        stored = stored;
        active_status = act;
        in_time = in_time;
        member = member;
        free = ground arith;
      }

  pub dispatch_now_ends :
      (d : Option Dispatcher) (id : ℕ) (w : World)
      → ((v : World) → Stamped e id w v → Q id v)
      → Ends (dispatch_now e d id) w Q R
  unfolding dispatch_now
  dispatch_now_ends none id w q = end_pure _ w (q w (inl refl))
  dispatch_now_ends (some d) id w q = attempt_ends _ _ w (
      weaken _ w (dispatch_ends e d id w) (λ _ v s. end_pure _ v (q v s))
        (λ _ v s. end_pure _ v (q v s)))

replayed_row :
    (r : Request) (o : Option Submission)
    → (found_id r o).1 ≡ true
    → not ((found_id r o).0 == 0) ≡ true
    → (s : Submission) × (o ≡ some s) × (same_payload r s ≡ true) × ((found_id r o).0 ≡ s.id)
replayed_row r none hit same = cc
replayed_row r (some s) hit same = elim (Bool-cases (same_payload r s)) [
  | inl p ↦ (s, refl, p, rw p)
  | inr p ↦ cc (rw p at same)
]

new_row : (r : Request) (o : Option Submission) → (found_id r o).1 ≡ false → o ≡ none
new_row r none miss = refl
new_row r (some s) miss = elim (Bool-cases (same_payload r s)) [
  | inl p ↦ cc (rw p at miss)
  | inr p ↦ cc (rw p at miss)
]

dispatched_row :
    (e : Env) (id : ℕ) (db : Db) (v v' : World)
    → v.durable ≡ db
    → Stamped e id v v'
    → (v'.durable ≡ db) ⊎ (v'.durable ≡ stamp_enqueued id (e.clock (mark_enqueued id)) db)
dispatched_row e id db v v' p (inl q) = inl (rw p at q)
dispatched_row e id db v v' p (inr q) = inr (rw p at q)

abbrev in_tx : World → World
in_tx w = record w { working = w.durable }

module _ {Q : ℕ → World → Type 0} {R : Error → World → Type 0} (e : Env) where
  -- `Accept` replays a stored request, admits a new one, or fails and leaves what is durable as it
  -- was (unless the answer to its commit was lost).
  pub accept_ends :
      (service : Service) (r : Request) (w : World)
      → ((s : Submission)
          → service.has_db && valid r ≡ true
          → find_row (same_key r.player_id r.request_id) w.durable.submissions ≡ some s
          → same_payload r s ≡ true
          → (v : World) → v.durable ≡ w.durable
          → Q s.id v)
      → (service.has_db && valid r ≡ true
          → find_row (same_key r.player_id r.request_id) w.durable.submissions ≡ none
          → Open e r w.durable
          → (v : World)
          → (v.durable ≡ add_submission (new_submission e r) w.durable)
            ⊎ (v.durable
                ≡ stamp_enqueued
                    (e.fresh insert_submission)
                    (e.clock (mark_enqueued (e.fresh insert_submission)))
                    (add_submission (new_submission e r) w.durable))
          → Q (e.fresh insert_submission) v)
      → ((x : Error) (v : World) → (v.durable ≡ w.durable) ⊎ Lost e r w.durable v.durable → R x v)
      → Ends (accept e service r) w Q R
  unfolding accept admit_and_dispatch replay
  accept_ends service r w known new f =
      then_guard _ _ _ w
        (λ good.
          then_begin e _ _ w
            (λ _.
              then_query e _ _ _
                (λ _.
                  then_find_request e r _ _
                    (λ _.
                      if_ends _ _ _ _
                        (λ hit.
                          then_guard _ _ _ _
                            (λ same.
                              then_commit e _ _ _
                                (λ _. end_pure _ _ (
                                  let (s, p, same', id) = replayed_row r _ hit same in
                                  subst (λ i. Q i (in_tx w)) (sym id)
                                    (known s good p same' (in_tx w) refl)))
                                (λ _. f _ _ (inl refl)) (λ _. f _ _ (inl refl)))
                            (λ _. f _ _ (inl refl)))
                        (λ miss. bind_ends _ _ _ (
                          admit_ends e r _
                            (λ opened v isv. dispatch_now_ends e service.dispatcher _ v (λ v' st.
                              new good (new_row r _ miss) opened v'
                                (dispatched_row e _ _ v v' isv st)))
                            (λ x v h. f x v h))))
                    (λ _. f _ _ (inl refl)))
                (λ _. f _ _ (inl refl)))
            (λ _ v same. f _ v (inl same.0)))
        (λ _. f _ w (inl refl))
