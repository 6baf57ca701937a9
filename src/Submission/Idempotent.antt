-- ===== src/Submission/Idempotent.antt =====
-- A player may send the same request again: the stored submission answers it.
use code_duel.Base.{
  ℕ, ◌≡◌, refl, ◌≢◌, ◌⊎◌, inl, inr, true, ◌&&◌, sym, subst, if◌then◌else◌, find_row-add,
  find_row-update_some, bytes_eq_refl, none, some, find_row, arith,
}
use code_duel.Db.{Submission, Db, Language, other_language}
use code_duel.World.{
  begin_tx, commit_tx, lock_request, find_request_site, insert_submission, mark_enqueued, done, ok,
  Env, World, actions,
}
use code_duel.World.Ends.{Ends, Ends-ok}
use code_duel.Submission.{
  Request, Service, accept, same_key, same_payload, language_eq, valid, add_submission,
  new_submission, find_request, replay,
}
use code_duel.Submission.Dispatch.{to_stamp, stamp, stamp_enqueued}
use code_duel.Submission.Runs.{accept_ends}

-- The request has an answer among the stored rows.
abbrev Answered : Request → ℕ → Db → Type 0
Answered r id db =
    (s : Submission) × (find_row (same_key r.player_id r.request_id) db.submissions ≡ some s)
    × (same_payload r s ≡ true)
    × (s.id ≡ id)

language_eq_refl : (l : Language) → language_eq l l ≡ true
unfolding language_eq
language_eq_refl (other_language s) = bytes_eq_refl s
language_eq_refl _ = refl

new_submission-payload : (e : Env) (r : Request) → same_payload r (new_submission e r) ≡ true
new_submission-payload e r = ground (arith, language_eq_refl r.language, bytes_eq_refl r.code)

new_submission-key :
    (e : Env) (r : Request) → same_key r.player_id r.request_id (new_submission e r) ≡ true
new_submission-key e r = ground arith

Answered-add :
    (e : Env) (r : Request) (db : Db)
    → find_row (same_key r.player_id r.request_id) db.submissions ≡ none
    → Answered r (e.fresh insert_submission) (add_submission (new_submission e r) db)
unfolding add_submission
Answered-add e r db new = (
  new_submission e r,
  find_row-add _ db.submissions _ new (new_submission-key e r),
  new_submission-payload e r,
  refl,
)

Answered-stamp :
    (r : Request) (id now k : ℕ) (db : Db)
    → Answered r id db
    → Answered r id (stamp_enqueued k now db)
unfolding stamp_enqueued
Answered-stamp r id now k db (s, found, same, is_id) = (
  if to_stamp k s then stamp now s else s,
  find_row-update_some _ (to_stamp k) (stamp now) db.submissions s (λ _. refl) found,
  ground arith,
  ground arith,
)

accept-Answered :
    (e : Env) (service : Service) (r : Request) (w : World)
    → Ends
        (accept e service r)
        w
        (λ id v. (service.has_db && valid r ≡ true) × Answered r id v.durable)
        (λ _ _. Unit {0})
accept-Answered e service r w =
    accept_ends e service r w (λ s good found same v p. (good, (s, rw p found, same, refl)))
      (λ good new _ v how. (good, after v (Answered-add e r w.durable new) how)) (λ _ _ _. tt)
  where
    after :
        (v : World)
        → Answered r (e.fresh insert_submission) (add_submission (new_submission e r) w.durable)
        → (v.durable ≡ add_submission (new_submission e r) w.durable)
          ⊎ (v.durable
              ≡ stamp_enqueued
                  (e.fresh insert_submission)
                  (e.clock (mark_enqueued (e.fresh insert_submission)))
                  (add_submission (new_submission e r) w.durable))
        → Answered r (e.fresh insert_submission) v.durable
    after v a (inl p) = subst (Answered r _) (sym p) a
    after v a (inr p) = subst (Answered r _) (sym p) (Answered-stamp r _ _ _ _ a)

-- The calls of a replay all succeed.
pub record Calm (e : Env) : Type 0 where
  pub begins : e.fault begin_tx ≡ done
  pub locks : e.fault lock_request ≡ done
  pub finds : e.fault find_request_site ≡ done
  pub commits : e.fault commit_tx ≡ done

-- A stored request is answered by the row that is stored, and changes no durable row.
accept-replays :
    (e : Env) (service : Service) (r : Request) (w : World) (id : ℕ)
    → Calm e
    → service.has_db && valid r ≡ true
    → id ≢ 0
    → Answered r id w.durable
    → ((accept e service r w).0 ≡ ok id) × ((accept e service r w).1.durable ≡ w.durable)
unfolding accept find_request replay actions
accept-replays e service r w id c good nonzero (s, found, same, is_id) = ground arith

-- Sending an accepted request once more returns the same submission and stores nothing, where its
-- identifier is not 0 and the calls that answer the second request succeed.
pub accept_retry :
    (e e' : Env) (service : Service) (r : Request) (w : World) (id : ℕ)
    → Calm e'
    → id ≢ 0
    → (accept e service r w).0 ≡ ok id
    → let w' = (accept e service r w).1 in
      ((accept e' service r w').0 ≡ ok id) × ((accept e' service r w').1.durable ≡ w'.durable)
accept_retry e e' service r w id c nonzero h =
    let (good, answer) = Ends-ok _ w id (accept-Answered e service r w) h in
    accept-replays e' service r (accept e service r w).1 id c good nonzero answer
