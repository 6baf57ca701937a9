-- ===== src/World.antt =====
-- What the roles act on, and the actions that they are written in. Every call that leaves the
-- process names its site; the environment says, for each site, how the call ends. So a handler is
-- one function for all the ways in which PostgreSQL and Redis can fail under it.
pub mod Keeps
pub mod Known
pub mod Ends
use code_duel.Base.{
  ℕ, suc, Bytes, Bool, true, false, Option, none, some, List, [], ◌∷◌, ◌++◌, if◌then◌else◌,
}
use code_duel.Db.{Db}
use code_duel.Proto.{Delivery}
use code_duel.Redisx.{Stream, QueueState, QueueMember, LuaMember}

-- The call sites of the handlers. A number tells the rounds of a loop apart.
pub data Site : Type 0 where
  begin_tx commit_tx lock_request find_request_site lock_match lock_submission verify_member : Site
  insert_submission load_players mark_running persist_result claim_winner load_winner : Site
  load_claims reload_claims select_problem insert_match select_rows_site : Site
  acquire_conn try_lock : Site
  read_jobs reclaim_jobs run_pop_pair load_active_match : Site
  lock_user insert_player xadd mark_enqueued finalize_entry publish_to : ℕ → Site
  count_open load_scores load_tests update_match lookup_status : ℕ → Site
  run_enqueue run_dequeue run_requeue publish_start publish_error : ℕ → Site

-- How a call ends: it took effect and said so, it had no effect, or its answer was lost.
pub data Fault : Type 0 where
  done refused unacknowledged : Fault

pub data Error : Type 0 where
  unavailable : Site → Error
  invalid_arguments missing_dependency : Error
  -- submission
  invalid_request match_not_found not_match_player match_not_active deadline_passed : Error
  idempotency_conflict : Error
  -- judge
  missing_verdict invalid_status invalid_tests unsupported_language invalid_source : Error
  invalid_player_set invalid_claim invalid_result unknown_outcome ownership_lost : Error
  invalid_event invalid_limits missing_entry : Error
  -- match
  invalid_player same_player no_problem : Error
  ineligible : List ℕ → List (ℕ × ℕ) → Error
  -- executors
  not_initialized no_image engine_failed cancelled cleanup_failed : Error
  -- redis
  not_pending : Error
  invalid_member missing_encoding invalid_pair duplicate_user user_not_found : Error
  already_active : ℕ → Error
  publish_failed : ℕ → Error

pub data Result {ℓ} (A : Type ℓ) : Type ℓ where
  ok : A → Result A
  err : Error → Result A

-- One JSON test case as encoding/json decodes it: a missing field is nil.
pub record StoredTest : Type 0 where
  pub input : Option Bytes
  pub expected : Option Bytes

-- What a process does not control: how its calls end, the clock, generated identifiers, and the
-- library functions that the code calls (encoding/json, jsonb_array_length, unicode/utf8,
-- google/uuid's parser, printer and SHA-1 identifiers, strings.TrimSpace, and the JSON of a queue
-- member for encoding/json and for Redis' cjson).
pub record Env : Type 0 where
  pub fault : Site → Fault
  pub clock : Site → ℕ
  pub fresh : Site → ℕ
  pub decode_tests : Bytes → Option (List StoredTest)
  pub array_length : Bytes → Option ℕ
  pub utf8_valid : Bytes → Bool
  pub parse_uuid : Bytes → Option ℕ
  pub show_uuid : ℕ → Bytes
  pub sha1_id : Bytes → ℕ
  pub trim_space : Bytes → Bytes
  pub encode_json : QueueMember → Bytes
  pub decode_json : Bytes → Option QueueMember
  pub lua_decode : Bytes → Option LuaMember

-- `durable` is what every transaction starts from, `working` what the open transaction sees.
pub record World : Type 0 where
  pub durable : Db
  pub working : Db
  pub jobs : Stream
  pub queue : QueueState
  pub sent : List Delivery

abbrev pub M : Type 0 → Type 0
M A = World → Result A × World

module _ {A : Type 0} where
  pub pure : A → M A
  pure a w = (ok a, w)

  pub raise : Error → M A
  raise x w = (err x, w)

  pub gets : (World → A) → M A
  gets f w = (ok (f w), w)

module _ {A B : Type 0} where
  abbrev pub continue : Result A → (A → M B) → M B
  continue (ok a) f w = f a w
  continue (err x) f w = (err x, w)

  infixl 10 ◌>>=◌ ◌>>◌
  unfoldable pub ◌>>=◌ : M A → (A → M B) → M B
  unfolding pure raise gets
  ◌>>=◌ m f w = let (r, w') = m w in continue r f w'

  abbrev pub ◌>>◌ : M A → M B → M B
  m >> n = m >>= λ _. n

  -- `if err := m; err != nil { ... }`: the rest decides what the error means.
  unfoldable pub attempt : M A → (Result A → M B) → M B
  attempt m f w = let (r, w') = m w in f r w'

module _ (e : Env) (s : Site) where
  abbrev pub ended : Fault → World → World → Result (Unit {0}) × World
  ended done before after = (ok tt, after)
  ended refused before after = (err (unavailable s), before)
  ended unacknowledged before after = (err (unavailable s), after)

  -- A call with a given effect on the world.
  unfoldable pub call : (World → World) → M (Unit {0})
  call effect w = ended (e.fault s) w (effect w)

  -- A statement that only reads, in or outside a transaction.
  unfoldable pub query : M (Unit {0})
  unfolding call
  query = call (λ w. w)

  -- `pool.Begin`: the transaction starts from what is durable.
  unfoldable pub begin_with : M (Unit {0})
  unfolding call
  begin_with = call (λ w. record w { working = w.durable })

  -- A write inside the open transaction.
  unfoldable pub exec : (Db → Db) → M (Unit {0})
  unfolding call
  exec change = call (λ w. record w { working = change w.working })

  -- `tx.Commit`.
  unfoldable pub commit_with : M (Unit {0})
  unfolding call
  commit_with = call (λ w. record w { durable = w.working })

  -- A write on the pool, which commits by itself.
  unfoldable pub exec_now : (Db → Db) → M (Unit {0})
  unfolding call
  exec_now change = call (λ w. record w { durable = change w.durable })

-- `if !test { return err }`
unfoldable pub guard : Bool → Error → M (Unit {0})
unfolding pure raise
guard true x = pure tt
guard false x = raise x

module _ {A : Type 0} where
  unfoldable pub some_or : Option A → Error → M A
  unfolding pure raise
  some_or none x = raise x
  some_or (some a) x = pure a

-- Opens every action for a proof that runs a handler.
unfoldable pub actions : Unit {0}
unfolding ◌>>=◌ attempt query begin_with exec commit_with exec_now guard some_or
actions = tt
