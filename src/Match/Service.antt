-- ===== src/Match/Service.antt =====
-- internal/match/service.go: the loop of the matchmaker. The entries that could not be returned to
-- the queue, `pending`, are passed from step to step; which context a call runs under has no effect
-- on the state.
pub mod Steps
pub mod Kept
pub mod Apart
pub mod Frame
pub mod Sound
use code_duel.Base.{
  ℕ, ◌==◌, Bytes, codes, Bool, true, false, ◌||◌, Option, none, some, List, [], ◌∷◌, ◌++◌,
  if◌then◌else◌,
}
use code_duel.Proto.{Envelope, match_start, error}
use code_duel.Redisx.Keys.{publish}
use code_duel.Redisx.Queue.{Queue, QueueEntry, pop_pair, requeue}
use code_duel.Match.Create.{CreatedMatch, create_match, is_user}
use code_duel.World.{
  publish_start, publish_error, Error, ineligible, Result, ok, err, Env, World, M, pure, ◌>>=◌,
  ◌>>◌, attempt,
}

abbrev pub default_poll_interval : ℕ
default_poll_interval = 250

abbrev pub default_retry_interval : ℕ
default_retry_interval = 500

-- `service`, with what `create` closes over: the pool and the duration of a match.
pub record Matchmaker : Type 0 where
  pub queue : Queue
  pub has_db : Bool
  pub milliseconds : ℕ
  pub poll_interval : ℕ
  pub retry_interval : ℕ

abbrev pub new_service : Queue → Bool → ℕ → Matchmaker
new_service queue has_db milliseconds = record {
  queue = queue;
  has_db = has_db;
  milliseconds = milliseconds;
  poll_interval = default_poll_interval;
  retry_interval = default_retry_interval;
}

-- `MatchFor` and `Has`.
abbrev pub match_for : List (ℕ × ℕ) → ℕ → Option ℕ
match_for [] user = none
match_for ((holder, id) ∷ claims) user = if holder == user then some id else match_for claims user

abbrev pub has_player : List ℕ → ℕ → Bool
has_player missing user = is_user missing user

abbrev pub restored : List QueueEntry → Result (Unit {0}) → Bool × List QueueEntry
restored pending (ok u) = (true, [])
restored pending (err x) = (false, pending)

unfoldable pub restore_pending : Env → Queue → List QueueEntry → M (Bool × List QueueEntry)
restore_pending e queue [] = pure (true, [])
restore_pending e queue (entry ∷ entries) =
    attempt (requeue e queue (entry ∷ entries)) (λ r. pure (restored (entry ∷ entries) r))

abbrev pub retained : List QueueEntry → List QueueEntry → Result (Unit {0}) → Bool × List QueueEntry
retained pending entries (ok u) = (true, pending)
retained pending entries (err x) = (false, pending ++ entries)

unfoldable pub requeue_or_retain :
    Env → Queue → List QueueEntry → List QueueEntry → M (Bool × List QueueEntry)
requeue_or_retain e queue pending [] = pure (true, pending)
requeue_or_retain e queue pending (entry ∷ entries) =
    attempt (requeue e queue (entry ∷ entries)) (λ r. pure (retained pending (entry ∷ entries) r))

abbrev pub active_match_error : ℕ → Envelope
active_match_error id = error (record {
  code = some (codes "already_in_match");
  message = codes "player already has an active match";
  match_id = some id;
  request_id = none;
})

-- A failed publication is logged.
unfoldable pub publish_active_match_error : Env → ℕ → Bytes → ℕ → M (Unit {0})
publish_active_match_error e user route id =
    attempt (publish e (publish_error user) route (active_match_error id)) (λ r. pure tt)

-- One round of the loop of `handleIneligiblePlayers`: the entry that stays eligible.
abbrev pub keep_unmatched : Env → QueueEntry → List QueueEntry → Option ℕ → M (List QueueEntry)
keep_unmatched e entry eligible none = pure (entry ∷ eligible)
keep_unmatched e entry eligible (some id) =
    publish_active_match_error e entry.member.user_id entry.member.route id >> pure eligible

unfoldable pub eligible_entries :
    Env → List ℕ → List (ℕ × ℕ) → List QueueEntry → M (List QueueEntry)
eligible_entries e missing claims [] = pure []
eligible_entries e missing claims (entry ∷ entries) = do
  let gone = has_player missing entry.member.user_id
  let claim = match_for claims entry.member.user_id
  kept ← if gone then pure [] else keep_unmatched e entry [] claim
  rest ← eligible_entries e missing claims entries
  pure (kept ++ rest)

unfoldable pub handle_ineligible_players :
    Env
    → Queue
    → List QueueEntry
    → List ℕ
    → List (ℕ × ℕ)
    → List QueueEntry
    → M (Bool × List QueueEntry)
unfolding eligible_entries requeue_or_retain
handle_ineligible_players e queue pending missing claims pair = do
  eligible ← eligible_entries e missing claims pair
  requeue_or_retain e queue pending eligible

-- `errors.As` for the two errors that name ineligible players.
abbrev pub ineligible_of : Error → Option (List ℕ × List (ℕ × ℕ))
ineligible_of (ineligible missing claims) = some (missing, claims)
ineligible_of x = none

abbrev pub started : CreatedMatch → Envelope
started c =
    match_start (record { match_id = c.match_id; problem_id = c.problem_id; deadline = c.deadline })

abbrev pub is_failed : Result (Unit {0}) → Bool
is_failed (ok u) = false
is_failed (err x) = true

-- Both players are told; whether one publication failed.
unfoldable pub publish_match_start : Env → CreatedMatch → QueueEntry → QueueEntry → M Bool
publish_match_start e created a b =
    attempt (publish e (publish_start a.member.user_id) a.member.route (started created)) (λ first.
      attempt (publish e (publish_start b.member.user_id) b.member.route (started created))
        (λ second. pure (is_failed first || is_failed second)))

unfoldable pub after_refusal :
    Env
    → Matchmaker
    → List QueueEntry
    → QueueEntry
    → QueueEntry
    → Option (List ℕ × List (ℕ × ℕ))
    → M (ℕ × List QueueEntry)
unfolding handle_ineligible_players
after_refusal e s pending a b none = do
  r ← requeue_or_retain e s.queue pending (a ∷ b ∷ [])
  pure (s.retry_interval, r.1)
after_refusal e s pending a b (some (missing, claims)) = do
  r ← handle_ineligible_players e s.queue pending missing claims (a ∷ b ∷ [])
  pure (if r.0 then 0 else s.retry_interval, r.1)

unfoldable pub after_create :
    Env
    → Matchmaker
    → List QueueEntry
    → QueueEntry
    → QueueEntry
    → Result CreatedMatch
    → M (ℕ × List QueueEntry)
unfolding after_refusal publish_match_start
after_create e s pending a b (err x) = after_refusal e s pending a b (ineligible_of x)
after_create e s pending a b (ok created) = do
  failed ← publish_match_start e created a b
  pure (if failed then s.retry_interval else 0, pending)

unfoldable pub after_pop :
    Env
    → Matchmaker
    → List QueueEntry
    → Result (Option (QueueEntry × QueueEntry))
    → M (ℕ × List QueueEntry)
unfolding after_create
after_pop e s pending (err x) = pure (s.retry_interval, pending)
after_pop e s pending (ok none) = pure (s.poll_interval, pending)
after_pop e s pending (ok (some (a, b))) =
    attempt (create_match e s.has_db s.milliseconds a.member b.member)
      (after_create e s pending a b)

-- `step`: the delay before the next step, and the entries that are pending then.
unfoldable pub step : Env → Matchmaker → List QueueEntry → M (ℕ × List QueueEntry)
unfolding after_pop restore_pending
step e s pending = do
  r ← restore_pending e s.queue pending
  if r.0 then attempt (pop_pair e s.queue) (after_pop e s r.1) else pure (s.retry_interval, r.1)
