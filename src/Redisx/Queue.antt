-- ===== src/Redisx/Queue.antt =====
-- internal/redisx/queue.go and the encoding of a member: the calls of the queue's scripts. The
-- scripts' texts for flags and scores are read back as the values that were printed.
use code_duel.Base.{
  ℕ, ◌==◌, Bytes, bytes_eq, Bool, not, Option, none, some, List, [], ◌∷◌, if◌then◌else◌,
}
use code_duel.Redisx.{QueueState, QueueMember}
use code_duel.Redisx.Member.{valid_member}
use code_duel.Redisx.Scripts.{enqueue_script, dequeue_script, pop_pair_script, requeue_entry}
use code_duel.World.{
  run_enqueue, run_dequeue, run_pop_pair, run_requeue, missing_dependency, invalid_member,
  missing_encoding, invalid_pair, duplicate_user, Env, World, M, pure, raise, gets, ◌>>=◌, ◌>>◌,
  call, guard,
}

abbrev pub default_scan_limit : ℕ
default_scan_limit = 100

pub record Queue : Type 0 where
  pub has_client : Bool
  pub scan_limit : ℕ

-- `NewQueue`, for a limit that is not negative.
abbrev pub new_queue : Bool → ℕ → Queue
new_queue has_client limit = record {
  has_client = has_client;
  scan_limit = if limit == 0 then default_scan_limit else limit;
}

pub record EnqueueResult : Type 0 where
  pub added : Bool
  pub score : ℕ

pub record QueueEntry : Type 0 where
  pub member : QueueMember
  pub score : ℕ
  pub encoded : Bytes

-- `encodeMember` and `decodeMember`.
abbrev pub encode_member : Env → QueueMember → Option Bytes
encode_member e m = if valid_member e m then some (e.encode_json m) else none

abbrev pub checked_member : Env → Option QueueMember → Option QueueMember
checked_member e none = none
checked_member e (some m) = if valid_member e m then some m else none

abbrev pub decode_member : Env → Bytes → Option QueueMember
decode_member e raw = checked_member e (e.decode_json raw)

-- Running a script changes the state of the queue only.
abbrev pub on_queue : (QueueState → QueueState) → World → World
on_queue change w = record w { queue = change w.queue }

unfoldable pub enqueue : Env → Queue → QueueMember → M EnqueueResult
enqueue e queue member = do
  guard queue.has_client missing_dependency
  guard (valid_member e member) invalid_member
  let user = e.show_uuid member.user_id
  let raw = e.encode_json member
  let now = e.clock (run_enqueue member.user_id)
  reply ← gets (λ w. (enqueue_script user raw now w.queue).0)
  call e (run_enqueue member.user_id) (on_queue (λ q. (enqueue_script user raw now q).1))
  pure (record { added = reply.0; score = reply.1 })

unfoldable pub dequeue : Env → Queue → QueueMember → M Bool
dequeue e queue member = do
  guard queue.has_client missing_dependency
  guard (valid_member e member) invalid_member
  let user = e.show_uuid member.user_id
  let raw = e.encode_json member
  removed ← gets (λ w. (dequeue_script user raw w.queue).0)
  call e (run_dequeue member.user_id) (on_queue (λ q. (dequeue_script user raw q).1))
  pure removed

abbrev pub pop_entry : Bytes → ℕ → QueueMember → QueueEntry
pop_entry raw score member = record { member = member; score = score; encoded = raw }

-- The reply of pop_pair.lua: nothing, or two entries that have to decode.
abbrev pub checked_pair :
    Option QueueEntry → Option QueueEntry → M (Option (QueueEntry × QueueEntry))
checked_pair none b = raise invalid_pair
checked_pair (some a) none = raise invalid_pair
checked_pair (some a) (some b) =
    guard (not (a.member.user_id == b.member.user_id)) duplicate_user >> pure (some (a, b))

abbrev pub decoded_entry : Bytes → ℕ → Option QueueMember → Option QueueEntry
decoded_entry raw score none = none
decoded_entry raw score (some member) = some (pop_entry raw score member)

abbrev pub decode_entry : Env → Bytes × ℕ → Option QueueEntry
decode_entry e (raw, score) = decoded_entry raw score (decode_member e raw)

unfoldable pub read_pair : Env → List (Bytes × ℕ) → M (Option (QueueEntry × QueueEntry))
read_pair e [] = pure none
read_pair e (a ∷ []) = raise invalid_pair
read_pair e (a ∷ b ∷ []) = checked_pair (decode_entry e a) (decode_entry e b)
read_pair e (a ∷ b ∷ c ∷ rest) = raise invalid_pair

unfoldable pub pop_pair : Env → Queue → M (Option (QueueEntry × QueueEntry))
unfolding read_pair
pop_pair e queue = do
  guard queue.has_client missing_dependency
  reply ← gets (λ w. (pop_pair_script e queue.scan_limit w.queue).0)
  call e run_pop_pair (on_queue (λ q. (pop_pair_script e queue.scan_limit q).1))
  read_pair e reply

-- The checks before the script runs, and its loop.
unfoldable pub check_entries : Env → List QueueEntry → M (Unit {0})
check_entries e [] = pure tt
check_entries e (entry ∷ entries) = do
  guard (valid_member e entry.member) invalid_member
  guard (not (bytes_eq entry.encoded [])) missing_encoding
  check_entries e entries

unfoldable pub requeue_script : Env → List QueueEntry → QueueState → QueueState
requeue_script e [] q = q
requeue_script e (entry ∷ entries) q =
    requeue_script e entries
      (requeue_entry e (e.show_uuid entry.member.user_id) entry.encoded entry.score q)

-- `Requeue`
unfoldable pub requeue : Env → Queue → List QueueEntry → M (Unit {0})
unfolding check_entries requeue_script
requeue e queue [] = pure tt
requeue e queue (entry ∷ entries) = do
  guard queue.has_client missing_dependency
  check_entries e (entry ∷ entries)
  call e (run_requeue entry.member.user_id) (on_queue (requeue_script e (entry ∷ entries)))
