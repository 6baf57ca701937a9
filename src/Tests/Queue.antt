-- ===== src/Tests/Queue.antt =====
-- The matchmaking queue at work: two users who wait, and a step of the matchmaker.
use code_duel.Base.{
  ℕ, ◌-◌, ◌+◌, ◌<◌, ◌≡◌, refl, Bytes, codes, true, false, Option, none, some, List, [], ◌∷◌, ◌++◌,
  take, select_rows, bytes_eq,
}
use code_duel.Redisx.{QueueState, QueueMember, LuaMember}
use code_duel.Redisx.Keys.{user_prefix, presence_key, user_channel}
use code_duel.Redisx.Member.{after_prefix, valid_member}
use code_duel.Redisx.Scripts.{
  queued, zscore, is_ready, valid_entry, enqueue_script, pop_pair_script, scan_entries, scan_entry,
  remove_member, remove_selected,
}
use code_duel.Redisx.Queue.{new_queue, QueueEntry, pop_entry, pop_pair, read_pair}
use code_duel.Redisx.QueueOk.{QueueOk}
use code_duel.Redisx.QueueOk.Enqueued.{enqueue-QueueOk}
use code_duel.Redisx.Fifo.{enqueue_appends, enqueue_again}
use code_duel.Redisx.Pairing.{pair_or_none, pop_pair_oldest}
use code_duel.Redisx.Spared.{pop_pair_spares}
use code_duel.Match.Create.{create_match}
use code_duel.Match.Service.{Matchmaker, new_service, step}
use code_duel.Match.Service.Sound.{ServiceOk, step-ServiceOk}
use code_duel.Match.Service.Kept.{Returned, popped_pair_kept}
use code_duel.Gateway.Matchmaking.{enqueue_for_match}
use code_duel.Gateway.Matchmaking.Admitted.{Admissible, Enqueued, Refused, admission_ends}
use code_duel.World.{Env, World, begin_tx, unavailable, call, ok, err, done, refused, actions}
use code_duel.World.Ends.{Ends}
use code_duel.Tests.{env, world}

-- Users have identifiers of one digit.
abbrev uuid_start : Bytes
uuid_start = codes "00000000-0000-0000-0000-00000000000"

abbrev uuid_text : ℕ → Bytes
uuid_text n = uuid_start ++ (48 + n) ∷ []

abbrev digit : Option Bytes → Option ℕ
digit none = none
digit (some []) = none
digit (some (d ∷ text)) = some (d - 48)

abbrev split_member : Option Bytes → Option (ℕ × Bytes)
split_member none = none
split_member (some []) = none
split_member (some (d ∷ key)) = some (d - 48, key)

abbrev member_in : Option (ℕ × Bytes) → Option QueueMember
member_in none = none
member_in (some (user, key)) = some (record {
  user_id = user;
  presence = key;
  route = user_prefix ++ uuid_text user;
  rating = 1000;
})

abbrev lua_member_in : Option (ℕ × Bytes) → Option LuaMember
lua_member_in none = none
lua_member_in (some (user, key)) = some (record {
  user_id = some (uuid_text user);
  presence = some key;
  route = some (user_prefix ++ uuid_text user);
  has_rating = true;
})

unfoldable decode_text : Bytes → Option (ℕ × Bytes)
unfolding after_prefix
decode_text raw = split_member (after_prefix uuid_start raw)

unfoldable parse_text : Bytes → Option ℕ
unfolding after_prefix
parse_text raw = digit (after_prefix uuid_start raw)

abbrev queue_env : Env
queue_env = record env {
  show_uuid = uuid_text;
  parse_uuid = parse_text;
  encode_json = λ m. uuid_text m.user_id ++ m.presence;
  decode_json = λ raw. member_in (decode_text raw);
  lua_decode = λ raw. lua_member_in (decode_text raw);
}

abbrev waiting : ℕ → QueueMember
waiting user = record {
  user_id = user;
  presence = presence_key queue_env user 7;
  route = user_channel queue_env user;
  rating = 1000;
}

abbrev raw_of : ℕ → Bytes
raw_of user = queue_env.encode_json (waiting user)

abbrev nobody : QueueState
nobody = record {
  ordered = [];
  members = λ _. none;
  last_score = 0;
  presence = presence_key queue_env 1 7 ∷ presence_key queue_env 2 7 ∷ [];
}

abbrev one_waiting : QueueState
one_waiting = (enqueue_script (uuid_text 1) (raw_of 1) 100 nobody).1

abbrev two_waiting : QueueState
two_waiting = (enqueue_script (uuid_text 2) (raw_of 2) 100 one_waiting).1

nobody-QueueOk : QueueOk queue_env nobody
nobody-QueueOk = record {
  ordered_ok = record { sorted = tt; distinct = tt; bounded = tt };
  mapped_ok = λ user raw h. cc;
}

one_waiting-QueueOk : QueueOk queue_env one_waiting
unfolding decode_text
one_waiting-QueueOk =
    enqueue-QueueOk queue_env (uuid_text 1) (raw_of 1) 100 nobody refl nobody-QueueOk

two_waiting-QueueOk : QueueOk queue_env two_waiting
unfolding decode_text
two_waiting-QueueOk =
    enqueue-QueueOk queue_env (uuid_text 2) (raw_of 2) 100 one_waiting refl one_waiting-QueueOk

two_unmapped : one_waiting.members (uuid_text 2) ≡ none
unfolding enqueue_script bytes_eq
two_unmapped = refl

two_unqueued : queued (raw_of 2) one_waiting.ordered ≡ false
unfolding enqueue_script bytes_eq
two_unqueued = refl

enqueue_appends_example :
    ((enqueue_script (uuid_text 2) (raw_of 2) 100 one_waiting).0.0 ≡ true)
    × (one_waiting.last_score < (enqueue_script (uuid_text 2) (raw_of 2) 100 one_waiting).0.1)
    × (two_waiting.ordered
        ≡ one_waiting.ordered
          ++ (raw_of 2, (enqueue_script (uuid_text 2) (raw_of 2) 100 one_waiting).0.1) ∷ [])
enqueue_appends_example =
    enqueue_appends queue_env (uuid_text 2) (raw_of 2) 100 one_waiting one_waiting-QueueOk
      two_unmapped two_unqueued

one_mapped : one_waiting.members (uuid_text 1) ≡ some (raw_of 1)
unfolding enqueue_script bytes_eq
one_mapped = refl

one_placed : zscore (raw_of 1) one_waiting.ordered ≡ some 100
unfolding enqueue_script bytes_eq
one_placed = refl

enqueue_again_example :
    ((enqueue_script (uuid_text 1) (7 ∷ []) 300 one_waiting).0 ≡ (false, 100))
    × (zscore (7 ∷ []) (enqueue_script (uuid_text 1) (7 ∷ []) 300 one_waiting).1.ordered ≡ some 100)
    × ((enqueue_script (uuid_text 1) (7 ∷ []) 300 one_waiting).1.members (uuid_text 1)
        ≡ some (7 ∷ []))
    × ((enqueue_script (uuid_text 1) (7 ∷ []) 300 one_waiting).1.last_score
        ≡ one_waiting.last_score)
enqueue_again_example =
    enqueue_again (uuid_text 1) (7 ∷ []) (raw_of 1) 300 100 one_waiting one_mapped one_placed

pop_pair_oldest_example :
    (pop_pair_script queue_env 100 two_waiting).0
    ≡ pair_or_none
        (take 2 (select_rows (is_ready queue_env two_waiting) (take 100 two_waiting.ordered)))
pop_pair_oldest_example = pop_pair_oldest queue_env 100 two_waiting two_waiting-QueueOk

one_ready : is_ready queue_env one_waiting (raw_of 1, 100) ≡ true
unfolding enqueue_script is_ready valid_entry decode_text bytes_eq
one_ready = refl

one_queued : queued (raw_of 1) one_waiting.ordered ≡ true
unfolding enqueue_script bytes_eq
one_queued = refl

one_stays : queued (raw_of 1) (pop_pair_script queue_env 100 one_waiting).0 ≡ false
unfolding enqueue_script pop_pair_script scan_entries scan_entry remove_member remove_selected
    is_ready valid_entry decode_text bytes_eq
one_stays = refl

pop_pair_spares_example :
    queued (raw_of 1) (pop_pair_script queue_env 100 one_waiting).1.ordered ≡ true
pop_pair_spares_example =
    pop_pair_spares queue_env 100 (raw_of 1, 100) one_waiting one_ready one_queued one_stays

-- A pair is popped.
both_popped : (pop_pair_script queue_env 100 two_waiting).0 ≡ (raw_of 1, 100) ∷ (raw_of 2, 101) ∷ []
unfolding enqueue_script pop_pair_script scan_entries scan_entry remove_member remove_selected
    valid_entry decode_text bytes_eq
both_popped = refl

abbrev two_world : World
two_world = record world { queue = two_waiting }

abbrev matchmaker : Matchmaker
matchmaker = new_service (new_queue true 0) true 60000

two_world-ServiceOk : ServiceOk queue_env [] two_world
two_world-ServiceOk = record { queue_ok = two_waiting-QueueOk; pending_ok = tt }

step-ServiceOk_example :
    (r : ℕ × List QueueEntry) × ((step queue_env matchmaker [] two_world).0 ≡ ok r)
    × ServiceOk queue_env r.1 (step queue_env matchmaker [] two_world).1
step-ServiceOk_example = step-ServiceOk queue_env matchmaker [] two_world two_world-ServiceOk

admission_ends_example :
    Ends
      (enqueue_for_match queue_env true (new_queue true 0) (waiting 3))
      two_world
      (λ _ v.
        Admissible queue_env (new_queue true 0) (waiting 3) two_world.durable
        × (v.queue ≡ Enqueued queue_env (new_queue true 0) (waiting 3) two_world.queue))
      (λ _ v. Refused queue_env (new_queue true 0) (waiting 3) two_world v)
admission_ends_example = admission_ends queue_env (new_queue true 0) (waiting 3) true two_world

-- The popped pair's match cannot be created: its transaction does not begin.
abbrev no_database : Env
no_database = record queue_env { fault = λ s. elim s [ begin_tx ↦ refused | _ ↦ done ] }

abbrev popped_world : World
popped_world = record two_world { queue = (pop_pair_script no_database 100 two_waiting).1 }

abbrev entry_of : ℕ → ℕ → QueueEntry
entry_of user score = pop_entry (raw_of user) score (waiting user)

pops :
    pop_pair no_database (new_queue true 0) two_world
    ≡ (ok (some (entry_of 1 100, entry_of 2 101)), popped_world)
unfolding actions call pop_pair read_pair pop_pair_script scan_entries scan_entry remove_member
    remove_selected enqueue_script valid_entry valid_member decode_text parse_text bytes_eq
pops = refl

fails :
    create_match no_database true 60000 (waiting 1) (waiting 2) popped_world
    ≡ (err (unavailable begin_tx), popped_world)
unfolding actions call create_match valid_member parse_text bytes_eq
fails = refl

popped_pair_kept_example :
    (r : ℕ × List QueueEntry) × ((step no_database matchmaker [] two_world).0 ≡ ok r)
    × Returned no_database matchmaker
        (entry_of 1 100)
        (entry_of 2 101)
        popped_world
        r
        (step no_database matchmaker [] two_world).1
popped_pair_kept_example =
    popped_pair_kept no_database matchmaker (entry_of 1 100) (entry_of 2 101) (unavailable begin_tx)
      two_world popped_world popped_world pops fails refl
