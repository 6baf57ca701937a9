-- ===== src/Redisx/Scripts.antt =====
-- internal/redisx/scripts: the four Lua scripts, which Redis runs one at a time, as functions on
-- the state of the queue. The commands (ZADD, ZREM, ZSCORE, ZRANGE, HGET, HSET, HDEL, EXISTS) act as
-- Redis documents them.
use code_duel.Base.{
  ℕ, zero, suc, ◌==◌, ltb, leb, Bytes, bytes_eq, codes, Bool, true, false, not, ◌&&◌, ◌||◌, Option,
  none, some, List, [], ◌∷◌, ◌++◌, if◌then◌else◌, length, take, exists_row, delete_rows, find_row,
  insert_by,
}
use code_duel.Redisx.{QueueState, LuaMember}
use code_duel.Redisx.Keys.{presence_prefix, user_prefix}
use code_duel.Redisx.Member.{after_prefix}
use code_duel.World.{Env}

abbrev pub is_entry : Bytes → Bytes × ℕ → Bool
is_entry raw entry = bytes_eq entry.0 raw

abbrev pub queued : Bytes → List (Bytes × ℕ) → Bool
queued raw entries = exists_row (is_entry raw) entries

abbrev pub score_of : Option (Bytes × ℕ) → Option ℕ
score_of none = none
score_of (some entry) = some entry.1

-- ZSCORE and ZREM.
abbrev pub zscore : Bytes → List (Bytes × ℕ) → Option ℕ
zscore raw entries = score_of (find_row (is_entry raw) entries)

abbrev pub zrem : Bytes → List (Bytes × ℕ) → List (Bytes × ℕ)
zrem raw entries = delete_rows (is_entry raw) entries

unfoldable pub bytes_before : Bytes → Bytes → Bool
bytes_before s [] = false
bytes_before [] (b ∷ bs) = true
bytes_before (a ∷ as') (b ∷ bs) = ltb a b || ((a == b) && bytes_before as' bs)

-- A sorted set is ordered by score, then by member.
abbrev pub entry_before : Bytes × ℕ → Bytes × ℕ → Bool
entry_before a b = ltb a.1 b.1 || ((a.1 == b.1) && bytes_before a.0 b.0)

abbrev pub zadd : Bytes → ℕ → List (Bytes × ℕ) → List (Bytes × ℕ)
zadd raw score entries = insert_by entry_before (raw, score) (zrem raw entries)

-- HSET and HDEL.
abbrev pub hset : Bytes → Bytes → (Bytes → Option Bytes) → Bytes → Option Bytes
hset field value hash key = if bytes_eq key field then some value else hash key

abbrev pub hdel : Bytes → (Bytes → Option Bytes) → Bytes → Option Bytes
hdel field hash key = if bytes_eq key field then none else hash key

abbrev pub is_value : Bytes → Option Bytes → Bool
is_value raw none = false
is_value raw (some value) = bytes_eq value raw

-- EXISTS, among the presence keys.
abbrev pub key_exists : Bytes → List Bytes → Bool
key_exists key keys = exists_row (λ k. bytes_eq k key) keys

-- enqueue.lua. A user whose member is in the sorted set keeps the score.
abbrev pub replace_member : Bytes → Bytes → Bytes → ℕ → QueueState → QueueState
replace_member user old raw score q = record q {
  ordered = zadd raw score (zrem old q.ordered);
  members = hset user raw q.members;
}

abbrev pub next_score : ℕ → ℕ → ℕ
next_score now last = if leb now last then suc last else now

abbrev pub without_old : Option Bytes → Bytes → List (Bytes × ℕ) → List (Bytes × ℕ)
without_old none raw entries = entries
without_old (some old) raw entries = if bytes_eq old raw then entries else zrem old entries

abbrev pub add_member : Bytes → Bytes → ℕ → QueueState → QueueState
add_member user raw score q = record q {
  ordered = zadd raw score (without_old (q.members user) raw q.ordered);
  members = hset user raw q.members;
  last_score = score;
}

abbrev pub added_at : Bytes → Bytes → ℕ → QueueState → (Bool × ℕ) × QueueState
added_at user raw now q =
    ((true, next_score now q.last_score), add_member user raw (next_score now q.last_score) q)

abbrev pub kept_at : Bytes → Bytes → ℕ → Bytes → Option ℕ → QueueState → (Bool × ℕ) × QueueState
kept_at user raw now old none q = added_at user raw now q
kept_at user raw now old (some score) q =
    ((false, score), if bytes_eq old raw then q else replace_member user old raw score q)

abbrev pub enqueue_for : Bytes → Bytes → ℕ → Option Bytes → QueueState → (Bool × ℕ) × QueueState
enqueue_for user raw now none q = added_at user raw now q
enqueue_for user raw now (some old) q = kept_at user raw now old (zscore old q.ordered) q

unfoldable pub enqueue_script : Bytes → Bytes → ℕ → QueueState → (Bool × ℕ) × QueueState
unfolding bytes_before
enqueue_script user raw now q = enqueue_for user raw now (q.members user) q

-- dequeue.lua
unfoldable pub dequeue_script : Bytes → Bytes → QueueState → Bool × QueueState
dequeue_script user raw q =
    if is_value raw (q.members user)
    then (
      queued raw q.ordered,
      record q { ordered = zrem raw q.ordered; members = hdel user q.members },
    )
    else (false, q)

-- `valid_uuid`: the canonical text in lower case, and not that of uuid.Nil.
abbrev pub is_hex : ℕ → Bool
is_hex c = (leb 48 c && leb c 57) || (leb 97 c && leb c 102)

unfoldable pub after_hex : ℕ → Bytes → Option Bytes
after_hex zero text = some text
after_hex (suc n) [] = none
after_hex (suc n) (c ∷ text) = let rest = after_hex n text in if is_hex c then rest else none

abbrev pub then_group : Option Bytes → ℕ → Option Bytes
then_group none n = none
then_group (some []) n = none
then_group (some (c ∷ text)) n = if c == 45 then after_hex n text else none

abbrev pub at_end : Option Bytes → Bool
at_end none = false
at_end (some []) = true
at_end (some (c ∷ text)) = false

unfoldable pub valid_uuid : Bytes → Bool
unfolding after_hex
valid_uuid text =
    not (bytes_eq text (codes "00000000-0000-0000-0000-000000000000"))
    && at_end (then_group (then_group (then_group (then_group (after_hex 8 text) 4) 4) 4) 12)

-- pop_pair.lua
abbrev pub some_valid : Option Bytes → Bool
some_valid none = false
some_valid (some text) = valid_uuid text

abbrev pub valid_presence : Bytes → Option Bytes → Bool
valid_presence user none = false
valid_presence user (some key) =
    some_valid (after_prefix (presence_prefix ++ (user ++ codes ":")) key)

abbrev pub valid_member_of : Bytes → LuaMember → Bool
valid_member_of user m =
    valid_uuid user
    && valid_presence user m.presence
    && is_value (user_prefix ++ user) m.route
    && m.has_rating

abbrev pub user_in : Option LuaMember → Option Bytes
user_in none = none
user_in (some m) = m.user_id

abbrev pub user_of : Env → Bytes → Option Bytes
user_of e raw = user_in (e.lua_decode raw)

abbrev pub presence_in : Option LuaMember → Option Bytes
presence_in none = none
presence_in (some m) = m.presence

abbrev pub valid_for : Option Bytes → Option LuaMember → Bool
valid_for none m = false
valid_for (some user) none = false
valid_for (some user) (some m) = valid_member_of user m

unfoldable pub valid_entry : Env → Bytes → Bool
unfolding valid_uuid
valid_entry e raw = valid_for (user_of e raw) (e.lua_decode raw)

abbrev pub holds_member : Option Bytes → Bytes → (Bytes → Option Bytes) → Bool
holds_member none raw hash = false
holds_member (some user) raw hash = is_value raw (hash user)

-- `HGET KEYS[2] user_id == raw` and `EXISTS presence_key`.
abbrev pub is_mapped : Env → Bytes → QueueState → Bool
is_mapped e raw q = holds_member (user_of e raw) raw q.members

abbrev pub has_presence : Option Bytes → List Bytes → Bool
has_presence none keys = false
has_presence (some key) keys = key_exists key keys

abbrev pub is_present : Env → Bytes → QueueState → Bool
is_present e raw q = has_presence (presence_in (e.lua_decode raw)) q.presence

abbrev pub unmap : Option Bytes → Bytes → (Bytes → Option Bytes) → Bytes → Option Bytes
unmap none raw hash = hash
unmap (some user) raw hash = if is_value raw (hash user) then hdel user hash else hash

unfoldable pub remove_member : Env → Bytes → QueueState → QueueState
remove_member e raw q = record q {
  ordered = zrem raw q.ordered;
  members = unmap (user_of e raw) raw q.members;
}

-- One round of the loop: at most two entries are selected.
unfoldable pub is_ready : Env → QueueState → Bytes × ℕ → Bool
is_ready e q entry = valid_entry e entry.0 && is_mapped e entry.0 q && is_present e entry.0 q

abbrev pub select_first : Bytes × ℕ → List (Bytes × ℕ) → List (Bytes × ℕ)
select_first entry selected = if ltb (length selected) 2 then selected ++ entry ∷ [] else selected

unfoldable pub scan_entry :
    Env → Bytes × ℕ → List (Bytes × ℕ) × QueueState → List (Bytes × ℕ) × QueueState
scan_entry e entry (selected, q) =
    if not (valid_entry e entry.0)
    then (selected, remove_member e entry.0 q)
    else if not (is_mapped e entry.0 q)
    then (selected, record q { ordered = zrem entry.0 q.ordered })
    else if not (is_present e entry.0 q)
    then (selected, remove_member e entry.0 q)
    else (select_first entry selected, q)

unfoldable pub scan_entries :
    Env → List (Bytes × ℕ) → List (Bytes × ℕ) × QueueState → List (Bytes × ℕ) × QueueState
scan_entries e [] state = state
scan_entries e (entry ∷ entries) state = scan_entries e entries (scan_entry e entry state)

unfoldable pub remove_selected : Env → List (Bytes × ℕ) → QueueState → QueueState
remove_selected e [] q = q
remove_selected e (entry ∷ entries) q = remove_selected e entries (remove_member e entry.0 q)

abbrev pub pop_selected : Env → List (Bytes × ℕ) × QueueState → List (Bytes × ℕ) × QueueState
pop_selected e (selected, q) =
    if ltb (length selected) 2 then ([], q) else (selected, remove_selected e selected q)

unfoldable pub pop_pair_script : Env → ℕ → QueueState → List (Bytes × ℕ) × QueueState
pop_pair_script e limit q = pop_selected e (scan_entries e (take limit q.ordered) ([], q))

-- requeue.lua: one round of its loop.
abbrev pub restore : Bytes → Bytes → ℕ → QueueState → QueueState
restore user raw score q = record q {
  ordered = zadd raw score q.ordered;
  members = hset user raw q.members;
}

abbrev pub restore_over : Option Bytes → Bytes → Bytes → ℕ → QueueState → QueueState
restore_over none user raw score q = restore user raw score q
restore_over (some mapped) user raw score q =
    if bytes_eq mapped raw && not (queued raw q.ordered)
    then record q { ordered = zadd raw score q.ordered }
    else q

unfoldable pub requeue_entry : Env → Bytes → Bytes → ℕ → QueueState → QueueState
unfolding bytes_before
requeue_entry e user raw score q =
    if is_value user (user_of e raw) && is_present e raw q
    then restore_over (q.members user) user raw score q
    else q
