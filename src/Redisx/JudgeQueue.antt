-- ===== src/Redisx/JudgeQueue.antt =====
-- internal/redisx/judge_queue.go: the versioned contract of the judge stream. The stream commands
-- (XADD, XREADGROUP, XAUTOCLAIM, XACK, XDEL) act on the state as Redis documents them.
use code_duel.Base.{
  ℕ, suc, ◌-◌, ◌==◌, ltb, leb, Bytes, bytes_eq, codes, Bool, false, not, ◌&&◌, Option, none, some,
  List, [], ◌∷◌, ◌++◌, map, if◌then◌else◌, length, take, select_rows, exists_row, update_rows,
  delete_rows,
}
use code_duel.Redisx.{FieldValue, text, blob, other_value, StreamEntry, PendingEntry, Stream}
use code_duel.World.{
  xadd, finalize_entry, read_jobs, reclaim_jobs, invalid_arguments, not_pending, Env, M, pure, gets,
  ◌>>=◌, ◌>>◌, call, guard,
}

abbrev pub schema_version_key : Bytes
schema_version_key = codes "schema_version"

abbrev pub submission_id_key : Bytes
submission_id_key = codes "submission_id"

abbrev pub judge_job_schema_version : Bytes
judge_job_schema_version = codes "1"

abbrev pub max_judge_read_block : ℕ
max_judge_read_block = 250000

pub data DecodeError : Type 0 where
  bad_fields bad_version bad_submission_id : DecodeError

pub record JudgeJob : Type 0 where
  pub entry_id : ℕ
  pub submission_id : ℕ
  pub decode_err : Option DecodeError

-- The Go map `Values` is its list of fields, with distinct keys.
judge_job_field : List (Bytes × FieldValue) → Bytes → Option Bytes
judge_job_field [] key = none
judge_job_field ((k, text value) ∷ rest) key =
    if bytes_eq k key then some value else judge_job_field rest key
judge_job_field ((k, blob value) ∷ rest) key =
    if bytes_eq k key then some value else judge_job_field rest key
judge_job_field ((k, other_value) ∷ rest) key =
    if bytes_eq k key then none else judge_job_field rest key

abbrev malformed : ℕ → DecodeError → JudgeJob
malformed id why = record { entry_id = id; submission_id = 0; decode_err = some why }

abbrev well_formed : ℕ → ℕ → JudgeJob
well_formed id submission = record { entry_id = id; submission_id = submission; decode_err = none }

abbrev decode_id : ℕ → Option ℕ → JudgeJob
decode_id entry none = malformed entry bad_submission_id
decode_id entry (some id) =
    if id == 0 then malformed entry bad_submission_id else well_formed entry id

abbrev decode_submission : Env → ℕ → Option Bytes → JudgeJob
decode_submission e entry none = malformed entry bad_submission_id
decode_submission e entry (some raw) = decode_id entry (e.parse_uuid raw)

abbrev has_version : Option Bytes → Bool
has_version none = false
has_version (some version) = bytes_eq version judge_job_schema_version

unfoldable pub decode_judge_job : Env → StreamEntry → JudgeJob
unfolding judge_job_field bytes_eq
decode_judge_job e message =
    if not (length message.fields == 2)
    then malformed message.entry_id bad_fields
    else if not (has_version (judge_job_field message.fields schema_version_key))
    then malformed message.entry_id bad_version
    else decode_submission e message.entry_id (judge_job_field message.fields submission_id_key)

-- XADD with an identifier that the server chooses.
abbrev pub append_entry : List (Bytes × FieldValue) → Stream → Stream
append_entry fields s = record s {
  entries = s.entries ++ record { entry_id = suc s.last_id; fields = fields } ∷ [];
  last_id = suc s.last_id;
}

abbrev pub job_fields : Env → ℕ → List (Bytes × FieldValue)
job_fields e id =
    (schema_version_key, text judge_job_schema_version)
    ∷ (submission_id_key, text (e.show_uuid id))
    ∷ []

-- `Enqueue` returns the identifier of the new entry.
unfoldable pub enqueue : Env → ℕ → M ℕ
enqueue e submission_id = do
  guard (not (submission_id == 0)) invalid_arguments
  call e (xadd submission_id)
      (λ w. record w { jobs = append_entry (job_fields e submission_id) w.jobs })
  gets (λ w. w.jobs.last_id)

abbrev is_new : Stream → StreamEntry → Bool
is_new s entry = ltb s.last_delivered entry.entry_id

-- XREADGROUP with `>`: the first `count` entries that the group has not delivered.
abbrev pub undelivered : ℕ → Stream → List StreamEntry
undelivered count s = take count (select_rows (is_new s) s.entries)

abbrev last_entry_id : ℕ → List StreamEntry → ℕ
last_entry_id id [] = id
last_entry_id id (entry ∷ rest) = last_entry_id entry.entry_id rest

abbrev pub deliver : Bytes → ℕ → ℕ → Stream → Stream
deliver consumer now count s = record s {
  pending =
      s.pending
      ++ map
          (λ entry. record { entry_id = entry.entry_id; consumer = consumer; delivered_at = now })
          (undelivered count s);
  last_delivered = last_entry_id s.last_delivered (undelivered count s);
}

-- `Read`: only new jobs. The time that it may block has no effect on the state.
unfoldable pub read : Env → Bytes → ℕ → M (List JudgeJob)
read e consumer count = do
  guard (not (bytes_eq consumer []) && ltb 0 count) invalid_arguments
  messages ← gets (λ w. undelivered count w.jobs)
  call e read_jobs (λ w. record w { jobs = deliver consumer (e.clock read_jobs) count w.jobs })
  pure (map (decode_judge_job e) messages)

-- XAUTOCLAIM from the start of the pending list: the first `count` entries idle for `min_idle`.
abbrev is_idle : ℕ → ℕ → PendingEntry → Bool
is_idle now min_idle p = leb min_idle (now - p.delivered_at)

abbrev pub idle_entries : ℕ → ℕ → ℕ → Stream → List PendingEntry
idle_entries now min_idle count s = take count (select_rows (is_idle now min_idle) s.pending)

abbrev pub has_entry : List PendingEntry → ℕ → Bool
has_entry ps id = exists_row (λ p. p.entry_id == id) ps

abbrev pub take_over : Bytes → ℕ → List PendingEntry → Stream → Stream
take_over consumer now claimed s = record s {
  pending =
      update_rows (λ p. has_entry claimed p.entry_id)
        (λ p. record p { consumer = consumer; delivered_at = now }) s.pending;
}

-- `ReclaimIdle`, first page. The cursor of the next page has no reader.
unfoldable pub reclaim_idle : Env → Bytes → ℕ → ℕ → M (List JudgeJob)
reclaim_idle e consumer min_idle count = do
  guard (not (bytes_eq consumer []) && ltb 0 count) invalid_arguments
  claimed ← gets (λ w. idle_entries (e.clock reclaim_jobs) min_idle count w.jobs)
  messages ← gets (λ w. select_rows (λ entry. has_entry claimed entry.entry_id) w.jobs.entries)
  call e reclaim_jobs
      (λ w. record w { jobs = take_over consumer (e.clock reclaim_jobs) claimed w.jobs })
  pure (map (decode_judge_job e) messages)

-- The Lua text of `finalizeJudgeJobSource`: XACK, and XDEL only if that acknowledged something.
abbrev pub acknowledged : ℕ → Stream → Bool
acknowledged id s = has_entry s.pending id

abbrev pub entry_exists : ℕ → Stream → Bool
entry_exists id s = exists_row (λ entry. entry.entry_id == id) s.entries

unfoldable pub finalize_reply : ℕ → Stream → ℕ
finalize_reply id s = if acknowledged id s then 1 else if entry_exists id s then 0 else 1

unfoldable pub finalize_effect : ℕ → Stream → Stream
finalize_effect id s =
    if acknowledged id s
    then record s {
      pending = delete_rows (λ p. p.entry_id == id) s.pending;
      entries = delete_rows (λ entry. entry.entry_id == id) s.entries;
    }
    else s

unfoldable pub finalize : Env → ℕ → M (Unit {0})
finalize e entry_id = do
  guard (not (entry_id == 0)) invalid_arguments
  reply ← gets (λ w. finalize_reply entry_id w.jobs)
  call e (finalize_entry entry_id) (λ w. record w { jobs = finalize_effect entry_id w.jobs })
  guard (reply == 1) not_pending
