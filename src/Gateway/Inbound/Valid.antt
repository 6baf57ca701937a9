-- ===== src/Gateway/Inbound/Valid.antt =====
-- What the decoding of a submission promises to the submission service.
use code_duel.Base.{
  ℕ, leb, length, exists_row, ◌==◌, Bytes, codes, bytes_eq, Bool, true, false, not, ◌&&◌, ◌||◌,
  Option, none, some, [], ◌∷◌, ◌≡◌, refl, sym, ap, arith, if◌then◌else◌,
}
use code_duel.Proto.Inbound.{
  Frame, SubmitCodeData, Json, null, max_submission_code_bytes, valid_uuid, decode, names_uuid,
  to_language, validate, whole_submit, decode_submit_code_data,
}
use code_duel.Gateway.Inbound.{
  Intent, join_queue, leave_queue, protocol_error, is_empty_data, submit_code, submit_intent,
  intent_of, decode_inbound, parsed, request_of, answer, Conn, handle_inbound,
}
use code_duel.Submission.{Request, is_supported, valid}
use code_duel.World.{invalid_request, Env, World, M, raise}

module _ (e : Env) (j : Json) where
  submit_code_inj : (d d' : SubmitCodeData) → submit_code d ≡ submit_code d' → d ≡ d'
  submit_code_inj d d' h = cc

  some_inj : (c d : SubmitCodeData) → some c ≡ some d → c ≡ d
  some_inj c d h = cc

  -- A submission that is decoded is one that validates.
  decoded-validate :
      (raw : Bytes) (d : SubmitCodeData)
      → decode_submit_code_data e j raw ≡ some d
      → validate e d ≡ true
  unfolding decode_submit_code_data
  decoded-validate raw d h =
      go (bytes_eq raw [] || bytes_eq (e.trim_space raw) null) (e.utf8_valid raw)
        (j.decode_submit raw) h
    where
      last :
          (c : SubmitCodeData) (whole v : Bool)
          → validate e c ≡ v
          → (if not whole then none else if v then some c else none) ≡ some d
          → validate e d ≡ true
      last c false v k h = cc
      last c true false k h = cc
      last c true true k h = rw (some_inj c d h) at k

      go :
          (empty is_text : Bool) (o : Option (SubmitCodeData × Bytes))
          → (if empty then none else if not is_text then none else whole_submit e j o) ≡ some d
          → validate e d ≡ true
      go true is_text o h = cc
      go false false o h = cc
      go false true none h = cc
      go false true (some (c, rest)) h = last c (j.at_eof rest) (validate e c) refl h

  inbound-validate :
      (raw : Bytes) (d : SubmitCodeData)
      → decode_inbound e j raw ≡ submit_code d
      → validate e d ≡ true
  unfolding decode_inbound
  inbound-validate raw d h = start (decode j raw) h
    where
      decoded : (o : Option SubmitCodeData) → submit_intent o ≡ submit_code d → o ≡ some d
      decoded none h = cc
      decoded (some c) h = ap some (submit_code_inj c d h)

      go :
          (frame : Frame) (joins leaves submits is_empty : Bool)
          → (if joins
              then (if is_empty then join_queue else protocol_error (codes "invalid join_queue"))
              else if leaves
              then (if is_empty then leave_queue else protocol_error (codes "invalid leave_queue"))
              else if submits
              then submit_intent (decode_submit_code_data e j frame.body)
              else protocol_error (codes "unknown message type"))
            ≡ submit_code d
          → validate e d ≡ true
      go frame true leaves submits true h = cc
      go frame true leaves submits false h = cc
      go frame false true submits true h = cc
      go frame false true submits false h = cc
      go frame false false false is_empty h = cc
      go frame false false true is_empty h =
          decoded-validate frame.body d (decoded (decode_submit_code_data e j frame.body) h)

      start : (o : Option Frame) → intent_of e j o ≡ submit_code d → validate e d ≡ true
      start none h = cc
      start (some frame) h =
          go frame (bytes_eq frame.kind (codes "join_queue"))
            (bytes_eq frame.kind (codes "leave_queue")) (bytes_eq frame.kind (codes "submit_code"))
            (is_empty_data j frame.body) h

  -- Parsing to an identifier.
  parsed-names_uuid : (o : Option ℕ) → names_uuid o ≡ true → (parsed o == 0) ≡ false
  parsed-names_uuid none h = cc
  parsed-names_uuid (some id) h = ground arith

  trimmed-empty :
      (code : Bytes)
      → e.trim_space [] ≡ []
      → not (bytes_eq (e.trim_space code) []) ≡ true
      → bytes_eq code [] ≡ false
  unfolding bytes_eq
  trimmed-empty [] trims h = sym (rw trims at h)
  trimmed-empty (c ∷ code) trims h = refl

  -- A submission that the connection of a user decodes passes the check of the submission service, where
  -- strings.TrimSpace leaves the empty text empty.
  decoded-valid :
      (raw : Bytes) (d : SubmitCodeData) (player : ℕ)
      → e.trim_space [] ≡ []
      → (player == 0) ≡ false
      → decode_inbound e j raw ≡ submit_code d
      → valid (request_of e player d) ≡ true
  unfolding valid request_of validate
  decoded-valid raw d player trims known h =
      let (match, request, supported, code) =
        parts (valid_uuid e d.match_id) (valid_uuid e d.request_id)
          (is_supported (to_language d.language)) (e.utf8_valid d.code)
          (not (exists_row (λ c. c == 0) d.code)) (not (bytes_eq (e.trim_space d.code) []))
          (leb (length d.code) max_submission_code_bytes) (inbound-validate raw d h) in
      rw
        (
          known,
          parsed-names_uuid (e.parse_uuid d.match_id) match,
          parsed-names_uuid (e.parse_uuid d.request_id) request,
          trimmed-empty d.code trims code,
        )
        supported
    where
      parts :
          (a b c s t u v : Bool)
          → (a && b && c && (s && t && u && v)) ≡ true
          → (a ≡ true) × (b ≡ true) × (c ≡ true) × (u ≡ true)
      parts a b c s t u v h = (ground arith, ground arith, ground arith, ground arith)

-- A submission service that checks a request first.
unfoldable pub checked : (Request → M ℕ) → Request → M ℕ
unfolding valid
checked accept r = if valid r then accept r else raise invalid_request

-- The connection of a user asks the submission service for valid requests only: to check a request
-- first changes neither the answer to a frame nor the world, where strings.TrimSpace leaves the empty
-- text empty.
pub handle_inbound_valid :
    (e : Env) (j : Json) (c : Conn) (accept : Request → M ℕ) (raw : Bytes) (w : World)
    → e.trim_space [] ≡ []
    → (c.user_id == 0) ≡ false
    → handle_inbound e j (record c { accept_submission = some (checked accept) }) raw w
      ≡ handle_inbound e j (record c { accept_submission = some accept }) raw w
unfolding handle_inbound checked
handle_inbound_valid e j c accept raw w trims known = go (decode_inbound e j raw) refl
  where
    go :
        (i : Intent)
        → decode_inbound e j raw ≡ i
        → answer e (record c { accept_submission = some (checked accept) }) i w
          ≡ answer e (record c { accept_submission = some accept }) i w
    go (protocol_error message) h = refl
    go join_queue h = refl
    go leave_queue h = refl
    go (submit_code d) h = rw (decoded-valid e j raw d c.user_id trims known h) refl
