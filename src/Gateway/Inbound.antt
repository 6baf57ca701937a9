-- ===== src/Gateway/Inbound.antt =====
-- internal/gateway/conn.go: what a frame asks for, and the answer to it.
pub mod Valid
use code_duel.Base.{
  ℕ, Bytes, codes, bytes_eq, Bool, true, false, not, ◌||◌, Option, none, some, [], if◌then◌else◌,
}
use code_duel.Proto.{Envelope, queued, queue_left, judging, error}
use code_duel.Proto.Inbound.{
  Frame, SubmitCodeData, Json, null, decode, to_language, decode_submit_code_data,
}
use code_duel.Redisx.{QueueMember}
use code_duel.Submission.{Request}
use code_duel.World.{
  Result, ok, err, Error, invalid_request, match_not_found, not_match_player, match_not_active,
  deadline_passed, idempotency_conflict, already_active, Env, M, pure, attempt,
}

-- `inboundIntent`, or the error of the protocol.
pub data Intent : Type 0 where
  join_queue leave_queue : Intent
  submit_code : SubmitCodeData → Intent
  protocol_error : Bytes → Intent

-- The part of `conn` that answers frames: its user, and the calls that it was given.
pub record Conn : Type 0 where
  pub user_id : ℕ
  pub presence_key : Bytes
  pub route : Bytes
  pub enqueue : Option (QueueMember → M (Unit {0}))
  pub dequeue : Option (QueueMember → M Bool)
  pub accept_submission : Option (Request → M ℕ)

abbrev pub queue_member : Conn → QueueMember
queue_member c = record {
  user_id = c.user_id;
  presence = c.presence_key;
  route = c.route;
  rating = 0;
}

abbrev pub whole_empty : Json → Option Bytes → Bool
whole_empty j none = false
whole_empty j (some rest) = j.at_eof rest

-- `decodeEmptyData`
abbrev pub is_empty_data : Json → Bytes → Bool
is_empty_data j raw = bytes_eq raw [] || bytes_eq raw null || whole_empty j (j.decode_empty raw)

abbrev pub submit_intent : Option SubmitCodeData → Intent
submit_intent none = protocol_error (codes "invalid submit_code")
submit_intent (some d) = submit_code d

abbrev pub intent_of : Env → Json → Option Frame → Intent
intent_of e j none = protocol_error (codes "invalid message")
intent_of e j (some frame) =
    if bytes_eq frame.kind (codes "join_queue")
    then (if is_empty_data j frame.body
        then join_queue
        else protocol_error (codes "invalid join_queue"))
    else if bytes_eq frame.kind (codes "leave_queue")
    then (if is_empty_data j frame.body
        then leave_queue
        else protocol_error (codes "invalid leave_queue"))
    else if bytes_eq frame.kind (codes "submit_code")
    then submit_intent (decode_submit_code_data e j frame.body)
    else protocol_error (codes "unknown message type")

-- `decodeInbound`
unfoldable pub decode_inbound : Env → Json → Bytes → Intent
unfolding decode decode_submit_code_data bytes_eq
decode_inbound e j raw = intent_of e j (decode j raw)

abbrev pub encode_error : Bytes → Envelope
encode_error message =
    error (record { code = none; message = message; match_id = none; request_id = none })

abbrev pub encode_error_code : Bytes → Bytes → Envelope
encode_error_code code message =
    error (record { code = some code; message = message; match_id = none; request_id = none })

abbrev pub queue_unavailable : Bytes → Envelope
queue_unavailable message = encode_error_code (codes "queue_unavailable") message

abbrev pub submission_error : Bytes → Bytes → Bytes → Envelope
submission_error request code message =
    error
      (record { code = some code; message = message; match_id = none; request_id = some request })

-- `encodeSubmissionError`
unfoldable pub encode_submission_error : Error → Bytes → Envelope
encode_submission_error invalid_request request =
    submission_error request (codes "invalid_request") (codes "invalid request")
encode_submission_error not_match_player request =
    submission_error request (codes "not_match_player") (codes "not a match player")
encode_submission_error deadline_passed request =
    submission_error request (codes "deadline_passed") (codes "deadline passed")
encode_submission_error match_not_found request =
    submission_error request (codes "match_not_active") (codes "match not active")
encode_submission_error match_not_active request =
    submission_error request (codes "match_not_active") (codes "match not active")
encode_submission_error idempotency_conflict request =
    submission_error request (codes "idempotency_conflict") (codes "idempotency conflict")
encode_submission_error _ request =
    submission_error request (codes "submission_unavailable") (codes "unable to accept submission")

abbrev pub joined : Result (Unit {0}) → Envelope
joined (ok _) = queued
joined (err (already_active id)) = error (record {
  code = some (codes "already_in_match");
  message = codes "player already has an active match";
  match_id = some id;
  request_id = none;
})
joined (err _) = queue_unavailable (codes "unable to join queue")

abbrev pub left : Result Bool → Envelope
left (ok removed) = queue_left removed
left (err _) = queue_unavailable (codes "unable to leave queue")

abbrev pub accepted : Bytes → Result ℕ → Envelope
accepted request (ok id) = judging (record { request_id = request; submission_id = id })
accepted request (err why) = encode_submission_error why request

-- The identifier that uuid.Parse gives, which is uuid.Nil where it fails.
abbrev pub parsed : Option ℕ → ℕ
parsed none = 0
parsed (some id) = id

unfoldable pub request_of : Env → ℕ → SubmitCodeData → Request
unfolding bytes_eq
request_of e player d = record {
  player_id = player;
  match_id = parsed (e.parse_uuid d.match_id);
  request_id = parsed (e.parse_uuid d.request_id);
  language = to_language d.language;
  code = d.code;
}

abbrev pub join : QueueMember → Option (QueueMember → M (Unit {0})) → M Envelope
join member none = pure (queue_unavailable (codes "unable to join queue"))
join member (some enqueue) = attempt (enqueue member) (λ r. pure (joined r))

abbrev pub leave : QueueMember → Option (QueueMember → M Bool) → M Envelope
leave member none = pure (queue_unavailable (codes "unable to leave queue"))
leave member (some dequeue) = attempt (dequeue member) (λ r. pure (left r))

abbrev pub submit : Bytes → Request → Option (Request → M ℕ) → M Envelope
submit id request none = pure (encode_error (codes "unable to accept submission"))
submit id request (some accept) = attempt (accept request) (λ r. pure (accepted id r))

abbrev pub answer : Env → Conn → Intent → M Envelope
answer e c (protocol_error message) = pure (encode_error message)
answer e c join_queue = join (queue_member c) c.enqueue
answer e c leave_queue = leave (queue_member c) c.dequeue
answer e c (submit_code d) = submit d.request_id (request_of e c.user_id d) c.accept_submission

-- `handleInbound`
unfoldable pub handle_inbound : Env → Json → Conn → Bytes → M Envelope
unfolding decode_inbound request_of encode_submission_error attempt
handle_inbound e j c raw = answer e c (decode_inbound e j raw)
