-- ===== src/Proto/Inbound.antt =====
-- internal/proto/messages.go: strict decoding of the frames that a client sends. What the decoder of
-- encoding/json answers is a parameter, with the input that it has not read.
use code_duel.Base.{
  ℕ, ◌==◌, leb, length, Bytes, codes, bytes_eq, Bool, false, not, ◌&&◌, ◌||◌, Option, none, some,
  [], if◌then◌else◌, exists_row,
}
use code_duel.Db.{Language, python, cpp, java, other_language}
use code_duel.Submission.{is_supported}
use code_duel.World.{Env}

-- An envelope as a client sends it.
pub record Frame : Type 0 where
  pub kind : Bytes
  pub body : Bytes

pub record SubmitCodeData : Type 0 where
  pub match_id : Bytes
  pub request_id : Bytes
  pub language : Bytes
  pub code : Bytes

-- A decoder that refuses unknown fields, and whether its next call answers io.EOF.
pub record Json : Type 0 where
  pub decode_frame : Bytes → Option (Frame × Bytes)
  pub decode_submit : Bytes → Option (SubmitCodeData × Bytes)
  pub decode_empty : Bytes → Option Bytes
  pub at_eof : Bytes → Bool

abbrev pub null : Bytes
null = codes "null"

abbrev pub whole_frame : Json → Option (Frame × Bytes) → Option Frame
whole_frame j none = none
whole_frame j (some (frame, rest)) =
    if not (j.at_eof rest) then none else if bytes_eq frame.kind [] then none else some frame

-- `Decode`
unfoldable pub decode : Json → Bytes → Option Frame
unfolding bytes_eq
decode j raw = whole_frame j (j.decode_frame raw)

abbrev pub names_uuid : Option ℕ → Bool
names_uuid none = false
names_uuid (some id) = not (id == 0)

-- `validateUUID`
abbrev pub valid_uuid : Env → Bytes → Bool
valid_uuid e raw = names_uuid (e.parse_uuid raw)

abbrev pub to_language : Bytes → Language
to_language raw =
    if bytes_eq raw (codes "python")
    then python
    else if bytes_eq raw (codes "cpp")
    then cpp
    else if bytes_eq raw (codes "java")
    then java
    else other_language raw

abbrev pub max_submission_code_bytes : ℕ
max_submission_code_bytes = 65536

abbrev pub valid_code : Env → Bytes → Bool
valid_code e code =
    e.utf8_valid code
    && not (exists_row (λ c. c == 0) code)
    && not (bytes_eq (e.trim_space code) [])
    && leb (length code) max_submission_code_bytes

-- `SubmitCodeData.Validate`
unfoldable pub validate : Env → SubmitCodeData → Bool
unfolding bytes_eq
validate e d =
    valid_uuid e d.match_id
    && valid_uuid e d.request_id
    && is_supported (to_language d.language)
    && valid_code e d.code

abbrev pub whole_submit : Env → Json → Option (SubmitCodeData × Bytes) → Option SubmitCodeData
whole_submit e j none = none
whole_submit e j (some (d, rest)) =
    if not (j.at_eof rest) then none else if validate e d then some d else none

-- `DecodeSubmitCodeData`
unfoldable pub decode_submit_code_data : Env → Json → Bytes → Option SubmitCodeData
unfolding validate
decode_submit_code_data e j raw =
    if bytes_eq raw [] || bytes_eq (e.trim_space raw) null
    then none
    else if not (e.utf8_valid raw)
    then none
    else whole_submit e j (j.decode_submit raw)
