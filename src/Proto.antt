-- ===== src/Proto.antt =====
-- internal/proto/messages.go: the payloads that the server sends. An identifier stands for its
-- text, and an omitted field is `none`. JSON itself is encoding/json's.
pub mod EventId
pub mod Inbound
use code_duel.Base.{ℕ, Bytes, Bool, Option}
use code_duel.Db.{Verdict, FailureKind}

pub data Outcome : Type 0 where
  win loss draw : Outcome

pub record MatchStartData : Type 0 where
  pub match_id : ℕ
  pub problem_id : ℕ
  pub deadline : ℕ

pub record ResultData : Type 0 where
  pub event_id : ℕ
  pub request_id : ℕ
  pub submission_id : ℕ
  pub match_id : ℕ
  pub player_id : ℕ
  pub verdict : Verdict
  pub tests_passed : ℕ
  pub total_tests : ℕ
  pub winner_id : Option ℕ
  pub outcome : Option Outcome
  pub failure_kind : Option FailureKind

pub record MatchEndData : Type 0 where
  pub event_id : ℕ
  pub match_id : ℕ
  pub winner_id : Option ℕ
  pub outcome : Outcome
  pub tests_passed : ℕ
  pub total_tests : ℕ

pub record ErrorData : Type 0 where
  pub code : Option Bytes
  pub message : Bytes
  pub match_id : Option ℕ
  pub request_id : Option Bytes

pub record JudgingData : Type 0 where
  pub request_id : Bytes
  pub submission_id : ℕ

-- An envelope: its type and its data.
pub data Envelope : Type 0 where
  ready : ℕ → Envelope
  queued : Envelope
  queue_left : Bool → Envelope
  match_start : MatchStartData → Envelope
  judging : JudgingData → Envelope
  result : ResultData → Envelope
  match_end : MatchEndData → Envelope
  error : ErrorData → Envelope

-- One message on a Pub/Sub channel.
pub record Delivery : Type 0 where
  pub channel : Bytes
  pub payload : Envelope
