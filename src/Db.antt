-- ===== src/Db.antt =====
-- The PostgreSQL tables of infrastructure/migrations that the roles read and write, one record for
-- a row. An identifier is a number and 0 is uuid.Nil; a time is a number of microseconds; a column
-- that may be NULL is an Option.
pub mod Triggers
pub mod Lifecycle
pub mod Invariant
pub mod SubmissionRows
pub mod MatchRows
pub mod Statements
pub mod Columns
pub mod Finish
use code_duel.Base.{ℕ, Bytes, Bool, true, false, Option, none, some, List}

-- The Go code switches on text columns with a `default` case, so each type has an `other` value.
pub data Language : Type 0 where
  python cpp java : Language
  other_language : Bytes → Language

pub data SubmissionStatus : Type 0 where
  pending running completed : SubmissionStatus
  other_status : Bytes → SubmissionStatus

pub data MatchStatus : Type 0 where
  active finished : MatchStatus
  other_match_status : Bytes → MatchStatus

pub data Verdict : Type 0 where
  pass fail error timeout failed : Verdict
  other_verdict : Bytes → Verdict

pub data FailureKind : Type 0 where
  wrong_answer compile_error runtime_error output_limit infrastructure_error : FailureKind
  other_failure : Bytes → FailureKind

pub record Submission : Type 0 where
  pub id : ℕ
  pub match_id : ℕ
  pub player_id : ℕ
  pub request_id : ℕ
  pub language : Language
  pub code : Bytes
  pub status : SubmissionStatus
  pub result : Option Verdict
  pub failure_kind : Option FailureKind
  pub tests_passed : ℕ
  pub attempts : ℕ
  pub attempt_token : Option ℕ
  pub lease_until : Option ℕ
  pub last_enqueued_at : Option ℕ
  pub created_at : ℕ
  pub finished_at : Option ℕ

pub record Match : Type 0 where
  pub id : ℕ
  pub problem_id : ℕ
  pub status : MatchStatus
  pub winner_id : Option ℕ
  pub deadline : ℕ
  pub created_at : ℕ

pub record MatchPlayer : Type 0 where
  pub match_id : ℕ
  pub user_id : ℕ
  pub slot : ℕ

-- active_match_players: its primary key is the user.
pub record ActiveClaim : Type 0 where
  pub user_id : ℕ
  pub match_id : ℕ

-- `test_cases` is the stored JSON text.
pub record Problem : Type 0 where
  pub id : ℕ
  pub test_cases : Bytes
  pub created_at : ℕ

pub record Db : Type 0 where
  pub users : List ℕ
  pub problems : List Problem
  pub matches : List Match
  pub match_players : List MatchPlayer
  pub active_claims : List ActiveClaim
  pub submissions : List Submission

abbrev pub is_pending : SubmissionStatus → Bool
is_pending pending = true
is_pending _ = false

abbrev pub is_running : SubmissionStatus → Bool
is_running running = true
is_running _ = false

abbrev pub is_completed : SubmissionStatus → Bool
is_completed completed = true
is_completed _ = false

abbrev pub is_active : MatchStatus → Bool
is_active active = true
is_active _ = false

abbrev pub is_pass : Verdict → Bool
is_pass pass = true
is_pass _ = false

abbrev pub is_none {ℓ} : {A : Type ℓ} → Option A → Bool
is_none none = true
is_none (some a) = false
