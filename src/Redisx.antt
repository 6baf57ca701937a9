-- ===== src/Redisx.antt =====
-- internal/redisx: the state that the process keeps in Redis.
pub mod Keys
pub mod JudgeQueue
pub mod Member
pub mod Delivery
pub mod Scripts
pub mod Queue
pub mod SortedSet
pub mod QueueOk
pub mod Fifo
pub mod Pairing
pub mod Spared
use code_duel.Base.{ℕ, Bytes, Bool, Option, List}

-- A field of a stream entry as go-redis hands it over: `map[string]any`.
pub data FieldValue : Type 0 where
  text blob : Bytes → FieldValue
  other_value : FieldValue

-- An entry identifier is a number, and 0 is the empty string.
pub record StreamEntry : Type 0 where
  pub entry_id : ℕ
  pub fields : List (Bytes × FieldValue)

-- An entry of the consumer group's pending list.
pub record PendingEntry : Type 0 where
  pub entry_id : ℕ
  pub consumer : Bytes
  pub delivered_at : ℕ

-- The stream codeduel:judge:jobs with its one consumer group codeduel:judges.
pub record Stream : Type 0 where
  pub entries : List StreamEntry
  pub pending : List PendingEntry
  pub last_id : ℕ
  pub last_delivered : ℕ

-- The sorted set of queued members in its order, the hash from user to member, the last score,
-- and the presence keys that exist.
pub record QueueState : Type 0 where
  pub ordered : List (Bytes × ℕ)
  pub members : Bytes → Option Bytes
  pub last_score : ℕ
  pub presence : List Bytes

pub record QueueMember : Type 0 where
  pub user_id : ℕ
  pub presence : Bytes
  pub route : Bytes
  pub rating : ℕ

-- What a Lua script sees of a decoded member: its text fields, and whether its rating is a number.
-- A field of another type counts as absent; the code of this repository writes none.
pub record LuaMember : Type 0 where
  pub user_id : Option Bytes
  pub presence : Option Bytes
  pub route : Option Bytes
  pub has_rating : Bool
