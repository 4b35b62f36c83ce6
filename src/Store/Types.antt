-- ===== src/Store/Types.antt =====
-- internal/store/types.go and the tables of internal/store/migrations.
use dist_task_queue.Prelude.{ℕ, ◌-◌, ◌*◌, ◌/◌, Bool, true, false, Option, List}
use dist_task_queue.Prelude.Tests.{Bytes}

-- The 16 bytes of a uuid.UUID, as a number.
abbrev pub Uuid : Type 0
Uuid = ℕ

-- A time.Time and a time.Duration in nanoseconds; the zero time is 0.
abbrev pub Time : Type 0
Time = ℕ

-- Time.Unix, from 1970 on.
abbrev pub unix_seconds : Time → ℕ
unix_seconds t = t / 1000000000 - 62135596800

pub data JobStatus : Type 0 where
  queued running done dead : JobStatus

abbrev pub is_status : JobStatus → JobStatus → Bool
is_status queued queued = true
is_status running running = true
is_status done done = true
is_status dead dead = true
is_status _ _ = false

pub record Job : Type 0 where
  pub id : Uuid
  pub user_id : Option Uuid
  pub gmail_message_id : Option Bytes
  pub stage : Bytes
  pub status : JobStatus
  pub payload : Bytes
  pub is_synthetic : Bool
  pub worker_id : Option Bytes
  pub attempts : ℕ
  pub max_attempts : ℕ
  pub last_error : Option Bytes
  pub next_run_at : Time
  pub claimed_at : Option Time
  pub completed_at : Option Time
  pub created_at : Time
  pub updated_at : Time

-- What TIMESTAMPTZ keeps of a time that the program sends: whole microseconds.
unfoldable pub to_micros : Time → Time
to_micros t = t / 1000 * 1000

pub record NewJob : Type 0 where
  pub stage : Bytes
  pub payload : Option Bytes
  pub user_id : Option Uuid
  pub gmail_message_id : Option Bytes
  pub is_synthetic : Bool

pub record User : Type 0 where
  pub id : Uuid
  pub email : Bytes
  pub created_at : Time

pub record OAuthToken : Type 0 where
  pub user_id : Uuid
  pub provider : Bytes
  pub access_ct : Bytes
  pub refresh_ct : Bytes
  pub expires_at : Time
  pub updated_at : Time

-- A row of gmail_sync_state.
pub record SyncState : Type 0 where
  pub user_id : Uuid
  pub history_id : Bytes
  pub updated_at : Time

-- The tables that the program reads and writes, each in its physical order.
pub record Db : Type 0 where
  pub jobs : List Job
  pub users : List User
  pub oauth_tokens : List OAuthToken
  pub gmail_sync_state : List SyncState
