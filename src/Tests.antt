-- ===== src/Tests.antt =====
-- The theorems at concrete inputs: two jobs, one user and a worker of the stage "fetch", over the
-- environment of `Services.Memory` in which no call fails.
mod Pipeline
mod Mail
mod Drive
mod Handlers
mod Programs
use dist_task_queue.Prelude.{
  ℕ, ◌≡◌, ◌≢◌, refl, Bool, true, false, Option, none, some, List, [], ◌∷◌, ◌++◌, arith, inl, inr,
}
use dist_task_queue.Prelude.Tests.{Bytes, bytes_eq}
use dist_task_queue.Prelude.Decimal.{parse_uint, format_uint, parse_uint-format_uint}
use dist_task_queue.Services.{fine}
use dist_task_queue.Services.Memory.{Memory, calm_env, lrange}
use dist_task_queue.World.{World, Calm, ok, err}
use dist_task_queue.Store.Types.{Job, User, Db, queued, running}
use dist_task_queue.Store.Jobs.{index_ok, indexed, clash, find_job}
use dist_task_queue.Store.Invariant.{Inv, write, claim, write-Inv}
use dist_task_queue.Store.Claims.{winners, claim_race}

abbrev pub fetch : Bytes
fetch = b'f' ∷ b'e' ∷ b't' ∷ b'c' ∷ b'h' ∷ []

abbrev pub alice : Bytes
alice = b'a' ∷ b'-' ∷ b'1' ∷ []

abbrev pub bob : Bytes
bob = b'b' ∷ b'-' ∷ b'2' ∷ []

abbrev pub job_7 : Job
job_7 = record {
  id = 7;
  user_id = some 1;
  gmail_message_id = some (b'm' ∷ []);
  stage = fetch;
  status = queued;
  payload = b'{' ∷ b'}' ∷ [];
  is_synthetic = false;
  worker_id = none;
  attempts = 0;
  max_attempts = 8;
  last_error = none;
  next_run_at = 0;
  claimed_at = none;
  completed_at = none;
  created_at = 0;
  updated_at = 0;
}

abbrev pub job_8 : Job
job_8 = record job_7 { id = 8; gmail_message_id = some (b'n' ∷ []) }

abbrev pub tables : Db
tables = record {
  jobs = job_7 ∷ job_8 ∷ [];
  users = record { id = 1; email = b'u' ∷ []; created_at = 0 } ∷ [];
  oauth_tokens = [];
  gmail_sync_state = [];
}

pub tables-Inv : Inv tables
unfolding index_ok indexed clash bytes_eq
tables-Inv = record { rows = ground arith; ids = ground arith; index = refl }

pub calm : Calm calm_env
calm n = refl

pub find_job_7 : find_job 7 tables.jobs ≡ some job_7
unfolding find_job
find_job_7 = refl

claim_race_example : winners 7 ((alice, 5) ∷ (bob, 6) ∷ (alice, 7) ∷ []) tables ≡ alice ∷ []
claim_race_example =
    claim_race 7 alice 5 ((bob, 6) ∷ (alice, 7) ∷ []) tables job_7 tables-Inv find_job_7 refl

abbrev pub start : World calm_env
start = record {
  redis = record { lists = []; texts = [] };
  db = tables;
  disk = [];
  outside = tt;
  calls = 0;
}

write-Inv_example : Inv (write calm_env (claim 7 alice) start).db
write-Inv_example = write-Inv calm_env (claim 7 alice) start tables-Inv
