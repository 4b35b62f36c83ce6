-- ===== src/Tests/Pipeline.antt =====
-- The theorems on queues, workers and the sweeper at concrete inputs.
use mathlib.Core.List.{Perm}
use dist_task_queue.Prelude.{
  Option, ℕ, sym, ◌∙◌, ◌≢◌, ◌≡◌, ◌⊎◌, refl, true, none, some, List, [], ◌∷◌, ◌++◌, arith, Memᴰ, ◌*◌,
  ◌≤◌,
}
use dist_task_queue.Prelude.Tests.{Bytes, bytes_eq}
use dist_task_queue.Services.Memory.{calm_env, get, text_at, lrange, list_at, parse_uuid}
use dist_task_queue.World.{World, ok, err, bad_id, tick, empty}
use dist_task_queue.Store.Types.{Db, Job, running}
use dist_task_queue.Store.Jobs.{index_ok, indexed, clash, find_job, done_stmt, fail_stmt}
use dist_task_queue.Store.Invariant.{Inv}
use dist_task_queue.Store.Lookup.{Becomes}
use dist_task_queue.Store.Statements.{Done}
use dist_task_queue.Store.Outcomes.{IsFinished, IsFailed, done_stmt_lem, fail_stmt_lem}
use dist_task_queue.Sweeper.Pushes.{IsStale, Waits, repush_stale-Waits}
use dist_task_queue.Queue.{
  key, processing_key, heartbeat_key, blocking_pop, reclaim_processing, parse_ref,
}
use dist_task_queue.Queue.Keys.{NoColon, parse_ref-processing_key}
use dist_task_queue.Queue.Moves.{
  waiting, held, in_redis, blocking_pop_perm, reclaim_processing_perm,
}
use dist_task_queue.Queue.Fifo.{fifo, blocking_pop_lem}
use dist_task_queue.Queue.Reclaim.{Reclaimed, reclaim_processing-Reclaimed}
use dist_task_queue.Worker.Process.{Config, process_one}
use dist_task_queue.Worker.Outcome.{next_row, next_redis, held_row, answer}
use dist_task_queue.Worker.Cycle.{
  popped_world, process_one_bad_id, process_one_lem, process_one_lost,
}
use dist_task_queue.Sweeper
use dist_task_queue.Sweeper.Reclaims.{Dead, reclaim_pass-Dead}
use dist_task_queue.Sweeper.Orphans.{revive_orphans-Living}
use dist_task_queue.Worker.Id.{
  Byte, new_worker_id, host_or_unknown, without_dashes, new_worker_id-inj,
}
use dist_task_queue.Sweeper.Living.{Living, reclaim_pass-Living}
use dist_task_queue.Sweeper.{revive_orphans, reclaim_pass, sweep_once, repush_stale}
use dist_task_queue.Worker.Backoff.{base_seconds, compute}
use dist_task_queue.Worker.Jitter.{compute_range}
use dist_task_queue.Prelude.Lists.{All}
use dist_task_queue.Tests.{
  fetch, alice, bob, job_7, job_8, tables, tables-Inv, calm, start, find_job_7,
}

-- A worker of the stage "fetch" whose handler passes each job on to "render".
abbrev worker : Config calm_env
worker = record {
  stage = fetch;
  worker_id = alice;
  handler = λ j w. ((b'r' ∷ [], none), w);
  heartbeat_ttl = 15000000000;
  jitter = λ n. 250;
}

-- Job 7 waits in the queue.
abbrev loaded : World calm_env
loaded = record start { redis = record { lists = (key fetch, (7 ∷ []) ∷ []) ∷ []; texts = [] } }

loaded-waiting : waiting fetch loaded ≡ [] ++ (7 ∷ []) ∷ []
unfolding lrange list_at key bytes_eq
loaded-waiting = refl

parsed_7 : parse_uuid (7 ∷ []) ≡ some 7
unfolding parse_uuid
parsed_7 = refl

abbrev popped_7 : World calm_env
popped_7 = popped_world worker calm loaded (7 ∷ []) [] loaded-waiting

process_one_lem_example :
    let (a, seen) = answer worker calm 7 job_7 popped_7 in
    ((process_one worker loaded).0 ≡ ok true)
    × Becomes 7
        (next_row worker a (held_row worker calm 7 job_7 popped_7) seen)
        tables
        (process_one worker loaded).1.db
    × (held fetch alice (process_one worker loaded).1 ≡ held fetch alice loaded)
    × ((s : Bytes)
        → waiting s (process_one worker loaded).1
          ≡ lrange (key s) (next_redis worker a 7 popped_7.redis))
process_one_lem_example =
    process_one_lem worker calm loaded (7 ∷ []) [] loaded-waiting 7 job_7 parsed_7 tables-Inv
      find_job_7 refl (λ j w. (refl, refl))

-- Job 7 runs already.
abbrev taken : Db
taken = record tables { jobs = record job_7 { status = running; worker_id = some bob } ∷ [] }

taken-Inv : Inv taken
unfolding index_ok indexed clash bytes_eq
taken-Inv = record { rows = ground arith; ids = ground arith; index = refl }

find_taken : find_job 7 taken.jobs ≡ some (record job_7 { status = running; worker_id = some bob })
unfolding find_job
find_taken = refl

abbrev loaded_taken : World calm_env
loaded_taken = record loaded { db = taken }

process_one_lost_example :
    ((process_one worker loaded_taken).0 ≡ ok true)
    × ((process_one worker loaded_taken).1.db ≡ taken)
    × (held fetch alice (process_one worker loaded_taken).1 ≡ held fetch alice loaded_taken)
process_one_lost_example =
    process_one_lost worker calm loaded_taken (7 ∷ []) [] loaded-waiting 7
      (record job_7 { status = running; worker_id = some bob }) parsed_7 taken-Inv find_taken
      (λ h. cc)

-- Two bytes are no id in the environment of `Services.Memory`.
abbrev garbage : World calm_env
garbage = record start {
  redis = record { lists = (key fetch, (7 ∷ 8 ∷ []) ∷ []) ∷ []; texts = [] };
}

garbage-waiting : waiting fetch garbage ≡ [] ++ (7 ∷ 8 ∷ []) ∷ []
unfolding lrange list_at key bytes_eq
garbage-waiting = refl

unparsed : parse_uuid (7 ∷ 8 ∷ []) ≡ none
unfolding parse_uuid
unparsed = refl

process_one_bad_id_example :
    ((process_one worker garbage).0 ≡ err bad_id)
    × ((process_one worker garbage).1.db ≡ tables)
    × (held fetch alice (process_one worker garbage).1 ≡ held fetch alice garbage)
process_one_bad_id_example =
    process_one_bad_id worker calm garbage (7 ∷ 8 ∷ []) [] garbage-waiting unparsed

start-waiting : waiting fetch start ≡ []
unfolding lrange list_at
start-waiting = refl

blocking_pop_perm_example :
    Perm
      (in_redis fetch alice (blocking_pop calm_env fetch alice loaded).1)
      (in_redis fetch alice loaded)
blocking_pop_perm_example = blocking_pop_perm calm_env fetch alice loaded

reclaim_processing_perm_example :
    Perm
      (in_redis fetch alice (reclaim_processing calm_env fetch alice loaded).1)
      (in_redis fetch alice loaded)
reclaim_processing_perm_example = reclaim_processing_perm calm_env fetch alice loaded

reclaim_processing-Reclaimed_example :
    Reclaimed calm_env calm fetch alice 0 loaded (reclaim_processing calm_env fetch alice loaded)
reclaim_processing-Reclaimed_example = reclaim_processing-Reclaimed calm_env calm fetch alice loaded

blocking_pop_lem_example :
    ((fifo calm_env calm fetch alice loaded ≡ [])
      × (blocking_pop calm_env fetch alice loaded ≡ (err empty, tick calm_env loaded)))
    ⊎ ((job : Bytes) × (rest : List Bytes) × (fifo calm_env calm fetch alice loaded ≡ job ∷ rest)
        × ((blocking_pop calm_env fetch alice loaded).0 ≡ ok job)
        × (fifo calm_env calm fetch alice (blocking_pop calm_env fetch alice loaded).1 ≡ rest)
        × (held fetch alice (blocking_pop calm_env fetch alice loaded).1
            ≡ job ∷ held fetch alice loaded))
blocking_pop_lem_example = blocking_pop_lem calm_env calm fetch alice loaded

-- Job 7 as Bob runs it.
abbrev taken_7 : Job
taken_7 = record job_7 { status = running; worker_id = some bob }

done_stmt_lem_example : (r : Job) × IsFinished 5 taken_7 r × Done 7 r taken (done_stmt 7 5 taken)
done_stmt_lem_example = done_stmt_lem 7 5 taken taken-Inv taken_7 find_taken

fail_stmt_lem_example :
    (r : Job) × IsFailed (b'x' ∷ []) 9999 5 taken_7 r
    × Done 7 r taken (fail_stmt 7 (b'x' ∷ []) 9999 5 taken)
fail_stmt_lem_example = fail_stmt_lem 7 5 taken taken-Inv taken_7 (b'x' ∷ []) 9999 find_taken refl

fetch-NoColon : NoColon fetch
fetch-NoColon = ground arith

parse_ref-processing_key_example :
    parse_ref (processing_key fetch (b'a' ∷ b':' ∷ []))
    ≡ some (record { stage = fetch; worker_id = b'a' ∷ b':' ∷ [] })
parse_ref-processing_key_example = parse_ref-processing_key fetch (b'a' ∷ b':' ∷ []) fetch-NoColon

-- Job 7 has failed once and is due again.
abbrev retrying : World calm_env
retrying = record start {
  db = record tables { jobs = record job_7 { last_error = some (b'x' ∷ []); attempts = 1 } ∷ [] };
}

-- The sweeper's configuration of cmd/sweeper.
abbrev minute : Sweeper.Config
minute = Sweeper.new (record { interval = 0; stale_threshold = 0 })

repush_stale-Waits_example :
    ((repush_stale calm_env minute start).0 ≡ ok tt)
    × ((j : Job)
        → Memᴰ j tables.jobs
        → IsStale 60000000000 70000000000000000000 j
        → Waits calm_env calm (repush_stale calm_env minute start).1 j)
    × ((x s : Bytes)
        → Memᴰ x (waiting s (repush_stale calm_env minute start).1)
        → Memᴰ x (waiting s start)
          ⊎ ((j : Job) × Memᴰ j tables.jobs
              × IsStale 60000000000 70000000000000000000 j
              × (j.stage ≡ s)
              × (x ≡ calm_env.format_uuid j.id)))
unfolding Sweeper.new
repush_stale-Waits_example = repush_stale-Waits calm_env calm minute start

compute_range_example :
    (base_seconds 3 * 750000000 ≤ compute 5 3)
    × (compute 5 3 ≤ base_seconds 3 * 1250000000)
    × (1500000000 ≤ compute 5 3)
    × (compute 5 3 ≤ 750000000000)
compute_range_example = compute_range 5 3 (omega arith)

-- Alice holds job 7, and Bob job 9.
abbrev both_hold : World calm_env
both_hold = record start {
  redis = record {
    lists =
        (processing_key fetch bob, (9 ∷ []) ∷ [])
        ∷ (processing_key fetch alice, (7 ∷ []) ∷ [])
        ∷ [];
    texts = (heartbeat_key bob, λ t. some (b'1' ∷ [])) ∷ [];
  };
}

alice-Dead : Dead calm_env calm fetch alice both_hold.redis
unfolding get text_at lrange list_at heartbeat_key processing_key bytes_eq
alice-Dead = record { silent = λ t. refl; no_list = refl }

reclaim_pass-Dead_example :
    ((reclaim_pass calm_env both_hold).0 ≡ ok tt)
    × (held fetch alice (reclaim_pass calm_env both_hold).1 ≡ [])
reclaim_pass-Dead_example =
    reclaim_pass-Dead calm_env calm fetch alice both_hold fetch-NoColon alice-Dead

bob_beats : (n : ℕ) → get (heartbeat_key bob) (calm_env.now n) both_hold.redis ≡ some (b'1' ∷ [])
unfolding get text_at heartbeat_key bytes_eq
bob_beats n = refl

bob-Living : Living calm_env calm fetch bob both_hold.redis
unfolding lrange list_at heartbeat_key processing_key bytes_eq
bob-Living = record { beats = λ n x. absurd (missing (sym (bob_beats n) ∙ x)); no_list = refl }
  where
    missing : {v : Bytes} → some v ≢ none
    missing x = cc

reclaim_pass-Living_example :
    held fetch bob (reclaim_pass calm_env both_hold).1 ≡ held fetch bob both_hold
reclaim_pass-Living_example =
    reclaim_pass-Living calm_env calm fetch bob both_hold fetch-NoColon bob-Living

-- Bob runs job 7, and Alice, who has no heartbeat, runs job 8.
abbrev both_run : World calm_env
both_run = record both_hold {
  db = record tables {
    jobs = taken_7 ∷ record job_8 { status = running; worker_id = some alice } ∷ [];
  };
}

both_run-Inv : Inv both_run.db
unfolding index_ok indexed clash bytes_eq
both_run-Inv = record { rows = ground arith; ids = ground arith; index = refl }

find_both : find_job 7 both_run.db.jobs ≡ some taken_7
unfolding find_job
find_both = refl

revive_orphans-Living_example :
    find_job 7 (revive_orphans calm_env both_run).1.db.jobs ≡ some taken_7
revive_orphans-Living_example =
    revive_orphans-Living calm_env calm fetch bob 7 taken_7 both_run both_run-Inv find_both refl
      bob-Living

abbrev two_bytes : Bytes
two_bytes = 7 ∷ 255 ∷ []

two_bytes-All : All Byte two_bytes
two_bytes-All = ground arith

-- The hosts "a-" and "a".
abbrev dashed_host : Option Bytes
dashed_host = some (b'a' ∷ b'-' ∷ [])

abbrev plain_host : Option Bytes
plain_host = some (b'a' ∷ [])

same_ids : new_worker_id dashed_host two_bytes ≡ new_worker_id plain_host two_bytes
unfolding new_worker_id without_dashes
same_ids = refl

new_worker_id-inj_example :
    (without_dashes (host_or_unknown dashed_host) ≡ without_dashes (host_or_unknown plain_host))
    × (two_bytes ≡ two_bytes)
new_worker_id-inj_example =
    new_worker_id-inj dashed_host plain_host two_bytes two_bytes two_bytes-All two_bytes-All
      same_ids
