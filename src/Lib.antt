-- ===== src/Lib.antt =====
-- DistTaskQueue: a pipeline that copies a user's mail from Gmail to Drive. Jobs are rows of the table
-- pipeline_jobs in Postgres; their ids wait in one Redis list for each stage; workers pop an id, claim
-- its row, run the stage's handler and settle the row; a sweeper gives the jobs of dead workers back;
-- a scheduler and a backfill enqueue new messages; an HTTP API enqueues synthetic ones.
--
-- World is the state that the processes share: a Redis, the four tables, the data directory, what the
-- remote services hold, and the number of service calls made so far. A Go function that calls a service
-- is a function of the world to a result and a world.
-- Every call runs under a fault of the environment: it is done, or it is an error that was lost before
-- or took effect before it (Services.Fault). Services has what comes from outside, each with the
-- documented behaviour that the code relies on: Redis, the file system, the clock, uuids and jsonb.
-- Services/Memory is a Redis and a disk that have this behaviour. A path is a root and the names below
-- it. Gmail, Drive and the PDF service are records of requests, each of which takes the world along.
--
-- The files and the code:
--   Store            internal/store: Store/Types the rows, Store/Jobs the methods on pipeline_jobs with
--                    their statements as functions on the tables, Store/Accounts users.go, oauth.go and
--                    gmail_sync.go. Store/Invariant, Lookup, Statements, Outcomes, Claims: theorems.
--   Queue            internal/queue/queue.go. Queue/Keys, Moves, Fifo, Reclaim: theorems.
--   Worker           internal/worker: Worker/Backoff Compute, Worker/Process ProcessOne, Run and
--                    heartbeatLoop, Worker/Noop NoopHandler, Worker/Id NewWorkerID.
--                    Worker/Outcome, Cycle, Invariant, Jitter: theorems.
--   Sweeper          internal/sweeper/sweeper.go. Sweeper/Invariant, Pushes, Reclaims,
--                    Living, Orphans: theorems.
--   Oauth            internal/oauth: crypto.go and token.go, over an AES-GCM given by its law.
--   Gmail            internal/gmail/client.go, over the requests as a parameter.
--   Scheduler        internal/scheduler/scheduler.go.
--   Backfill         internal/backfill: backfill.go and full.go.
--   Drive            internal/drive: client.go and cache.go. Drive/Shelf: theorems, over what a
--                    listing and a creation do to the entries that Drive holds.
--   Api              internal/api: Api/RateLimit ratelimit.go, Api/Demo demo.go, Api/Dashboard
--                    dashboard.go, Api/Metrics metrics.go, Api/Counts the maps and gauges by label that
--                    both fill. Api/Bound, Batch, Dashboard/Stats, Metrics/Refresh: theorems.
--   Handlers         internal/handler: Handlers/Fetch fetch.go, Handlers/Render render.go and
--                    internal/pdf, Handlers/Upload upload.go, Handlers/Mime mime.go, Handlers/Paths and
--                    Handlers/Folders paths.go, Handlers/Escape htmlEscape, Handlers/Disk their use of
--                    the data directory. Filename, Disk/Effects, Mime/Flat, Render/Files, Handoff,
--                    Upload/Chain, Invariant: theorems.
--   Commands         cmd: Commands the helpers, Commands/Worker cmd/worker, Commands/Daemons
--                    cmd/scheduler, cmd/backfill, cmd/sweeper and cmd/api, Commands/Setup
--                    cmd/oauth-setup.
--   Prelude          shared names, Boolean tests, lists, and strconv's decimal numbers.
--   Tests            the theorems at concrete inputs.
--
-- Bounds and fuel. ReclaimProcessing loops for one round more than its list is long, since each round but
-- the last moves one element. ListProcessing follows SCAN for the number of pages that the server needs.
-- Worker.run, the listings of Gmail and the waits of RunFull take the number of their rounds as an
-- argument, since nothing in the code bounds them; a listing or a wait that is longer ends in an error.
-- Run of the scheduler, the backfill and the sweeper, and heartbeatLoop, take the number of ticks before
-- they are cancelled. The listings of heartbeats follow SCAN like ListProcessing. The walk over a message has no fuel: a reader is
-- the finite tree of what NextPart gives for it.
--
-- Exact where the code is not: Compute and the token bucket use rational numbers for float64. Integers of
-- Go and Postgres are natural numbers without a bound, since no value of the code comes near one, but for
-- the times that the commands read in seconds or hours, whose products wrap around in 64 bits
-- (Prelude/Int64). Postgres keeps microseconds of a time that the program sends (to_micros).
--
-- Not modelled: what other processes do between two calls of one function, and what heartbeatLoop, which is
-- modelled alone, does between two calls of Run; error texts; a text that Postgres refuses as the error of a
-- job (a byte 0, invalid UTF-8); the zone of a message's date, in which the HTML prints it; a command at a
-- Redis key of another type; the wiring of HTTP clients in New of gmail and drive; routes, the dashboard's
-- page, the text of /metrics and the ticker that refreshes it; signals and the two goroutines of
-- cmd/scheduler; the migration runner.
pub mod Prelude
pub mod Services
pub mod World
pub mod Store
pub mod Queue
pub mod Worker
pub mod Sweeper
pub mod Oauth
pub mod Gmail
pub mod Drive
pub mod Scheduler
pub mod Backfill
pub mod Api
pub mod Handlers
pub mod Commands
mod Tests
