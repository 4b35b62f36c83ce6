-- ===== src/Store/Claims.antt =====
-- Claims of one job by several workers.
use dist_task_queue.Prelude.{◌≡◌, ◌≢◌, refl, List, [], ◌∷◌, some, arith}
use dist_task_queue.Prelude.Tests.{Bytes}
use dist_task_queue.World.{Result, ok, err}
use dist_task_queue.Store.Types.{Uuid, Time, queued, Job, Db}
use dist_task_queue.Store.Jobs.{claimed, claim_stmt, find_job}
use dist_task_queue.Store.Invariant.{Inv, claim_stmt-Inv}
use dist_task_queue.Store.Statements.{claim_stmt-Done, claim_stmt_refused}

-- The workers whose claim of the job succeeds, when these claim it one after the other.
abbrev won : Bytes → Result (Unit {0}) → List Bytes → List Bytes
won worker (ok u) rest = worker ∷ rest
won worker (err x) rest = rest

pub winners : Uuid → List (Bytes × Time) → Db → List Bytes
winners id [] db = []
winners id ((worker, now) ∷ claims) db =
    let rest = winners id claims (claim_stmt id worker now db).1 in
    won worker (claim_stmt id worker now db).0 rest

module _ (id : Uuid) where
  winners_refused :
      (claims : List (Bytes × Time)) (db : Db) (j : Job)
      → Inv db
      → find_job id db.jobs ≡ some j
      → j.status ≢ queued
      → winners id claims db ≡ []
  unfolding winners
  winners_refused [] db j v h s = refl
  winners_refused ((worker, now) ∷ claims) db j v h s =
      rw (claim_stmt_refused id now db v j h worker s) (winners_refused claims db j v h s)

  -- In a well-formed table, of all the claims of a queued job, in any order, by whichever workers, the first one succeeds
  -- and every later one is refused.
  pub claim_race :
      (worker : Bytes) (now : Time) (claims : List (Bytes × Time)) (db : Db) (j : Job)
      → Inv db
      → find_job id db.jobs ≡ some j
      → j.status ≡ queued
      → winners id ((worker, now) ∷ claims) db ≡ worker ∷ []
  unfolding winners
  claim_race worker now claims db j v h s =
      let (done, become) = claim_stmt-Done id now db v j h worker s in
      let now_running : find_job id (claim_stmt id worker now db).1.jobs
          ≡ some (claimed worker now j) =
        ground (arith, become id) in
      rw
        (
          done,
          winners_refused claims _ (claimed worker now j) (claim_stmt-Inv id worker now db v)
              now_running (λ e. cc),
        )
        refl
