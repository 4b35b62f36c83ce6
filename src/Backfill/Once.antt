-- ===== src/Backfill/Once.antt =====
-- enqueueOne against the rows of the table, and the counts of RunFull.
use dist_task_queue.Prelude.{
  ℕ, suc, ◌+◌, ◌≡◌, refl, Bool, true, false, Option, none, List, [], ◌∷◌, ◌++◌, arith, inl, inr,
}
use dist_task_queue.Prelude.Tests.{Bytes, bytes_eq_refl, ==_iff, Bool-cases, Option-cases}
use dist_task_queue.Prelude.Lists.{length, exists}
use dist_task_queue.Services.{Env, fine}
use dist_task_queue.World.{
  World, Result, ok, err, Error, duplicate_job, call_fine, call_ok, call_cases, tick,
}
use dist_task_queue.Store.Types.{Uuid, Time, Job, Db}
use dist_task_queue.Store.Jobs.{
  is_for_message, has_job_for_message, enqueue_job, insert_stmt, insert_row, new_row, has_id, clash,
  user_known,
}
use dist_task_queue.Queue.{push, redis_call}
use dist_task_queue.Gmail.{Gmail}
use dist_task_queue.Scheduler.{fetch_job, fetch_stage}
use dist_task_queue.Backfill.{
  Progress, enqueue_one, on_known, on_enqueued, on_pushed, enqueue_all, counted,
}

-- Whether a row of the table is for the message.
abbrev pub known : Uuid → Bytes → Db → Bool
known user msg db = exists (is_for_message user msg) db.jobs

exists-snoc :
    (p : Job → Bool) (js : List Job) (j : Job) → p j ≡ true → exists p (js ++ j ∷ []) ≡ true
exists-snoc p [] j h = ground arith
exists-snoc p (i ∷ js) j h = ground (arith, exists-snoc p js j h)

fetch_row_known :
    (user : Uuid) (msg : Bytes) (id : Uuid) (t : Time) (p : Bytes)
    → is_for_message user msg (new_row id t p (fetch_job user msg)) ≡ true
fetch_row_known user msg id t p = ground (arith, bytes_eq_refl msg, ==_iff user user)

insert_row-known :
    (user : Uuid) (msg : Bytes) (row j : Job) (db : Db)
    → is_for_message user msg row ≡ true
    → (insert_row row db).0 ≡ ok j
    → known user msg (insert_row row db).1 ≡ true
unfolding insert_row
insert_row-known user msg row j db h = elim (Bool-cases (exists (has_id row.id) db.jobs)) [
  | inl e ↦ rw e (λ r. cc)
  | inr e ↦ elim (Bool-cases (exists (clash row) db.jobs)) [
    | inl c ↦ rw (e, c) (λ r. cc)
    | inr c ↦ elim (Bool-cases (user_known row.user_id db.users)) [
      | inl u ↦ rw (e, c, u) (λ r. exists-snoc (is_for_message user msg) db.jobs row h)
      | inr u ↦ rw (e, c, u) (λ r. cc)
    ]
  ]
]

insert_stmt-known :
    (jsonb : Bytes → Option Bytes) (id : Uuid) (t : Time) (user : Uuid) (msg : Bytes) (j : Job)
    (db : Db)
    → (insert_stmt jsonb id t (fetch_job user msg) db).0 ≡ ok j
    → known user msg (insert_stmt jsonb id t (fetch_job user msg) db).1 ≡ true
unfolding insert_stmt
insert_stmt-known jsonb id t user msg j db = elim (Option-cases (jsonb (b'{' ∷ b'}' ∷ []))) [
  | inl n ↦ rw (n, insert_stmt) (λ r. cc)
  | inr (p, s) ↦
      rw (s, insert_stmt)
        (insert_row-known user msg (new_row id t p (fetch_job user msg)) j db
          (fetch_row_known user msg id t p))
]

module _ {e : Env} (g : Gmail e) (user : Uuid) (msg : Bytes) where
  enqueue_job-known :
      (j : Job) (w : World e)
      → (enqueue_job e (fetch_job user msg) w).0 ≡ ok j
      → known user msg (enqueue_job e (fetch_job user msg) w).1.db ≡ true
  unfolding enqueue_job
  enqueue_job-known j w h = rw (call_ok e _ j w h) (
      insert_stmt-known e.jsonb (e.new_uuid w.calls) (e.now w.calls) user msg j w.db
        (rw (call_ok e _ j w h) at h))

  redis_call-known :
      {A : Type 0} (op : Time → e.redis.State → A × e.redis.State) (w : World e)
      → known user msg w.db ≡ true
      → known user msg (redis_call e op w).1.db ≡ true
  redis_call-known op w h = call_cases e (λ v. known user msg v.db ≡ true) _ w h h

  push-known :
      (stage job : Bytes) (w : World e)
      → known user msg w.db ≡ true
      → known user msg (push e stage job w).1.db ≡ true
  unfolding push
  push-known stage job w = redis_call-known _ w

  on_pushed-known :
      (r : Result (Unit {0}) × World e)
      → known user msg r.1.db ≡ true
      → known user msg (on_pushed g r).1.db ≡ true
  on_pushed-known (err x, w) h = h
  on_pushed-known (ok u, w) h = h

  on_enqueued-known :
      (r : Result Job × World e)
      → ((j : Job) → r.0 ≡ ok j → known user msg r.1.db ≡ true)
      → (on_enqueued g r).0 ≡ ok true
      → known user msg (on_enqueued g r).1.db ≡ true
  on_enqueued-known (ok j, w) keep h =
      on_pushed-known (push e fetch_stage (e.format_uuid j.id) w)
        (push-known fetch_stage (e.format_uuid j.id) w (keep j refl))
  on_enqueued-known (err duplicate_job, w) keep h = cc
  on_enqueued-known (err _, w) keep h = cc

  -- Whichever calls fail, an enqueueOne that reports the message as enqueued leaves a row for it.
  enqueue_one-known :
      (w : World e)
      → (enqueue_one g user msg w).0 ≡ ok true
      → known user msg (enqueue_one g user msg w).1.db ≡ true
  unfolding enqueue_one has_job_for_message
  enqueue_one-known w = by_answer (has_job_for_message e user msg w)
    where
      by_answer :
          (r : Result Bool × World e)
          → (on_known g user msg r).0 ≡ ok true
          → known user msg (on_known g user msg r).1.db ≡ true
      by_answer (err x, v) h = cc
      by_answer (ok true, v) h = cc
      by_answer (ok false, v) h =
          on_enqueued-known (enqueue_job e (fetch_job user msg) v) (λ j. enqueue_job-known j v) h

  -- A known message is skipped, and no table changes.
  enqueue_one_skips :
      (w : World e)
      → e.fault w.calls ≡ fine
      → known user msg w.db ≡ true
      → enqueue_one g user msg w ≡ (ok false, tick e w)
  unfolding enqueue_one has_job_for_message
  enqueue_one_skips w f h = rw (call_fine e _ w f, h) refl

  -- If enqueueOne reports the message as enqueued, whichever of its calls fail, an enqueueOne of it
  -- directly behind that finds it, if its query does not fail: it skips the message, makes one call
  -- and changes neither Redis nor the tables.
  pub enqueue_one_again :
      (w : World e)
      → (enqueue_one g user msg w).0 ≡ ok true
      → e.fault (enqueue_one g user msg w).1.calls ≡ fine
      → enqueue_one g user msg (enqueue_one g user msg w).1
        ≡ (ok false, tick e (enqueue_one g user msg w).1)
  enqueue_one_again w h f = enqueue_one_skips (enqueue_one g user msg w).1 f (enqueue_one-known w h)

module _ {e : Env} (g : Gmail e) where
  -- What a page's loop has counted, if it ends with no error.
  abbrev Counts : Progress → ℕ → (Option Error × Progress) × World e → Type 0
  Counts p n r = r.0.0 ≡ none → r.0.1.enqueued + r.0.1.skipped ≡ p.enqueued + p.skipped + n

  counted_step :
      (again : Progress → World e → (Option Error × Progress) × World e) (n : ℕ) (p : Progress)
      (r : Result Bool × World e)
      → ((q : Progress) (w : World e) → Counts q n (again q w))
      → Counts p (suc n) (counted g again p r)
  counted_step again n p (err x, v) keep h = cc
  counted_step again n p (ok true, v) keep h =
      omega (arith, keep (record p { enqueued = p.enqueued + 1 }) v h)
  counted_step again n p (ok false, v) keep h =
      omega (arith, keep (record p { skipped = p.skipped + 1 }) v h)

  -- If RunFull's loop over a page ends with no error, it has counted each of the page's messages once,
  -- as enqueued or as skipped, whichever calls fail.
  pub enqueue_all_counts :
      (user : Uuid) (ids : List Bytes) (p : Progress) (w : World e)
      → (enqueue_all g user ids p w).0.0 ≡ none
      → (enqueue_all g user ids p w).0.1.enqueued + (enqueue_all g user ids p w).0.1.skipped
        ≡ p.enqueued + p.skipped + length ids
  unfolding enqueue_all
  enqueue_all_counts user [] p w h = omega arith
  enqueue_all_counts user (msg ∷ ids) p w h =
      counted_step (enqueue_all g user ids) (length ids) p (enqueue_one g user msg w)
        (enqueue_all_counts user ids) h
