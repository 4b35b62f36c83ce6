-- ===== src/Store/Lookup.antt =====
-- The statements on one job against the map from ids to rows.
use dist_task_queue.Prelude.{
  ◌≡◌, ◌≢◌, ◌⊎◌, refl, Bool, true, false, ◌||◌, Option, none, some, List, [], ◌∷◌, arith, inl, inr,
}
use dist_task_queue.Prelude.Tests.{Bytes, ◌==◌, ==_iff, Bool-cases, if◌then◌else◌}
use dist_task_queue.Prelude.Lists.{All}
use dist_task_queue.Store.Types.{Uuid, Time, JobStatus, queued, running, is_status, Job, Db}
use dist_task_queue.Store.Jobs.{
  indexed, update_where, affected, claimed, finished, after_failure, advanced, has_id, is_in,
  find_job,
}
use dist_task_queue.Store.Table.{DullAt, picked}
use dist_task_queue.Store.Invariant.{DistinctIds}

abbrev pub on_some : (Job → Job) → Option Job → Option Job
on_some f none = none
on_some f (some j) = some (f j)

module _ (p : Job → Bool) (f : Job → Job) where
  pub find_job-update :
      ((j : Job) → (f j).id ≡ j.id)
      → (k : Uuid) (js : List Job)
      → find_job k (update_where p f js) ≡ on_some (picked p f) (find_job k js)
  unfolding find_job update_where
  find_job-update same k [] = refl
  find_job-update same k (j ∷ js) = elim (Bool-cases (p j)) [
    | inl e ↦ ground (arith, e, same j, find_job-update same k js)
    | inr e ↦ ground (arith, e, find_job-update same k js)
  ]

pub find_job-id : (k : Uuid) (js : List Job) (j : Job) → find_job k js ≡ some j → j.id ≡ k
unfolding find_job
find_job-id k [] j h = cc
find_job-id k (i ∷ js) j h = ground (arith, find_job-id k js j)

module _ (p : Job → Bool) (id : Uuid) where
  pub affected-some :
      (js : List Job) (j : Job) → find_job id js ≡ some j → p j ≡ true → affected p js ≢ 0
  unfolding find_job affected
  affected-some [] j h hp = cc
  affected-some (i ∷ js) j h hp = elim (Bool-cases (p i)) [
    | inl e ↦ rw e (λ z. omega arith)
    | inr e ↦ rw e (affected-some js j (ground (arith, e)) hp)
  ]

  module _ (only : (i : Job) → p i ≡ true → i.id ≡ id) where
    affected_other : (js : List Job) → All (λ (i : Job). i.id ≢ id) js → affected p js ≡ 0
    unfolding affected
    affected_other [] h = refl
    affected_other (i ∷ js) (hi, hs) = elim (Bool-cases (p i)) [
      | inl e ↦ absurd (hi (only i e))
      | inr e ↦ rw e (affected_other js hs)
    ]

    pub affected_missing : (js : List Job) → find_job id js ≡ none → affected p js ≡ 0
    unfolding find_job affected
    affected_missing [] h = refl
    affected_missing (i ∷ js) h = elim (Bool-cases (p i)) [
      | inl e ↦ ground (arith, only i e)
      | inr e ↦ rw e (affected_missing js (ground arith))
    ]

    pub affected_refused :
        (js : List Job) (j : Job)
        → DistinctIds js
        → find_job id js ≡ some j
        → p j ≡ false
        → affected p js ≡ 0
    unfolding find_job affected
    affected_refused [] j d h hp = cc
    affected_refused (i ∷ js) j (di, ds) h hp = elim (Bool-cases (i.id == id)) [
      | inl e ↦
          let same : i.id ≡ id = (==_iff i.id id).0 e in
          let it : some i ≡ some j = rw e at h in
          ground (arith, it, affected_other js (rw same at di))
      | inr e ↦ elim (Bool-cases (p i)) [
        | inl t ↦ ground (arith, e, only i t)
        | inr t ↦ rw t (affected_refused js j ds (rw e at h) hp)
      ]
    ]

pub All-of : {A : Type 0} (P : A → Type 0) → ((a : A) → P a) → (xs : List A) → All P xs
All-of P h [] = tt
All-of P h (x ∷ xs) = (h x, All-of P h xs)

pub claimed-DullAt :
    (worker : Bytes) (now : Time) (id : Uuid) (j : Job)
    → DullAt (is_in queued id) (claimed worker now) j
unfolding indexed
claimed-DullAt worker now id j h = ground arith

pub finished-DullAt : (now : Time) (p : Job → Bool) (j : Job) → DullAt p (finished now) j
unfolding indexed
finished-DullAt now p j h = (refl, refl, λ e. ground arith)

pub advanced-DullAt :
    (stage : Bytes) (now : Time) (id : Uuid) (j : Job)
    → DullAt (is_in running id) (advanced stage now) j
unfolding indexed
advanced-DullAt stage now id j h = ground arith

-- A job that can still be worked on.
abbrev pub is_active : Job → Bool
is_active j = is_status j.status queued || is_status j.status running

pub after_failure-DullAt :
    (msg : Bytes) (next now : Time) (p : Job → Bool) (j : Job)
    → is_active j ≡ true
    → DullAt p (after_failure msg next now) j
unfolding indexed
after_failure-DullAt msg next now p j a h = (refl, refl, λ e. ground arith)

pub is_in-id : (s : JobStatus) (id : Uuid) (i : Job) → is_in s id i ≡ true → i.id ≡ id
is_in-id s id i h = ground (arith, ==_iff i.id id)

pub has_id-id : (id : Uuid) (i : Job) → has_id id i ≡ true → i.id ≡ id
has_id-id id i h = (==_iff i.id id).0 h

pub is_status_iff :
    (s t : JobStatus) → (is_status s t ≡ true → s ≡ t) × (s ≡ t → is_status s t ≡ true)
is_status_iff s t = ground arith

-- The rows by id after a change of one of them.
abbrev pub Becomes : Uuid → Job → Db → Db → Type 0
Becomes id j db db' =
    (k : Uuid) → find_job k db'.jobs ≡ (if k == id then some j else find_job k db.jobs)

pub update-Becomes :
    (p : Job → Bool) (f : Job → Job) (id : Uuid) (j : Job) (db : Db)
    → ((i : Job) → (f i).id ≡ i.id)
    → ((i : Job) → p i ≡ true → i.id ≡ id)
    → find_job id db.jobs ≡ some j
    → p j ≡ true
    → Becomes id (f j) db (record db { jobs = update_where p f db.jobs })
update-Becomes p f id j db same only h hp k = elim (Bool-cases (k == id)) [
  | inl e ↦ rw (e, (==_iff k id).0 e, find_job-update p f same id db.jobs, h, hp) refl
  | inr e ↦
      rw (e, find_job-update p f same k db.jobs)
        (on_some_other (find_job k db.jobs)
          λ i hi. not_picked i (find_job-id k db.jobs i hi) (Bool-cases (p i)) e)
]
  where
    not_picked :
        (i : Job) → i.id ≡ k → (p i ≡ true) ⊎ (p i ≡ false) → (k == id) ≡ false → p i ≡ false
    not_picked i hi (inl t) e = ground (arith, only i t)
    not_picked i hi (inr t) e = t

    on_some_other :
        (o : Option Job) → ((i : Job) → o ≡ some i → p i ≡ false) → on_some (picked p f) o ≡ o
    on_some_other none m = refl
    on_some_other (some i) m = rw (m i refl) refl

-- The only row with an id is the one that is found.
pub find_job_only :
    (id : Uuid) (js : List Job) (j : Job)
    → DistinctIds js
    → find_job id js ≡ some j
    → All (λ i. has_id id i ≡ true → i ≡ j) js
unfolding find_job
find_job_only id [] j d h = tt
find_job_only id (i ∷ js) j (di, ds) h = elim (Bool-cases (i.id == id)) [
  | inl e ↦
      let same : i.id ≡ id = (==_iff i.id id).0 e in
      let it : some i ≡ some j = rw e at h in ((λ t. cc it), others js (rw same at di))
  | inr e ↦ ((λ t. ground (arith, e)), find_job_only id js j ds (rw e at h))
]
  where
    others :
        (ks : List Job)
        → All (λ (k : Job). k.id ≢ id) ks
        → All (λ (k : Job). has_id id k ≡ true → k ≡ j) ks
    others [] a = tt
    others (k ∷ ks) (ak, as') = ((λ t. absurd (ak (has_id-id id k t))), others ks as')
