-- ===== src/Store/Table.antt =====
-- What an UPDATE and an INSERT do to the rows of pipeline_jobs and to its unique index.
use dist_task_queue.Prelude.{
  ◌≡◌, ◌≢◌, refl, sym, Bool, true, false, ◌&&◌, ◌||◌, Option, none, some, List, [], ◌∷◌, ◌++◌,
  arith, inl, inr,
}
use dist_task_queue.Prelude.Tests.{bytes_eq, bytes_eq_iff, ◌==◌, if◌then◌else◌, Bool-cases}
use dist_task_queue.Prelude.Lists.{All, exists}
use dist_task_queue.World.{Error, ok, err}
use dist_task_queue.Store.Types.{Job, Db}
use dist_task_queue.Store.Jobs.{
  indexed, clash, option_eq, index_ok, update_where, affected, update_jobs,
}

-- The change of a row does not touch what the unique index reads, and puts no row into the index.
abbrev pub DullAt : (Job → Bool) → (Job → Job) → Job → Type 0
DullAt p f j =
    p j ≡ true
    → ((f j).user_id ≡ j.user_id)
      × ((f j).gmail_message_id ≡ j.gmail_message_id)
      × (indexed (f j) ≡ true → indexed j ≡ true)

abbrev pub picked : (Job → Bool) → (Job → Job) → Job → Job
picked p f j = if p j then f j else j

abbrev pub same_key : Job → Job → Bool
same_key i j =
    option_eq ◌==◌ i.user_id j.user_id && option_eq bytes_eq i.gmail_message_id j.gmail_message_id

clash_parts :
    (i j : Job) → clash i j ≡ true → (indexed i ≡ true) × (indexed j ≡ true) × (same_key i j ≡ true)
unfolding clash
clash_parts i j h = ground arith

clash_of_parts :
    (i j : Job) → indexed i ≡ true → indexed j ≡ true → same_key i j ≡ true → clash i j ≡ true
unfolding clash
clash_of_parts i j hi hj hk = ground arith

option_eq_sym :
    {A : Type 0} (eq : A → A → Bool) (sm : (a b : A) → eq a b ≡ true → eq b a ≡ true)
    (a b : Option A)
    → option_eq eq a b ≡ true
    → option_eq eq b a ≡ true
option_eq_sym eq sm none none h = h
option_eq_sym eq sm none (some b) h = h
option_eq_sym eq sm (some a) none h = h
option_eq_sym eq sm (some a) (some b) h = sm a b h

clash_sym : (i j : Job) → clash i j ≡ true → clash j i ≡ true
clash_sym i j h =
    let (hi, hj, hk) = clash_parts i j h in
    clash_of_parts j i hj hi (
      ground (
        arith,
        option_eq_sym ◌==◌ (λ a b e. ground arith) i.user_id j.user_id,
        option_eq_sym bytes_eq (λ a b e. (bytes_eq_iff b a).1 (sym ((bytes_eq_iff a b).0 e)))
            i.gmail_message_id j.gmail_message_id,
      ))

module _ (p : Job → Bool) (f : Job → Job) where
  picked_dull :
      (j : Job)
      → DullAt p f j
      → ((picked p f j).user_id ≡ j.user_id)
        × ((picked p f j).gmail_message_id ≡ j.gmail_message_id)
        × (indexed (picked p f j) ≡ true → indexed j ≡ true)
  picked_dull j dull = elim (Bool-cases (p j)) [
    | inl e ↦ rw e (dull e)
    | inr e ↦ rw e (refl, refl, λ h. h)
  ]

  clash-picked :
      (i j : Job)
      → DullAt p f i
      → DullAt p f j
      → clash (picked p f i) (picked p f j) ≡ true
      → clash i j ≡ true
  clash-picked i j dull_i dull_j h =
      let (hi, hj, hk) = clash_parts _ _ h in
      let (ui, mi, di) = picked_dull i dull_i in
      let (uj, mj, dj) = picked_dull j dull_j in
      clash_of_parts i j (di hi) (dj hj) (rw (ui, mi, uj, mj) at hk)

  exists-clash :
      (i : Job) (js : List Job)
      → DullAt p f i
      → All (DullAt p f) js
      → exists (clash i) js ≡ false
      → exists (clash (picked p f i)) (update_where p f js) ≡ false
  unfolding update_where
  exists-clash i [] di ds h = refl
  exists-clash i (j ∷ js) di (dj, ds) h = elim (Bool-cases (clash (picked p f i) (picked p f j))) [
    | inl e ↦ ground (arith, clash-picked i j di dj e)
    | inr e ↦ ground (arith, e, exists-clash i js di ds)
  ]

  -- Such an update never breaks the index.
  pub index_ok-update :
      (js : List Job)
      → All (DullAt p f) js
      → index_ok js ≡ true
      → index_ok (update_where p f js) ≡ true
  unfolding index_ok update_where
  index_ok-update [] ds h = refl
  index_ok-update (j ∷ js) (dj, ds) h = elim (Bool-cases (exists (clash j) js)) [
    | inl e ↦ ground (arith, e)
    | inr e ↦ ground (arith, exists-clash j js dj ds e, index_ok-update js ds)
  ]

exists-append :
    {A : Type 0} (p : A → Bool) (xs : List A) (x : A)
    → exists p (xs ++ x ∷ []) ≡ (exists p xs || p x)
exists-append p [] x = ground arith
exists-append p (y ∷ xs) x = ground (arith, exists-append p xs x)

-- A row that clashes with none can be added.
pub index_ok-append :
    (js : List Job) (i : Job)
    → index_ok js ≡ true
    → exists (clash i) js ≡ false
    → index_ok (js ++ i ∷ []) ≡ true
unfolding index_ok
index_ok-append [] i h c = refl
index_ok-append (j ∷ js) i h c = elim (Bool-cases (clash j i)) [
  | inl e ↦ ground (arith, clash_sym j i e)
  | inr e ↦ ground (arith, e, exists-append (clash j) js i, index_ok-append js i)
]

module _ (p : Job → Bool) (f : Job → Job) where
  pub All-update :
      (P : Job → Type 0)
      → ((j : Job) → P j → p j ≡ true → P (f j))
      → (js : List Job) → All P js
      → All P (update_where p f js)
  unfolding update_where
  All-update P keep [] h = tt
  All-update P keep (j ∷ js) (hj, hs) = elim (Bool-cases (p j)) [
    | inl e ↦ rw e (keep j hj e, All-update P keep js hs)
    | inr e ↦ rw e (hj, All-update P keep js hs)
  ]

  -- With no row to change nothing changes.
  pub update_none : (js : List Job) → affected p js ≡ 0 → update_where p f js ≡ js
  unfolding update_where affected
  update_none [] h = refl
  update_none (j ∷ js) h = ground (arith, update_none js)

  pub update_jobs_missing :
      (missing : Error) (db : Db)
      → index_ok db.jobs ≡ true
      → affected p db.jobs ≡ 0
      → update_jobs missing p f db ≡ (err missing, db)
  unfolding update_jobs
  update_jobs_missing missing db ix h = ground (arith, update_none db.jobs h)

  pub update_jobs_done :
      (missing : Error) (db : Db)
      → All (DullAt p f) db.jobs
      → index_ok db.jobs ≡ true
      → affected p db.jobs ≢ 0
      → update_jobs missing p f db ≡ (ok tt, record db { jobs = update_where p f db.jobs })
  unfolding update_jobs
  update_jobs_done missing db dull ix h = ground (arith, index_ok-update p f db.jobs dull ix)
