-- ===== src/Commands/Worker.antt =====
-- cmd/worker/main.go.
use dist_task_queue.Prelude.{
  ℕ, ◌*◌, ◌<◌, ◌≤◌, ◌^◌, ◌≡◌, ◌≢◌, true, subst, sym, ◌∙◌, inl, inr, refl, Option, none, some, [],
  ◌∷◌, arith,
}
use dist_task_queue.Prelude.Tests.{Bytes, bytes_eq, bytes_eq_iff, if◌then◌else◌, Bool-cases}
use dist_task_queue.Prelude.Lists.{length}
use dist_task_queue.Prelude.Int64.{ℤ, is_positive, int64_lem, is_positive_lem}
use dist_task_queue.Scheduler.{fetch_stage}
use dist_task_queue.Handlers.Words.{render_stage, upload_stage}
use dist_task_queue.Api.Demo.{test_stage}
use dist_task_queue.Commands.{
  Host, Start, exits, starts, starting, positive_or, env_or, env_int_or, int_text, env_duration_sec,
  load_google_key, open_services, starting_starts, load_google_key_lem,
}
use dist_task_queue.Commands.Words.{
  data_dir_name, default_data_dir, gotenberg_url, default_gotenberg, drive_root_folder_id,
  drive_root_path, pop_timeout_name, heartbeat_ttl_name, heartbeat_interval_name,
}

-- The handler that a worker is made with, and what it is configured with from the environment.
pub data Chosen : Type 0 where
  noop : Chosen
  -- the key and the data directory
  fetching : Bytes → Bytes → Chosen
  -- the data directory and the URL of Gotenberg
  rendering : Bytes → Bytes → Chosen
  -- the key, the data directory, the root folder and the root path
  uploading : Bytes → Bytes → Bytes → Bytes → Chosen

pub record WorkerPlan : Type 0 where
  pub stage : Bytes
  pub handler : Chosen
  pub pop_timeout : ℤ
  pub heartbeat_ttl : ℤ
  pub heartbeat_interval : ℤ

module _ (h : Host) where
  -- The switch over the stage.
  unfoldable pub choose_handler : Bytes → Start Chosen
  choose_handler stage =
      if bytes_eq stage test_stage
      then starts noop
      else if bytes_eq stage fetch_stage
      then starting (load_google_key h)
          (λ key. starts (fetching key (env_or h data_dir_name default_data_dir)))
      else if bytes_eq stage render_stage
      then starts (
          rendering (env_or h data_dir_name default_data_dir)
            (env_or h gotenberg_url default_gotenberg))
      else if bytes_eq stage upload_stage
      then starting (load_google_key h) (λ key. starts (
          uploading key (env_or h data_dir_name default_data_dir) (env_or h drive_root_folder_id [])
            (env_or h drive_root_path [])))
      else exits 2

  abbrev pub plan_of : Bytes → Chosen → WorkerPlan
  plan_of stage handler = record {
    stage = stage;
    handler = handler;
    pop_timeout = env_duration_sec h pop_timeout_name 30;
    heartbeat_ttl = env_duration_sec h heartbeat_ttl_name 15;
    heartbeat_interval = env_duration_sec h heartbeat_interval_name 5;
  }

  -- main, up to Run; the argument is the flag --stage.
  unfoldable pub worker_start : Bytes → Start WorkerPlan
  worker_start [] = exits 2
  worker_start (c ∷ stage) =
      starting (open_services h)
        λ u. starting (choose_handler (c ∷ stage)) λ handler. starts (plan_of (c ∷ stage) handler)

  -- The stage of a handler.
  abbrev pub stage_of : Chosen → Bytes
  stage_of noop = test_stage
  stage_of (fetching key dir) = fetch_stage
  stage_of (rendering dir url) = render_stage
  stage_of (uploading key dir root path) = upload_stage

  one_key : {k l : Bytes} → some k ≡ some l → k ≡ l
  one_key e = cc

  no_key : (k : Bytes) → none ≢ some k
  no_key k e = cc

  -- The key that a chosen handler is given, if it is given one.
  abbrev pub key_given : Chosen → Option Bytes
  key_given noop = none
  key_given (fetching key dir) = some key
  key_given (rendering dir url) = none
  key_given (uploading key dir root path) = some key

  positive_or_lem : (d : ℕ) (o : Option ℕ) → 0 < d → 0 < positive_or d o
  positive_or_lem d none h = h
  positive_or_lem d (some n) h = ground (arith, h)

  env_int_or_positive : (k : Bytes) (d : ℕ) → 0 < d → 0 < env_int_or h k d
  unfolding env_int_or
  env_int_or_positive k d p = by_text (h.getenv k)
    where
      by_text : (s : Bytes) → 0 < int_text h d s
      by_text [] = p
      by_text (c ∷ v) = positive_or_lem d (h.atoi (c ∷ v)) p

  env_duration_sec_lem :
      (k : Bytes) (d : ℕ)
      → 0 < d
      → env_int_or h k d ≤ 9223372036
      → is_positive (env_duration_sec h k d) ≡ true
  unfolding env_duration_sec
  env_duration_sec_lem k d p fits =
      let n = env_int_or h k d in
      let positive : 0 < n * 1000000000 = omega (arith, env_int_or_positive k d p) in
      let small : n * 1000000000 < 2 ^ 63 = omega (arith, fits) in
      rw (int64_lem (n * 1000000000) small) (is_positive_lem (n * 1000000000) positive)

  -- What a start of the worker guarantees of its plan.
  pub record Ready (stage : Bytes) (p : WorkerPlan) : Type 0 where
    pub own_stage : p.stage ≡ stage
    pub own_handler : stage_of p.handler ≡ stage
    pub sized_key : (key : Bytes) → key_given p.handler ≡ some key → length key ≡ 32
    pub pop_positive : is_positive p.pop_timeout ≡ true
    pub ttl_positive : is_positive p.heartbeat_ttl ≡ true
    pub interval_positive : is_positive p.heartbeat_interval ≡ true

  -- A handler of the stage, which holds a key only of 32 bytes.
  abbrev pub Sound : Bytes → Chosen → Type 0
  Sound stage d = (stage_of d ≡ stage) × ((key : Bytes) → key_given d ≡ some key → length key ≡ 32)

  Sound-keyed :
      (stage k : Bytes) (d : Chosen)
      → stage_of d ≡ stage
      → key_given d ≡ some k
      → load_google_key h ≡ starts k
      → Sound stage d
  Sound-keyed stage k d here given loaded = (
    here,
    λ key e.
        subst (λ (x : Bytes). length x ≡ 32) (one_key (sym given ∙ e))
          (load_google_key_lem h k loaded),
  )

  Sound-keyless :
      (stage : Bytes) (d : Chosen) → stage_of d ≡ stage → key_given d ≡ none → Sound stage d
  Sound-keyless stage d here given = (here, λ key e. absurd (no_key key (sym given ∙ e)))

  choose_handler-Sound :
      (stage : Bytes) (c : Chosen) → choose_handler stage ≡ starts c → Sound stage c
  unfolding choose_handler
  choose_handler-Sound stage c e = elim (Bool-cases (bytes_eq stage test_stage)) [
    | inl here ↦ chosen _ (rw here at e) (Sound-keyless stage noop (named test_stage here) refl)
    | inr not_test ↦ elim (Bool-cases (bytes_eq stage fetch_stage)) [
      | inl here ↦
          let (k, loaded, made) =
            starting_starts (load_google_key h) _ c (rw (not_test, here) at e) in
          chosen _ made (
            Sound-keyed stage k (fetching k (env_or h data_dir_name default_data_dir))
              (named fetch_stage here) refl loaded)
      | inr not_fetch ↦ elim (Bool-cases (bytes_eq stage render_stage)) [
        | inl here ↦ chosen _ (rw (not_test, not_fetch, here) at e) (
            Sound-keyless stage
              (rendering (env_or h data_dir_name default_data_dir)
                (env_or h gotenberg_url default_gotenberg))
              (named render_stage here) refl)
        | inr not_render ↦ elim (Bool-cases (bytes_eq stage upload_stage)) [
          | inl here ↦
              let (k, loaded, made) =
                starting_starts (load_google_key h) _ c
                  (rw (not_test, not_fetch, not_render, here) at e) in
              chosen _ made (
                Sound-keyed stage k
                  (uploading k (env_or h data_dir_name default_data_dir)
                    (env_or h drive_root_folder_id []) (env_or h drive_root_path []))
                  (named upload_stage here) refl loaded)
          | inr other ↦ absurd (exited (rw (not_test, not_fetch, not_render, other) at e))
        ]
      ]
    ]
  ]
    where
      chosen : (d : Chosen) → starts d ≡ starts c → Sound stage d → Sound stage c
      chosen d same sound = let ds : d ≡ c = cc in subst (Sound stage) ds sound

      exited : exits 2 ≢ starts c
      exited same = cc

      named : (s : Bytes) → bytes_eq stage s ≡ true → s ≡ stage
      named s here = sym ((bytes_eq_iff stage s).0 here)

  -- Where none of the three times is set to more than 9223372036 seconds: a worker that starts has the
  -- stage of the flag, the handler of that stage, which holds a key only of 32 bytes, and positive times.
  pub worker_start-Ready :
      (stage : Bytes) (p : WorkerPlan)
      → env_int_or h pop_timeout_name 30 ≤ 9223372036
      → env_int_or h heartbeat_ttl_name 15 ≤ 9223372036
      → env_int_or h heartbeat_interval_name 5 ≤ 9223372036
      → worker_start stage ≡ starts p
      → Ready stage p
  unfolding worker_start
  worker_start-Ready [] p pop ttl beat e = cc
  worker_start-Ready (c ∷ stage) p pop ttl beat e =
      let (u, opened, behind) = starting_starts (open_services h) _ p e in
      let (handler, chosen, planned) = starting_starts (choose_handler (c ∷ stage)) _ p behind in
      let same : plan_of (c ∷ stage) handler ≡ p = one_plan planned in
      subst (Ready (c ∷ stage)) same (record {
        own_stage = refl;
        own_handler = (choose_handler-Sound (c ∷ stage) handler chosen).0;
        sized_key = (choose_handler-Sound (c ∷ stage) handler chosen).1;
        pop_positive = env_duration_sec_lem pop_timeout_name 30 (omega arith) pop;
        ttl_positive = env_duration_sec_lem heartbeat_ttl_name 15 (omega arith) ttl;
        interval_positive = env_duration_sec_lem heartbeat_interval_name 5 (omega arith) beat;
      })
    where
      one_plan : {p q : WorkerPlan} → starts p ≡ starts q → p ≡ q
      one_plan same = cc
