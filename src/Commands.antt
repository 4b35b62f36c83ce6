-- ===== src/Commands.antt =====
-- cmd: how the programs start. A start reads the environment and connects; it ends in an exit of the
-- process, or in the configuration that the program runs with.
pub mod Words
pub mod Worker
pub mod Daemons
pub mod Setup
use dist_task_queue.Prelude.{
  ℕ, ◌*◌, ◌≡◌, refl, sym, inl, inr, Bool, true, false, Option, none, some, List, [], ◌∷◌, arith,
}
use dist_task_queue.Prelude.Tests.{Bytes, Bool-cases, ltb, ◌==◌, if◌then◌else◌}
use dist_task_queue.Prelude.Lists.{length}
use dist_task_queue.Prelude.Int64.{ℤ, int64}
use dist_task_queue.Commands.Words.{
  database_url, redis_url, client_id, client_secret, encryption_key_name, default_database,
  default_redis,
}

-- What a start takes from outside: os.Getenv, base64, strconv.Atoi (`none` for an error and for a
-- negative number), and whether the migrations, the pool and the URL of Redis are fine.
pub record Host : Type 0 where
  pub getenv : Bytes → Bytes
  pub decode_base64 : Bytes → Option Bytes
  pub atoi : Bytes → Option ℕ
  pub migrates : Bytes → Bool
  pub connects : Bytes → Bool
  pub parses_url : Bytes → Bool

-- os.Exit with a code, log.Fatal with code 1 among them, or a program that runs.
pub data Start {ℓ} (A : Type ℓ) : Type ℓ where
  exits : ℕ → Start A
  starts : A → Start A

abbrev pub starting {ℓ κ} : {A : Type ℓ} {B : Type κ} → Start A → (A → Start B) → Start B
starting (exits code) f = exits code
starting (starts a) f = f a

-- A chain that starts went through its first part.
pub starting_starts {ℓ κ} :
    {A : Type ℓ} {B : Type κ} (s : Start A) (f : A → Start B) (b : B)
    → starting s f ≡ starts b
    → (a : A) × (s ≡ starts a) × (f a ≡ starts b)
starting_starts (exits code) f b h = cc
starting_starts (starts a) f b h = (a, refl, h)

abbrev pub exit_unless : Bool → ℕ → Start (Unit {0})
exit_unless true code = starts tt
exit_unless false code = exits code

abbrev pub env_text : Bytes → Bytes → Bytes
env_text [] default = default
env_text (c ∷ v) default = c ∷ v

abbrev pub present : Bytes → Start Bytes
present [] = exits 1
present (c ∷ v) = starts (c ∷ v)

abbrev pub positive_or : ℕ → Option ℕ → ℕ
positive_or default none = default
positive_or default (some n) = if ltb 0 n then n else default

abbrev pub key_of : Option Bytes → Start Bytes
key_of none = exits 1
key_of (some key) = if length key == 32 then starts key else exits 1

module _ (h : Host) where
  unfoldable pub env_or : Bytes → Bytes → Bytes
  env_or k default = env_text (h.getenv k) default

  unfoldable pub must_env : Bytes → Start Bytes
  must_env k = present (h.getenv k)

  abbrev pub int_text : ℕ → Bytes → ℕ
  int_text default [] = default
  int_text default (c ∷ v) = positive_or default (h.atoi (c ∷ v))

  unfoldable pub env_int_or : Bytes → ℕ → ℕ
  env_int_or k default = int_text default (h.getenv k)

  -- Seconds as a time.Duration, whose 64 bits wrap around.
  unfoldable pub env_duration_sec : Bytes → ℕ → ℤ
  env_duration_sec k default = int64 (env_int_or k default * 1000000000)

  -- The id and the secret of the client have to be there, and the key has to have 32 bytes.
  unfoldable pub load_google_key : Start Bytes
  load_google_key = starting (must_env client_id) λ id.
      starting (must_env client_secret)
        λ secret. starting (must_env encryption_key_name) λ text. key_of (h.decode_base64 text)

  -- store.Migrate, pgxpool.New and goredis.ParseURL.
  unfoldable pub open_services : Start (Unit {0})
  open_services =
      let dsn = env_or database_url default_database in
      starting (exit_unless (h.migrates dsn) 1) λ m.
        starting (exit_unless (h.connects dsn) 1)
          λ p. exit_unless (h.parses_url (env_or redis_url default_redis)) 1

pub key_of_lem : (o : Option Bytes) (key : Bytes) → key_of o ≡ starts key → length key ≡ 32
key_of_lem none key h = cc
key_of_lem (some k) key h = elim (Bool-cases (length k == 32)) [
  | inl right ↦
      let same : starts k ≡ starts key = rw right at h in
      let e : k ≡ key = cc in rw (sym e) (ground (arith, right))
  | inr wrong ↦ let q : exits 1 ≡ starts key = rw wrong at h in cc
]

module _ (h : Host) where
  pub load_google_key_lem : (key : Bytes) → load_google_key h ≡ starts key → length key ≡ 32
  unfolding load_google_key
  load_google_key_lem key e =
      let (id, ei, behind) = starting_starts (must_env h client_id) _ key e in
      let (secret, es, behind2) = starting_starts (must_env h client_secret) _ key behind in
      let (t, et, behind3) = starting_starts (must_env h encryption_key_name) _ key behind2 in
      key_of_lem (h.decode_base64 t) key behind3
