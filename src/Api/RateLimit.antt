-- ===== src/Api/RateLimit.antt =====
-- internal/api/ratelimit.go. The tokens are counted in nanoseconds, of which `interval` make one
-- token: the source's float64 quotients are exact here.
use dist_task_queue.Prelude.{
  ℕ, ◌+◌, ◌-◌, ◌*◌, Bool, true, false, Option, none, some, List, [], ◌∷◌, min,
}
use dist_task_queue.Prelude.Tests.{Bytes, bytes_eq, ltb, if◌then◌else◌}
use dist_task_queue.Store.Types.{Time}

pub record Bucket : Type 0 where
  pub tokens : ℕ
  pub last_seen : Time

-- newTokenBucket is called with a burst of at least 1.
pub record TokenBucket : Type 0 where
  pub buckets : List (Bytes × Bucket)
  pub interval : Time
  pub burst : ℕ

unfoldable pub new_token_bucket : Time → ℕ → TokenBucket
new_token_bucket interval burst = record { buckets = []; interval = interval; burst = burst }

unfoldable pub find_bucket : Bytes → List (Bytes × Bucket) → Option Bucket
find_bucket key [] = none
find_bucket key ((k, b) ∷ m) = if bytes_eq k key then some b else find_bucket key m

-- `t.buckets[key] = b`.
unfoldable pub set_bucket : Bytes → Bucket → List (Bytes × Bucket) → List (Bytes × Bucket)
set_bucket key b [] = (key, b) ∷ []
set_bucket key b ((k, c) ∷ m) = if bytes_eq k key then (k, b) ∷ m else (k, c) ∷ set_bucket key b m

-- A bucket that is seen again: the elapsed time is added, up to the burst, and a token is taken if
-- there is one.
unfoldable pub refill : Time → ℕ → Time → Bucket → Bucket
refill interval burst now b = record {
  tokens = min (b.tokens + (now - b.last_seen)) (burst * interval);
  last_seen = now;
}

unfoldable pub take_token : Time → Bucket → Bool × Bucket
take_token interval b =
    if ltb b.tokens interval then (false, b) else (true, record b { tokens = b.tokens - interval })

abbrev pub seen_bucket : Time → ℕ → Time → Option Bucket → Bool × Bucket
seen_bucket interval burst now none =
    (true, record { tokens = burst * interval - interval; last_seen = now })
seen_bucket interval burst now (some b) = take_token interval (refill interval burst now b)

-- Allow, with the time that time.Now gives.
unfoldable pub allow : Bytes → Time → TokenBucket → Bool × TokenBucket
allow key now t =
    let r = seen_bucket t.interval t.burst now (find_bucket key t.buckets) in
    (r.0, record t { buckets = set_bucket key r.1 t.buckets })

-- The answer to a request: 429, or what the handler behind the limit answers.
unfoldable pub rate_limit :
    {S : Type 0} → (S → ℕ × S) → Bytes → Time → TokenBucket × S → ℕ × (TokenBucket × S)
rate_limit next ip now (t, s) =
    let r = allow ip now t in if r.0 then ((next s).0, (r.1, (next s).1)) else (429, (r.1, s))

-- The part before the first comma, and before the last colon.
unfoldable pub before_comma : Bytes → Bytes
before_comma [] = []
before_comma (c ∷ s) =
    let rest = before_comma s in if bytes_eq (c ∷ []) (b',' ∷ []) then [] else c ∷ rest

unfoldable pub before_last_colon : Bytes → Option Bytes
before_last_colon [] = none
before_last_colon (c ∷ s) = elim (before_last_colon s) [
  | some p ↦ some (c ∷ p)
  | none ↦ if bytes_eq (c ∷ []) (b':' ∷ []) then some [] else none
]

-- The request's headers and address; `trim` is strings.TrimSpace.
pub record Request : Type 0 where
  pub cf_connecting_ip : Bytes
  pub x_forwarded_for : Bytes
  pub remote_addr : Bytes

abbrev pub or_whole : Bytes → Option Bytes → Bytes
or_whole s none = s
or_whole s (some p) = p

abbrev pub forwarded_ip : (Bytes → Bytes) → Bytes → Bytes → Bytes
forwarded_ip trim [] remote = or_whole remote (before_last_colon remote)
forwarded_ip trim (c ∷ v) remote = trim (before_comma (c ∷ v))

unfoldable pub client_ip : (Bytes → Bytes) → Request → Bytes
client_ip trim r = elim r.cf_connecting_ip [
  | [] ↦ forwarded_ip trim r.x_forwarded_for r.remote_addr
  | c ∷ v ↦ c ∷ v
]
