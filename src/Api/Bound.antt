-- ===== src/Api/Bound.antt =====
-- How many requests of one key the limiter lets through.
use dist_task_queue.Prelude.{
  ℕ, zero, suc, ap, ◌∙◌, ◌+◌, ◌-◌, ◌*◌, ◌≤◌, ◌≡◌, refl, Bool, true, false, Option, none, some, List,
  [], ◌∷◌, arith, inl, inr, min,
}
use dist_task_queue.Prelude.Tests.{ltb, Bytes, bytes_eq, bytes_eq_iff, Bool-cases, if◌then◌else◌}
use dist_task_queue.Store.Types.{Time}
use dist_task_queue.Api.RateLimit.{
  Bucket, TokenBucket, find_bucket, set_bucket, seen_bucket, refill, take_token, allow,
  new_token_bucket,
}

find_bucket-set_bucket :
    (key j : Bytes) (b : Bucket) (m : List (Bytes × Bucket))
    → find_bucket j (set_bucket key b m) ≡ (if bytes_eq key j then some b else find_bucket j m)
unfolding find_bucket set_bucket
find_bucket-set_bucket key j b [] = refl
find_bucket-set_bucket key j b ((k, c) ∷ m) = ground (
  arith,
  find_bucket-set_bucket key j b m,
  bytes_eq_iff k key,
  bytes_eq_iff k j,
  bytes_eq_iff key j,
)

-- The requests at the limiter, in order: the key and the time of each. How many of them with the key
-- were let through.
unfoldable pub allowed : Bytes → List (Bytes × Time) → TokenBucket → ℕ
allowed key [] t = 0
allowed key ((k, now) ∷ rs) t =
    let rest = allowed key rs (allow k now t).1 in
    if bytes_eq k key then (if (allow k now t).0 then suc rest else rest) else rest

-- The times are in order, from `start` to `end`.
abbrev pub InOrder : Time → Time → List (Bytes × Time) → Type 0
InOrder start end [] = start ≤ end
InOrder start end ((k, now) ∷ rs) = (start ≤ now) × InOrder now end rs

-- What the key can still spend at a time: what its bucket would be refilled to then.
abbrev spendable : ℕ → Time → Option Bucket → ℕ
spendable cap now none = cap
spendable cap now (some b) = min (b.tokens + (now - b.last_seen)) cap

abbrev SeenBy : Time → Option Bucket → Type 0
SeenBy now none = Unit
SeenBy now (some b) = b.last_seen ≤ now

abbrev count_if : Bool → ℕ → ℕ
count_if b n = if b then suc n else n

take_token_pays :
    (i n later : ℕ) (b : Bucket)
    → n * i ≤ (take_token i b).1.tokens + later
    → count_if (take_token i b).0 n * i ≤ b.tokens + later
unfolding take_token
take_token_pays i n later b = elim (Bool-cases (ltb b.tokens i)) [
  | inl few ↦ rw few (λ h. h)
  | inr enough ↦ rw enough (λ h. ground (arith, enough, h))
]

-- One request of the key pays for itself.
seen_bucket_pays :
    (i burst n : ℕ) (start now end : Time) (o : Option Bucket)
    → i ≤ burst * i
    → SeenBy start o
    → start ≤ now
    → now ≤ end
    → (n * i ≤ (seen_bucket i burst now o).1.tokens + (end - now))
    → count_if (seen_bucket i burst now o).0 n * i ≤ spendable (burst * i) start o + (end - start)
unfolding refill
seen_bucket_pays i burst n start now end none hb s h1 h2 h = ground arith
seen_bucket_pays i burst n start now end (some b) hb s h1 h2 h =
    ground (arith, take_token_pays i n (end - now) (refill i burst now b) h)

seen_bucket_now :
    (i burst : ℕ) (now : Time) (o : Option Bucket) → (seen_bucket i burst now o).1.last_seen ≡ now
unfolding refill take_token
seen_bucket_now i burst now none = refl
seen_bucket_now i burst now (some b) = ground arith

allow_bucket :
    (k key : Bytes) (now : Time) (t : TokenBucket)
    → find_bucket key (allow k now t).1.buckets ≡ (
        if bytes_eq k key
        then some (seen_bucket t.interval t.burst now (find_bucket k t.buckets)).1
        else find_bucket key t.buckets)
unfolding allow
allow_bucket k key now t = find_bucket-set_bucket k key _ t.buckets

InOrder-≤ : (start end : Time) (rs : List (Bytes × Time)) → InOrder start end rs → start ≤ end
InOrder-≤ start end [] h = h
InOrder-≤ start end ((k, now) ∷ rs) (h, hs) = omega (arith, InOrder-≤ now end rs hs)

later_seen :
    (start now : Time) (cap : ℕ) (o : Option Bucket)
    → start ≤ now
    → SeenBy start o
    → SeenBy now o × (spendable cap now o ≤ spendable cap start o + (now - start))
later_seen start now cap none h s = (tt, omega arith)
later_seen start now cap (some b) h s = (omega arith, omega arith)

-- What a limiter lets through of a key from `start` to `end`.
abbrev Within : Bytes → List (Bytes × Time) → TokenBucket → Time → Time → Type 0
Within key rs t start end =
    allowed key rs t * t.interval
    ≤ spendable (t.burst * t.interval) start (find_bucket key t.buckets) + (end - start)

module _ (key k : Bytes) (now : Time) (rs : List (Bytes × Time)) (t : TokenBucket)
    (start end : Time) (h : start ≤ now) (le : now ≤ end)
    (s : SeenBy start (find_bucket key t.buckets)) where
  own_request :
      t.interval ≤ t.burst * t.interval
      → bytes_eq k key ≡ true
      → (SeenBy now (find_bucket key (allow k now t).1.buckets)
          → Within key rs (allow k now t).1 now end)
      → Within key ((k, now) ∷ rs) t start end
  unfolding allowed allow
  own_request hb e ih =
      let same : find_bucket k t.buckets ≡ find_bucket key t.buckets =
        ap (λ x. find_bucket x t.buckets) ((bytes_eq_iff k key).0 e) in
      let b = (seen_bucket t.interval t.burst now (find_bucket key t.buckets)).1 in
      let stored : find_bucket key (allow k now t).1.buckets ≡ some b =
        allow_bucket k key now t ∙ rw (e, same) refl in
      let now_seen : b.last_seen ≡ now = seen_bucket_now t.interval t.burst now _ in
      let rest = rw same at ((rw stored at ih) (omega (arith, now_seen))) in
      rw (e, same)
        (seen_bucket_pays t.interval t.burst _ start now end (find_bucket key t.buckets) hb s h le
          (omega (arith, now_seen, rest)))

  other_request :
      bytes_eq k key ≡ false
      → (SeenBy now (find_bucket key (allow k now t).1.buckets)
          → Within key rs (allow k now t).1 now end)
      → Within key ((k, now) ∷ rs) t start end
  unfolding allowed allow
  other_request e ih =
      let stored : find_bucket key (allow k now t).1.buckets ≡ find_bucket key t.buckets =
        allow_bucket k key now t ∙ rw e refl in
      let (seen, spend) =
        later_seen start now (t.burst * t.interval) (find_bucket key t.buckets) h s in
      let rest = (rw stored at ih) seen in rw e (omega (arith, rest, spend))

allowed-Within :
    (key : Bytes) (rs : List (Bytes × Time)) (t : TokenBucket) (start end : Time)
    → t.interval ≤ t.burst * t.interval
    → SeenBy start (find_bucket key t.buckets)
    → InOrder start end rs
    → Within key rs t start end
unfolding allowed allow
allowed-Within key [] t start end hb s h = ground arith
allowed-Within key ((k, now) ∷ rs) t start end hb s (h, hs) = elim (Bool-cases (bytes_eq k key)) [
  | inl e ↦
      own_request key k now rs t start end h (InOrder-≤ now end rs hs) s hb e
        (λ v. allowed-Within key rs (allow k now t).1 now end hb v hs)
  | inr e ↦
      other_request key k now rs t start end h (InOrder-≤ now end rs hs) s e
        (λ v. allowed-Within key rs (allow k now t).1 now end hb v hs)
]

-- The limiter behind some requests, in order.
unfoldable pub served : List (Bytes × Time) → TokenBucket → TokenBucket
served [] t = t
served ((k, now) ∷ rs) t = served rs (allow k now t).1

-- A limiter with an interval and a burst that has last seen the key by a time.
abbrev SeenLimiter : Bytes → ℕ → ℕ → Time → TokenBucket → Type 0
SeenLimiter key interval burst now t =
    (t.interval ≡ interval) × (t.burst ≡ burst) × SeenBy now (find_bucket key t.buckets)

SeenBy-later : (start now : Time) (o : Option Bucket) → start ≤ now → SeenBy start o → SeenBy now o
SeenBy-later start now none h s = tt
SeenBy-later start now (some b) h s = omega (arith, h, s)

SeenBy-allow :
    (key k : Bytes) (start now : Time) (t : TokenBucket)
    → start ≤ now
    → SeenBy start (find_bucket key t.buckets)
    → SeenBy now (find_bucket key (allow k now t).1.buckets)
SeenBy-allow key k start now t h s = elim (Bool-cases (bytes_eq k key)) [
  | inl e ↦
      let b = (seen_bucket t.interval t.burst now (find_bucket k t.buckets)).1 in
      let now_seen : b.last_seen ≡ now = seen_bucket_now t.interval t.burst now _ in
      let stored : find_bucket key (allow k now t).1.buckets ≡ some b =
        allow_bucket k key now t ∙ rw e refl in
      rw stored (omega (arith, now_seen))
  | inr e ↦
      let stored : find_bucket key (allow k now t).1.buckets ≡ find_bucket key t.buckets =
        allow_bucket k key now t ∙ rw e refl in
      rw stored (SeenBy-later start now (find_bucket key t.buckets) h s)
]

served-SeenLimiter :
    (key : Bytes) (interval burst : ℕ) (rs : List (Bytes × Time)) (t : TokenBucket)
    (start end : Time)
    → SeenLimiter key interval burst start t
    → InOrder start end rs
    → SeenLimiter key interval burst end (served rs t)
unfolding served allow
served-SeenLimiter key interval burst [] t start end (i, b, s) h =
    (i, b, SeenBy-later start end (find_bucket key t.buckets) h s)
served-SeenLimiter key interval burst ((k, now) ∷ rs) t start end (i, b, s) (h, hs) =
    served-SeenLimiter key interval burst rs (allow k now t).1 now end
      (i, b, SeenBy-allow key k start now t h s) hs

spendable-cap : (cap now : ℕ) (o : Option Bucket) → spendable cap now o ≤ cap
spendable-cap cap now none = omega arith
spendable-cap cap now (some b) = omega arith

-- In a limiter that was made with a burst of at least 1 and has served any requests before, between
-- any two later times at most the burst, and one for each interval of the time between, of all
-- requests of a key are let through, in order and mixed with other keys in any way.
pub allowed_bound :
    (key : Bytes) (before rs : List (Bytes × Time)) (interval burst : ℕ) (first start end : Time)
    → 1 ≤ burst
    → InOrder first start before
    → InOrder start end rs
    → allowed key rs (served before (new_token_bucket interval burst)) * interval
      ≤ burst * interval + (end - start)
unfolding new_token_bucket find_bucket allowed served
allowed_bound key before rs interval burst first start end hb earlier h =
    let t = served before (new_token_bucket interval burst) in
    let (i, b, seen) =
      served-SeenLimiter key interval burst before (new_token_bucket interval burst) first start
        (refl, refl, tt) earlier in
    let within =
      allowed-Within key rs t start end (rw (i, b) (burst_pays interval burst hb)) seen h in
    omega (
      arith,
      rw (i, b) at within,
      spendable-cap (burst * interval) start (find_bucket key t.buckets),
    )
  where
    burst_pays : (i b : ℕ) → 1 ≤ b → i ≤ b * i
    burst_pays i zero h = omega arith
    burst_pays i (suc b) h = omega arith
