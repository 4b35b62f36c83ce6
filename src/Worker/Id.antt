-- ===== src/Worker/Id.antt =====
-- NewWorkerID of internal/worker/id.go. The name of the host and the eight random bytes are inputs.
use dist_task_queue.Prelude.{
  ℕ, ◌+◌, ◌-◌, ◌/◌, ◌%◌, ◌<◌, ◌≡◌, ◌≢◌, refl, sym, Option, none, some, [], ◌∷◌, ◌++◌, arith,
}
use dist_task_queue.Prelude.Tests.{Bytes, ◌==◌, ltb, if◌then◌else◌}
use dist_task_queue.Prelude.Lists.{All}

-- "unknown"
abbrev pub unknown : Bytes
unknown = b'u' ∷ b'n' ∷ b'k' ∷ b'n' ∷ b'o' ∷ b'w' ∷ b'n' ∷ []

-- `if err != nil || host == "" { host = "unknown" }`
abbrev pub host_or_unknown : Option Bytes → Bytes
host_or_unknown none = unknown
host_or_unknown (some []) = unknown
host_or_unknown (some (c ∷ host)) = c ∷ host

-- strings.ReplaceAll(host, "-", "")
unfoldable pub without_dashes : Bytes → Bytes
without_dashes [] = []
without_dashes (c ∷ host) = let rest = without_dashes host in if c == b'-' then rest else c ∷ rest

-- A digit of hex.EncodeToString.
unfoldable pub hex_digit : ℕ → ℕ
hex_digit n = if ltb n 10 then b'0' + n else b'a' + (n - 10)

unfoldable pub hex : Bytes → Bytes
hex [] = []
hex (b ∷ bs) = hex_digit (b / 16) ∷ hex_digit (b % 16) ∷ hex bs

unfoldable pub new_worker_id : Option Bytes → Bytes → Bytes
new_worker_id host random = without_dashes (host_or_unknown host) ++ b'-' ∷ hex random

hex_digit-inj : (m n : ℕ) → m < 16 → n < 16 → hex_digit m ≡ hex_digit n → m ≡ n
unfolding hex_digit
hex_digit-inj m n hm hn h = ground (arith, hm, hn, h)

same_byte : (a b : ℕ) → a / 16 ≡ b / 16 → a % 16 ≡ b % 16 → a ≡ b
same_byte a b h l = omega (arith, h, l)

abbrev pub Byte : ℕ → Type 0
Byte b = b < 256

abbrev two : ℕ → ℕ → Bytes → Bytes
two a b rest = a ∷ b ∷ rest

parts : (a b x y : ℕ) (r s : Bytes) → two a b r ≡ two x y s → (a ≡ x) × ((b ≡ y) × (r ≡ s))
parts a b x y r s h = (cc, (cc, cc))

hex-inj : (xs ys : Bytes) → All Byte xs → All Byte ys → hex xs ≡ hex ys → xs ≡ ys
unfolding hex
hex-inj [] [] hx hy h = refl
hex-inj [] (y ∷ ys) hx hy h = cc
hex-inj (x ∷ xs) [] hx hy h = cc
hex-inj (x ∷ xs) (y ∷ ys) (bx, hx) (by, hy) h =
    let (high, (low, rest)) = parts _ _ _ _ (hex xs) (hex ys) h in
    let first : x ≡ y =
      same_byte x y (hex_digit-inj (x / 16) (y / 16) (omega (arith, bx)) (omega (arith, by)) high)
        (hex_digit-inj (x % 16) (y % 16) (omega arith) (omega arith) low) in
    rw (first, hex-inj xs ys hx hy rest) refl

abbrev Dashless : Bytes → Type 0
Dashless = All λ c. c ≢ b'-'

without_dashes-Dashless : (host : Bytes) → Dashless (without_dashes host)
unfolding without_dashes
without_dashes-Dashless [] = tt
without_dashes-Dashless (c ∷ host) = ground (arith, without_dashes-Dashless host)

abbrev cons : ℕ → Bytes → Bytes
cons c s = c ∷ s

heads : {a b : ℕ} {r s : Bytes} → cons a r ≡ cons b s → a ≡ b
heads h = cc

tails : {a b : ℕ} {r s : Bytes} → cons a r ≡ cons b s → r ≡ s
tails h = cc

-- What stands before the first dash and behind it.
split-inj :
    (a b r s : Bytes) → Dashless a → Dashless b → a ++ b'-' ∷ r ≡ b ++ b'-' ∷ s → (a ≡ b) × (r ≡ s)
split-inj [] [] r s ha hb h = (refl, tails h)
split-inj [] (y ∷ b) r s ha (free, hb) h = absurd (free (sym (heads h)))
split-inj (x ∷ a) [] r s (free, ha) hb h = absurd (free (heads h))
split-inj (x ∷ a) (y ∷ b) r s (nx, ha) (ny, hb) h =
    let (same, rest) = split-inj a b r s ha hb (tails h) in (rw (heads h, same) refl, rest)

-- Two worker ids, with random parts of any number of bytes, are the same only where the names of their
-- hosts without the dashes, and their random parts, are the same.
pub new_worker_id-inj :
    (host other : Option Bytes) (r s : Bytes)
    → All Byte r
    → All Byte s
    → new_worker_id host r ≡ new_worker_id other s
    → (without_dashes (host_or_unknown host) ≡ without_dashes (host_or_unknown other)) × (r ≡ s)
unfolding new_worker_id
new_worker_id-inj host other r s hr hs h =
    let (same, digits) =
      split-inj _ _ (hex r) (hex s) (without_dashes-Dashless (host_or_unknown host))
        (without_dashes-Dashless (host_or_unknown other)) h in
    (same, hex-inj r s hr hs digits)
