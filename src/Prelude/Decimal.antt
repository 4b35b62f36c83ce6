-- ===== src/Prelude/Decimal.antt =====
-- strconv.FormatUint and strconv.ParseUint in base ten, for 64 bits.
use Prim.Native.Nat.{ℕ, zero, suc, ◌+◌, ◌-◌, ◌*◌, ◌/◌, ◌%◌, ◌^◌, ◌≤◌}
use mathlib.Core.Path.{◌≡◌, refl}
use mathlib.Core.Logic.{◌≢◌}
use mathlib.Core.Bool.{◌||◌}
use mathlib.Core.List.{[], ◌∷◌}
use mathlib.Core.Option.{Option, none, some}
use native.Mathlib.Omega.{arith}
use dist_task_queue.Prelude.Tests.{Bytes, ltb, ◌==◌, if◌then◌else◌}

abbrev pub max_uint64 : ℕ
max_uint64 = 2 ^ 64 - 1

-- One digit a round, the last one first. A number has fewer digits than its value plus one.
digits : ℕ → ℕ → Bytes → Bytes
digits zero n out = out
digits (suc fuel) n out =
    let rest = digits fuel (n / 10) ((b'0' + n % 10) ∷ out) in if n == 0 then out else rest

unfoldable pub format_uint : ℕ → Bytes
unfolding digits
format_uint n = if n == 0 then b'0' ∷ [] else digits n n []

-- A byte that is no digit is a syntax error; a value over 64 bits is a range error.
scan_uint : Bytes → ℕ → Option ℕ
scan_uint [] n = some n
scan_uint (c ∷ s) n =
    if ltb c b'0' || ltb b'9' c
    then none
    else if ltb max_uint64 (n * 10 + (c - b'0'))
    then none
    else scan_uint s (n * 10 + (c - b'0'))

unfoldable pub parse_uint : Bytes → Option ℕ
unfolding scan_uint
parse_uint [] = none
parse_uint (c ∷ s) = scan_uint (c ∷ s) 0

-- Reading the last digit of `n` after the digits before it gives `n`.
scan_uint_last :
    (n : ℕ) (out : Bytes)
    → n ≤ max_uint64
    → scan_uint ((b'0' + n % 10) ∷ out) (n / 10) ≡ scan_uint out n
unfolding scan_uint
scan_uint_last n out h = ground arith

scan_uint-digits :
    (fuel n : ℕ) (out : Bytes)
    → n ≤ fuel
    → n ≤ max_uint64
    → scan_uint (digits fuel n out) 0 ≡ scan_uint out n
unfolding digits
scan_uint-digits zero n out h fits = ground arith
scan_uint-digits (suc fuel) n out h fits =
    ground
      (arith, scan_uint_last n out fits, scan_uint-digits fuel (n / 10) ((b'0' + n % 10) ∷ out))

digits-ne-nil : (fuel n : ℕ) (c : ℕ) (out : Bytes) → digits fuel n (c ∷ out) ≢ []
unfolding digits
digits-ne-nil zero n c out h = cc
digits-ne-nil (suc fuel) n c out h =
    ground (arith, digits-ne-nil fuel (n / 10) (b'0' + n % 10) (c ∷ out))

parse_uint-scan : (s : Bytes) → s ≢ [] → parse_uint s ≡ scan_uint s 0
unfolding parse_uint
parse_uint-scan [] h = absurd (h refl)
parse_uint-scan (c ∷ s) h = refl

format_uint-ne-nil : (n : ℕ) → format_uint n ≢ []
unfolding format_uint
format_uint-ne-nil zero h = cc
format_uint-ne-nil (suc n) h = ground (arith, digits-ne-nil n (suc n / 10) (b'0' + suc n % 10) [])

-- Every 64-bit number is read back from its decimal print.
pub parse_uint-format_uint : (n : ℕ) → n ≤ max_uint64 → parse_uint (format_uint n) ≡ some n
unfolding format_uint scan_uint
parse_uint-format_uint n h =
    rw (parse_uint-scan _ (format_uint-ne-nil n))
      (ground (arith, scan_uint-digits n n [] (omega arith) h))
