-- ===== src/Prelude/Int64.antt =====
-- Go's signed integers of 64 bits.
use Prim.Native.Nat.{ℕ, zero, suc, ◌-◌, ◌%◌, ◌^◌, ◌<◌}
use mathlib.Core.Path.{◌≡◌, refl}
use mathlib.Core.Bool.{Bool, true, false}
use native.Mathlib.Omega.{arith}
use dist_task_queue.Prelude.Tests.{ltb, if◌then◌else◌}

pub data ℤ : Type 0 where
  pos : ℕ → ℤ
  -- `negsuc n` is -(n + 1)
  negsuc : ℕ → ℤ

abbrev pub is_positive : ℤ → Bool
is_positive (pos zero) = false
is_positive (pos (suc n)) = true
is_positive (negsuc n) = false

-- The word of 64 bits that a number leaves, read as a signed number.
unfoldable pub int64 : ℕ → ℤ
int64 n =
    let word = n % 2 ^ 64 in if ltb word (2 ^ 63) then pos word else negsuc (2 ^ 64 - 1 - word)

pub int64_lem : (n : ℕ) → n < 2 ^ 63 → int64 n ≡ pos n
unfolding int64
int64_lem n h =
    let word : n % 2 ^ 64 ≡ n = omega (arith, h) in
    let small : ltb n (2 ^ 63) ≡ true = ground (arith, h) in rw (word, small) refl

pub is_positive_lem : (n : ℕ) → 0 < n → is_positive (pos n) ≡ true
is_positive_lem zero h = absurd (omega (arith, h))
is_positive_lem (suc n) h = refl
