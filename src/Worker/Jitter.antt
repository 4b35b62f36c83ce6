-- ===== src/Worker/Jitter.antt =====
-- The range of Compute.
use native.Mathlib.Nat.{mul-le-mul_left, pow-le-pow_right}
use dist_task_queue.Prelude.{ℕ, ◌+◌, ◌*◌, ◌/◌, ◌^◌, ◌≤◌, ◌<◌, arith}
use dist_task_queue.Worker.Backoff.{base_seconds, compute}

two_le_pow : (n : ℕ) → 1 ≤ n → 2 ≤ 2 ^ n
two_le_pow n h = omega (arith, pow-le-pow_right {n = 2} (omega arith) h)

base_seconds_range : (n : ℕ) → (2 ≤ base_seconds n) × (base_seconds n ≤ 600)
unfolding base_seconds
base_seconds_range n = ground (arith, two_le_pow n, two_le_pow 1)

-- In nanoseconds: 3 b M + 2 b r lies between 3 b M and 5 b M, where M = 2 ^ 53.
quotient_range :
    (b r : ℕ)
    → r < 2 ^ 53
    → (b * 750000000 ≤ b * (3 * 2 ^ 53 + 2 * r) * 1000000000 / (4 * 2 ^ 53))
      × (b * (3 * 2 ^ 53 + 2 * r) * 1000000000 / (4 * 2 ^ 53) ≤ b * 1250000000)
quotient_range b r h =
    let low : b * (3 * 2 ^ 53) ≤ b * (3 * 2 ^ 53 + 2 * r) = mul-le-mul_left b (omega arith) in
    let high : b * (3 * 2 ^ 53 + 2 * r) ≤ b * (5 * 2 ^ 53) = mul-le-mul_left b (omega (arith, h)) in
    (omega (arith, low), omega (arith, high))

-- For every value of rand.Float64, the backoff lies between three and five quarters of its base,
-- which is 2 to the attempts, 1 of them at least, cut at 600 s: so between 1.5 s and 750 s.
pub compute_range :
    (r attempts : ℕ)
    → r < 2 ^ 53
    → (base_seconds attempts * 750000000 ≤ compute r attempts)
      × (compute r attempts ≤ base_seconds attempts * 1250000000)
      × (1500000000 ≤ compute r attempts)
      × (compute r attempts ≤ 750000000000)
unfolding compute
compute_range r attempts h =
    let (low, high) = quotient_range (base_seconds attempts) r h in
    let (two, most) = base_seconds_range attempts in
    (low, high, omega (arith, low, two), omega (arith, high, most))
