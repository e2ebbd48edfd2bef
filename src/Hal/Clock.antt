-- ===== src/Hal/Clock.antt =====
-- What differences of the clock measure.
use zephyr_cyw43_driver.Prelude.{ℕ, ◌+◌, ◌-◌, ◌*◌, ◌%◌, ◌^◌, ◌≤◌, ◌<◌, ◌≡◌, arith}
use zephyr_cyw43_driver.Hal.{ticks_us, ticks_ms}

-- A difference of two unsigned 32-bit words.
abbrev pub since : ℕ → ℕ → ℕ
since later earlier = (later + 2 ^ 32 - earlier) % 2 ^ 32

-- Where the kernel's clock shows the uptime modulo 2 ^ 32 milliseconds, and less than 2 ^ 32
-- microseconds lie between two readings, their difference is the time between them, on the clock in
-- milliseconds and on the clock in microseconds, also where a reading wraps around in between.
ticks_lem :
    (before after : ℕ)
    → before ≤ after
    → 1000 * (after - before) < 2 ^ 32
    → (since (ticks_ms (after % 2 ^ 32)) (ticks_ms (before % 2 ^ 32)) ≡ after - before)
      × (since (ticks_us (after % 2 ^ 32)) (ticks_us (before % 2 ^ 32)) ≡ 1000 * (after - before))
unfolding ticks_us ticks_ms
ticks_lem before after h short = (omega arith, omega arith)
