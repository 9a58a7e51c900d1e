-- ===== src/Pico.antt =====
-- The clock of the Pico SDK (pico/time.h), which the firmware calls: a parameter of the model, with
-- what the SDK documents of it. A time is a count of microseconds since boot.
use ward3n.Base.{ℕ, Bool, true, ◌↔◌, ◌≤◌, ◌+◌, ◌*◌, ◌^◌, ◌<◌, ◌≡◌}
use ward3n.Base.Int.{ℤ, sub_ℕ}

pub record Clock : Type 0 where
  -- `make_timeout_time_ms (ms)`, called at the time that is the first argument
  pub make_timeout_time_ms : ℕ → ℕ → ℕ
  -- `absolute_time_diff_us (from, to)`
  pub absolute_time_diff_us : ℕ → ℕ → ℤ
  -- `time_reached (t)`, called at the time that is the first argument
  pub time_reached : ℕ → ℕ → Bool
  -- The timeout lies `ms` milliseconds ahead, where the 64-bit count does not saturate.
  pub make_timeout_time_ms_lem :
      (now ms : ℕ) → now + 1000 * ms < 2 ^ 63 → make_timeout_time_ms now ms ≡ now + 1000 * ms
  -- The difference is `to - from`.
  pub absolute_time_diff_us_lem : (from to : ℕ) → absolute_time_diff_us from to ≡ sub_ℕ to from
  -- A time is reached from itself on.
  pub time_reached_lem : (now t : ℕ) → (time_reached now t ≡ true) ↔ (t ≤ now)
