-- ===== src/DeviceState/Timing.antt =====
-- The timeouts of src/device_state.c, in microseconds of the SDK's clock.
use ward3n.Base.{ℕ, ◌+◌, ◌^◌, ◌≤◌, ◌<◌, ◌≡◌, ◌↔◌, ◌⊎◌, true, false, arith}
use ward3n.Base.Int.{is_le_zero}
use ward3n.Config.{auth_window_ms, wait_button_timeout_ms}
use ward3n.Pico.{Clock}
use ward3n.DeviceState.{
  idle, waiting_button, authorized, processing, Device, tick, request_auth, button_pressed,
  is_authorized,
}

module _ (clock : Clock) where
  -- `absolute_time_diff_us(get_absolute_time(), _deadline) <= 0`
  pub expired_iff :
      (now deadline : ℕ)
      → (is_le_zero (clock.absolute_time_diff_us now deadline) ≡ true) ↔ (deadline ≤ now)
  expired_iff now deadline = rw (clock.absolute_time_diff_us_lem now deadline) (ground arith)

  -- The tick ends a wait or an authorization exactly from its deadline on: before it the device is
  -- as it was, and from it on the device is idle; an idle or processing device is left alone.
  pub tick_lem :
      (now : ℕ) (d : Device)
      → (now < d.deadline → tick clock now d ≡ d)
        × (d.deadline ≤ now
            → (d.state ≡ waiting_button) ⊎ (d.state ≡ authorized)
            → ((tick clock now d).state ≡ idle) × (is_authorized (tick clock now d) ≡ false))
        × ((d.state ≡ idle) ⊎ (d.state ≡ processing) → tick clock now d ≡ d)
  unfolding tick is_authorized
  tick_lem now d = (
    λ h. ground (arith, expired_iff now d.deadline),
    λ h s. ground (arith, expired_iff now d.deadline),
    λ s. ground arith,
  )

  -- From a press on that is confirmed while the device waits for it, the device is authorized at a
  -- tick exactly for ten seconds: until 10000000 microseconds after the press, and not from then on,
  -- with these times below 2^63 microseconds.
  pub press_window :
      (pressed later : ℕ) (d : Device)
      → d.state ≡ waiting_button
      → pressed + 10000000 < 2 ^ 63
      → (is_authorized (tick clock later (button_pressed clock pressed d)) ≡ true)
        ↔ (later < pressed + 10000000)
  unfolding button_pressed is_authorized tick
  press_window pressed later d waiting small =
      let due : clock.make_timeout_time_ms pressed auth_window_ms ≡ pressed + 10000000 =
        clock.make_timeout_time_ms_lem pressed auth_window_ms (omega arith) in
      let late = expired_iff later (clock.make_timeout_time_ms pressed auth_window_ms) in
      (λ h. ground arith, λ h. ground arith)

  -- From a request on, a device that was idle waits for the button at a tick exactly for thirty
  -- seconds, with these times below 2^63 microseconds.
  pub request_window :
      (asked later : ℕ) (d : Device)
      → d.state ≡ idle
      → asked + 30000000 < 2 ^ 63
      → ((tick clock later (request_auth clock asked d)).state ≡ waiting_button)
        ↔ (later < asked + 30000000)
  unfolding request_auth tick
  request_window asked later d at_rest small =
      let due : clock.make_timeout_time_ms asked wait_button_timeout_ms ≡ asked + 30000000 =
        clock.make_timeout_time_ms_lem asked wait_button_timeout_ms (omega arith) in
      let late = expired_iff later (clock.make_timeout_time_ms asked wait_button_timeout_ms) in
      (λ h. ground arith, λ h. ground arith)
