-- ===== src/Firmware/Trace.antt =====
-- What can be seen of a run of src/main.c from outside, and a monitor that watches it: a signature is
-- allowed while the PIN was given since the last power on and a press came since the last signature.
use ward3n.Base.{
  ℕ, ◌≡◌, refl, Bool, true, not, ◌&&◌, ◌||◌, List, [], ◌∷◌, leb, ◌==◌, if◌then◌else◌, arith,
}
use ward3n.Pico.{Clock}
use ward3n.DeviceState.{Device, init, tick as tick_device, button_pressed, is_authorized}
use ward3n.Button.{Button, was_pressed}
use ward3n.CryptoBackend.{CryptoBackend}
use ward3n.Piv.{Card}
use ward3n.Firmware.{
  Firmware, Action, transfer, driver_init, bus_reset, unmount, mount, suspend, resume, driver_open,
  send, edge, poll, tick, animate, act, device,
}
use ward3n.Firmware.Guards.{Seen, nothing, Guards, see_message, nothing-Guards, xfer_cb-Guards}

-- The monitor, with whether the PIN was given and whether a press came.
unfoldable pub is_guarded : List Seen → Bool → Bool → Bool
is_guarded [] pin press = true
is_guarded (s ∷ rest) pin press =
    (not s.signed || (pin && press))
    && is_guarded rest ((pin && not s.powered) || s.verified) ((press && not s.signed) || s.pressed)

module _ (clock : Clock) (C : CryptoBackend) where
  open C use {Keys}

  unfoldable pub see : Action → Firmware Keys → Seen
  see (transfer now ep rx n) f =
      if ep == f.reader.ccid.ep_out && leb 10 n
      then see_message clock C now f.reader.ccid.icc_powered rx n f.reader.card
      else nothing
  see (poll now pressed_at level) f = record nothing {
    pressed = (act clock C (poll now pressed_at level) f).1;
  }
  see _ f = nothing

  unfoldable pub trace : List Action → Firmware Keys → List Seen
  trace [] f = []
  trace (a ∷ rest) f = see a f ∷ trace rest (act clock C a f).0

  init-unauthorized : (d : Device) → is_authorized (init d) ≡ true → is_authorized d ≡ true
  unfolding init is_authorized
  init-unauthorized d e = ground arith

  tick-unauthorized :
      (now : ℕ) (d : Device)
      → is_authorized (tick_device clock now d) ≡ true
      → is_authorized d ≡ true
  unfolding tick_device is_authorized
  tick-unauthorized now d e = ground arith

  poll-unauthorized :
      (now pressed_at level : ℕ) (b : Button) (d : Device)
      → let (b', d', pressed) = was_pressed clock now pressed_at level b d in
        is_authorized d' ≡ true → (is_authorized d || pressed) ≡ true
  unfolding was_pressed button_pressed is_authorized
  poll-unauthorized now pressed_at level b d e = ground arith

  device-Guards :
      (c : Card Keys) (d : Device)
      → (is_authorized d ≡ true → is_authorized c.dev ≡ true)
      → Guards nothing c (record c { dev = d })
  device-Guards c d keeps = (λ e. ground arith, λ e. ground arith, λ e. ground (arith, keeps e))

  act-Guards :
      (a : Action) (f : Firmware Keys)
      → Guards (see a f) f.reader.card (act clock C a f).0.reader.card
  unfolding see act
  act-Guards (transfer now ep rx n) f =
      xfer_cb-Guards clock C now ep n
        (record f.reader { ccid = record f.reader.ccid { rx_buf = rx } })
  act-Guards driver_init f = nothing-Guards clock C f.reader.card
  act-Guards bus_reset f = nothing-Guards clock C f.reader.card
  act-Guards unmount f = device-Guards f.reader.card _ (init-unauthorized (device f))
  act-Guards mount f = nothing-Guards clock C f.reader.card
  act-Guards suspend f = nothing-Guards clock C f.reader.card
  act-Guards resume f = nothing-Guards clock C f.reader.card
  act-Guards (driver_open out in_ intr) f = nothing-Guards clock C f.reader.card
  act-Guards (send claimed) f = nothing-Guards clock C f.reader.card
  act-Guards (edge now gpio) f = nothing-Guards clock C f.reader.card
  act-Guards (poll now pressed_at level) f =
      let press = poll-unauthorized now pressed_at level f.button (device f) in
      (λ e. ground arith, λ e. ground arith, λ e. ground (arith, press e))
  act-Guards (tick now) f = device-Guards f.reader.card _ (tick-unauthorized now (device f))
  act-Guards (animate due_at now) f = nothing-Guards clock C f.reader.card

  -- The monitor, started with what the card allows already or more, accepts every run.
  guarded :
      (actions : List Action) (f : Firmware Keys) (pin press : Bool)
      → (f.reader.card.piv.pin_verified ≡ true → pin ≡ true)
      → (is_authorized (device f) ≡ true → press ≡ true)
      → is_guarded (trace actions f) pin press ≡ true
  unfolding trace is_guarded
  guarded [] f pin press opened armed = refl
  guarded (a ∷ rest) f pin press opened armed =
      let f' = (act clock C a f).0 in
      let s = see a f in
      let (needs, pin_kept, press_kept) = act-Guards a f in
      let later =
        guarded rest f' ((pin && not s.powered) || s.verified)
          ((press && not s.signed) || s.pressed) (λ e. ground (arith, pin_kept e))
          (λ e. ground (arith, press_kept e)) in
      ground (arith, later)

  -- Every run is accepted by the monitor that is started with the PIN's flag and the authorization of
  -- the first state: at each signature that leaves, a VERIFY was answered by 9000 since the last power
  -- on, or the PIN was verified at the start and no power on came since, and a press was confirmed
  -- since the last signature, or the device was authorized at the start and nothing was signed since.
  pub trace-guarded :
      (actions : List Action) (f : Firmware Keys)
      → is_guarded (trace actions f) f.reader.card.piv.pin_verified (is_authorized (device f))
        ≡ true
  trace-guarded actions f =
      guarded actions f f.reader.card.piv.pin_verified (is_authorized (device f)) (λ e. e) (λ e. e)
