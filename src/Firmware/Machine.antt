-- ===== src/Firmware/Machine.antt =====
-- Runs of src/main.c as walks of the device's state machine.
use ward3n.Base.{ℕ, Bool, true, false, List, [], ◌∷◌}
use ward3n.Pico.{Clock}
use ward3n.DeviceState.Machine.{Cause, message, press, clock_tick, unmounted, other}
use ward3n.CryptoBackend.{CryptoBackend}
use ward3n.Button.{Button}
use ward3n.Firmware.{Firmware, Action, transfer, unmount, poll, tick, act}

-- A message is a cause if the PIN is verified, and a poll if it confirms a press.
abbrev of_message : ℕ → Bool → Cause
of_message now true = message now
of_message now false = other

abbrev of_poll : ℕ → Bool → Cause
of_poll pressed_at true = press pressed_at
of_poll pressed_at false = other

module _ (clock : Clock) (C : CryptoBackend) where
  open C use {Keys}

  -- What an action can be the cause of
  unfoldable pub cause : Action → Firmware Keys → Cause
  cause (transfer now ep rx n) f = of_message now f.reader.card.piv.pin_verified
  cause (poll now pressed_at level) f =
      of_poll pressed_at (act clock C (poll now pressed_at level) f).1
  cause (tick now) f = clock_tick now
  cause unmount f = unmounted
  cause _ f = other

  unfoldable pub causes : List Action → Firmware Keys → List Cause
  causes [] f = []
  causes (a ∷ rest) f = cause a f ∷ causes rest (act clock C a f).0
