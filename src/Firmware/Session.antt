-- ===== src/Firmware/Session.antt =====
-- A signature from the request to the answer, across the parts of the firmware: the host asks, the user
-- presses, the host asks again. What happens in between is a list of the loop's own calls.
use ward3n.Base.{ℕ}
use ward3n.Pico.{Clock}
use ward3n.DeviceState.{request_auth, button_pressed}
use ward3n.CryptoBackend.{CryptoBackend}
use ward3n.Piv.{Card}
use ward3n.Button.{Button}
use ward3n.Firmware.{Firmware}

module _ (clock : Clock) (C : CryptoBackend) where
  open C use {Keys, sign}

  -- The device after the request, and after the press.
  abbrev asked_at : ℕ → Card Keys → Card Keys
  asked_at now c = record c { dev = request_auth clock now c.dev }

  abbrev pressed_at : ℕ → Card Keys → Card Keys
  pressed_at now c = record c { dev = button_pressed clock now c.dev }
