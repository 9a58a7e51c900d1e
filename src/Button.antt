-- ===== src/Button.antt =====
-- src/button.c: the debounced button of the user's presence. The interrupt handler and the poll of
-- the main loop share the three static variables.
pub mod Debounce
pub mod Poll
pub mod Interrupted
pub mod Interleaving
use ward3n.Base.{ℕ, List, [], ◌∷◌, Bool, true, false, not, ◌&&◌, ◌==◌, if◌then◌else◌}
use ward3n.Base.Int.{div_ℤ, is_lt_ℕ}
use ward3n.Config.{button_pin, button_debounce_ms}
use ward3n.Pico.{Clock}
use ward3n.DeviceState.{Device, button_pressed}

pub record Button : Type 0 where
  pub edge_seen : Bool
  pub press_confirmed : Bool
  pub edge_time : ℕ

-- The static initialisers, before `main`.
abbrev pub at_boot : Button
at_boot = record { edge_seen = false; press_confirmed = false; edge_time = 0 }

-- `_gpio_irq`, at the time `now`
unfoldable pub gpio_irq : ℕ → ℕ → Button → Button
gpio_irq now gpio b =
    if gpio == button_pin && not b.edge_seen
    then record b { edge_seen = true; edge_time = now }
    else b

-- The calls of the SDK in `button_init`: the pin as an input with its pull-up, and `gpio_irq` as the
-- callback of its falling edge.
pub data GpioCall : Type 0 where
  gpio_init gpio_set_dir_in gpio_pull_up gpio_irq_on_edge_fall : ℕ → GpioCall

unfoldable pub button_init : List GpioCall
button_init =
    gpio_init button_pin
    ∷ gpio_set_dir_in button_pin
    ∷ gpio_pull_up button_pin
    ∷ gpio_irq_on_edge_fall button_pin
    ∷ []

module _ (clock : Clock) where
  -- `elapsed_ms < BUTTON_DEBOUNCE_MS`
  abbrev pub is_bouncing : ℕ → Button → Bool
  is_bouncing now b =
      is_lt_ℕ (div_ℤ (clock.absolute_time_diff_us b.edge_time now) 1000) button_debounce_ms

  -- `button_was_pressed`: `now` is the time that it reads, `pressed_at` the one that
  -- `dev_state_button_pressed` reads, and `level` what `gpio_get` returns. The value returned is the
  -- last part.
  unfoldable pub was_pressed : ℕ → ℕ → ℕ → Button → Device → Button × Device × Bool
  was_pressed now pressed_at level b d =
      if not b.edge_seen
      then (b, d, false)
      else (if is_bouncing now b
          then (b, d, false)
          else (if level == 0
              then (
                record b { edge_seen = false; press_confirmed = true },
                button_pressed clock pressed_at d,
                true,
              )
              else (record b { edge_seen = false }, d, false)))
