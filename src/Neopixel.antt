-- ===== src/Neopixel.antt =====
-- src/neopixel.c and include/neopixel.h: the LED that shows the device's state. What a call sends to
-- the PIO is the word that it puts into the FIFO.
pub mod Display
use ward3n.Base.{
  ℕ, ◌*◌, ◌%◌, ◌^◌, bit_or, Bool, true, false, not, List, [], ◌∷◌, Option, none, some,
  if◌then◌else◌,
}
use ward3n.Config.{neopixel_pin}
use ward3n.Pico.{Clock}
use ward3n.DeviceState.{State, idle, waiting_button, authorized, processing}

-- The calls of `neopixel_init`: the program of ws2812.pio is loaded, which gives an offset, and started
-- on a state machine, for a pin, with bits at a frequency.
pub data PioCall : Type 0 where
  add_program : PioCall
  program_init : (sm offset pin freq : ℕ) → PioCall

-- `neopixel_init`, with the offset that `pio_add_program` returns
unfoldable pub neopixel_init : ℕ → List PioCall
neopixel_init offset = add_program ∷ program_init 0 offset neopixel_pin 800000 ∷ []

-- The word of `_send_pixel`, for bytes r, g, b.
abbrev pub pixel : ℕ → ℕ → ℕ → ℕ
pixel r g b = bit_or (bit_or (g * 2 ^ 24 % 2 ^ 32) (r * 2 ^ 16)) (b * 2 ^ 8)

-- `neopixel_set`: the word that it sends.
abbrev pub set : ℕ → ℕ → ℕ → ℕ
set r g b = pixel r g b

-- `neopixel_off`
abbrev pub off : ℕ
off = set 0 0 0

-- The static variables of the animation.
pub record Led : Type 0 where
  pub next_tick : ℕ
  pub blink_on : Bool

-- The static initialisers, before `main`.
abbrev pub at_boot : Led
at_boot = record { next_tick = 0; blink_on = false }

module _ (clock : Clock) where
  -- The `switch` of `neopixel_tick`; `now` is the time that `make_timeout_time_ms` reads.
  unfoldable pub show : ℕ → State → Led → Led × ℕ
  show now idle led = (record led { next_tick = clock.make_timeout_time_ms now 500 }, pixel 0 0 20)
  show now waiting_button led = (
    record { next_tick = clock.make_timeout_time_ms now 200; blink_on = not led.blink_on },
    if not led.blink_on then pixel 80 60 0 else off,
  )
  show now authorized led =
      (record led { next_tick = clock.make_timeout_time_ms now 250 }, pixel 0 60 0)
  show now processing led = (
    record { next_tick = clock.make_timeout_time_ms now 100; blink_on = not led.blink_on },
    pixel 0 (if not led.blink_on then 80 else 0) 0,
  )

  -- `neopixel_tick`: `due_at` is the time that `time_reached` reads, `now` the later one.
  unfoldable pub tick : ℕ → ℕ → State → Led → Led × Option ℕ
  tick due_at now state led =
      if not (clock.time_reached due_at led.next_tick)
      then (led, none)
      else (let (led', word) = show now state led in (led', some word))
