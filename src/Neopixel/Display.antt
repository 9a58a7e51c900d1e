-- ===== src/Neopixel/Display.antt =====
-- What the LED of src/neopixel.c shows over a sequence of calls, against the colours and the periods that
-- the device's states have.
use ward3n.Base.{
  ℕ, ◌+◌, ◌/◌, ◌%◌, ◌^◌, ◌<◌, Bool, true, false, not, Option, none, some, List, [], ◌∷◌, ◌++◌, ltb,
  if◌then◌else◌,
}
use ward3n.Pico.{Clock}
use ward3n.DeviceState.{State, idle, waiting_button, authorized, processing}
use ward3n.Neopixel.{Led, tick}

-- Red, green and blue
pub record Colour : Type 0 where
  pub red : ℕ
  pub green : ℕ
  pub blue : ℕ

-- What a WS2812 shows for a word: green comes first, then red, then blue.
abbrev pub decode : ℕ → Colour
decode word = record {
  red = word / 2 ^ 16 % 256;
  green = word / 2 ^ 24 % 256;
  blue = word / 2 ^ 8 % 256;
}

-- The colours of the states, for a light that is on or off, and their periods in microseconds.
abbrev pub colour : State → Bool → Colour
colour idle lit = record { red = 0; green = 0; blue = 20 }
colour waiting_button true = record { red = 80; green = 60; blue = 0 }
colour waiting_button false = record { red = 0; green = 0; blue = 0 }
colour authorized lit = record { red = 0; green = 60; blue = 0 }
colour processing true = record { red = 0; green = 80; blue = 0 }
colour processing false = record { red = 0; green = 0; blue = 0 }

abbrev pub period : State → ℕ
period idle = 500000
period waiting_button = 200000
period authorized = 250000
period processing = 100000

-- The light blinks while the device waits or processes.
abbrev pub next_light : State → Bool → Bool
next_light idle lit = lit
next_light waiting_button lit = not lit
next_light authorized lit = lit
next_light processing lit = not lit

-- A call of `neopixel_tick`: the device's state, and the two times that the call reads.
pub record Call : Type 0 where
  pub state : State
  pub due_at : ℕ
  pub now : ℕ

abbrev pub InTime : List Call → Type 0
InTime [] = Unit
InTime (c ∷ calls) = (c.now + 500000 < 2 ^ 63) × InTime calls

-- The colours that are to be seen: none before the light is due, and from then on that of the state,
-- until a period later.
unfoldable pub expected : ℕ → Bool → List Call → List Colour
expected due lit [] = []
expected due lit (c ∷ calls) =
    let early = expected due lit calls in
    let late = expected (c.now + period c.state) (next_light c.state lit) calls in
    if ltb c.due_at due then early else colour c.state (next_light c.state lit) ∷ late

abbrev pub seen : Option ℕ → List Colour
seen none = []
seen (some word) = decode word ∷ []

module _ (clock : Clock) where
  -- The colours that the calls send
  unfoldable pub display : List Call → Led → List Colour
  display [] led = []
  display (c ∷ calls) led =
      let (led', word) = tick clock c.due_at c.now c.state led in seen word ++ display calls led'
