-- ===== src/Button/Poll.antt =====
-- The poll of src/button.c as the loop runs it, an access to memory at a time, with the button's
-- interrupt between any two of them. `_edge_time` has 64 bits, which the processor loads in two halves.
-- The steps stand in the order of the source.
use ward3n.Base.{
  ℕ, ◌+◌, ◌*◌, ◌/◌, ◌%◌, ◌^◌, ◌≡◌, Bool, true, false, not, List, [], ◌∷◌, ◌++◌, ◌==◌, if◌then◌else◌,
}
use ward3n.Base.Int.{div_ℤ, is_lt_ℕ}
use ward3n.Config.{button_debounce_ms}
use ward3n.Pico.{Clock}
use ward3n.DeviceState.{Device, button_pressed}
use ward3n.Button.{Button, gpio_irq, was_pressed}
use ward3n.Button.Debounce.{edges}

-- Where the poll stands in `button_was_pressed`, with the local variables that are live there.
pub data Pc : Type 0 where
  entry : Pc  -- before the test of _edge_seen
  low : Pc  -- before the load of the low half of _edge_time
  high : ℕ → Pc  -- before that of the high half
  timed : ℕ → Pc  -- before the call of get_absolute_time, and the test of elapsed_ms
  clearing : Pc  -- before _edge_seen is cleared
  sampling : Pc  -- before gpio_get
  confirming : Pc  -- before _press_confirmed is set
  notifying : Pc  -- before dev_state_button_pressed
  returned : Bool → Pc

pub record Poll : Type 0 where
  pub pc : Pc
  pub button : Button
  pub device : Device

-- Whose turn it is: the poll's next step, or an interrupt with its time and its pin.
pub data Turn : Type 0 where
  own : Turn
  irq : ℕ → ℕ → Turn

-- The interrupts of a schedule, and the number of steps that it gives the poll.
abbrev pub irqs : List Turn → List (ℕ × ℕ)
irqs [] = []
irqs (own ∷ rest) = irqs rest
irqs (irq now gpio ∷ rest) = (now, gpio) ∷ irqs rest

abbrev pub steps : List Turn → ℕ
steps [] = 0
steps (own ∷ rest) = 1 + steps rest
steps (irq now gpio ∷ rest) = steps rest

-- The steps that are left of the longest way through the poll.
abbrev pub steps_left : Pc → ℕ
steps_left entry = 8
steps_left low = 7
steps_left (high lo) = 6
steps_left (timed t) = 5
steps_left clearing = 4
steps_left sampling = 3
steps_left confirming = 2
steps_left notifying = 1
steps_left (returned pressed) = 0

module _ (clock : Clock) (now pressed_at level : ℕ) where
  unfoldable pub poll_step : Pc → Button → Device → Poll
  poll_step entry b d = record {
    pc = if not b.edge_seen then returned false else low;
    button = b;
    device = d;
  }
  poll_step low b d = record { pc = high (b.edge_time % 2 ^ 32); button = b; device = d }
  poll_step (high lo) b d = record {
    pc = timed (lo + 2 ^ 32 * (b.edge_time / 2 ^ 32));
    button = b;
    device = d;
  }
  poll_step (timed t) b d = record {
    pc =
        if is_lt_ℕ (div_ℤ (clock.absolute_time_diff_us t now) 1000) button_debounce_ms
        then returned false
        else clearing;
    button = b;
    device = d;
  }
  poll_step clearing b d = record {
    pc = sampling;
    button = record b { edge_seen = false };
    device = d;
  }
  poll_step sampling b d = record {
    pc = if level == 0 then confirming else returned false;
    button = b;
    device = d;
  }
  poll_step confirming b d = record {
    pc = notifying;
    button = record b { press_confirmed = true };
    device = d;
  }
  poll_step notifying b d = record {
    pc = returned true;
    button = b;
    device = button_pressed clock pressed_at d;
  }
  poll_step (returned pressed) b d = record { pc = returned pressed; button = b; device = d }

  unfoldable pub interleave : List Turn → Poll → Poll
  interleave [] s = s
  interleave (own ∷ rest) s = interleave rest (poll_step s.pc s.button s.device)
  interleave (irq at gpio ∷ rest) s =
      interleave rest (record s { button = gpio_irq at gpio s.button })

  -- `s` is what is left by the interrupts of a first part of `es`, by the poll at one go as
  -- `was_pressed` has it, and by the interrupts of the rest, in this order.
  abbrev pub IsAtomic : Button → Device → List (ℕ × ℕ) → Poll → Type 0
  IsAtomic b d es s =
      (before : List (ℕ × ℕ)) × (after : List (ℕ × ℕ)) × (es ≡ before ++ after)
      × (let (b', d', pressed) = was_pressed clock now pressed_at level (edges before b) d in
          s ≡ record { pc = returned pressed; button = edges after b'; device = d' })
