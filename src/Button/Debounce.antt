-- ===== src/Button/Debounce.antt =====
-- The debouncing of src/button.c.
use ward3n.Base.{
  Bool, ◌==◌, ◌||◌, ◌∙◌, ap, ◌++◌, ℕ, ◌+◌, ◌≤◌, ◌≡◌, ◌↔◌, refl, true, false, List, [], ◌∷◌, arith,
}
use ward3n.Pico.{Clock}
use ward3n.DeviceState.{Device, button_pressed}
use ward3n.Button.{GpioCall, gpio_irq_on_edge_fall, button_init, Button, gpio_irq, was_pressed}

-- Interrupts one after the other, each with its time and its pin.
unfoldable pub edges : List (ℕ × ℕ) → Button → Button
edges [] b = b
edges ((now, gpio) ∷ rest) b = edges rest (gpio_irq now gpio b)

-- Once an edge is seen the others change nothing.
pub edges-seen : (es : List (ℕ × ℕ)) (b : Button) → b.edge_seen ≡ true → edges es b ≡ b
unfolding edges gpio_irq
edges-seen [] b h = refl
edges-seen ((now, gpio) ∷ rest) b h = ground (arith, edges-seen rest b h)

pub edges-append : (xs ys : List (ℕ × ℕ)) (b : Button) → edges (xs ++ ys) b ≡ edges ys (edges xs b)
unfolding edges
edges-append [] ys b = refl
edges-append ((now, gpio) ∷ xs) ys b = edges-append xs ys (gpio_irq now gpio b)

gpio_irq-confirmed :
    (now gpio : ℕ) (b : Button)
    → record (gpio_irq now gpio b) { press_confirmed = true }
      ≡ gpio_irq now gpio (record b { press_confirmed = true })
unfolding gpio_irq
gpio_irq-confirmed now gpio b = ground arith

-- An interrupt does not see whether a press was confirmed.
pub edges-confirmed :
    (es : List (ℕ × ℕ)) (b : Button)
    → record (edges es b) { press_confirmed = true }
      ≡ edges es (record b { press_confirmed = true })
unfolding edges
edges-confirmed [] b = refl
edges-confirmed ((now, gpio) ∷ es) b =
    edges-confirmed es (gpio_irq now gpio b) ∙ ap (edges es) (gpio_irq-confirmed now gpio b)

-- The pins whose falling edge interrupts after a list of calls
abbrev interrupts : ℕ → List GpioCall → Bool
interrupts gpio [] = false
interrupts gpio (gpio_irq_on_edge_fall pin ∷ calls) = gpio == pin || interrupts gpio calls
interrupts gpio (_ ∷ calls) = interrupts gpio calls

-- The set-up enables the interrupt on exactly the pin whose edges the handler takes.
button_init-interrupts :
    (now gpio : ℕ) (b : Button)
    → b.edge_seen ≡ false
    → (gpio_irq now gpio b).edge_seen ≡ interrupts gpio button_init
unfolding button_init gpio_irq
button_init-interrupts now gpio b off = ground arith

-- An edge on the button's pin starts the debouncing, whatever interrupts come after it, and a poll
-- then confirms a press exactly if thirty milliseconds have gone by since that edge and the line is
-- low: the device gets the press if it is confirmed, and is left alone if it is not.
pub press_confirmed :
    (clock : Clock) (edge_at : ℕ) (later : List (ℕ × ℕ)) (now pressed_at level : ℕ) (b : Button)
    (d : Device)
    → b.edge_seen ≡ false
    → edge_at ≤ now
    → let (b', d', pressed) =
        was_pressed clock now pressed_at level (edges ((edge_at, 9) ∷ later) b) d in
      ((pressed ≡ true) ↔ ((edge_at + 30000 ≤ now) × (level ≡ 0)))
      × (pressed ≡ true → (d' ≡ button_pressed clock pressed_at d) × (b'.edge_seen ≡ false))
      × (pressed ≡ false → d' ≡ d)
unfolding edges gpio_irq was_pressed
press_confirmed clock edge_at later now pressed_at level b d off order =
    let started = edges-seen later (record b { edge_seen = true; edge_time = edge_at }) refl in
    let diff = clock.absolute_time_diff_us_lem edge_at now in
    (
      (λ h. ground (arith, started, diff), λ h. ground (arith, started, diff)),
      λ h. ground (arith, started, diff),
      λ h. ground (arith, started, diff),
    )
