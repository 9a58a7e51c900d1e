-- ===== src/Tests/Presence.antt =====
-- The state machine's times on the ticking clock.
use ward3n.Base.{List, ℕ, [], ◌∷◌, ◌+◌, ◌<◌, ◌≤◌, ◌≡◌, ◌↔◌, refl, true, false, arith}
use ward3n.DeviceState.{
  waiting_button, authorized, tick, request_auth, button_pressed, is_authorized, at_boot,
}
use ward3n.DeviceState.Timing.{press_window, request_window}
use ward3n.Button
use ward3n.Button.{was_pressed}
use ward3n.Button.Poll.{Turn, own, irq, entry, interleave, IsAtomic}
use ward3n.Button.Interleaving.{interleave-IsAtomic}
use ward3n.Button.Debounce.{edges, press_confirmed}
use ward3n.Neopixel
use ward3n.Neopixel.Display.{Call}
use ward3n.Tests.Fixtures.{ticking, waiting}

press_window_example :
    (is_authorized (tick ticking 10000004 (button_pressed ticking 5 waiting)) ≡ true)
    ↔ (10000004 < 5 + 10000000)
press_window_example = press_window ticking 5 10000004 waiting refl (omega arith)

request_window_example :
    ((tick ticking 30000005 (request_auth ticking 5 at_boot)).state ≡ waiting_button)
    ↔ (30000005 < 5 + 30000000)
request_window_example = request_window ticking 5 30000005 at_boot refl (omega arith)

-- An edge, another one while the contact bounces, and a poll 40 milliseconds after the first.
press_confirmed_example :
    let (b', d', pressed) =
      was_pressed ticking 40005 40006 0 (edges ((5, 9) ∷ (700, 9) ∷ []) Button.at_boot) waiting in
    ((pressed ≡ true) ↔ ((5 + 30000 ≤ 40005) × (◌≡◌ {A = ℕ} 0 0)))
    × (pressed ≡ true → (d' ≡ button_pressed ticking 40006 waiting) × (b'.edge_seen ≡ false))
    × (pressed ≡ false → d' ≡ waiting)
press_confirmed_example =
    press_confirmed ticking 5 ((700, 9) ∷ []) 40005 40006 0 Button.at_boot waiting refl
      (omega arith)

-- A poll behind an edge, with an interrupt before its first step, one between the two halves of the
-- time, and one behind the clearing.
abbrev turns : List Turn
turns = irq 5 9 ∷ own ∷ own ∷ irq 700 9 ∷ own ∷ own ∷ own ∷ irq 40006 9 ∷ own ∷ own ∷ own ∷ []

interleave-IsAtomic_example :
    IsAtomic ticking 40005 40006 0 Button.at_boot waiting ((5, 9) ∷ (700, 9) ∷ (40006, 9) ∷ []) (
      interleave ticking 40005 40006 0 turns
        (record { pc = entry; button = Button.at_boot; device = waiting }))
interleave-IsAtomic_example =
    interleave-IsAtomic ticking 40005 40006 0 Button.at_boot waiting turns (omega arith)

-- The LED waits, is called too early, waits again, and is authorized.
abbrev calls : List Call
calls =
    record { due_at = 500; now = 600; state = waiting_button }
    ∷ record { due_at = 700; now = 701; state = waiting_button }
    ∷ record { due_at = 200600; now = 200601; state = waiting_button }
    ∷ record { due_at = 400700; now = 400701; state = authorized }
    ∷ []
