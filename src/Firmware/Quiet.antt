-- ===== src/Firmware/Quiet.antt =====
-- Calls of the loop in src/main.c that come between two messages, and a press of the button.
use ward3n.Base.{
  ℕ, ◌+◌, ◌≤◌, ◌<◌, ◌≡◌, refl, ◌∙◌, ap, Bool, true, false, List, [], ◌∷◌, ◌++◌, length, arith,
}
use ward3n.Pico.{Clock}
use ward3n.DeviceState.{Device, tick as tick_device, button_pressed}
use ward3n.DeviceState.Timing.{tick_lem}
use ward3n.CryptoBackend.{CryptoBackend}
use ward3n.Piv.{Card}
use ward3n.Button.{Button, gpio_irq, was_pressed}
use ward3n.Ccid.{ccid_task}
use ward3n.Firmware.{
  Firmware, Action, transfer, driver_init, bus_reset, unmount, mount, suspend, resume, driver_open,
  send, edge, poll, tick, animate, act, run,
}

-- Calls of the loop that come in between: ticks before a deadline, sends, the LED's ticks, and what
-- TinyUSB tells of mounts and suspends.
abbrev pub IsQuietAction : ℕ → Action → Type 0
IsQuietAction deadline (tick now) = now < deadline
IsQuietAction deadline (send claimed) = Unit
IsQuietAction deadline (animate due_at now) = Unit
IsQuietAction deadline mount = Unit
IsQuietAction deadline suspend = Unit
IsQuietAction deadline resume = Unit
IsQuietAction deadline _ = ⊥

abbrev pub IsQuiet : ℕ → List Action → Type 0
IsQuiet deadline [] = Unit
IsQuiet deadline (a ∷ rest) = IsQuietAction deadline a × IsQuiet deadline rest

-- A powered reader with the card and the button that are given.
pub record IsReady {Keys : Type 0} (ep : ℕ) (c : Card Keys) (b : Button) (f : Firmware Keys)
    : Type 0 where
  pub transmit : length f.reader.ccid.tx_buf ≡ 512
  pub powered : f.reader.ccid.icc_powered ≡ true
  pub out_endpoint : f.reader.ccid.ep_out ≡ ep
  pub card_lem : f.reader.card ≡ c
  pub button_lem : f.button ≡ b

module _ (clock : Clock) (C : CryptoBackend) where
  open C use {Keys, sign}

  pub run-append :
      (xs ys : List Action) (f : Firmware Keys)
      → (run clock C (xs ++ ys) f).0 ≡ (run clock C ys (run clock C xs f).0).0
  unfolding run
  run-append [] ys f = refl
  run-append (x ∷ xs) ys f = run-append xs ys (act clock C x f).0

  tick-IsReady :
      (now ep : ℕ) (c : Card Keys) (b : Button) (f : Firmware Keys)
      → now < c.dev.deadline
      → IsReady ep c b f
      → IsReady ep c b (act clock C (tick now) f).0
  unfolding act
  tick-IsReady now ep c b f early ready =
      let before : now < f.reader.card.dev.deadline = rw ready.card_lem early in
      let kept : tick_device clock now f.reader.card.dev ≡ f.reader.card.dev =
        (tick_lem clock now f.reader.card.dev).0 before in
      record {
        transmit = ready.transmit;
        powered = ready.powered;
        out_endpoint = ready.out_endpoint;
        card_lem = ap (λ (d : Device). record f.reader.card { dev = d }) kept ∙ ready.card_lem;
        button_lem = ready.button_lem;
      }

  send-IsReady :
      (claimed : Bool) (ep : ℕ) (c : Card Keys) (b : Button) (f : Firmware Keys)
      → IsReady ep c b f
      → IsReady ep c b (act clock C (send claimed) f).0
  unfolding act ccid_task
  send-IsReady claimed ep c b f ready = record {
    transmit = ground (arith, ready.transmit);
    powered = ground (arith, ready.powered);
    out_endpoint = ground (arith, ready.out_endpoint);
    card_lem = ready.card_lem;
    button_lem = ready.button_lem;
  }

  act-IsReady :
      (a : Action) (ep : ℕ) (c : Card Keys) (b : Button) (f : Firmware Keys)
      → IsQuietAction c.dev.deadline a
      → IsReady ep c b f
      → IsReady ep c b (act clock C a f).0
  unfolding act
  act-IsReady (tick now) ep c b f early ready = tick-IsReady now ep c b f early ready
  act-IsReady (send claimed) ep c b f quiet ready = send-IsReady claimed ep c b f ready
  act-IsReady (animate due_at now) ep c b f quiet ready = record {
    transmit = ready.transmit;
    powered = ready.powered;
    out_endpoint = ready.out_endpoint;
    card_lem = ready.card_lem;
    button_lem = ready.button_lem;
  }
  act-IsReady (transfer now e rx n) ep c b f quiet ready = absurd quiet
  act-IsReady driver_init ep c b f quiet ready = absurd quiet
  act-IsReady bus_reset ep c b f quiet ready = absurd quiet
  act-IsReady unmount ep c b f quiet ready = absurd quiet
  act-IsReady mount ep c b f quiet ready = ready
  act-IsReady suspend ep c b f quiet ready = ready
  act-IsReady resume ep c b f quiet ready = ready
  act-IsReady (driver_open out in_ intr) ep c b f quiet ready = absurd quiet
  act-IsReady (edge now gpio) ep c b f quiet ready = absurd quiet
  act-IsReady (poll now pressed_at level) ep c b f quiet ready = absurd quiet

  pub quiet-IsReady :
      (actions : List Action) (ep : ℕ) (c : Card Keys) (b : Button) (f : Firmware Keys)
      → IsQuiet c.dev.deadline actions
      → IsReady ep c b f
      → IsReady ep c b (run clock C actions f).0
  unfolding run
  quiet-IsReady [] ep c b f quiet ready = ready
  quiet-IsReady (a ∷ rest) ep c b f quiet ready =
      quiet-IsReady rest ep c b (act clock C a f).0 quiet.1 (act-IsReady a ep c b f quiet.0 ready)

  -- The edge, and the poll that confirms the press.
  edge_lem :
      (now : ℕ) (b : Button)
      → b.edge_seen ≡ false
      → gpio_irq now 9 b ≡ record b { edge_seen = true; edge_time = now }
  unfolding gpio_irq
  edge_lem now b off = rw off refl

  poll_lem :
      (now pressed_at : ℕ) (b : Button) (d : Device)
      → b.edge_seen ≡ true
      → b.edge_time + 30000 ≤ now
      → was_pressed clock now pressed_at 0 b d ≡ (
        record b { edge_seen = false; press_confirmed = true },
        button_pressed clock pressed_at d,
        true,
      )
  unfolding was_pressed
  poll_lem now pressed_at b d on late =
      ground (arith, clock.absolute_time_diff_us_lem b.edge_time now)

  pub edge-IsReady :
      (now ep : ℕ) (c : Card Keys) (b : Button) (f : Firmware Keys)
      → b.edge_seen ≡ false
      → IsReady ep c b f
      → IsReady ep c (record b { edge_seen = true; edge_time = now }) (act clock C (edge now 9) f).0
  unfolding act
  edge-IsReady now ep c b f off ready = record {
    transmit = ready.transmit;
    powered = ready.powered;
    out_endpoint = ready.out_endpoint;
    card_lem = ready.card_lem;
    button_lem = ap (gpio_irq now 9) ready.button_lem ∙ edge_lem now b off;
  }

  pub poll-IsReady :
      (now pressed_at ep : ℕ) (c : Card Keys) (b : Button) (f : Firmware Keys)
      → b.edge_seen ≡ true
      → b.edge_time + 30000 ≤ now
      → IsReady ep c b f
      → IsReady ep
          (record c { dev = button_pressed clock pressed_at c.dev })
          (record b { edge_seen = false; press_confirmed = true })
          (act clock C (poll now pressed_at 0) f).0
  unfolding act
  poll-IsReady now pressed_at ep c b f on late ready =
      let d : Device = f.reader.card.dev in
      let e =
        ap (λ t. was_pressed clock now pressed_at 0 t d) ready.button_lem
        ∙ poll_lem now pressed_at b d on late in
      record {
        transmit = ready.transmit;
        powered = ready.powered;
        out_endpoint = ready.out_endpoint;
        card_lem =
            ap (λ (t : Button × Device × Bool). record f.reader.card { dev = t.1 }) e
            ∙ ap (λ (t : Card Keys). record t { dev = button_pressed clock pressed_at t.dev })
                ready.card_lem;
        button_lem = ap (λ (t : Button × Device × Bool). t.0) e;
      }
