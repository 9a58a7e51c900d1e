-- ===== src/Firmware/Presses.antt =====
-- src/main.c, src/button.c, src/piv.c: uses of the private key against confirmed presses of the button.
use ward3n.Base.{ℕ, ◌+◌, ◌≤◌, ◌≡◌, refl, Bool, false, List, [], ◌∷◌, drop, arith}
use ward3n.Pico.{Clock}
use ward3n.DeviceState.{Device, tick, init, button_pressed, is_authorized}
use ward3n.CryptoBackend.{CryptoBackend}
use ward3n.Piv.{Card, piv_process_apdu}
use ward3n.Piv.Presence.{bit}
use ward3n.Piv.Uses.{Meter, balance, answer_apdu-balance}
use ward3n.Button.{Button, was_pressed}
use ward3n.Ccid.{Reader, exchange, handle_xfr_block, respond, process_message, xfer_cb}
use ward3n.Ccid.Header.{read_u32}
use ward3n.Firmware.{
  Firmware, Action, transfer, driver_init, bus_reset, unmount, mount, suspend, resume, driver_open,
  send, edge, poll, tick as tick_action, animate, device, act, run,
}

module _ (clock : Clock) (C : CryptoBackend) (m : Meter C) where
  open C use {Keys}
  open m use {uses}

  exchange-balance :
      (now : ℕ) (msg : List ℕ) (len : ℕ) (tx : List ℕ) (c : Card Keys)
      → balance clock C m (exchange clock C now msg len tx c).0 ≤ balance clock C m c
  unfolding exchange piv_process_apdu
  exchange-balance now msg len tx c = answer_apdu-balance clock C m now (drop 10 msg) len c

  respond-balance :
      (now : ℕ) (powered : Bool) (msg : List ℕ) (n : ℕ) (tx : List ℕ) (c : Card Keys)
      → balance clock C m (respond clock C now powered msg n tx c).1 ≤ balance clock C m c
  unfolding respond handle_xfr_block
  respond-balance now powered msg n tx c =
      ground (arith, exchange-balance now msg (read_u32 msg 1) tx c)

  xfer_cb-balance :
      (now ep n : ℕ) (r : Reader Keys)
      → balance clock C m (xfer_cb clock C now ep n r).card ≤ balance clock C m r.card
  unfolding xfer_cb process_message
  xfer_cb-balance now ep n r =
      ground (arith, respond-balance now r.ccid.icc_powered r.ccid.rx_buf n r.ccid.tx_buf r.card)

  tick-credit :
      (now : ℕ) (d : Device) → bit (is_authorized (tick clock now d)) ≤ bit (is_authorized d)
  unfolding tick is_authorized
  tick-credit now d = ground arith

  press-credit :
      (now pressed_at level : ℕ) (b : Button) (d : Device)
      → let (b', d', pressed) = was_pressed clock now pressed_at level b d in
        bit (is_authorized d') ≤ bit (is_authorized d) + bit pressed
  unfolding was_pressed is_authorized button_pressed
  press-credit now pressed_at level b d = ground arith

  init-credit : (d : Device) → is_authorized (init d) ≡ false
  unfolding init is_authorized
  init-credit d = refl

  act-balance :
      (a : Action) (f : Firmware Keys)
      → let (f', pressed) = act clock C a f in
        balance clock C m f'.reader.card ≤ balance clock C m f.reader.card + bit pressed
  unfolding act
  act-balance (transfer now ep rx n) f =
      let r = record f.reader { ccid = record f.reader.ccid { rx_buf = rx } } in
      omega (arith, xfer_cb-balance now ep n r)
  act-balance driver_init f = omega arith
  act-balance bus_reset f = omega arith
  act-balance unmount f = ground (arith, init-credit (device f))
  act-balance mount f = omega arith
  act-balance suspend f = omega arith
  act-balance resume f = omega arith
  act-balance (driver_open out in_ intr) f = omega arith
  act-balance (send claimed) f = omega arith
  act-balance (edge now gpio) f = omega arith
  act-balance (poll now pressed_at level) f =
      ground (arith, press-credit now pressed_at level f.button (device f))
  act-balance (animate due_at now) f = omega arith
  act-balance (tick_action now) f = ground (arith, tick-credit now (device f))

  run-balance :
      (actions : List Action) (f : Firmware Keys)
      → let (end, presses) = run clock C actions f in
        balance clock C m end.reader.card ≤ balance clock C m f.reader.card + presses
  unfolding run
  run-balance [] f = omega arith
  run-balance (a ∷ rest) f = ground (arith, act-balance a f, run-balance rest (act clock C a f).0)

  -- In any run of the firmware, whatever USB messages, bus resets, interrupts and polls come in
  -- whatever order, the private key is used at most as often as presses of the button are confirmed,
  -- and once more if the device is authorized at the start.
  pub uses-le-presses :
      (actions : List Action) (f : Firmware Keys)
      → let (end, presses) = run clock C actions f in
        uses end.reader.card.keys
        ≤ uses f.reader.card.keys + bit (is_authorized (device f)) + presses
  uses-le-presses actions f = omega (arith, run-balance actions f)
