-- ===== src/Firmware.antt =====
-- src/main.c: the firmware as the parts that its loop calls, and the actions that reach them: what
-- `tud_task` delivers, the calls of the loop, and the button's interrupt. Any list of actions is a
-- run; the loop's own order is one of them.
pub mod Boot
pub mod Presses
pub mod Invariant
pub mod Locked
pub mod Quiet
pub mod Machine
pub mod Opening
pub mod Wire
pub mod Answers
pub mod Orderly
pub mod Chaining
pub mod Request
pub mod Guards
pub mod Trace
pub mod Session
pub mod Bytes
use ward3n.Base.{ℕ, ◌+◌, Bool, true, false, List, [], ◌∷◌, ◌++◌, if◌then◌else◌}
use ward3n.Pico.{Clock}
use ward3n.DeviceState
use ward3n.DeviceState.{Device}
use ward3n.CryptoBackend.{CryptoBackend}
use ward3n.Piv.{Card}
use ward3n.Piv.Applet.{piv_init}
use ward3n.Button
use ward3n.Button.{Button}
use ward3n.Neopixel
use ward3n.Neopixel.{Led}
use ward3n.Ccid.{Ccid, Reader, process_message, ccid_init, ccid_reset, ccid_task, xfer_cb}

pub record Firmware (Keys : Type 0) : Type 0 where
  pub reader : Reader Keys
  pub button : Button
  pub led : Led

pub data Action : Type 0 where
  -- A transfer on an endpoint completes; the receive buffer holds these bytes, of which some count.
  transfer : ℕ → ℕ → List ℕ → ℕ → Action
  -- TinyUSB calls the driver's `init` or `reset`, or `tud_umount_cb`.
  driver_init : Action
  bus_reset : Action
  unmount : Action
  -- TinyUSB calls `tud_mount_cb`, `tud_suspend_cb` or `tud_resume_cb`.
  mount : Action
  suspend : Action
  resume : Action
  -- TinyUSB calls the driver's `open`, which leaves these endpoints: OUT, IN and interrupt.
  driver_open : ℕ → ℕ → ℕ → Action
  -- The loop's `ccid_task`, with the endpoint claimed or busy.
  send : Bool → Action
  -- The button's interrupt on a pin.
  edge : ℕ → ℕ → Action
  -- The loop's `button_was_pressed`, and its `dev_state_tick`.
  poll : ℕ → ℕ → ℕ → Action
  tick : ℕ → Action
  -- The loop's `neopixel_tick`, with the two times that it reads.
  animate : ℕ → ℕ → Action

module _ {Keys : Type 0} where
  abbrev pub device : Firmware Keys → Device
  device f = f.reader.card.dev

  abbrev pub with_ccid : Firmware Keys → Ccid → Firmware Keys
  with_ccid f r = record f { reader = record f.reader { ccid = r } }

  abbrev pub with_device : Firmware Keys → Device → Firmware Keys
  with_device f d = record f {
    reader = record f.reader { card = record f.reader.card { dev = d } };
  }

module _ (clock : Clock) (C : CryptoBackend) where
  open C use {Keys}

  -- One action; the second part tells whether it is a press that the button confirmed.
  unfoldable pub act : Action → Firmware Keys → Firmware Keys × Bool
  act (transfer now ep rx n) f =
      let r = record f.reader { ccid = record f.reader.ccid { rx_buf = rx } } in
      (record f { reader = xfer_cb clock C now ep n r }, false)
  act driver_init f = (with_ccid f (ccid_init f.reader.ccid), false)
  act bus_reset f = (with_ccid f (ccid_reset f.reader.ccid), false)
  act unmount f = (with_device f (DeviceState.init (device f)), false)
  act mount f = (f, false)
  act suspend f = (f, false)
  act resume f = (f, false)
  act (driver_open out in_ intr) f =
      (with_ccid f (record f.reader.ccid { ep_out = out; ep_in = in_; ep_intr = intr }), false)
  act (send claimed) f = (with_ccid f (ccid_task claimed f.reader.ccid).0, false)
  act (edge now gpio) f = (record f { button = Button.gpio_irq now gpio f.button }, false)
  act (poll now pressed_at level) f =
      let (b, d, pressed) = Button.was_pressed clock now pressed_at level f.button (device f) in
      (record (with_device f d) { button = b }, pressed)
  act (tick now) f = (with_device f (DeviceState.tick clock now (device f)), false)
  act (animate due_at now) f = (
    record f { led = (Neopixel.tick clock due_at now (DeviceState.get (device f)) f.led).0 },
    false,
  )

  -- The state after a run, and the number of confirmed presses in it.
  unfoldable pub run : List Action → Firmware Keys → Firmware Keys × ℕ
  run [] f = (f, 0)
  run (a ∷ rest) f =
      let (f', pressed) = act a f in
      let (end, n) = run rest f' in (end, (if pressed then 1 else 0) + n)

  -- The body of the loop in `main`: what `tud_task` delivers, then the loop's calls in order.
  abbrev pub main_loop_body : List Action → Bool → ℕ → ℕ → ℕ → ℕ → ℕ → ℕ → List Action
  main_loop_body delivered claimed polled pressed_at level ticked due_at shown =
      delivered
      ++ (send claimed ∷ poll polled pressed_at level ∷ tick ticked ∷ animate due_at shown ∷ [])
