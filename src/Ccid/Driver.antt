-- ===== src/Ccid/Driver.antt =====
-- The table of the class driver's functions in src/ccid.c, through which TinyUSB calls the driver, and
-- the callback of src/usb_descriptors.c that hands it out.
use ward3n.Base.{ℕ, Bool, true, Option, none, some}
use ward3n.Pico.{Clock}
use ward3n.CryptoBackend.{CryptoBackend}
use ward3n.Ccid.{Reader, Control, ccid_init, ccid_reset, control_xfer_cb, xfer_cb}
use ward3n.Ccid.Open.{TinyUsb, ccid_open}

-- `usbd_class_driver_t`, over the state that the functions work on. The field `open` of the source is
-- `open_interface`; `sof` is a null pointer.
pub record ClassDriver (U : TinyUsb) (State : Type 0) : Type 0 where
  pub init : State → State
  pub deinit : Bool
  pub reset : State → State
  -- with fuel for its loop, the interface, and the length of the descriptors
  pub open_interface : ℕ → TinyUsb.Desc U → ℕ → State → Option (State × ℕ)
  pub control_xfer_cb : Bool → Bool → ℕ → Control
  -- at a time, on an endpoint, for a number of bytes
  pub xfer_cb : ℕ → ℕ → ℕ → State → State

module _ (clock : Clock) (C : CryptoBackend) (U : TinyUsb) where
  open C use {Keys}

  -- `_ccid_open` on a reader
  unfoldable pub reader_open : ℕ → U.Desc → ℕ → Reader Keys → Option (Reader Keys × ℕ)
  reader_open fuel itf max_len r = elim (ccid_open U fuel itf max_len r.ccid) [
    | none ↦ none
    | some result ↦ some (record r { ccid = result.0 }, result.1)
  ]

  -- `_ccid_driver`, which `ccid_driver` returns
  unfoldable pub ccid_driver : ClassDriver U (Reader Keys)
  ccid_driver = record {
    init = λ r. record r { ccid = ccid_init r.ccid };
    deinit = true;
    reset = λ r. record r { ccid = ccid_reset r.ccid };
    open_interface = reader_open;
    control_xfer_cb = control_xfer_cb;
    xfer_cb = xfer_cb clock C;
  }

  -- `usbd_app_driver_get_cb`: the number of drivers, and the driver.
  unfoldable pub app_driver_get_cb : ℕ × ClassDriver U (Reader Keys)
  app_driver_get_cb = (1, ccid_driver)
