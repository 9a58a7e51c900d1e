-- ===== src/Firmware/Opening.antt =====
-- The class driver's functions as TinyUSB calls them through the table, as actions of a run.
use ward3n.Base.{ℕ, ◌≡◌, refl, sym, ap, false, some, List}
use ward3n.Pico.{Clock}
use ward3n.CryptoBackend.{CryptoBackend}
use ward3n.Ccid.{Ccid, Reader}
use ward3n.Ccid.Open.{TinyUsb, ccid_open}
use ward3n.Ccid.Endpoints.{ccid_open-SameButEndpoints}
use ward3n.Ccid.Driver.{ClassDriver, ccid_driver, app_driver_get_cb, reader_open}
use ward3n.Firmware.{Firmware, transfer, driver_init, bus_reset, driver_open, act, with_ccid}

module _ (clock : Clock) (C : CryptoBackend) (U : TinyUsb) where
  open C use {Keys}

  -- The driver that TinyUSB is handed
  abbrev driver : ClassDriver U (Reader Keys)
  driver = (app_driver_get_cb clock C U).1

  -- Its calls but for the opening are the actions of the same name.
  pub driver_lem :
      (now ep : ℕ) (rx : List ℕ) (n : ℕ) (f : Firmware Keys)
      → (act clock C driver_init f ≡ (record f { reader = driver.init f.reader }, false))
        × (act clock C bus_reset f ≡ (record f { reader = driver.reset f.reader }, false))
        × (act clock C (transfer now ep rx n) f ≡ (
          record f {
            reader =
                driver.xfer_cb now ep n
                  (record f.reader { ccid = record f.reader.ccid { rx_buf = rx } });
          },
          false,
        ))
  unfolding act app_driver_get_cb ccid_driver
  driver_lem now ep rx n f = (refl, refl, refl)

  -- Whatever descriptors TinyUSB hands over, an opening that ends is the action with the endpoints that
  -- it leaves.
  pub driver_open_lem :
      (fuel : ℕ) (itf : U.Desc) (max_len : ℕ) (f : Firmware Keys) (r : Ccid) (value : ℕ)
      → ccid_open U fuel itf max_len f.reader.ccid ≡ some (r, value)
      → (driver.open_interface fuel itf max_len f.reader
          ≡ some (record f.reader { ccid = r }, value))
        × (act clock C (driver_open r.ep_out r.ep_in r.ep_intr) f ≡ (with_ccid f r, false))
  unfolding act app_driver_get_cb ccid_driver reader_open
  driver_open_lem fuel itf max_len f r value e = (
    rw (reader_open, e) refl,
    ap (λ (t : Ccid). (with_ccid f t, false))
        (sym (ccid_open-SameButEndpoints U fuel itf max_len f.reader.ccid r value e).same),
  )
