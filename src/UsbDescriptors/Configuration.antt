-- ===== src/UsbDescriptors/Configuration.antt =====
-- The configuration of src/usb_descriptors.c as TinyUSB reads it for `_ccid_open` of src/ccid.c.
use ward3n.Base.{
  ℕ, zero, suc, ◌+◌, ◌-◌, ◌/◌, ◌*◌, ◌%◌, ◌^◌, ◌≡◌, ◌≤◌, ◌<◌, refl, ap, ◌∙◌, true, some, List, [],
  ◌∷◌, length, get_or, ltb, ◌==◌, arith, lt→ltb,
}
use ward3n.Config.{ccid_ep_bulk_out, ccid_ep_bulk_in, ccid_ep_intr_in}
use ward3n.Ccid.{Ccid}
use ward3n.Ccid.Open.{
  TinyUsb, ccid_open, skip_functional, finish_open, open_endpoints, note_endpoint,
}
use ward3n.UsbDescriptors.{
  TusbCommon, config_header, interface_descriptor, functional_descriptor, endpoint_descriptor,
  tud_descriptor_configuration_cb, desc_configuration,
}

-- The configuration, byte by byte.
abbrev pub configuration_bytes : List ℕ
configuration_bytes =
    9 ∷ 2 ∷ 93 ∷ 0 ∷ 1 ∷ 1 ∷ 0 ∷ 0xA0 ∷ 50 ∷ 9 ∷ 4 ∷ 0 ∷ 0 ∷ 3 ∷ 0x0B ∷ 0 ∷ 0 ∷ 0 ∷ 54 ∷ 0x21 ∷ 0x10
    ∷ 0x01 ∷ 0 ∷ 7 ∷ 3 ∷ 0 ∷ 0 ∷ 0 ∷ 0xFC ∷ 0x0D ∷ 0 ∷ 0 ∷ 0xFC ∷ 0x0D ∷ 0 ∷ 0 ∷ 0 ∷ 0xCD ∷ 0x25 ∷ 0
    ∷ 0 ∷ 0xCD ∷ 0x25 ∷ 0 ∷ 0 ∷ 0 ∷ 0xFE ∷ 0 ∷ 0 ∷ 0 ∷ 0 ∷ 0 ∷ 0 ∷ 0 ∷ 0 ∷ 0 ∷ 0 ∷ 0 ∷ 0 ∷ 0 ∷ 4 ∷ 0
    ∷ 0x0F ∷ 0x01 ∷ 0 ∷ 0 ∷ 0xFF ∷ 0xFF ∷ 0 ∷ 0 ∷ 0 ∷ 1 ∷ 7 ∷ 5 ∷ 0x01 ∷ 2 ∷ 64 ∷ 0 ∷ 0 ∷ 7 ∷ 5
    ∷ 0x81 ∷ 2 ∷ 64 ∷ 0 ∷ 0 ∷ 7 ∷ 5 ∷ 0x82 ∷ 3 ∷ 8 ∷ 0 ∷ 16 ∷ []

-- What TinyUSB's accessors read at a place in the bytes of a configuration (USB 2.0, 9.6), with its
-- documented constants, and endpoints that open.
pub record Reads (U : TinyUsb) (bytes : List ℕ) : Type 0 where
  pub at : ℕ → TinyUsb.Desc U
  pub len_lem : (i : ℕ) → TinyUsb.desc_len U (at i) ≡ get_or bytes i 0
  pub next_lem : (i : ℕ) → TinyUsb.desc_next U (at i) ≡ at (i + get_or bytes i 0)
  pub type_lem : (i : ℕ) → TinyUsb.desc_type U (at i) ≡ get_or bytes (i + 1) 0
  pub class_lem : (i : ℕ) → TinyUsb.interface_class U (at i) ≡ get_or bytes (i + 5) 0
  pub address_lem : (i : ℕ) → TinyUsb.endpoint_address U (at i) ≡ get_or bytes (i + 2) 0
  pub xfer_lem : (i : ℕ) → TinyUsb.endpoint_xfer U (at i) ≡ get_or bytes (i + 3) 0 % 4
  pub is_out_lem : (a : ℕ) → TinyUsb.is_out U a ≡ ltb a 0x80
  pub edpt_open_lem : (d : TinyUsb.Desc U) → TinyUsb.edpt_open U d ≡ true
  pub class_smart_card_lem : TinyUsb.class_smart_card U ≡ 0x0B
  pub interface_size_lem : TinyUsb.interface_size U ≡ 9
  pub desc_endpoint_lem : TinyUsb.desc_endpoint U ≡ 5
  pub xfer_bulk_lem : TinyUsb.xfer_bulk U ≡ 2
  pub xfer_interrupt_lem : TinyUsb.xfer_interrupt U ≡ 3

configuration_lem :
    (T : TusbCommon) (index : ℕ) → tud_descriptor_configuration_cb T index ≡ configuration_bytes
unfolding tud_descriptor_configuration_cb desc_configuration config_header interface_descriptor
    functional_descriptor endpoint_descriptor
configuration_lem T index =
    let u16 : T.u16_to_u8s_le ≡ (λ v. v % 256 ∷ v / 256 % 256 ∷ []) =
      λ i v. T.u16_to_u8s_le_lem v i in
    let u32 : T.u32_to_u8s_le
        ≡ (λ v. v % 256 ∷ v / 2 ^ 8 % 256 ∷ v / 2 ^ 16 % 256 ∷ v / 2 ^ 24 % 256 ∷ []) =
      λ i v. T.u32_to_u8s_le_lem v i in
    rw
      (
        T.desc_configuration_lem, T.desc_interface_lem, T.desc_endpoint_lem,
        T.config_att_remote_wakeup_lem, T.xfer_bulk_lem, T.xfer_interrupt_lem, u16, u32,
      )
      refl

module _ (U : TinyUsb) (reads : Reads U configuration_bytes) where
  open reads use {
    at, len_lem, next_lem, type_lem, class_lem, address_lem, xfer_lem, is_out_lem, edpt_open_lem,
    class_smart_card_lem, interface_size_lem, desc_endpoint_lem, xfer_bulk_lem, xfer_interrupt_lem,
  }

  skip_own :
      (fuel max_len : ℕ)
      → 84 ≤ max_len
      → skip_functional U (suc (suc fuel)) max_len (at 18) 9 ≡ some (at 72, 63)
  unfolding skip_functional
  skip_own fuel max_len room =
      rw (type_lem 18, lt→ltb 9 max_len (omega (arith, room)), len_lem 18, next_lem 18, type_lem 72)
        refl

  -- An endpoint descriptor in the bytes, and what `_ccid_open` notes of it.
  note_out : (r : Ccid) → note_endpoint U (at 72) r ≡ record r { ep_out = 0x01 }
  unfolding note_endpoint
  note_out r = rw (xfer_lem 72, xfer_bulk_lem, address_lem 72, is_out_lem) refl

  note_in : (r : Ccid) → note_endpoint U (at 79) r ≡ record r { ep_in = 0x81 }
  unfolding note_endpoint
  note_in r = rw (xfer_lem 79, xfer_bulk_lem, address_lem 79, is_out_lem) refl

  note_intr : (r : Ccid) → note_endpoint U (at 86) r ≡ record r { ep_intr = 0x82 }
  unfolding note_endpoint
  note_intr r = rw (xfer_lem 86, xfer_bulk_lem, xfer_interrupt_lem, address_lem 86) refl

  -- One endpoint descriptor is read.
  open_step :
      (left max_len i drv_len : ℕ) (r : Ccid)
      → drv_len < max_len
      → get_or configuration_bytes (i + 1) 0 ≡ 5
      → open_endpoints U (suc left) max_len (at i) drv_len r
        ≡ open_endpoints U left max_len
            (at (i + get_or configuration_bytes i 0))
            ((drv_len + get_or configuration_bytes i 0) % 2 ^ 16)
            (note_endpoint U (at i) r)
  unfolding open_endpoints
  open_step left max_len i drv_len r more five =
      let type : (U.desc_type (at i) == U.desc_endpoint) ≡ true =
        rw (type_lem i, five, desc_endpoint_lem) refl in
      rw (lt→ltb drv_len max_len more, type, edpt_open_lem (at i), len_lem i, next_lem i) refl

  open_own :
      (max_len : ℕ) (r : Ccid)
      → 84 ≤ max_len
      → open_endpoints U 3 max_len (at 72) 63 r
        ≡ (record r { ep_out = 0x01; ep_in = 0x81; ep_intr = 0x82 }, some 84)
  unfolding open_endpoints
  open_own max_len r room =
      open_step 2 max_len 72 63 r (omega (arith, room)) refl
      ∙ ap (open_endpoints U 2 max_len (at 79) 70) (note_out r)
      ∙ open_step 1 max_len 79 70 _ (omega (arith, room)) refl
      ∙ ap (open_endpoints U 1 max_len (at 86) 77) (note_in _)
      ∙ open_step 0 max_len 86 77 _ (omega (arith, room)) refl
      ∙ ap (λ r'. (r', some 84)) (note_intr _)

  finish_own :
      (max_len : ℕ) (r : Ccid)
      → 84 ≤ max_len
      → finish_open U max_len (at 72, 63) r
        ≡ (record r { ep_out = 0x01; ep_in = 0x81; ep_intr = 0x82 }, 84)
  unfolding finish_open
  finish_own max_len r room =
      let e = open_own max_len (record r { ep_out = 0; ep_in = 0; ep_intr = 0 }) room in
      rw (finish_open, e) (rw e refl)

  open_bytes :
      (fuel max_len : ℕ) (r : Ccid)
      → 84 ≤ max_len
      → ccid_open U (suc (suc fuel)) (at 9) max_len r
        ≡ some (record r { ep_out = 0x01; ep_in = 0x81; ep_intr = 0x82 }, 84)
  unfolding ccid_open
  open_bytes fuel max_len r room =
      let ours : (U.class_smart_card == U.interface_class (at 9)) ≡ true =
        rw (class_lem 9, class_smart_card_lem) refl in
      rw (ours, next_lem 9, interface_size_lem, skip_own fuel max_len room)
        (ap some (finish_own max_len r room))

opens :
    (U : TinyUsb) (fuel max_len : ℕ) (r : Ccid) (reads : Reads U configuration_bytes)
    → (2 ≤ fuel) × (84 ≤ max_len)
    → let bytes = configuration_bytes in
      (get_or bytes 2 0 + 256 * get_or bytes 3 0 ≡ length bytes)
      × (ccid_open U fuel (reads.at (get_or bytes 0 0)) max_len r
          ≡ some (
            record r {
              ep_out = ccid_ep_bulk_out;
              ep_in = ccid_ep_bulk_in;
              ep_intr = ccid_ep_intr_in;
            },
            length bytes - get_or bytes 0 0,
          ))
opens U zero max_len r reads room = absurd (omega (arith, room))
opens U (suc zero) max_len r reads room = absurd (omega (arith, room))
opens U (suc (suc fuel)) max_len r reads room = (refl, open_bytes U reads fuel max_len r room.1)

-- A configuration that TinyUSB reads: what stands for its length is its number of bytes, and
-- `_ccid_open`, on the interface that follows the header, and with a limit that leaves room for it,
-- takes all bytes from there on, 84, and leaves the three endpoints of the configuration and nothing
-- else changed.
pub configuration-opens :
    (T : TusbCommon) (U : TinyUsb) (index fuel max_len : ℕ) (r : Ccid)
    (reads : Reads U (tud_descriptor_configuration_cb T index))
    → (2 ≤ fuel) × (84 ≤ max_len)
    → let bytes = tud_descriptor_configuration_cb T index in
      (get_or bytes 2 0 + 256 * get_or bytes 3 0 ≡ length bytes)
      × (ccid_open U fuel (reads.at (get_or bytes 0 0)) max_len r
          ≡ some (
            record r {
              ep_out = ccid_ep_bulk_out;
              ep_in = ccid_ep_bulk_in;
              ep_intr = ccid_ep_intr_in;
            },
            length bytes - get_or bytes 0 0,
          ))
configuration-opens T U index fuel max_len r =
    rw (configuration_lem T index) (opens U fuel max_len r)
