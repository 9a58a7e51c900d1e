-- ===== src/Ccid/Open.antt =====
-- `_ccid_open` of src/ccid.c: TinyUSB hands the descriptors of a configuration over. What TinyUSB's
-- accessors read of a descriptor is a parameter.
use ward3n.Base.{
  ℕ, zero, suc, ◌+◌, ◌%◌, ◌^◌, ◌<◌, Bool, not, ◌&&◌, ◌||◌, Option, none, some, ltb, ◌==◌,
  if◌then◌else◌,
}
use ward3n.Ccid.{Ccid}

pub record TinyUsb : Type 1 where
  -- A pointer to a descriptor, and `tu_desc_next`, `tu_desc_type`, `tu_desc_len`.
  pub Desc : Type 0
  pub desc_next : Desc → Desc
  pub desc_type : Desc → ℕ
  pub desc_len : Desc → ℕ
  -- Fields of an interface and of an endpoint.
  pub interface_class : Desc → ℕ
  pub endpoint_address : Desc → ℕ
  pub endpoint_xfer : Desc → ℕ
  -- `tu_edpt_dir (a) == TUSB_DIR_OUT`, and the result of `usbd_edpt_open`.
  pub is_out : ℕ → Bool
  pub edpt_open : Desc → Bool
  pub class_smart_card : ℕ
  pub interface_size : ℕ
  pub desc_endpoint : ℕ
  pub xfer_bulk : ℕ
  pub xfer_interrupt : ℕ
  -- The length is a byte.
  pub desc_len-lt : (d : Desc) → desc_len d < 256
  pub interface_size-lt : interface_size < 256

module _ (U : TinyUsb) where
  open U use {Desc}

  -- The loop over the class-specific descriptors, on fuel: the descriptor behind them, and `drv_len`.
  unfoldable pub skip_functional : ℕ → ℕ → Desc → ℕ → Option (Desc × ℕ)
  skip_functional zero max_len d drv_len = none
  skip_functional (suc fuel) max_len d drv_len =
      let rest = skip_functional fuel max_len (U.desc_next d) ((drv_len + U.desc_len d) % 2 ^ 16) in
      if U.desc_type d == 0x21 && ltb drv_len max_len then rest else some (d, drv_len)

  -- The endpoint variables after one endpoint.
  unfoldable pub note_endpoint : Desc → Ccid → Ccid
  note_endpoint d r =
      if U.endpoint_xfer d == U.xfer_bulk
      then (if U.is_out (U.endpoint_address d)
          then record r { ep_out = U.endpoint_address d }
          else record r { ep_in = U.endpoint_address d })
      else (if U.endpoint_xfer d == U.xfer_interrupt
          then record r { ep_intr = U.endpoint_address d }
          else r)

  -- The loop over the endpoints, of which `left` are left: the variables, and `drv_len` unless
  -- TU_ASSERT returns from the function.
  unfoldable pub open_endpoints : ℕ → ℕ → Desc → ℕ → Ccid → Ccid × Option ℕ
  open_endpoints zero max_len d drv_len r = (r, some drv_len)
  open_endpoints (suc left) max_len d drv_len r =
      let rest =
        open_endpoints left max_len (U.desc_next d) ((drv_len + U.desc_len d) % 2 ^ 16)
          (note_endpoint d r) in
      if not (ltb drv_len max_len) || not (U.desc_type d == U.desc_endpoint)
      then (r, some drv_len)
      else (if not (U.edpt_open d) then (r, none) else rest)

  -- From the loop over the endpoints on: the state, and the value returned. Where that is not 0, the
  -- OUT endpoint is armed.
  unfoldable pub finish_open : ℕ → Desc × ℕ → Ccid → Ccid × ℕ
  finish_open max_len (d, drv_len) r =
      let (r', out) =
        open_endpoints 3 max_len d drv_len (record r { ep_out = 0; ep_in = 0; ep_intr = 0 }) in
      elim out [
        | none ↦ (r', 0)
        | some len ↦ (if r'.ep_out == 0 || r'.ep_in == 0 then (r', 0) else (r', len))
      ]

  -- `_ccid_open`; without enough fuel, `none`.
  unfoldable pub ccid_open : ℕ → Desc → ℕ → Ccid → Option (Ccid × ℕ)
  ccid_open fuel itf max_len r =
      if not (U.class_smart_card == U.interface_class itf)
      then some (r, 0)
      else elim (skip_functional fuel max_len (U.desc_next itf) U.interface_size) [
        | none ↦ none
        | some found ↦ some (finish_open max_len found r)
      ]
