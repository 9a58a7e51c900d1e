-- ===== src/Ccid.antt =====
-- src/ccid.c and include/ccid.h: the CCID transport. The static variables are the fields of `Ccid`;
-- the functions that send on to the applet work on a `Reader`, which joins them with the card.
-- What TinyUSB does (endpoints, transfers) enters as arguments and leaves as results.
pub mod Responses
pub mod Header
pub mod Frame
pub mod Framing
pub mod Kinds
pub mod Exchange
pub mod Power
pub mod Delivery
pub mod Open
pub mod Loops
pub mod Opening
pub mod Endpoints
pub mod Driver
pub mod Reading
pub mod Certificate
use Responses.{
  Response, atr, b_status, make_data_block, make_slot_status, set_data_rate, set_parameters,
}
use ward3n.Base.{
  ℕ, ◌+◌, ◌-◌, ◌*◌, ◌/◌, ◌%◌, ◌^◌, bit_or, Bool, true, false, not, ◌&&◌, ◌||◌, Option, none, some,
  List, [], ◌∷◌, ◌++◌, length, get_or, take, drop, replicate, write_at, ltb, leb, ◌==◌,
  if◌then◌else◌,
}
use ward3n.Config.{ccid_buf_size}
use ward3n.Pico.{Clock}
use ward3n.Apdu.{u8, u32, Out}
use ward3n.CryptoBackend.{CryptoBackend}
use ward3n.Piv.{Card, piv_process_apdu}
use ward3n.Piv.Applet.{piv_init}
use Header.{
  icc_power_on, icc_power_off, get_slot_status, xfr_block, abort, data_block, slot_status,
  parameters, icc_active, icc_inactive, cmd_ok, cmd_failed, u32_le, read_u32, ccid_header,
  ccid_header_len,
}

pub record Ccid : Type 0 where
  pub icc_powered : Bool
  pub ep_out : ℕ
  pub ep_in : ℕ
  pub ep_intr : ℕ
  pub rx_buf : List ℕ
  pub tx_buf : List ℕ
  pub response_pending : Bool
  pub response_len : ℕ

-- The static initialisers, before `main`.
abbrev pub at_boot : Ccid
at_boot = record {
  icc_powered = false;
  ep_out = 0;
  ep_in = 0;
  ep_intr = 0;
  rx_buf = replicate ccid_buf_size 0;
  tx_buf = replicate ccid_buf_size 0;
  response_pending = false;
  response_len = 0;
}

pub record Reader (Keys : Type 0) : Type 0 where
  pub ccid : Ccid
  pub card : Card Keys

-- The end of `_process_message`: `if (resp_len > 0)`.
abbrev pub set_response : Ccid → Response → Ccid
set_response r (tx, resp_len) =
    if ltb 0 resp_len
    then record r { tx_buf = tx; response_len = resp_len; response_pending = true }
    else record r { tx_buf = tx }

module _ (clock : Clock) (C : CryptoBackend) where
  open C use {Keys}

  -- The applet's part of XfrBlock: the response goes into `_tx_buf` behind the header, which is then
  -- built in place.
  unfoldable pub exchange : ℕ → List ℕ → ℕ → List ℕ → Card Keys → Card Keys × Response
  exchange now msg apdu_len tx card =
      let (card', out) =
        piv_process_apdu clock C now (drop ccid_header_len msg) apdu_len (drop ccid_header_len tx)
          (ccid_buf_size - ccid_header_len) card in
      (
        card',
        (
          write_at (take ccid_header_len tx ++ out.buf) 0
              (ccid_header data_block out.size (get_or msg 6 0) (bit_or cmd_ok icc_active) 0 0),
          ccid_header_len + out.size,
        ),
      )

  unfoldable pub handle_xfr_block :
      ℕ → Bool → List ℕ → ℕ → List ℕ → Card Keys → Card Keys × Response
  handle_xfr_block now powered msg msg_len tx card =
      let apdu_len : ℕ = read_u32 msg 1 in
      let refused : Response = make_data_block powered tx (get_or msg 6 0) cmd_failed 0x01 [] in
      if not powered
      then (card, refused)
      else (if apdu_len == 0 || ltb msg_len (u32 (ccid_header_len + apdu_len))
          then (card, refused)
          else exchange now msg apdu_len tx card)

  -- The `switch` on bMessageType, with the state of `_icc_powered` afterwards.
  unfoldable pub respond : ℕ → Bool → List ℕ → ℕ → List ℕ → Card Keys → Bool × Card Keys × Response
  respond now powered msg msg_len tx card =
      let kind : ℕ = get_or msg 0 0 in
      let seq : ℕ = get_or msg 6 0 in
      if kind == icc_power_on
      then (true, record card { piv = piv_init }, make_data_block true tx seq cmd_ok 0 atr)
      else (if kind == icc_power_off
          then (false, card, make_slot_status false tx seq cmd_ok 0 0)
          else (if kind == get_slot_status
              then (powered, card, make_slot_status powered tx seq cmd_ok 0 0)
              else (if kind == xfr_block
                  then (let (card', resp) = handle_xfr_block now powered msg msg_len tx card in
                      (powered, card', resp))
                  else (if kind == abort
                      then (powered, card, make_slot_status powered tx seq cmd_ok 0 0)
                      else (if kind == 0x61
                          then (powered, card, set_parameters tx msg msg_len)
                          else (if kind == 0x73
                              then (powered, card, set_data_rate tx msg msg_len)
                              else (
                                powered,
                                card,
                                make_slot_status powered tx seq cmd_failed 0 0,
                              )))))))

  unfoldable pub process_message : ℕ → List ℕ → ℕ → Reader Keys → Reader Keys
  process_message now msg msg_len r =
      let (powered, card, resp) = respond now r.ccid.icc_powered msg msg_len r.ccid.tx_buf r.card in
      if ltb msg_len ccid_header_len then r else (record r {
        ccid = set_response (record r.ccid { icc_powered = powered }) resp;
        card = card;
      })

  -- `_ccid_xfer_cb`: the receive buffer is the one that the transfer filled.
  unfoldable pub xfer_cb : ℕ → ℕ → ℕ → Reader Keys → Reader Keys
  xfer_cb now ep_addr xferred_bytes r =
      if ep_addr == r.ccid.ep_out
      then (if leb ccid_header_len xferred_bytes
          then process_message now r.ccid.rx_buf xferred_bytes r
          else r)
      else r

-- `_ccid_init`
unfoldable pub ccid_init : Ccid → Ccid
ccid_init r = record r {
  icc_powered = false;
  response_pending = false;
  response_len = 0;
  rx_buf = replicate ccid_buf_size 0;
  tx_buf = replicate ccid_buf_size 0;
}

-- `_ccid_reset`
unfoldable pub ccid_reset : Ccid → Ccid
ccid_reset r = record r { icc_powered = false; response_pending = false }

-- `ccid_task`: `claimed` is the result of `usbd_edpt_claim`; the bytes are those that it hands to
-- `usbd_edpt_xfer`.
unfoldable pub ccid_task : Bool → Ccid → Ccid × Option (List ℕ)
ccid_task claimed r =
    if not r.response_pending
    then (r, none)
    else (if not claimed then (r, none) else (
      record r { response_pending = false },
      some (take (r.response_len % 2 ^ 16) r.tx_buf),
    ))

-- `_ccid_control_xfer_cb`: the answer to a control request, where `setup` and `is_class` are the
-- tests of the stage and of the request's type. An empty reply is a call of `tud_control_xfer` with no
-- data, whose result is returned; a stall is `return false`.
pub data Control : Type 0 where
  accept empty_reply stall : Control

unfoldable pub control_xfer_cb : Bool → Bool → ℕ → Control
control_xfer_cb setup is_class request =
    if not setup
    then accept
    else (if is_class && (request == 0x62 || request == 0x63 || request == 0x61)
        then empty_reply
        else stall)
