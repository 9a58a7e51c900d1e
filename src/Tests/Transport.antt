-- ===== src/Tests/Transport.antt =====
-- A reader that is given an XfrBlock, and one without power.
use ward3n.Base.{
  ℕ, ◌+◌, ◌-◌, ◌^◌, ◌≤◌, ◌<◌, ◌≡◌, ◌⊎◌, refl, true, false, List, [], ◌∷◌, ◌++◌, flatten, length,
  drop, replicate, length-replicate, arith,
}
use ward3n.Apdu.{sw_bytes, sent}
use ward3n.Ccid.{Reader, exchange, handle_xfr_block, process_message}
use ward3n.Ccid.Responses.{make_data_block}
use ward3n.Ccid.Header.{ccid_header, read_u32, cmd_failed}
use ward3n.Ccid.Frame.{Framed, IsReader}
use ward3n.Ccid.Framing.{process_message-Framed}
use ward3n.Ccid.Exchange.{xfr_block_accepts}
use ward3n.Ccid.Delivery.{send_all, exchange-delivered}
use ward3n.Ccid.Power.{Arrival, arrive, arrive_all, Closed, unpowered_inert, power_lem}
use ward3n.Piv.{answer_apdu, piv_process_apdu}
use ward3n.Piv.Chain.{pending}
use ward3n.Piv.Fits.{piv_process_apdu-sent}
use ward3n.Tests.Fixtures.{
  ticking, counting, authenticate, authenticate-IsBytes, pressed_device, waiting, card, reader,
  reader-IsReader, xfr_authenticate,
}

process_message-Framed_example :
    let r' = process_message ticking counting 5 xfr_authenticate 53 (reader waiting) in
    (10 ≤ 53
      → (r'.ccid.response_pending ≡ true)
        × Framed 7 (r'.ccid.tx_buf, r'.ccid.response_len)
        × IsReader r')
    × (53 < 10 → r' ≡ reader waiting)
process_message-Framed_example =
    process_message-Framed ticking counting 5 53 (reader waiting) (reader-IsReader waiting)

piv_process_apdu-sent_example :
    let raw = authenticate ++ replicate 459 0 in
    let a = (answer_apdu ticking counting 5 raw 43 (card waiting)).1 in
    let o = (piv_process_apdu ticking counting 5 raw 43 (replicate 502 0) 502 (card waiting)).1 in
    (sent o ≡ flatten a.parts ++ sw_bytes a.sw)
    × (o.size ≡ length (flatten a.parts) + 2)
    × (o.size ≤ 258)
piv_process_apdu-sent_example =
    piv_process_apdu-sent ticking counting 5 (authenticate ++ replicate 459 0) 43 (replicate 502 0)
      502 (card waiting) authenticate-IsBytes (omega arith)
      (omega (arith, length-replicate {A = ℕ} 502 0)) (omega arith)

-- dwLength is FF FF FF FF.
abbrev wrapping : List ℕ
wrapping = 0x6F ∷ 255 ∷ 255 ∷ 255 ∷ 255 ∷ 0 ∷ 9 ∷ 0 ∷ 0 ∷ 0 ∷ []

xfr_block_accepts_example :
    let len = read_u32 wrapping 1 in
    let result =
      handle_xfr_block ticking counting 5 true wrapping 10 (replicate 512 0) (card waiting) in
    let refused = make_data_block true (replicate 512 0) 9 cmd_failed 0x01 [] in
    (1 ≤ len
      → 10 + len ≤ 10
      → result ≡ exchange ticking counting 5 wrapping len (replicate 512 0) (card waiting))
    × ((len ≡ 0) ⊎ ((10 < 10 + len) × (len < 2 ^ 32 - 10)) → result ≡ (card waiting, refused))
    × (2 ^ 32 - 10 ≤ len
        → result ≡ exchange ticking counting 5 wrapping len (replicate 512 0) (card waiting))
xfr_block_accepts_example =
    xfr_block_accepts ticking counting 5 wrapping 10 (replicate 512 0) (card waiting) (omega arith)
      (omega arith) (omega arith)

-- A reader that is off.
abbrev unpowered : Reader ℕ
unpowered = let r = reader waiting in record r { ccid = record r.ccid { icc_powered = false } }

-- XfrBlock, and IccPowerOff.
abbrev xfr_then_off : List Arrival
xfr_then_off =
    record { now = 5; bytes = xfr_authenticate; len = 53 }
    ∷ record { now = 6; bytes = 0x63 ∷ replicate 511 0; len = 10 }
    ∷ []

unpowered_inert_example :
    let end = arrive_all ticking counting xfr_then_off unpowered in
    (end.card ≡ card waiting) × (end.ccid.icc_powered ≡ false)
unpowered_inert_example =
    unpowered_inert ticking counting xfr_then_off unpowered refl (omega arith, (omega arith, tt))

abbrev power_off : Arrival
power_off = record { now = 6; bytes = 0x63 ∷ replicate 511 0; len = 10 }

abbrev power_on : Arrival
power_on = record { now = 8; bytes = 0x62 ∷ replicate 511 0; len = 10 }

-- With a verified PIN at first; GENERAL AUTHENTICATE comes between the two, and behind them.
power_lem_example :
    let before =
      arrive_all ticking counting xfr_then_off
        (arrive ticking counting power_off (reader waiting)) in
    let after = arrive ticking counting power_on before in
    (before.card ≡ card waiting)
    × (before.ccid.icc_powered ≡ false)
    × (after.ccid.icc_powered ≡ true)
    × (after.card.dev ≡ waiting)
    × (after.card.keys ≡ 0)
    × (after.card.piv.selected ≡ false)
    × (after.card.piv.pin_verified ≡ false)
    × (pending after.card.piv ≡ [])
    × Closed ticking counting after.card 9 (drop 10 xfr_authenticate) 43
power_lem_example =
    power_lem ticking counting power_off power_on xfr_then_off (reader waiting) 9
      (drop 10 xfr_authenticate) 43 (omega arith, refl) (omega arith, (omega arith, tt))
      (omega arith, refl)

-- The endpoint is busy twice, and free from then on.
exchange-delivered_example :
    let a =
      (answer_apdu ticking counting 5 (drop 10 xfr_authenticate) 43 (card pressed_device)).1 in
    send_all
      (false ∷ false ∷ true ∷ true ∷ [])
      (process_message ticking counting 5 xfr_authenticate 53 (reader pressed_device)).ccid
    ≡ (ccid_header 0x80 (length (flatten a.parts) + 2) 7 0 0 0
        ++ (flatten a.parts ++ sw_bytes a.sw))
      ∷ []
exchange-delivered_example =
    exchange-delivered ticking counting 5 53 (reader pressed_device)
      (false ∷ false ∷ true ∷ true ∷ []) (reader-IsReader pressed_device) refl refl (omega arith)
      (omega arith) (omega arith)
