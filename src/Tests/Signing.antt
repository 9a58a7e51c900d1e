-- ===== src/Tests/Signing.antt =====
-- A press, and two requests for a signature: one is made.
use ward3n.Base.{◌+◌, ◌≤◌, ◌≡◌, refl, true, false, some, List, [], ◌∷◌, flatten, arith}
use ward3n.DeviceState.{
  idle, is_authorized, begin_processing, op_complete, consume_auth, request_auth, button_pressed,
  tick as tick_device,
}
use ward3n.Apdu.{Cmd, apdu_parse, emit}
use ward3n.Apdu.Status.{sw_ok}
use ward3n.Piv.{
  route, answer_apdu, piv_process_apdu, handle_general_authenticate, with_presence, sign_and_answer,
}
use ward3n.Piv.Dat.{parse_dat, skip_dat_len, parse_response_tag, parse_challenge}
use ward3n.Piv.Presence.{signature_sent, signature_needs, signature_given}
use ward3n.Ccid.{xfer_cb, process_message, respond, handle_xfr_block, exchange}
use ward3n.Button.{gpio_irq, was_pressed}
use ward3n.Firmware.{Action, transfer, edge, poll, tick, act, run}
use ward3n.Firmware.Presses.{uses-le-presses}
use ward3n.Tests.Fixtures.{
  ticking, counting, signatures, hash, signature, authenticate, pressed_device, card,
  xfr_authenticate, firmware,
}

abbrev press_and_ask_twice : List Action
press_and_ask_twice =
    edge 0 9
    ∷ poll 40000 40000 0
    ∷ transfer 50000 0x01 xfr_authenticate 53
    ∷ transfer 60000 0x01 xfr_authenticate 53
    ∷ tick 70000
    ∷ []

uses-le-presses_example :
    let (end, presses) = run ticking counting press_and_ask_twice firmware in
    end.reader.card.keys ≤ 0 + 0 + presses
unfolding is_authorized
uses-le-presses_example = uses-le-presses ticking counting signatures press_and_ask_twice firmware

-- The run has one confirmed press, and makes one signature.
press_and_ask_twice_signs :
    let (end, presses) = run ticking counting press_and_ask_twice firmware in
    (end.reader.card.keys ≡ 1) × (presses ≡ 1)
unfolding run act gpio_irq was_pressed button_pressed xfer_cb process_message respond
    handle_xfr_block exchange piv_process_apdu answer_apdu apdu_parse route
    handle_general_authenticate parse_dat skip_dat_len parse_response_tag parse_challenge
    with_presence is_authorized consume_auth begin_processing sign_and_answer op_complete
    request_auth tick_device emit
press_and_ask_twice_signs = (refl, refl)

signed :
    signature_sent authenticate 43
      (answer_apdu ticking counting 5 authenticate 43 (card pressed_device)).1
    ≡ true
unfolding answer_apdu apdu_parse route handle_general_authenticate parse_dat skip_dat_len
    parse_response_tag parse_challenge with_presence is_authorized consume_auth begin_processing
    sign_and_answer op_complete request_auth
signed = refl

signature_needs_example :
    let c' = (answer_apdu ticking counting 5 authenticate 43 (card pressed_device)).0 in
    (true ≡ true)
    × (true ≡ true)
    × (is_authorized pressed_device ≡ true)
    × (is_authorized c'.dev ≡ false)
signature_needs_example =
    signature_needs ticking counting 5 authenticate 43 (card pressed_device) signed

abbrev sign_command : Cmd
sign_command = record {
  cla = 0x00;
  ins = 0x87;
  p1 = 0x11;
  p2 = 0x9A;
  lc = 38;
  data_bytes = 0x7C ∷ 0x24 ∷ 0x82 ∷ 0x00 ∷ 0x81 ∷ 0x20 ∷ hash;
  le = 0;
  has_lc = true;
  has_le = false;
}

sign_command_hash : parse_dat sign_command.data_bytes 38 ≡ some hash
unfolding parse_dat skip_dat_len parse_response_tag parse_challenge
sign_command_hash = refl

pressed_is_authorized : is_authorized pressed_device ≡ true
unfolding is_authorized
pressed_is_authorized = refl

signature_given_example :
    let (c', a) = route ticking counting 5 sign_command (card pressed_device) in
    (a.sw ≡ sw_ok)
    × (flatten a.parts ≡ 0x7C ∷ 10 ∷ 0x82 ∷ 8 ∷ signature)
    × (c'.dev.state ≡ idle)
    × (c'.piv ≡ (card pressed_device).piv)
signature_given_example =
    signature_given ticking counting 5 sign_command hash (card pressed_device) (refl, refl, refl)
      (refl, omega arith) sign_command_hash (refl, refl) pressed_is_authorized (omega arith)
