-- ===== src/Tests/Runs.antt =====
-- Runs: a signature from the request on, a run without the PIN, and a run from a boot.
use ward3n.Base.{
  ℕ, suc, ◌+◌, ◌≤◌, ◌≡◌, refl, sym, ◌∙◌, true, false, some, List, [], ◌∷◌, ◌++◌, drop, replicate,
  arith,
}
use ward3n.DeviceState
use ward3n.Apdu.{Cmd, apdu_parse, emit}
use ward3n.Ccid.Header.{read_u32}
use ward3n.Piv.{
  route, answer_apdu, piv_process_apdu, handle_general_authenticate, with_presence, sign_and_answer,
}
use ward3n.Piv.Applet.{Piv, piv_init}
use ward3n.DeviceState.{
  is_authorized, begin_processing, op_complete, consume_auth, request_auth, button_pressed,
}
use ward3n.Button.{gpio_irq, was_pressed}
use ward3n.Ccid.{xfer_cb, process_message, respond, handle_xfr_block, exchange}
use ward3n.Firmware.Guards.{nothing}
use ward3n.Firmware.Trace.{is_guarded, see, trace, trace-guarded}
use ward3n.Piv.Dat.{parse_dat, skip_dat_len, parse_response_tag, parse_challenge}
use ward3n.Piv.Uses.{Meter}
use ward3n.Button
use ward3n.Soft.{Soft, sign}
use ward3n.Soft.Flash.{is_initialized, blank}
use ward3n.Soft.Boot.{crypto_backend_init, generate_and_persist, fill_certificate, persist}
use ward3n.Soft.Backend.{soft_backend}
use ward3n.Firmware.{Action, Firmware, transfer, driver_init, edge, poll, run, act}
use ward3n.Firmware.Locked.{LacksPin, no_pin_no_use}
use ward3n.Firmware.Boot.{boot, started, boot-uses}
use ward3n.Firmware.Request.{AsksFor, IsRequest}
use ward3n.Tests.Fixtures.{
  ticking, counting, hash, authenticate, xfr_authenticate, xfr_authenticate-IsBytes, card, ccid,
  firmware, library,
}
use ward3n.Tests.Booting.{setup, off}

abbrev asked : Cmd
asked = record {
  cla = 0x00;
  ins = 0x87;
  p1 = 0x11;
  p2 = 0x9A;
  lc = 38;
  data_bytes = drop 5 (authenticate ++ replicate 459 0);
  le = 0;
  has_lc = true;
  has_le = false;
}

asked_parsed : apdu_parse (drop 10 xfr_authenticate) 43 ≡ some asked
unfolding apdu_parse
asked_parsed = refl

asks : AsksFor (drop 10 xfr_authenticate) (read_u32 xfr_authenticate 1) hash
unfolding parse_dat skip_dat_len parse_response_tag parse_challenge
asks = record {
  cmd = asked;
  parsed = asked_parsed;
  cla_lem = refl;
  key = (refl, refl, refl);
  body = (refl, omega arith);
  dat = refl;
}

request : IsRequest xfr_authenticate 53 hash
request = record {
  received = xfr_authenticate-IsBytes;
  kind = refl;
  some_apdu = omega arith;
  inside = omega arith;
  fits = omega arith;
  asks = asks;
}

-- A reader at rest, with the PIN verified.
abbrev at_rest : Firmware ℕ
at_rest = record firmware { reader = record { ccid = ccid; card = card DeviceState.at_boot } }

-- The host asks, before anybody gave the PIN.
authenticate-LacksPin : LacksPin (drop 10 xfr_authenticate) 43
authenticate-LacksPin cmd parsed verify =
    let same : some asked ≡ some cmd = sym asked_parsed ∙ parsed in absurd (ground (arith, same))

abbrev locked : Firmware ℕ
locked = started 0

no_pin_no_use_example :
    let (end, presses) =
      run ticking counting
        (edge 0 9 ∷ poll 40000 40000 0 ∷ transfer 50000 0x01 xfr_authenticate 53 ∷ [])
        locked in
    (end.reader.card.piv.pin_verified ≡ false) × (end.reader.card.keys ≡ 0)
unfolding piv_init
no_pin_no_use_example =
    no_pin_no_use ticking counting
      (edge 0 9 ∷ poll 40000 40000 0 ∷ transfer 50000 0x01 xfr_authenticate 53 ∷ []) locked refl
      (tt, (tt, (authenticate-LacksPin, tt)))

-- The library's generator counts the signatures.
sign-drbg :
    (s : Soft ℕ ℕ) (key_ref alg : ℕ) (digest : List ℕ) (n : ℕ)
    → (sign library s key_ref alg digest n).1.drbg ≤ suc s.drbg
unfolding sign
sign-drbg s key_ref alg digest n = ground arith

abbrev generated : Meter (soft_backend library)
generated = record { uses = λ s. s.drbg; at_most_one = sign-drbg }

abbrev first : Soft ℕ ℕ
first = (crypto_backend_init library setup (1 ∷ 2 ∷ []) off blank).1

enters_loop : (boot library setup (1 ∷ 2 ∷ []) off blank).2 ≡ some (started first)
unfolding boot crypto_backend_init generate_and_persist fill_certificate persist is_initialized
    blank
enters_loop = refl

boot-uses_example :
    let (end, presses) =
      run ticking
        (soft_backend library)
        (driver_init ∷ edge 0 9 ∷ poll 40000 40000 0 ∷ [])
        (started first) in
    (first.initialized ≡ true)
    × (Piv.pin_verified piv_init ≡ false)
    × (end.reader.card.keys.drbg ≤ first.drbg + presses)
boot-uses_example =
    boot-uses ticking library setup generated (1 ∷ 2 ∷ []) off blank (started first)
      (driver_init ∷ edge 0 9 ∷ poll 40000 40000 0 ∷ []) enters_loop

-- A request, a press, the request again: the second is answered by a signature.
abbrev ask_press_ask : List Action
ask_press_ask =
    transfer 0 0x01 xfr_authenticate 53
    ∷ edge 1000 9
    ∷ poll 40000 40000 0
    ∷ transfer 50000 0x01 xfr_authenticate 53
    ∷ []

trace-guarded_example :
    is_guarded
      (trace ticking counting ask_press_ask at_rest)
      true
      (is_authorized DeviceState.at_boot)
    ≡ true
trace-guarded_example = trace-guarded ticking counting ask_press_ask at_rest

ask_press_ask_seen :
    trace ticking counting ask_press_ask at_rest
    ≡ nothing ∷ nothing ∷ record nothing { pressed = true } ∷ record nothing { signed = true } ∷ []
unfolding trace see act gpio_irq was_pressed button_pressed xfer_cb process_message respond
    handle_xfr_block exchange piv_process_apdu answer_apdu apdu_parse route
    handle_general_authenticate parse_dat skip_dat_len parse_response_tag parse_challenge
    with_presence is_authorized consume_auth begin_processing sign_and_answer op_complete
    request_auth emit
ask_press_ask_seen = refl
