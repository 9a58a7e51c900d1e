-- ===== src/Firmware/Request.antt =====
-- The transfer that asks for a signature, in a reader that is ready for it.
use ward3n.Base.{
  ℕ, ◌+◌, ◌≤◌, ◌≡◌, refl, ◌∙◌, ap, true, false, some, List, [], ◌∷◌, ◌++◌, length, take, drop,
  get_or, flatten, IsBytes, arith, le→leb, ==_refl,
}
use ward3n.Pico.{Clock}
use ward3n.DeviceState.{Device, idle, request_auth, is_authorized}
use ward3n.Apdu.{Cmd, Answer, apdu_parse, status, sw_bytes}
use ward3n.Apdu.Status.{sw_ok, sw_conditions_not_satisfied}
use ward3n.CryptoBackend.{CryptoBackend, key_ref_9a, alg_ecdsa_p256}
use ward3n.Piv.{Card, handle_general_authenticate, route, answer_apdu}
use ward3n.Piv.Dat.{parse_dat}
use ward3n.Piv.Presence.{with_presence_lem, signature_given, answer_apdu-route}
use ward3n.Button.{Button}
use ward3n.Ccid.{Reader, process_message, xfer_cb}
use ward3n.Ccid.Header.{read_u32, ccid_header}
use ward3n.Ccid.Frame.{IsReader}
use ward3n.Ccid.Framing.{process_message-Framed}
use ward3n.Ccid.Exchange.{exchange-sent, exchange-step, answered}
use ward3n.Firmware.{Firmware, transfer, device, act}
use ward3n.Firmware.Quiet.{IsReady}

-- A message that asks for a signature of a hash with the key 9A: GENERAL AUTHENTICATE.
pub record AsksFor (raw : List ℕ) (n : ℕ) (hash : List ℕ) : Type 0 where
  pub cmd : Cmd
  pub parsed : apdu_parse raw n ≡ some cmd
  pub cla_lem : cmd.cla ≡ 0x00
  pub key : (cmd.ins ≡ 0x87) × (cmd.p1 ≡ alg_ecdsa_p256) × (cmd.p2 ≡ key_ref_9a)
  pub body : (cmd.has_lc ≡ true) × (4 ≤ cmd.lc)
  pub dat : parse_dat cmd.data_bytes cmd.lc ≡ some hash

-- An XfrBlock of `n` bytes with such a message in it.
pub record IsRequest (rx : List ℕ) (n : ℕ) (hash : List ℕ) : Type 0 where
  pub received : IsBytes rx
  pub kind : get_or rx 0 0 ≡ 0x6F
  pub some_apdu : 1 ≤ read_u32 rx 1
  pub inside : 10 + read_u32 rx 1 ≤ n
  pub fits : n ≤ 512
  pub asks : AsksFor (drop 10 rx) (read_u32 rx 1) hash

idle_lem : (d : Device) → d.state ≡ idle → is_authorized d ≡ false
unfolding is_authorized
idle_lem d at_rest = ground arith

-- What is pending at the end: a DataBlock with the signature.
pub record Signed {Keys : Type 0} (seq : ℕ) (sig : List ℕ) (f : Firmware Keys) : Type 0 where
  pub pending : f.reader.ccid.response_pending ≡ true
  pub bytes :
      take f.reader.ccid.response_len f.reader.ccid.tx_buf
      ≡ ccid_header 0x80 (length sig + 6) seq 0 0 0
        ++ (0x7C ∷ (length sig + 2) ∷ 0x82 ∷ length sig ∷ sig ++ (0x90 ∷ 0x00 ∷ []))
  pub at_rest : (device f).state ≡ idle

module _ (clock : Clock) (C : CryptoBackend) where
  open C use {Keys, sign}

  -- A transfer of the request.
  abbrev loaded : List ℕ → Firmware Keys → Reader Keys
  loaded rx f = record f.reader { ccid = record f.reader.ccid { rx_buf = rx } }

  transfer_lem :
      (now ep : ℕ) (rx : List ℕ) (n : ℕ) (f : Firmware Keys)
      → f.reader.ccid.ep_out ≡ ep
      → 10 ≤ n
      → (act clock C (transfer now ep rx n) f).0.reader
        ≡ process_message clock C now rx n (loaded rx f)
  unfolding act xfer_cb
  transfer_lem now ep rx n f known long = rw (known, ==_refl ep, le→leb 10 n long) refl

  pub transfer-IsReady :
      (now ep : ℕ) {rx : List ℕ} {n : ℕ} {hash : List ℕ} (request : IsRequest rx n hash)
      (c : Card Keys) (b : Button) (f : Firmware Keys)
      → IsReady ep c b f
      → IsReady ep
          (answer_apdu clock C now (drop 10 rx) (read_u32 rx 1) c).0
          b
          (act clock C (transfer now ep rx n) f).0
  unfolding act answered
  transfer-IsReady now ep {rx} {n} request c b f ready =
      let r : Reader Keys = loaded rx f in
      let v : IsReader r = record { received = request.received; transmit = ready.transmit } in
      let e = transfer_lem now ep rx n f ready.out_endpoint (omega (arith, request.inside)) in
      let (long, _) = process_message-Framed clock C now n r v in
      let (pending, framed, v') = long (omega (arith, request.inside)) in
      let (bytes, short, moved) =
        exchange-sent clock C now n r v ready.powered request.kind request.some_apdu request.inside
          request.fits in
      let step =
        exchange-step clock C now n r v ready.powered request.kind request.some_apdu request.inside
          request.fits in
      record {
        transmit = ap (λ (t : Reader Keys). length t.ccid.tx_buf) e ∙ v'.transmit;
        powered = ap (λ (t : Reader Keys). t.ccid.icc_powered) (e ∙ step);
        out_endpoint = ap (λ (t : Reader Keys). t.ccid.ep_out) (e ∙ step) ∙ ready.out_endpoint;
        card_lem =
            ap (λ (t : Reader Keys). t.card) e
            ∙ moved
            ∙ ap (λ t. (answer_apdu clock C now (drop 10 rx) (read_u32 rx 1) t).0) ready.card_lem;
        button_lem = ready.button_lem;
      }

  answer_lem :
      (now : ℕ) {raw : List ℕ} {n : ℕ} {hash : List ℕ} (asks : AsksFor raw n hash) (c : Card Keys)
      → answer_apdu clock C now raw n c ≡ route clock C now asks.cmd c
  answer_lem now {raw} {n} asks c =
      answer_apdu-route clock C now raw n asks.cmd c asks.parsed asks.cla_lem

  route_asks :
      (now : ℕ) {raw : List ℕ} {n : ℕ} {hash : List ℕ} (asks : AsksFor raw n hash) (c : Card Keys)
      → (c.piv.selected ≡ true) × (c.piv.pin_verified ≡ true)
      → is_authorized c.dev ≡ false
      → route clock C now asks.cmd c
        ≡ (record c { dev = request_auth clock now c.dev }, status sw_conditions_not_satisfied)
  unfolding route handle_general_authenticate
  route_asks now {hash} asks c open_applet no_auth = ground (
    arith,
    asks.key,
    asks.body,
    asks.dat,
    (with_presence_lem clock C now asks.cmd hash c).0 no_auth,
  )

  -- A DataBlock with a body and a status word.
  abbrev block : ℕ → List ℕ → ℕ → List ℕ
  block seq body sw = ccid_header 0x80 (length body + 2) seq 0 0 0 ++ (body ++ sw_bytes sw)

  signed_block :
      (seq : ℕ) (sig : List ℕ) (a : Answer)
      → a.sw ≡ sw_ok
      → flatten a.parts ≡ 0x7C ∷ (length sig + 2) ∷ 0x82 ∷ length sig ∷ sig
      → block seq (flatten a.parts) a.sw
        ≡ ccid_header 0x80 (length sig + 6) seq 0 0 0
          ++ (0x7C ∷ (length sig + 2) ∷ 0x82 ∷ length sig ∷ sig ++ (0x90 ∷ 0x00 ∷ []))
  signed_block seq sig a fine body =
      let signed : List ℕ = 0x7C ∷ (length sig + 2) ∷ 0x82 ∷ length sig ∷ sig in
      let size : length signed + 2 ≡ length sig + 6 = omega arith in
      ap (block seq (flatten a.parts)) fine
      ∙ ap (λ t. block seq t sw_ok) body
      ∙ ap (λ k. ccid_header 0x80 k seq 0 0 0 ++ (signed ++ sw_bytes sw_ok)) size

  pub asked_card :
      (now : ℕ) {raw : List ℕ} {n : ℕ} {hash : List ℕ} (asks : AsksFor raw n hash) (c : Card Keys)
      → (c.piv.selected ≡ true) × (c.piv.pin_verified ≡ true)
      → c.dev.state ≡ idle
      → (answer_apdu clock C now raw n c).0 ≡ record c { dev = request_auth clock now c.dev }
  asked_card now asks c open_applet at_rest =
      ap (λ t. t.0)
        (answer_lem now asks c ∙ route_asks now asks c open_applet (idle_lem c.dev at_rest))

  pub transfer-Signed :
      (now ep : ℕ) {rx : List ℕ} {n : ℕ} {hash : List ℕ} (request : IsRequest rx n hash)
      (c : Card Keys) (b : Button) (f : Firmware Keys)
      → IsReady ep c b f
      → (c.piv.selected ≡ true) × (c.piv.pin_verified ≡ true)
      → is_authorized c.dev ≡ true
      → let sig = (sign c.keys key_ref_9a alg_ecdsa_p256 hash 72).0 in
        1 ≤ length sig → Signed (get_or rx 6 0) sig (act clock C (transfer now ep rx n) f).0
  unfolding act
  transfer-Signed now ep {rx} {n} {hash} request c b f ready open_applet auth some_sig =
      let r : Reader Keys = loaded rx f in
      let v : IsReader r = record { received = request.received; transmit = ready.transmit } in
      let e = transfer_lem now ep rx n f ready.out_endpoint (omega (arith, request.inside)) in
      let (long, _) = process_message-Framed clock C now n r v in
      let (pending, framed, v') = long (omega (arith, request.inside)) in
      let (bytes, short, moved) =
        exchange-sent clock C now n r v ready.powered request.kind request.some_apdu request.inside
          request.fits in
      let asks = request.asks in
      let given =
        signature_given clock C now asks.cmd hash c asks.key asks.body asks.dat open_applet auth
          some_sig in
      let answer =
        ap (λ t. answer_apdu clock C now (drop 10 rx) (read_u32 rx 1) t) ready.card_lem
        ∙ answer_lem now asks c in
      record {
        pending = ap (λ (t : Reader Keys). t.ccid.response_pending) e ∙ pending;
        bytes =
            ap (λ (t : Reader Keys). take t.ccid.response_len t.ccid.tx_buf) e
            ∙ bytes
            ∙ ap (λ (t : Card Keys × Answer). block (get_or rx 6 0) (flatten t.1.parts) t.1.sw)
                answer
            ∙ signed_block (get_or rx 6 0) (sign c.keys key_ref_9a alg_ecdsa_p256 hash 72).0
                (route clock C now asks.cmd c).1 given.0 given.1;
        at_rest =
            ap (λ (t : Reader Keys). t.card.dev.state) e
            ∙ ap (λ (t : Card Keys). t.dev.state) (moved ∙ ap (λ t. t.0) answer)
            ∙ given.2;
      }
