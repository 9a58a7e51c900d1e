-- ===== src/Ccid/Exchange.antt =====
-- XfrBlock in src/ccid.c: the lengths that it accepts, and the response with the applet's answer.
use ward3n.Base.{
  ℕ, ◌+◌, ◌-◌, ◌^◌, ◌≤◌, ◌<◌, ◌≡◌, ◌⊎◌, refl, ◌∙◌, ap, Bool, true, false, List, [], ◌++◌, length,
  get_or, take, drop, flatten, length-drop, IsBytes-drop, take-append_add, arith, ◌||◌, ltb, ◌==◌,
  le→ltb_false, lt→ltb,
}
use ward3n.Pico.{Clock}
use ward3n.Apdu.{u32, sw_bytes}
use ward3n.CryptoBackend.{CryptoBackend}
use ward3n.Piv.{Card, answer_apdu, piv_process_apdu}
use ward3n.Piv.Fits.{piv_process_apdu-sent}
use ward3n.Ccid.{Reader, exchange, handle_xfr_block, respond, process_message}
use ward3n.Ccid.Responses.{make_data_block}
use ward3n.Ccid.Header.{data_block, cmd_failed, ccid_header, read_u32}
use ward3n.Ccid.Frame.{IsReader}
use ward3n.Ccid.Framing.{exchange-buffer}

module _ (clock : Clock) (C : CryptoBackend) where
  open C use {Keys}

  -- What a powered reader makes of the dwLength, a 32-bit number, of an XfrBlock of which `n` bytes
  -- arrived, 10 to 512: a length
  -- from 1 that lies inside the message is exchanged; no length, and one that does not lie inside
  -- the message, is refused, but for the ten lengths from 2^32 - 10 on, where the sum with the
  -- header's length wraps: these are exchanged too.
  pub xfr_block_accepts :
      (now : ℕ) (msg : List ℕ) (n : ℕ) (tx : List ℕ) (card : Card Keys)
      → 10 ≤ n
      → n ≤ 512
      → read_u32 msg 1 < 2 ^ 32
      → let len = read_u32 msg 1 in
        let result = handle_xfr_block clock C now true msg n tx card in
        let refused = make_data_block true tx (get_or msg 6 0) cmd_failed 0x01 [] in
        (1 ≤ len → 10 + len ≤ n → result ≡ exchange clock C now msg len tx card)
        × ((len ≡ 0) ⊎ ((n < 10 + len) × (len < 2 ^ 32 - 10)) → result ≡ (card, refused))
        × (2 ^ 32 - 10 ≤ len → result ≡ exchange clock C now msg len tx card)
  unfolding handle_xfr_block
  xfr_block_accepts now msg n tx card lo hi word =
      (λ pos inside. ground arith, λ bad. ground arith, λ wraps. ground arith)

  respond-exchange :
      (now : ℕ) (powered : Bool) (msg : List ℕ) (n : ℕ) (tx : List ℕ) (card : Card Keys)
      → powered ≡ true
      → get_or msg 0 0 ≡ 0x6F
      → 1 ≤ read_u32 msg 1
      → 10 + read_u32 msg 1 ≤ n
      → n ≤ 512
      → let (card', resp) = exchange clock C now msg (read_u32 msg 1) tx card in
        respond clock C now powered msg n tx card ≡ (true, card', resp)
  unfolding respond handle_xfr_block
  respond-exchange now powered msg n tx card on kind pos inside hi =
      rw (on, kind)
        (let accepted : (read_u32 msg 1 == 0 || ltb n (u32 (10 + read_u32 msg 1))) ≡ false =
            ground arith in
          rw accepted refl)

  -- The state after a message that is answered.
  unfoldable pub answered : Reader Keys → Bool → Card Keys → List ℕ → ℕ → Reader Keys
  answered r powered card tx len = record r {
    ccid = record r.ccid {
      icc_powered = powered;
      tx_buf = tx;
      response_len = len;
      response_pending = true;
    };
    card = card;
  }

  exchange-card :
      (now : ℕ) (msg : List ℕ) (len : ℕ) (tx : List ℕ) (card : Card Keys)
      → (exchange clock C now msg len tx card).0
        ≡ (answer_apdu clock C now (drop 10 msg) len card).0
  unfolding exchange piv_process_apdu
  exchange-card now msg len tx card = refl

  -- One XfrBlock that is accepted, as one step of the reader.
  pub exchange-step :
      (now : ℕ) (n : ℕ) (r : Reader Keys)
      → IsReader r
      → r.ccid.icc_powered ≡ true
      → get_or r.ccid.rx_buf 0 0 ≡ 0x6F
      → 1 ≤ read_u32 r.ccid.rx_buf 1
      → 10 + read_u32 r.ccid.rx_buf 1 ≤ n
      → n ≤ 512
      → let rx = r.ccid.rx_buf in
        let len = read_u32 rx 1 in
        let card' = (answer_apdu clock C now (drop 10 rx) len r.card).0 in
        let out =
          (piv_process_apdu clock C now (drop 10 rx) len (drop 10 r.ccid.tx_buf) 502 r.card).1 in
        process_message clock C now rx n r
        ≡ answered r true card'
            (ccid_header data_block out.size (get_or rx 6 0) 0 0 0 ++ out.buf)
            (10 + out.size)
  unfolding process_message answered
  exchange-step now n r v powered kind pos inside hi =
      let rx : List ℕ = r.ccid.rx_buf in
      let tx : List ℕ = r.ccid.tx_buf in
      let len : ℕ = read_u32 rx 1 in
      let out = (piv_process_apdu clock C now (drop 10 rx) len (drop 10 tx) 502 r.card).1 in
      rw
        (
          le→ltb_false n 10 (omega arith),
          respond-exchange now r.ccid.icc_powered rx n tx r.card powered kind pos inside hi,
          exchange-card now rx len tx r.card,
          exchange-buffer clock C now rx len tx r.card v.transmit,
          lt→ltb 0 (10 + out.size) (omega arith),
        )
        refl

  -- An XfrBlock whose APDU, of at least one byte, lies inside the message of at most 512 bytes, in a
  -- powered reader: the response is a DataBlock
  -- with the message's bSeq and no error, whose data is the body of the applet's answer and its
  -- status word; it is at most 268 bytes long, and the card is as the applet leaves it.
  pub exchange-sent :
      (now : ℕ) (n : ℕ) (r : Reader Keys)
      → IsReader r
      → r.ccid.icc_powered ≡ true
      → get_or r.ccid.rx_buf 0 0 ≡ 0x6F
      → 1 ≤ read_u32 r.ccid.rx_buf 1
      → 10 + read_u32 r.ccid.rx_buf 1 ≤ n
      → n ≤ 512
      → let rx = r.ccid.rx_buf in
        let (card', a) = answer_apdu clock C now (drop 10 rx) (read_u32 rx 1) r.card in
        let r' = process_message clock C now rx n r in
        (take r'.ccid.response_len r'.ccid.tx_buf
          ≡ ccid_header 0x80 (length (flatten a.parts) + 2) (get_or rx 6 0) 0 0 0
            ++ (flatten a.parts ++ sw_bytes a.sw))
        × (r'.ccid.response_len ≤ 268)
        × (r'.card ≡ card')
  unfolding answered
  exchange-sent now n r v powered kind pos inside hi =
      let rx : List ℕ = r.ccid.rx_buf in
      let region : List ℕ = drop 10 r.ccid.tx_buf in
      let room : length region ≡ 502 = omega (arith, length-drop 10 r.ccid.tx_buf, v.transmit) in
      let a = (answer_apdu clock C now (drop 10 rx) (read_u32 rx 1) r.card).1 in
      let out = (piv_process_apdu clock C now (drop 10 rx) (read_u32 rx 1) region 502 r.card).1 in
      let header = ccid_header 0x80 out.size (get_or rx 6 0) 0 0 0 in
      let (bytes, size, short) =
        piv_process_apdu-sent clock C now (drop 10 rx) (read_u32 rx 1) region 502 r.card
          (IsBytes-drop 10 rx v.received) (omega arith) (omega (arith, room)) (omega arith) in
      rw (exchange-step now n r v powered kind pos inside hi) (
        take-append_add header out.buf out.size
            ∙ ap (λ t. header ++ t) bytes
            ∙ ap
                (λ k.
                  ccid_header 0x80 k (get_or rx 6 0) 0 0 0 ++ (flatten a.parts ++ sw_bytes a.sw))
                size,
        omega (arith, short),
        refl,
      )
