-- ===== src/Ccid/Framing.antt =====
-- The response of src/ccid.c to any message: header and length.
use ward3n.Base.{
  ℕ, ◌+◌, ◌≤◌, ◌<◌, ◌≡◌, refl, ◌∙◌, ap, Bool, true, false, ◌||◌, List, [], ◌++◌, length, get_or,
  take, drop, length-take, length-drop, write_at-prefix, IsBytes, IsBytes-drop, arith, ltb, ◌==◌,
  le→ltb_false, lt→ltb, Bool-cases, inl, inr, if_both,
}
use ward3n.Pico.{Clock}
use ward3n.Apdu.{u32}
use ward3n.Apdu.Builder.{emit-inside}
use ward3n.CryptoBackend.{CryptoBackend}
use ward3n.Piv.{Card, answer_apdu, piv_process_apdu}
use ward3n.Piv.Fits.{answer_apdu-IsShortAnswer}
use ward3n.Ccid.{Reader, exchange, handle_xfr_block, respond, process_message}
use ward3n.Ccid.Responses.{Response, atr}
use ward3n.Ccid.Header.{data_block, ccid_header, read_u32}
use ward3n.Ccid.Frame.{
  Framed, IsReader, length-Framed, slot_status-Framed, data_block-Framed, set_parameters-Framed,
  set_data_rate-Framed,
}

module _ (clock : Clock) (C : CryptoBackend) where
  open C use {Keys}

  -- The region behind the header, which the applet writes.
  length-drop_header : (tx : List ℕ) → length tx ≡ 512 → length (drop 10 tx) ≡ 502
  length-drop_header tx h = omega (arith, length-drop 10 tx)

  -- What an exchange leaves: the header, the applet's answer with its status word, and the rest of
  -- the region.
  pub exchange-buffer :
      (now : ℕ) (msg : List ℕ) (apdu_len : ℕ) (tx : List ℕ) (card : Card Keys)
      → length tx ≡ 512
      → let out = (piv_process_apdu clock C now (drop 10 msg) apdu_len (drop 10 tx) 502 card).1 in
        (exchange clock C now msg apdu_len tx card).1
        ≡ (ccid_header data_block out.size (get_or msg 6 0) 0 0 0 ++ out.buf, 10 + out.size)
  unfolding exchange
  exchange-buffer now msg apdu_len tx card h =
      let out = (piv_process_apdu clock C now (drop 10 msg) apdu_len (drop 10 tx) 502 card).1 in
      ap (λ (t : List ℕ). (t, 10 + out.size))
        (write_at-prefix (take 10 tx) (ccid_header data_block out.size (get_or msg 6 0) 0 0 0)
          out.buf (omega (arith, length-take 10 tx)))

  -- The applet writes inside the region, and returns a count that fits it.
  pub process-inside :
      (now : ℕ) (raw : List ℕ) (n : ℕ) (region : List ℕ) (card : Card Keys)
      → IsBytes raw
      → length region ≡ 502
      → let out = (piv_process_apdu clock C now raw n region 502 card).1 in
        (length out.buf ≡ 502) × (out.size ≤ 502)
  unfolding piv_process_apdu
  process-inside now raw n region card bytes h =
      let a = (answer_apdu clock C now raw n card).1 in
      let short = answer_apdu-IsShortAnswer clock C now raw n card bytes in
      let (_, len, _, le) =
        emit-inside region 502 a (omega arith) (omega arith) (omega arith) (omega (arith, short)) in
      (len ∙ h, le)

  exchange-Framed :
      (now : ℕ) (msg : List ℕ) (apdu_len : ℕ) (tx : List ℕ) (card : Card Keys)
      → IsBytes msg
      → length tx ≡ 512
      → Framed (get_or msg 6 0) (exchange clock C now msg apdu_len tx card).1
  exchange-Framed now msg apdu_len tx card bytes h =
      let out = (piv_process_apdu clock C now (drop 10 msg) apdu_len (drop 10 tx) 502 card).1 in
      let inside =
        process-inside now (drop 10 msg) apdu_len (drop 10 tx) card (IsBytes-drop 10 msg bytes)
          (length-drop_header tx h) in
      rw (exchange-buffer now msg apdu_len tx card h) (record {
        kind = data_block;
        len = out.size;
        specific_0 = 0;
        specific_1 = 0;
        specific_2 = 0;
        rest = out.buf;
        frame = refl;
        room = inside.0;
        len_lem = refl;
        fits = inside.1;
      })

  xfr_block-Framed :
      (now : ℕ) (powered : Bool) (msg : List ℕ) (n : ℕ) (tx : List ℕ) (card : Card Keys)
      → IsBytes msg
      → length tx ≡ 512
      → Framed (get_or msg 6 0) (handle_xfr_block clock C now powered msg n tx card).1
  unfolding handle_xfr_block
  xfr_block-Framed now false msg n tx card bytes h =
      data_block-Framed false tx (get_or msg 6 0) 0x40 1 [] h (omega arith)
  xfr_block-Framed now true msg n tx card bytes h =
      elim (Bool-cases (read_u32 msg 1 == 0 || ltb n (u32 (10 + read_u32 msg 1)))) [
        | inl bad ↦ rw bad (data_block-Framed true tx (get_or msg 6 0) 0x40 1 [] h (omega arith))
        | inr good ↦ rw good (exchange-Framed now msg (read_u32 msg 1) tx card bytes h)
      ]

  respond-Framed :
      (now : ℕ) (powered : Bool) (msg : List ℕ) (n : ℕ) (tx : List ℕ) (card : Card Keys)
      → IsBytes msg
      → length tx ≡ 512
      → Framed (get_or msg 6 0) (respond clock C now powered msg n tx card).2
  unfolding respond
  respond-Framed now powered msg n tx card bytes h =
      let seq : ℕ = get_or msg 6 0 in
      let P : Bool × Card Keys × Response → Type 0 = λ t. Framed seq t.2 in
      let kind : ℕ = get_or msg 0 0 in
      if_both P (kind == 0x62) (data_block-Framed true tx seq 0 0 atr h (omega arith)) (
        if_both P (kind == 0x63) (slot_status-Framed false tx seq 0 0 0 h) (
          if_both P (kind == 0x65) (slot_status-Framed powered tx seq 0 0 0 h) (
            if_both P (kind == 0x6F) (xfr_block-Framed now powered msg n tx card bytes h) (
              if_both P (kind == 0x72) (slot_status-Framed powered tx seq 0 0 0 h) (
                if_both P (kind == 0x61) (set_parameters-Framed tx msg n h) (
                  if_both P (kind == 0x73) (set_data_rate-Framed tx msg n h)
                    (slot_status-Framed powered tx seq 0x40 0 0 h)))))))

  -- In a reader with bytes in its receive buffer and 512 bytes of transmit buffer, which it stays:
  -- every message of at least ten bytes, of a known kind or not, sets exactly one response pending:
  -- the transmit buffer then begins with a header that repeats the message's bSeq and whose dwLength
  -- is the number of response bytes behind it, all inside the 512 bytes. A shorter message changes
  -- nothing.
  pub process_message-Framed :
      (now : ℕ) (n : ℕ) (r : Reader Keys)
      → IsReader r
      → let r' = process_message clock C now r.ccid.rx_buf n r in
        (10 ≤ n
          → (r'.ccid.response_pending ≡ true)
            × Framed (get_or r.ccid.rx_buf 6 0) (r'.ccid.tx_buf, r'.ccid.response_len)
            × IsReader r')
        × (n < 10 → r' ≡ r)
  unfolding process_message
  process_message-Framed now n r v =
      let resp = (respond clock C now r.ccid.icc_powered r.ccid.rx_buf n r.ccid.tx_buf r.card).2 in
      let f =
        respond-Framed now r.ccid.icc_powered r.ccid.rx_buf n r.ccid.tx_buf r.card v.received
          v.transmit in
      (
        λ long.
            rw (le→ltb_false n 10 long, lt→ltb 0 resp.1 (omega (arith, f.len_lem)))
              (refl, f, record { received = v.received; transmit = length-Framed _ resp f }),
        λ short. rw (lt→ltb n 10 short) refl,
      )
