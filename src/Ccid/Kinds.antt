-- ===== src/Ccid/Kinds.antt =====
-- The kind of the response of src/ccid.c to a message, as include/ccid.h lists them.
use ward3n.Base.{
  ℕ, suc, not, ◌+◌, ◌≤◌, ◌≡◌, refl, ◌∙◌, Bool, true, false, List, [], ◌∷◌, length, get_or, take,
  drop, write_at, length-append, length-take, ◌++◌, arith, ltb, leb, ◌==◌, ◌||◌, ◌&&◌,
  if◌then◌else◌, if_both, le→ltb_false,
}
use ward3n.Pico.{Clock}
use ward3n.Apdu.{u32}
use ward3n.CryptoBackend.{CryptoBackend}
use ward3n.Piv.{Card, piv_process_apdu}
use ward3n.Ccid.{Ccid, Reader, exchange, handle_xfr_block, respond, process_message}
use ward3n.Ccid.Responses.{
  Response, atr, make_slot_status, make_data_block, set_parameters, set_data_rate,
}
use ward3n.Ccid.Header.{read_u32, u32_le, ccid_header}

-- The messages and their responses: IccPowerOn and XfrBlock have a DataBlock, SetParameters has
-- Parameters, SetDataRateAndClockFrequency has DataRateAndClockFrequency, and every other message,
-- known or not, has a SlotStatus.
abbrev pub answer_kind : ℕ → ℕ
answer_kind kind =
    if kind == 0x62 || kind == 0x6F
    then 0x80
    else (if kind == 0x61 then 0x82 else (if kind == 0x73 then 0x84 else 0x81))

-- The first byte of a buffer after a copy over its front, and after one behind it
first_written :
    (tx : List ℕ) (b : ℕ) (bs : List ℕ) → 1 ≤ length tx → get_or (write_at tx 0 (b ∷ bs)) 0 0 ≡ b
unfolding write_at
first_written [] b bs h = absurd (omega arith)
first_written (x ∷ tx) b bs h = refl

first_kept :
    (tx : List ℕ) (off : ℕ) (src : List ℕ) → get_or (write_at tx (suc off) src) 0 0 ≡ get_or tx 0 0
unfolding write_at
first_kept [] off src = refl
first_kept (x ∷ tx) off src = refl

module _ (tx : List ℕ) (h : length tx ≡ 512) where
  header_first :
      (kind len seq s0 s1 s2 : ℕ)
      → get_or (write_at tx 0 (ccid_header kind len seq s0 s1 s2)) 0 0 ≡ kind
  header_first kind len seq s0 s1 s2 = first_written tx kind _ (omega arith)

  slot_status-kind :
      (powered : Bool) (seq cmd error clock : ℕ)
      → get_or (make_slot_status powered tx seq cmd error clock).0 0 0 ≡ 0x81
  unfolding make_slot_status
  slot_status-kind powered seq cmd error clock = header_first 0x81 0 seq _ error clock

  data_block-kind :
      (powered : Bool) (seq cmd error : ℕ) (body : List ℕ)
      → get_or (make_data_block powered tx seq cmd error body).0 0 0 ≡ 0x80
  unfolding make_data_block
  data_block-kind powered seq cmd error body =
      let first = header_first 0x80 (length body) seq _ error 0 in
      if_both (λ (t : List ℕ). get_or t 0 0 ≡ 0x80) (length body == 0) first
        (first_kept _ 9 body ∙ first)

  set_parameters-kind : (msg : List ℕ) (n : ℕ) → get_or (set_parameters tx msg n).0 0 0 ≡ 0x82
  unfolding set_parameters
  set_parameters-kind msg n =
      let asked : ℕ = read_u32 msg 1 in
      let plen : ℕ = if ltb 502 asked then 0 else asked in
      let first = header_first 0x82 plen (get_or msg 6 0) 0 0 (get_or msg 9 0) in
      if_both (λ (t : List ℕ). get_or t 0 0 ≡ 0x82) (ltb 0 plen && leb (u32 (10 + plen)) n)
        (first_kept _ 9 (take plen (drop 10 msg)) ∙ first) first

  set_data_rate-kind : (msg : List ℕ) (n : ℕ) → get_or (set_data_rate tx msg n).0 0 0 ≡ 0x84
  unfolding set_data_rate
  set_data_rate-kind msg n =
      let first = header_first 0x84 8 (get_or msg 6 0) 0 0 0 in
      if_both (λ (t : List ℕ). get_or t 0 0 ≡ 0x84) (leb 8 (read_u32 msg 1) && leb (10 + 8) n)
        (first_kept _ 9 (take 8 (drop 10 msg)) ∙ first)
        (first_kept _ 13 (u32_le 0x25CD) ∙ first_kept _ 9 (u32_le 0xDFC) ∙ first)

module _ (clock : Clock) (C : CryptoBackend) where
  open C use {Keys}

  exchange-kind :
      (now : ℕ) (msg : List ℕ) (len : ℕ) (tx : List ℕ) (card : Card Keys)
      → length tx ≡ 512
      → get_or (exchange clock C now msg len tx card).1.0 0 0 ≡ 0x80
  unfolding exchange
  exchange-kind now msg len tx card h =
      let out = (piv_process_apdu clock C now (drop 10 msg) len (drop 10 tx) 502 card).1 in
      first_written (take 10 tx ++ out.buf) 0x80 _
        (omega (arith, length-append (take 10 tx) out.buf, length-take 10 tx))

  xfr_block-kind :
      (now : ℕ) (powered : Bool) (msg : List ℕ) (n : ℕ) (tx : List ℕ) (card : Card Keys)
      → length tx ≡ 512
      → get_or (handle_xfr_block clock C now powered msg n tx card).1.0 0 0 ≡ 0x80
  unfolding handle_xfr_block
  xfr_block-kind now powered msg n tx card h =
      let P : Card Keys × Response → Type 0 = λ t. get_or t.1.0 0 0 ≡ 0x80 in
      let refused = data_block-kind tx h powered (get_or msg 6 0) 0x40 1 [] in
      if_both P (not powered) refused (
        if_both P (read_u32 msg 1 == 0 || ltb n (u32 (10 + read_u32 msg 1))) refused
          (exchange-kind now msg (read_u32 msg 1) tx card h))

  pub respond-kind :
      (now : ℕ) (powered : Bool) (msg : List ℕ) (n : ℕ) (tx : List ℕ) (card : Card Keys)
      → length tx ≡ 512
      → get_or (respond clock C now powered msg n tx card).2.0 0 0 ≡ answer_kind (get_or msg 0 0)
  unfolding respond
  respond-kind now powered msg n tx card h =
      let seq : ℕ = get_or msg 6 0 in
      ground (
        arith,
        data_block-kind tx h true seq 0 0 atr,
        slot_status-kind tx h false seq 0 0 0,
        slot_status-kind tx h powered seq 0 0 0,
        slot_status-kind tx h powered seq 0x40 0 0,
        set_parameters-kind tx h msg n,
        set_data_rate-kind tx h msg n,
        xfr_block-kind now powered msg n tx card h,
      )

  pub process_message-kind :
      (now : ℕ) (n : ℕ) (r : Reader Keys)
      → length r.ccid.tx_buf ≡ 512
      → 10 ≤ n
      → get_or (process_message clock C now r.ccid.rx_buf n r).ccid.tx_buf 0 0
        ≡ answer_kind (get_or r.ccid.rx_buf 0 0)
  unfolding process_message
  process_message-kind now n r h long =
      let first = respond-kind now r.ccid.icc_powered r.ccid.rx_buf n r.ccid.tx_buf r.card h in
      let resp = (respond clock C now r.ccid.icc_powered r.ccid.rx_buf n r.ccid.tx_buf r.card).2 in
      rw (le→ltb_false n 10 long) (
        if_both (λ (t : Ccid). get_or t.tx_buf 0 0 ≡ answer_kind (get_or r.ccid.rx_buf 0 0))
          (ltb 0 resp.1) first first)
