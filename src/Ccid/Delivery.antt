-- ===== src/Ccid/Delivery.antt =====
-- The sender of src/ccid.c, `ccid_task`, called again and again.
use ward3n.Base.{
  ℕ, ◌+◌, ◌%◌, ◌^◌, ◌≤◌, ◌<◌, ◌≡◌, refl, ◌∙◌, ap, Bool, true, false, ◌||◌, Option, none, some, List,
  [], ◌∷◌, ◌++◌, length, get_or, take, drop, flatten, arith, if◌then◌else◌,
}
use ward3n.Pico.{Clock}
use ward3n.Apdu.{sw_bytes}
use ward3n.CryptoBackend.{CryptoBackend}
use ward3n.Piv.{answer_apdu}
use ward3n.Ccid.{Ccid, Reader, process_message, ccid_task}
use ward3n.Ccid.Header.{ccid_header, read_u32}
use ward3n.Ccid.Frame.{IsReader}
use ward3n.Ccid.Framing.{process_message-Framed}
use ward3n.Ccid.Exchange.{exchange-sent}

abbrev optional : Option (List ℕ) → List (List ℕ)
optional none = []
optional (some x) = x ∷ []

-- Calls of `ccid_task` one after the other, with the results of the claims: what they send.
pub send_all : List Bool → Ccid → List (List ℕ)
send_all [] r = []
send_all (claimed ∷ rest) r =
    let (r', out) = ccid_task claimed r in optional out ++ send_all rest r'

abbrev pub any_true : List Bool → Bool
any_true [] = false
any_true (b ∷ bs) = b || any_true bs

send_all-idle :
    (claims : List Bool) (r : Ccid) → r.response_pending ≡ false → send_all claims r ≡ []
unfolding send_all ccid_task
send_all-idle [] r h = refl
send_all-idle (b ∷ claims) r h = ground (arith, send_all-idle claims r h)

-- A pending response is sent once, whole, by the first call whose claim succeeds.
pub send_all-once :
    (claims : List Bool) (r : Ccid)
    → r.response_pending ≡ true
    → r.response_len < 2 ^ 16
    → send_all claims r ≡ (if any_true claims then take r.response_len r.tx_buf ∷ [] else [])
unfolding send_all ccid_task
send_all-once [] r h small = refl
send_all-once (true ∷ claims) r h small =
    let same : r.response_len % 2 ^ 16 ≡ r.response_len = omega arith in
    ground (arith, send_all-idle claims (record r { response_pending = false }) refl)
send_all-once (false ∷ claims) r h small = ground (arith, send_all-once claims r h small)

module _ (clock : Clock) (C : CryptoBackend) where
  open C use {Keys}

  -- An XfrBlock whose APDU, of at least one byte, lies inside the message of at most 512 bytes, in a
  -- powered reader: what the calls of `ccid_task` after it hand to the endpoint is, as soon as one of
  -- their claims succeeds, exactly one DataBlock with the message's bSeq, which holds the body of the
  -- applet's answer and its status word; and nothing as long as none succeeds.
  pub exchange-delivered :
      (now : ℕ) (n : ℕ) (r : Reader Keys) (claims : List Bool)
      → IsReader r
      → r.ccid.icc_powered ≡ true
      → get_or r.ccid.rx_buf 0 0 ≡ 0x6F
      → 1 ≤ read_u32 r.ccid.rx_buf 1
      → 10 + read_u32 r.ccid.rx_buf 1 ≤ n
      → n ≤ 512
      → let rx = r.ccid.rx_buf in
        let a = (answer_apdu clock C now (drop 10 rx) (read_u32 rx 1) r.card).1 in
        send_all claims (process_message clock C now rx n r).ccid ≡ (
          if any_true claims
          then (ccid_header 0x80 (length (flatten a.parts) + 2) (get_or rx 6 0) 0 0 0
              ++ (flatten a.parts ++ sw_bytes a.sw))
            ∷ []
          else [])
  exchange-delivered now n r claims v powered kind pos inside hi =
      let r' = (process_message clock C now r.ccid.rx_buf n r).ccid in
      let (bytes, short, _) = exchange-sent clock C now n r v powered kind pos inside hi in
      let framed = (process_message-Framed clock C now n r v).0 (omega arith) in
      send_all-once claims r' framed.0 (omega (arith, short))
      ∙ ap (λ (t : List ℕ). if any_true claims then t ∷ [] else []) bytes
