-- ===== src/Ccid/Responses.antt =====
-- The responses that src/ccid.c builds itself.
use ward3n.Base.{
  ℕ, ◌+◌, ◌-◌, bit_or, Bool, ◌&&◌, List, [], ◌∷◌, length, get_or, take, drop, write_at, ltb, leb,
  ◌==◌, if◌then◌else◌,
}
use ward3n.Config.{ccid_buf_size}
use ward3n.Apdu.{u8, u32}
use ward3n.Ccid.Header.{
  data_block, slot_status, parameters, icc_active, icc_inactive, cmd_ok, u32_le, read_u32,
  ccid_header, ccid_header_len,
}

-- `_atr`
abbrev pub atr : List ℕ
atr = 0x3B ∷ 0x10 ∷ 0x01 ∷ 0x11 ∷ []

-- `cmd_status | (_icc_powered ? CCID_ICC_ACTIVE : CCID_ICC_INACTIVE)`
abbrev pub b_status : ℕ → Bool → ℕ
b_status cmd_status powered = u8 (bit_or cmd_status (if powered then icc_active else icc_inactive))

-- A response in the making: the transmit buffer, and `resp_len`.
abbrev pub Response : Type 0
Response = List ℕ × ℕ

unfoldable pub make_slot_status : Bool → List ℕ → ℕ → ℕ → ℕ → ℕ → Response
make_slot_status powered tx seq cmd_status error clock_status = (
  write_at tx 0 (ccid_header slot_status 0 seq (b_status cmd_status powered) error clock_status),
  ccid_header_len,
)

unfoldable pub make_data_block : Bool → List ℕ → ℕ → ℕ → ℕ → List ℕ → Response
make_data_block powered tx seq cmd_status error body =
    let tx' : List ℕ =
      write_at tx 0
        (ccid_header data_block (length body) seq (b_status cmd_status powered) error 0) in
    (
      if length body == 0 then tx' else write_at tx' ccid_header_len body,
      ccid_header_len + length body,
    )

-- SetParameters (0x61)
unfoldable pub set_parameters : List ℕ → List ℕ → ℕ → Response
set_parameters tx msg msg_len =
    let asked : ℕ = read_u32 msg 1 in
    let plen : ℕ = if ltb (ccid_buf_size - ccid_header_len) asked then 0 else asked in
    let tx' : List ℕ = write_at tx 0 (
      ccid_header parameters plen (get_or msg 6 0) (u8 (bit_or cmd_ok icc_active)) 0
        (get_or msg 9 0)) in
    (
      if ltb 0 plen && leb (u32 (ccid_header_len + plen)) msg_len
          then write_at tx' ccid_header_len (take plen (drop ccid_header_len msg))
          else tx',
      ccid_header_len + plen,
    )

-- SetDataRateAndClockFrequency (0x73)
unfoldable pub set_data_rate : List ℕ → List ℕ → ℕ → Response
set_data_rate tx msg msg_len =
    let tx' : List ℕ =
      write_at tx 0 (ccid_header 0x84 8 (get_or msg 6 0) (u8 (bit_or cmd_ok icc_active)) 0 0) in
    (
      if leb 8 (read_u32 msg 1) && leb (ccid_header_len + 8) msg_len
          then write_at tx' ccid_header_len (take 8 (drop ccid_header_len msg))
          else write_at (write_at tx' ccid_header_len (u32_le 0xDFC)) (ccid_header_len + 4)
              (u32_le 0x25CD),
      ccid_header_len + 8,
    )
