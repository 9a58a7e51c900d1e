-- ===== src/Ccid/Header.antt =====
-- include/ccid.h: the message kinds, the status bytes, and `ccid_header_t`, ten packed bytes with
-- dwLength little-endian.
use ward3n.Base.{ℕ, ◌+◌, ◌*◌, ◌/◌, ◌%◌, ◌^◌, ◌<◌, ◌≡◌, List, [], ◌∷◌, ◌++◌, get_or, arith}

abbrev pub icc_power_on : ℕ
icc_power_on = 0x62

abbrev pub icc_power_off : ℕ
icc_power_off = 0x63

abbrev pub get_slot_status : ℕ
get_slot_status = 0x65

abbrev pub xfr_block : ℕ
xfr_block = 0x6F

abbrev pub abort : ℕ
abort = 0x72

abbrev pub data_block : ℕ
data_block = 0x80

abbrev pub slot_status : ℕ
slot_status = 0x81

abbrev pub parameters : ℕ
parameters = 0x82

abbrev pub icc_active : ℕ
icc_active = 0x00

abbrev pub icc_inactive : ℕ
icc_inactive = 0x01

abbrev pub cmd_ok : ℕ
cmd_ok = 0x00

abbrev pub cmd_failed : ℕ
cmd_failed = 0x40

abbrev pub ccid_header_len : ℕ
ccid_header_len = 10

-- The four bytes of a `uint32_t`.
abbrev pub u32_le : ℕ → List ℕ
u32_le x = (x % 256) ∷ (x / 2 ^ 8 % 256) ∷ (x / 2 ^ 16 % 256) ∷ (x / 2 ^ 24 % 256) ∷ []

-- The `uint32_t` at an index of a buffer.
abbrev pub read_u32 : List ℕ → ℕ → ℕ
read_u32 msg i =
    get_or msg i 0
    + 2 ^ 8 * get_or msg (i + 1) 0
    + 2 ^ 16 * get_or msg (i + 2) 0
    + 2 ^ 24 * get_or msg (i + 3) 0

-- bMessageType, dwLength, bSlot (always 0), bSeq, and the three bytes that depend on the message.
abbrev pub ccid_header : ℕ → ℕ → ℕ → ℕ → ℕ → ℕ → List ℕ
ccid_header kind len seq specific_0 specific_1 specific_2 =
    kind ∷ (u32_le len ++ (0 ∷ seq ∷ specific_0 ∷ specific_1 ∷ specific_2 ∷ []))

-- A length is read back from a header that was written with it.
pub read-ccid_header :
    (kind len seq s0 s1 s2 : ℕ) (rest : List ℕ)
    → len < 2 ^ 32
    → read_u32 (ccid_header kind len seq s0 s1 s2 ++ rest) 1 ≡ len
read-ccid_header kind len seq s0 s1 s2 rest h = omega arith
