-- ===== src/Piv/Objects.antt =====
-- The data objects of src/piv.c (BER-TLV), and the constants of include/piv.h.
use ward3n.Base.{
  ℕ, ◌+◌, ◌/◌, ◌%◌, ◌^◌, List, [], ◌∷◌, ◌++◌, length, replicate, ltb, leb, if◌then◌else◌,
}
use ward3n.Apdu.{u8}

abbrev pub piv_aid : List ℕ
piv_aid = 0xA0 ∷ 0x00 ∷ 0x00 ∷ 0x03 ∷ 0x08 ∷ 0x00 ∷ 0x00 ∷ 0x10 ∷ 0x00 ∷ 0x01 ∷ 0x00 ∷ []

abbrev pub piv_aid_len : ℕ
piv_aid_len = 11

abbrev pub piv_tag_ccc : List ℕ
piv_tag_ccc = 0x5F ∷ 0xC1 ∷ 0x07 ∷ []

abbrev pub piv_tag_chuid : List ℕ
piv_tag_chuid = 0x5F ∷ 0xC1 ∷ 0x02 ∷ []

abbrev pub piv_tag_cert_9a : List ℕ
piv_tag_cert_9a = 0x5F ∷ 0xC1 ∷ 0x05 ∷ []

abbrev pub piv_pin_ref_app : ℕ
piv_pin_ref_app = 0x80

abbrev pub piv_dat_tag : ℕ
piv_dat_tag = 0x7C

abbrev pub piv_dat_response : ℕ
piv_dat_response = 0x82

abbrev pub piv_dat_challenge : ℕ
piv_dat_challenge = 0x81

-- `_ccc_data`
unfoldable pub ccc_data : List ℕ
ccc_data =
    0x53
    ∷ 0x33
    ∷ 0xF0
    ∷ 0x15
    ∷ 0xA0
    ∷ 0x00
    ∷ 0x00
    ∷ 0x01
    ∷ 0x16
    ∷ 0xFF
    ∷ 0x02
    ∷ (replicate 14 0x00
        ++ (0xF1 ∷ 0x01 ∷ 0x21 ∷ 0xF2 ∷ 0x01 ∷ 0x21 ∷ 0xF3 ∷ 0x00 ∷ 0xF4 ∷ 0x01 ∷ 0x00 ∷ 0xF5 ∷ 0x01
            ∷ 0x10 ∷ 0xF6 ∷ 0x00 ∷ 0xF7 ∷ 0x00 ∷ 0xFA ∷ 0x00 ∷ 0xFB ∷ 0x00 ∷ 0xFC ∷ 0x00 ∷ 0xFD
            ∷ 0x00 ∷ 0xFE ∷ 0x00 ∷ []))

-- `_chuid_data`
unfoldable pub chuid_data : List ℕ
chuid_data =
    0x53
    ∷ 0x3B
    ∷ 0x30
    ∷ 0x19
    ∷ (replicate 25 0x00
        ++ (0x34 ∷ 0x10 ∷ 0x57 ∷ 0x41 ∷ 0x52 ∷ 0x44 ∷ 0x33 ∷ 0x4E ∷ 0x00 ∷ 0x01 ∷ 0xAA ∷ 0xBB ∷ 0xCC
            ∷ 0xDD ∷ 0xEE ∷ 0xFF ∷ 0x00 ∷ 0x01 ∷ 0x35 ∷ 0x08 ∷ 0x32 ∷ 0x30 ∷ 0x39 ∷ 0x39 ∷ 0x31
            ∷ 0x32 ∷ 0x33 ∷ 0x31 ∷ 0x3E ∷ 0x00 ∷ 0xFE ∷ 0x00 ∷ []))

-- The `fci` of `_handle_select`.
unfoldable pub fci : List ℕ
fci = 0x61 ∷ 0x11 ∷ 0x4F ∷ 0x0B ∷ (piv_aid ++ (0x79 ∷ 0x02 ∷ 0x4F ∷ 0x00 ∷ []))

-- The `disc` of `_handle_get_data`.
unfoldable pub disc : List ℕ
disc = 0x7E ∷ 0x12 ∷ 0x4F ∷ 0x0B ∷ (piv_aid ++ (0x5F ∷ 0x2F ∷ 0x02 ∷ 0x40 ∷ 0x00 ∷ []))

-- `_ber_len_write`: the bytes that it writes; it returns their number.
unfoldable pub ber_len : ℕ → List ℕ
ber_len len =
    if ltb len 0x80
    then u8 len ∷ []
    else (if leb len 0xFF
        then 0x81 ∷ u8 len ∷ []
        else 0x82 ∷ u8 (len / 2 ^ 8) ∷ u8 (len % 256) ∷ [])

-- `inner_len`, as `_handle_get_data` adds it up.
unfoldable pub inner_len : ℕ → ℕ
inner_len cert_len =
    let base : ℕ = 2 + cert_len + 3 + 2 in
    let more : ℕ = if leb 0x80 cert_len then base + 1 else base in
    if ltb 0xFF cert_len then more + 1 else more

-- The certificate object that `_handle_get_data` writes into `cert_obj`, `pos` bytes.
unfoldable pub cert_object : List ℕ → List ℕ
cert_object cert =
    0x53
    ∷ (ber_len (inner_len (length cert))
        ++ (0x70 ∷ (ber_len (length cert) ++ (cert ++ (0x71 ∷ 0x01 ∷ 0x00 ∷ 0xFE ∷ 0x00 ∷ [])))))
