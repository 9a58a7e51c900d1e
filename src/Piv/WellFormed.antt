-- ===== src/Piv/WellFormed.antt =====
-- The data objects of src/piv.c as BER-TLV.
use ward3n.Base.{
  ℕ, ◌≡◌, refl, Bool, true, false, ◌&&◌, ◌||◌, Option, none, some, List, length, arith, ◌==◌,
}
use ward3n.CryptoBackend.{CryptoBackend, key_ref_9a}
use ward3n.Piv.{find_object}
use ward3n.Piv.Objects.{ccc_data, chuid_data, disc}
use ward3n.Piv.Tlv.{Tlv, read_tlv, cert_object_lem}

abbrev is_one_object : Option Tlv → Bool
is_one_object none = false
is_one_object (some t) = (t.tag == 0x53 || t.tag == 0x7E) && length t.rest == 0

-- One object with tag 53 or 7E, and nothing behind it.
abbrev pub is_object : List ℕ → Bool
is_object bytes = is_one_object (read_tlv bytes)

static_objects :
    (is_object ccc_data ≡ true) × (is_object chuid_data ≡ true) × (is_object disc ≡ true)
unfolding read_tlv ccc_data chuid_data disc
static_objects = (refl, refl, refl)

-- Whatever GET DATA finds is one BER-TLV object with tag 53 or 7E whose length is that of its
-- contents: nothing is missing, and nothing stands behind it.
pub find_object-Tlv :
    (C : CryptoBackend) (keys : CryptoBackend.Keys C) (n : ℕ) (tag obj : List ℕ)
    → find_object C keys n tag ≡ some obj
    → is_object obj ≡ true
unfolding find_object
find_object-Tlv C keys n tag obj e =
    let cert : List ℕ = C.get_cert_der keys key_ref_9a 3994 in
    ground (arith, static_objects, cert_object_lem cert (C.get_cert_der-le keys key_ref_9a 3994))
