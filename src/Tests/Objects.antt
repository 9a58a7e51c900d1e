-- ===== src/Tests/Objects.antt =====
-- Commands, templates and data objects.
use ward3n.Base.{
  ℕ, ◌≤◌, ◌≡◌, ◌↔◌, refl, true, false, none, some, List, [], ◌∷◌, ◌++◌, flatten, length, take, drop,
  replicate, length-replicate, IsBytes, IsBytes-take, arith,
}
use ward3n.Apdu.{Cmd, apdu_parse, Answer, emit}
use ward3n.Apdu.Builder.{emit-inside}
use ward3n.Apdu.Parse.{case4, decoded, parse-encode}
use ward3n.Piv.{find_object, answer_apdu}
use ward3n.Piv.Applet.{Piv, send_object, bytes_eq}
use ward3n.Piv.Dat.{parse_dat}
use ward3n.Piv.Objects.{cert_object}
use ward3n.Piv.Chain.{IsValid, pending}
use ward3n.Piv.Transfer.{collect, transfer_whole}
use ward3n.Piv.Template.{template, long_template, parse-template, parse_dat-take}
use ward3n.Piv.Tlv.{read_tlv, cert_contents, cert_object_lem}
use ward3n.Piv.WellFormed.{is_object, find_object-Tlv}
use ward3n.Piv.Pin.{padded_pin}
use ward3n.Piv.Verified.{offered, answer_apdu-pin}
use ward3n.Piv.Locality.{answer_apdu-take}
use ward3n.Apdu.Reference.{trimmed, iso_parse, apdu_parse-iso_parse}
use ward3n.Tests.Fixtures.{
  ticking, counting, certificate, hash, unlocked, card, waiting, authenticate, authenticate-IsBytes,
}

-- GET RESPONSE for 100 bytes.
abbrev get_100 : Cmd
get_100 = record {
  cla = 0x00;
  ins = 0xC0;
  p1 = 0x00;
  p2 = 0x00;
  lc = 0;
  data_bytes = [];
  le = 100;
  has_lc = false;
  has_le = true;
}

pub unlocked-IsValid : IsValid unlocked
unlocked-IsValid = record {
  buffer = length-replicate {A = ℕ} 4096 0;
  inside = omega arith;
  sent = omega arith;
}

certificate_len : length certificate ≡ 300
certificate_len = length-replicate {A = ℕ} 300 0x30

transfer_whole_example :
    let (p', a) = send_object get_100 unlocked certificate in
    let (bytes, q) = collect (get_100 ∷ get_100 ∷ []) p' in
    (flatten a.parts ++ bytes ≡ take 300 certificate)
    × (pending q ≡ drop 300 certificate)
    × (length certificate ≤ 300 → (flatten a.parts ++ bytes ≡ certificate) × (pending q ≡ []))
transfer_whole_example =
    transfer_whole get_100 (get_100 ∷ get_100 ∷ []) unlocked certificate unlocked-IsValid
      (omega (arith, certificate_len)) (omega (arith, certificate_len))

-- 150 bytes are left of 300.
abbrev half_sent : Piv
half_sent = record unlocked { chain_len = 300; chain_offset = 150 }

-- A command with a body of two bytes and Le 256.
parse-encode_example :
    apdu_parse (0x00 ∷ 0xCB ∷ 0x3F ∷ 0xFF ∷ 0x02 ∷ 0x5C ∷ 0x00 ∷ 0x00 ∷ 0xEE ∷ []) 8
    ≡ some (decoded 0x00 0xCB 0x3F 0xFF (case4 (0x5C ∷ 0x00 ∷ []) 256) (0xEE ∷ []))
parse-encode_example =
    parse-encode 0x00 0xCB 0x3F 0xFF (case4 (0x5C ∷ 0x00 ∷ []) 256) (0xEE ∷ [])
      ((omega arith, omega arith), (omega arith, omega arith))

-- A select of two bytes, of which one is there.
abbrev cut_short : List ℕ
cut_short = 0x00 ∷ 0xA4 ∷ 0x04 ∷ 0x00 ∷ 0x02 ∷ 0xA0 ∷ []

cut_short-IsBytes : IsBytes cut_short
cut_short-IsBytes = ground arith

abbrev select_header : Cmd
select_header = record {
  cla = 0x00;
  ins = 0xA4;
  p1 = 0x04;
  p2 = 0x00;
  lc = 0;
  data_bytes = [];
  le = 2;
  has_lc = false;
  has_le = true;
}

select_header_parsed : apdu_parse cut_short 5 ≡ some select_header
unfolding apdu_parse
select_header_parsed = refl

parse-template_example :
    (parse_dat (template hash ++ (0xEE ∷ [])) 38 ≡ some hash)
    × (parse_dat (long_template hash ++ (0xEE ∷ [])) 39 ≡ some hash)
parse-template_example = parse-template hash (0xEE ∷ []) (omega arith) (omega arith)

parse_dat-take_example :
    parse_dat (take 38 (template hash ++ (0xEE ∷ []))) 38
    ≡ parse_dat (template hash ++ (0xEE ∷ [])) 38
parse_dat-take_example = parse_dat-take (template hash ++ (0xEE ∷ [])) 38 (omega arith)

cert_object_lem_example :
    (read_tlv (cert_object certificate)
      ≡ some (record { tag = 0x53; contents = cert_contents certificate; rest = [] }))
    × (read_tlv (cert_contents certificate)
        ≡ some (record {
          tag = 0x70;
          contents = certificate;
          rest = 0x71 ∷ 0x01 ∷ 0x00 ∷ 0xFE ∷ 0x00 ∷ [];
        }))
    × (length (cert_object certificate) ≤ 4096)
cert_object_lem_example = cert_object_lem certificate (omega (arith, certificate_len))

-- VERIFY with the PIN 123456, padded by zeros.
abbrev padded_by_zeros : List ℕ
padded_by_zeros =
    0x00 ∷ 0x20 ∷ 0x00 ∷ 0x80 ∷ 0x08 ∷ 0x31 ∷ 0x32 ∷ 0x33 ∷ 0x34 ∷ 0x35 ∷ 0x36 ∷ 0x00 ∷ 0x00 ∷ []

answer_apdu-pin_example :
    let (c', a) = answer_apdu ticking counting 5 padded_by_zeros 13 (card waiting) in
    (offered (apdu_parse padded_by_zeros 13) ≡ none → c'.piv.pin_verified ≡ true)
    × (true ≡ false → c'.piv.pin_verified ≡ true)
    × ((pin : List ℕ)
        → offered (apdu_parse padded_by_zeros 13) ≡ some pin
        → true ≡ true
        → ((c'.piv.pin_verified ≡ true) ↔ (pin ≡ padded_pin))
          × ((a.sw ≡ 0x9000) ↔ (pin ≡ padded_pin)))
answer_apdu-pin_example = answer_apdu-pin ticking counting 5 padded_by_zeros 13 (card waiting)

-- Three bytes and 9000.
abbrev three_bytes : Answer
three_bytes = record { parts = (1 ∷ 2 ∷ []) ∷ (3 ∷ []) ∷ []; sw = 0x9000 }

-- Four bytes are too few for them.
emit-inside_example :
    let o = emit (replicate 6 0) 4 three_bytes in
    (drop 4 o.buf ≡ 0 ∷ 0 ∷ []) × (length o.buf ≡ 6) × (2 ≤ o.size) × (o.size ≤ 4)
emit-inside_example =
    emit-inside (replicate 6 0) 4 three_bytes (omega arith) (omega arith) (omega arith)
      (omega arith)

certificate_found :
    find_object counting 0 3 (0x5F ∷ 0xC1 ∷ 0x05 ∷ []) ≡ some (cert_object certificate)
unfolding find_object bytes_eq
certificate_found = refl

find_object-Tlv_example : is_object (cert_object certificate) ≡ true
find_object-Tlv_example =
    find_object-Tlv counting 0 3 (0x5F ∷ 0xC1 ∷ 0x05 ∷ []) (cert_object certificate)
      certificate_found

apdu_parse-iso_parse_example : trimmed (apdu_parse authenticate 43) ≡ iso_parse authenticate
apdu_parse-iso_parse_example =
    apdu_parse-iso_parse authenticate
      (IsBytes-take 43 (authenticate ++ replicate 459 0) authenticate-IsBytes) (omega arith)

answer_apdu-take_example :
    answer_apdu ticking counting 5 authenticate 43 (card waiting)
    ≡ answer_apdu ticking counting 5 (authenticate ++ replicate 459 0) 43 (card waiting)
answer_apdu-take_example =
    answer_apdu-take ticking counting 5 (authenticate ++ replicate 459 0) 43 (card waiting)
      authenticate-IsBytes (λ get_data three. absurd (omega (arith, get_data)))
