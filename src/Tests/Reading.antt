-- ===== src/Tests/Reading.antt =====
-- A host that reads the certificate of 300 bytes in two answers.
use ward3n.Base.{
  ℕ, ◌≡◌, refl, true, false, some, List, [], ◌∷◌, ◌++◌, length, replicate, length-replicate,
  IsBytes-append, IsBytes-replicate, arith,
}
use ward3n.Apdu.{Cmd, apdu_parse}
use ward3n.Piv.Objects.{cert_object, ber_len, inner_len}
use ward3n.Ccid.Reading.{Message, IsXfr, IsPowered, read_all}
use ward3n.Ccid.Certificate.{AsksForCertificate, certificate_of, read_certificate}
use ward3n.Tests.Objects.{unlocked-IsValid}
use ward3n.Tests.Fixtures.{ticking, counting, certificate, waiting, card, reader}

-- GET DATA for the certificate, and GET RESPONSE, each with Le 0, which is 256.
abbrev get_front : List ℕ
get_front =
    0x6F ∷ 11 ∷ 0 ∷ 0 ∷ 0 ∷ 0 ∷ 1 ∷ 0 ∷ 0 ∷ 0 ∷ 0x00 ∷ 0xCB ∷ 0x3F ∷ 0xFF ∷ 0x05 ∷ 0x5C ∷ 0x03
    ∷ 0x5F ∷ 0xC1 ∷ 0x05 ∷ 0x00 ∷ []

abbrev get_data : Message
get_data = record { at = 0; buffer = get_front ++ replicate 491 0; size = 21 }

abbrev more_front : List ℕ
more_front = 0x6F ∷ 5 ∷ 0 ∷ 0 ∷ 0 ∷ 0 ∷ 2 ∷ 0 ∷ 0 ∷ 0 ∷ 0x00 ∷ 0xC0 ∷ 0x00 ∷ 0x00 ∷ 0x00 ∷ []

abbrev more : Message
more = record { at = 1; buffer = more_front ++ replicate 497 0; size = 15 }

abbrev get_command : Cmd
get_command = record {
  cla = 0x00;
  ins = 0xCB;
  p1 = 0x3F;
  p2 = 0xFF;
  lc = 5;
  data_bytes = 0x5C ∷ 0x03 ∷ 0x5F ∷ 0xC1 ∷ 0x05 ∷ 0x00 ∷ replicate 491 0;
  le = 256;
  has_lc = true;
  has_le = true;
}

abbrev more_command : Cmd
more_command = record {
  cla = 0x00;
  ins = 0xC0;
  p1 = 0x00;
  p2 = 0x00;
  lc = 0;
  data_bytes = [];
  le = 256;
  has_lc = false;
  has_le = true;
}

get_data-IsXfr : IsXfr get_data get_command
unfolding apdu_parse
get_data-IsXfr = record {
  received =
      IsBytes-append get_front (replicate 491 0) (ground arith)
        (IsBytes-replicate 491 0 (omega arith));
  kind = refl;
  some_apdu = omega arith;
  inside = omega arith;
  fits = omega arith;
  parsed = refl;
  cla_lem = refl;
}

more-IsXfr : IsXfr more more_command
unfolding apdu_parse
more-IsXfr = record {
  received =
      IsBytes-append more_front (replicate 497 0) (ground arith)
        (IsBytes-replicate 497 0 (omega arith));
  kind = refl;
  some_apdu = omega arith;
  inside = omega arith;
  fits = omega arith;
  parsed = refl;
  cla_lem = refl;
}

get_data-AsksForCertificate : AsksForCertificate get_command
get_data-AsksForCertificate = record {
  ins_lem = refl;
  p1_lem = refl;
  p2_lem = refl;
  has_lc_lem = refl;
  lc_le = omega arith;
  rest = 0x00 ∷ replicate 491 0;
  data_lem = refl;
}

reader-IsPowered : IsPowered (card waiting) (reader waiting)
reader-IsPowered = record {
  transmit = length-replicate {A = ℕ} 512 0;
  powered = refl;
  card_lem = refl;
}

object_len : length (cert_object certificate) ≡ 313
unfolding cert_object ber_len inner_len
object_len = refl

read_certificate_example :
    certificate_of (read_all ticking counting (get_data ∷ more ∷ []) (reader waiting))
    ≡ some certificate
read_certificate_example =
    read_certificate ticking counting get_data get_command (more ∷ []) (more_command ∷ [])
      (card waiting) (reader waiting) get_data-IsXfr get_data-AsksForCertificate
      (more-IsXfr, refl, tt) reader-IsPowered (refl, unlocked-IsValid)
      (omega (arith, length-replicate {A = ℕ} 300 0x30)) (omega (arith, object_len))
      (omega (arith, object_len))
