-- ===== src/Ccid/Certificate.antt =====
-- The certificate, read through src/ccid.c from src/piv.c: GET DATA, and GET RESPONSE for the rest.
use ward3n.Base.{
  ℕ, ◌+◌, ◌≤◌, ◌<◌, ◌≡◌, refl, ◌∙◌, ap, true, false, Option, none, some, List, ◌∷◌, ◌++◌, length,
  flatten, arith, ltb, ◌==◌, if◌then◌else◌,
}
use mathlib.Core.Path.{ap₂, subst}
use ward3n.Pico.{Clock}
use ward3n.Apdu.{Cmd, Answer}
use ward3n.CryptoBackend.{CryptoBackend, key_ref_9a}
use ward3n.Piv.{Card, find_object, handle_get_data, route, on_piv}
use ward3n.Piv.Applet.{Piv, bytes_eq, send_object, wanted}
use ward3n.Piv.Objects.{cert_object}
use ward3n.Piv.Chain.{IsValid}
use ward3n.Piv.Transfer.{asked, transfer_whole}
use ward3n.Piv.Tlv.{Tlv, read_tlv, cert_object_lem}
use ward3n.Ccid.{Reader}
use ward3n.Ccid.Reading.{
  Message, IsXfr, AreResponses, IsPowered, converse, read_all, converse_lem, read_all-collect,
}

-- GET DATA for the certificate of the key 9A, with its tag PIV_TAG_CERT_9A.
pub record AsksForCertificate (cmd : Cmd) : Type 0 where
  pub ins_lem : cmd.ins ≡ 0xCB
  pub p1_lem : cmd.p1 ≡ 0x3F
  pub p2_lem : cmd.p2 ≡ 0xFF
  pub has_lc_lem : cmd.has_lc ≡ true
  pub lc_le : 3 ≤ cmd.lc
  pub rest : List ℕ
  pub data_lem : cmd.data_bytes ≡ 0x5C ∷ 0x03 ∷ 0x5F ∷ 0xC1 ∷ 0x05 ∷ rest

-- The certificate in an object with tag 53, under tag 70.
abbrev pub contents_of : ℕ → Option Tlv → Option (List ℕ)
contents_of tag none = none
contents_of tag (some t) = if t.tag == tag then some t.contents else none

abbrev pub read_inner : Option (List ℕ) → Option Tlv
read_inner none = none
read_inner (some inner) = read_tlv inner

unfoldable pub certificate_of : List ℕ → Option (List ℕ)
certificate_of bytes = contents_of 0x70 (read_inner (contents_of 0x53 (read_tlv bytes)))

certificate_of_lem :
    (cert : List ℕ) → length cert ≤ 3994 → certificate_of (cert_object cert) ≡ some cert
unfolding certificate_of
certificate_of_lem cert small =
    let (outer, inner, _) = cert_object_lem cert small in
    ap (λ (t : Option Tlv). contents_of 0x70 (read_inner (contents_of 0x53 t))) outer
    ∙ ap (contents_of 0x70) inner

module _ (clock : Clock) (C : CryptoBackend) where
  open C use {Keys, get_cert_der}

  find-certificate :
      (keys : Keys) (rest : List ℕ)
      → let cert = get_cert_der keys key_ref_9a 3994 in
        1 ≤ length cert → find_object C keys 3 (0x5F ∷ 0xC1 ∷ 0x05 ∷ rest) ≡ some (cert_object cert)
  unfolding find_object bytes_eq
  find-certificate keys rest some_cert =
      let not_empty : (length (get_cert_der keys key_ref_9a 3994) == 0) ≡ false = ground arith in
      rw not_empty refl

  get_data-certificate :
      (keys : Keys) (cmd : Cmd) (p : Piv)
      → AsksForCertificate cmd
      → let cert = get_cert_der keys key_ref_9a 3994 in
        1 ≤ length cert → handle_get_data C keys cmd p ≡ send_object cmd p (cert_object cert)
  unfolding handle_get_data send_object
  get_data-certificate keys cmd p asks some_cert =
      let long : ltb cmd.lc 3 ≡ false = ground (arith, asks.lc_le) in
      rw
        (
          asks.p1_lem,
          asks.p2_lem,
          asks.has_lc_lem,
          long,
          asks.data_lem,
          find-certificate keys asks.rest some_cert,
        )
        refl

  route-get_data :
      (now : ℕ) (cmd : Cmd) (c : Card Keys)
      → cmd.ins ≡ 0xCB
      → c.piv.selected ≡ true
      → route clock C now cmd c ≡ on_piv (handle_get_data C c.keys cmd) c
  unfolding route
  route-get_data now cmd c ins open_applet = rw (ins, open_applet) refl

  selected-send_object :
      (cmd : Cmd) (p : Piv) (obj : List ℕ) → (send_object cmd p obj).0.selected ≡ p.selected
  unfolding send_object
  selected-send_object cmd p obj = ground arith

  -- In a powered reader with the applet selected and a valid chaining state, and with a certificate in
  -- the backend: a GET DATA for it, and GET RESPONSE commands that ask with it for at least as many
  -- bytes as its object has, and the GET DATA for fewer, each in an XfrBlock that lies inside its
  -- transfer. What the answers carry, put together, is an object from which the certificate is read
  -- back.
  pub read_certificate :
      (get : Message) (cmd : Cmd) (ms : List Message) (cmds : List Cmd) (c : Card Keys)
      (r : Reader Keys)
      → IsXfr get cmd
      → AsksForCertificate cmd
      → AreResponses ms cmds
      → IsPowered c r
      → (c.piv.selected ≡ true) × IsValid c.piv
      → let cert = get_cert_der c.keys key_ref_9a 3994 in
        1 ≤ length cert
        → wanted cmd < length (cert_object cert)
        → length (cert_object cert) ≤ wanted cmd + asked cmds
        → certificate_of (read_all clock C (get ∷ ms) r) ≡ some cert
  unfolding read_all
  read_certificate get cmd ms cmds c r x asks xs p (open_applet, v) some_cert chains enough =
      let cert : List ℕ = get_cert_der c.keys key_ref_9a 3994 in
      let obj : List ℕ = cert_object cert in
      let small : length cert ≤ 3994 = C.get_cert_der-le c.keys key_ref_9a 3994 in
      let (_, _, fits) = cert_object_lem cert small in
      let (p', a) = send_object cmd c.piv obj in
      let c' = record c { piv = p' } in
      let (body, ready) = converse_lem clock C get cmd c r x p in
      let routed =
        route-get_data get.at cmd c asks.ins_lem open_applet
        ∙ ap (λ (t : Piv × Answer). (record c { piv = t.0 }, t.1))
            (get_data-certificate c.keys cmd c.piv asks some_cert) in
      let powered : IsPowered c' (converse clock C get r).1 =
        subst (λ (t : Card Keys × Answer). IsPowered t.0 (converse clock C get r).1) routed ready in
      let still : c'.piv.selected ≡ true = selected-send_object cmd c.piv obj ∙ open_applet in
      let (_, _, whole) = transfer_whole cmd cmds c.piv obj v fits chains in
      let bytes : read_all clock C (get ∷ ms) r ≡ obj =
        ap₂ ◌++◌ (body ∙ ap (λ (t : Card Keys × Answer). flatten t.1.parts) routed)
          (read_all-collect clock C ms cmds c' (converse clock C get r).1 xs powered still)
        ∙ (whole enough).0 in
      ap certificate_of bytes ∙ certificate_of_lem cert small
