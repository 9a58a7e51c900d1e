-- ===== src/Piv/Verified.antt =====
-- The PIN flag of src/piv.c over the answer to a whole message, against the bytes that the message
-- carries.
use ward3n.Base.{
  ℕ, ◌≡◌, ◌↔◌, Bool, true, false, ◌&&◌, Option, none, some, List, take, drop, get_or, ◌==◌,
  if◌then◌else◌, refl, ap, arith, Bool-cases, Option-cases, inl, inr,
}
use ward3n.Pico.{Clock}
use ward3n.Apdu.{Cmd, apdu_parse}
use ward3n.CryptoBackend.{CryptoBackend}
use ward3n.Piv.{Card, find_object, handle_get_data, route, answer_apdu}
use ward3n.Piv.Applet.{Piv, handle_select, handle_verify, handle_get_response, send_object}
use ward3n.Piv.Pin.{padded_pin, memcmp_eq_iff}
use ward3n.Piv.Invariant.{authenticate-piv}

-- A VERIFY of the application's PIN with 8 bytes.
abbrev is_verify : Cmd → Bool
is_verify cmd =
    cmd.cla == 0x00
    && cmd.ins == 0x20
    && cmd.p1 == 0x00
    && cmd.p2 == 0x80
    && cmd.has_lc
    && cmd.lc == 8

-- The bytes that a message offers as the PIN.
abbrev pub offered : Option Cmd → Option (List ℕ)
offered none = none
offered (some cmd) = if is_verify cmd then some (take 8 cmd.data_bytes) else none

select-pin : (cmd : Cmd) (p : Piv) → (handle_select cmd p).0.pin_verified ≡ p.pin_verified
unfolding handle_select
select-pin cmd p = ground arith

response-pin : (cmd : Cmd) (p : Piv) → (handle_get_response cmd p).0.pin_verified ≡ p.pin_verified
unfolding handle_get_response
response-pin cmd p = ground arith

-- VERIFY changes the flag only for 8 bytes of data.
verify-pin :
    (cmd : Cmd) (p : Piv)
    → (cmd.p1 == 0x00 && cmd.p2 == 0x80 && cmd.has_lc && cmd.lc == 8) ≡ false
    → (handle_verify cmd p).0.pin_verified ≡ p.pin_verified
unfolding handle_verify
verify-pin cmd p other = ground arith

module _ (C : CryptoBackend) where
  open C use {Keys}

  get_data-pin :
      (keys : Keys) (cmd : Cmd) (p : Piv)
      → (handle_get_data C keys cmd p).0.pin_verified ≡ p.pin_verified
  unfolding handle_get_data send_object
  get_data-pin keys cmd p =
      elim (Option-cases (find_object C keys (get_or cmd.data_bytes 1 0) (drop 2 cmd.data_bytes))) [
        | inl e ↦ ground arith
        | inr (obj, e) ↦ ground arith
      ]

module _ (clock : Clock) (C : CryptoBackend) where
  open C use {Keys}

  route-pin :
      (now : ℕ) (cmd : Cmd) (c : Card Keys)
      → cmd.cla ≡ 0x00
      → (is_verify cmd && c.piv.selected) ≡ false
      → (route clock C now cmd c).0.piv.pin_verified ≡ c.piv.pin_verified
  unfolding route
  route-pin now cmd c plain other = ground (
    arith,
    select-pin cmd c.piv,
    response-pin cmd c.piv,
    verify-pin cmd c.piv,
    get_data-pin C c.keys cmd c.piv,
    ap (λ p. p.pin_verified) (authenticate-piv clock C now cmd c),
  )

  route-verify :
      (now : ℕ) (cmd : Cmd) (c : Card Keys)
      → is_verify cmd ≡ true
      → c.piv.selected ≡ true
      → let (c', a) = route clock C now cmd c in
        ((c'.piv.pin_verified ≡ true) ↔ (take 8 cmd.data_bytes ≡ padded_pin))
        × ((a.sw ≡ 0x9000) ↔ (take 8 cmd.data_bytes ≡ padded_pin))
  unfolding route handle_verify
  route-verify now cmd c verify selected =
      let matches = memcmp_eq_iff cmd.data_bytes in
      (
        (ground (arith, matches), ground (arith, matches)),
        (ground (arith, matches), ground (arith, matches)),
      )

  -- A message offers a PIN if it is a VERIFY, 00 20 00 80, with eight bytes of data: these. One
  -- that offers none, or that comes before a SELECT, leaves the PIN flag as it was. One that offers
  -- a PIN after a SELECT leaves the flag set, and is answered by 9000, exactly when the PIN is the
  -- bytes 31 32 33 34 35 36 FF FF.
  pub answer_apdu-pin :
      (now : ℕ) (raw : List ℕ) (n : ℕ) (c : Card Keys)
      → let (c', a) = answer_apdu clock C now raw n c in
        (offered (apdu_parse raw n) ≡ none → c'.piv.pin_verified ≡ c.piv.pin_verified)
        × (c.piv.selected ≡ false → c'.piv.pin_verified ≡ c.piv.pin_verified)
        × ((pin : List ℕ)
            → offered (apdu_parse raw n) ≡ some pin
            → c.piv.selected ≡ true
            → ((c'.piv.pin_verified ≡ true) ↔ (pin ≡ padded_pin))
              × ((a.sw ≡ 0x9000) ↔ (pin ≡ padded_pin)))
  unfolding answer_apdu
  answer_apdu-pin now raw n c = elim (Option-cases (apdu_parse raw n)) [
    | inl e ↦ rw (answer_apdu, e) (λ h. refl, λ h. refl, λ pin h s. absurd (ground arith))
    | inr (cmd, e) ↦ elim (Bool-cases (cmd.cla == 0x00)) [
      | inr other ↦
          rw (answer_apdu, e, other) (λ h. refl, λ h. refl, λ pin h s. absurd (ground arith))
      | inl plain ↦
          let kept = route-pin now cmd c (ground arith) in
          rw (answer_apdu, e, plain)
            (
              λ h. kept (ground arith),
              λ h. kept (ground arith),
              λ pin h selected. elim (Bool-cases (is_verify cmd)) [
                | inl verify ↦
                    let same : pin ≡ take 8 cmd.data_bytes = ground arith in
                    rw same (route-verify now cmd c verify selected)
                | inr other ↦ absurd (ground arith)
              ],
            )
    ]
  ]
