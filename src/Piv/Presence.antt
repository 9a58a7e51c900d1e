-- ===== src/Piv/Presence.antt =====
-- The conditions of a signature by src/piv.c: the PIN and the authorization.
use ward3n.Base.{
  ℕ, ◌+◌, ◌≤◌, ◌≡◌, Bool, true, false, ◌&&◌, Option, none, some, List, ◌∷◌, append-nil, flatten,
  length, arith, ◌==◌, Bool-cases, Option-cases, inl, inr, if◌then◌else◌,
}
use ward3n.Pico.{Clock}
use ward3n.DeviceState.{
  Device, idle, request_auth, begin_processing, op_complete, is_authorized, consume_auth,
}
use ward3n.Apdu.{Cmd, apdu_parse, Answer, status}
use ward3n.Apdu.Status.{sw_ok, sw_unknown, sw_conditions_not_satisfied}
use ward3n.CryptoBackend.{CryptoBackend, key_ref_9a, alg_ecdsa_p256}
use ward3n.Piv.{
  Card, sign_and_answer, with_presence, handle_general_authenticate, route, answer_apdu,
}
use ward3n.Piv.Dat.{parse_dat}

abbrev pub is_ga : Option Cmd → Bool
is_ga none = false
is_ga (some cmd) = cmd.ins == 0x87

-- 1 for a yes, 0 for a no.
abbrev pub bit : Bool → ℕ
bit true = 1
bit false = 0

-- A GENERAL AUTHENTICATE that is answered by 9000: a signature has left the card.
abbrev pub signature_sent : List ℕ → ℕ → Answer → Bool
signature_sent raw n a = is_ga (apdu_parse raw n) && a.sw == sw_ok

-- The authorization that the device holds.
abbrev pub credit : {Keys : Type 0} → Card Keys → ℕ
credit c = bit (is_authorized c.dev)

pub request_auth-credit :
    (clock : Clock) (now : ℕ) (d : Device)
    → is_authorized d ≡ false
    → is_authorized (request_auth clock now d) ≡ false
unfolding request_auth is_authorized
request_auth-credit clock now d h = ground arith

op_complete-credit : (d : Device) → is_authorized (op_complete d) ≡ false
unfolding op_complete is_authorized
op_complete-credit d = ground arith

module _ (clock : Clock) (C : CryptoBackend) where
  open C use {Keys, sign}

  -- The check of the user's presence, in full: without an authorization the request is made and
  -- 6985 is answered; with one, it is used up and the hash is signed.
  pub with_presence_lem :
      (now : ℕ) (cmd : Cmd) (hash : List ℕ) (c : Card Keys)
      → (is_authorized c.dev ≡ false
          → with_presence clock C now cmd hash c
            ≡ (record c { dev = request_auth clock now c.dev }, status sw_conditions_not_satisfied))
        × (is_authorized c.dev ≡ true
            → let sig = (sign c.keys cmd.p2 cmd.p1 hash 72).0 in
              let (c', a) = with_presence clock C now cmd hash c in
              (c'.dev.state ≡ idle)
              × (c'.piv ≡ c.piv)
              × (a.sw ≡ (if length sig == 0 then sw_unknown else sw_ok)))
  unfolding with_presence sign_and_answer consume_auth is_authorized op_complete begin_processing
  with_presence_lem now cmd hash c = (λ h. ground arith, λ h. ground arith)

  authenticate-credit :
      (now : ℕ) (cmd : Cmd) (c : Card Keys)
      → let (c', a) = handle_general_authenticate clock C now cmd c in
        bit (a.sw == sw_ok) + credit c' ≤ credit c
  unfolding handle_general_authenticate is_authorized
  authenticate-credit now cmd c = elim (Option-cases (parse_dat cmd.data_bytes cmd.lc)) [
    | inl e ↦ ground arith
    | inr (hash, e) ↦ elim (Bool-cases (is_authorized c.dev)) [
      | inl yes_auth ↦ ground (arith, (with_presence_lem now cmd hash c).1 yes_auth)
      | inr no_auth ↦ ground (
        arith,
        (with_presence_lem now cmd hash c).0 no_auth,
        request_auth-credit clock now c.dev no_auth,
      )
    ]
  ]

  -- Every other command leaves the device's state alone.
  route-dev :
      (now : ℕ) (cmd : Cmd) (c : Card Keys)
      → (cmd.ins == 0x87) ≡ false
      → (route clock C now cmd c).0.dev ≡ c.dev
  unfolding route
  route-dev now cmd c h = ground arith

  route-credit :
      (now : ℕ) (cmd : Cmd) (c : Card Keys)
      → let (c', a) = route clock C now cmd c in
        bit (cmd.ins == 0x87 && a.sw == sw_ok) + credit c' ≤ credit c
  unfolding route
  route-credit now cmd c = ground (arith, authenticate-credit now cmd c)

  -- One message: a signature that is sent uses up the authorization, and nothing makes one.
  pub answer_apdu-credit :
      (now : ℕ) (raw : List ℕ) (n : ℕ) (c : Card Keys)
      → let (c', a) = answer_apdu clock C now raw n c in
        bit (signature_sent raw n a) + credit c' ≤ credit c
  unfolding answer_apdu
  answer_apdu-credit now raw n c = elim (Option-cases (apdu_parse raw n)) [
    | inl e ↦ ground arith
    | inr (cmd, e) ↦ ground (arith, route-credit now cmd c)
  ]

  authenticate-needs :
      (now : ℕ) (cmd : Cmd) (c : Card Keys)
      → (handle_general_authenticate clock C now cmd c).1.sw ≡ sw_ok
      → (cmd.p1 ≡ alg_ecdsa_p256)
        × (cmd.p2 ≡ key_ref_9a)
        × (c.piv.pin_verified ≡ true)
        × (is_authorized c.dev ≡ true)
  unfolding handle_general_authenticate
  authenticate-needs now cmd c h = elim (Option-cases (parse_dat cmd.data_bytes cmd.lc)) [
    | inl e ↦ ground arith
    | inr (hash, e) ↦ elim (Bool-cases (is_authorized c.dev)) [
      | inl yes_auth ↦ ground arith
      | inr no_auth ↦ ground (arith, (with_presence_lem now cmd hash c).0 no_auth)
    ]
  ]

  -- A command that is parsed, with the class 00, is routed.
  pub answer_apdu-route :
      (now : ℕ) (raw : List ℕ) (n : ℕ) (cmd : Cmd) (c : Card Keys)
      → apdu_parse raw n ≡ some cmd
      → cmd.cla ≡ 0x00
      → answer_apdu clock C now raw n c ≡ route clock C now cmd c
  unfolding answer_apdu
  answer_apdu-route now raw n cmd c parsed cla_lem = ground (arith, parsed, cla_lem)

  -- A signature leaves the card only with the applet selected, the PIN verified and the device
  -- authorized, and the device is not authorized any more afterwards.
  pub signature_needs :
      (now : ℕ) (raw : List ℕ) (n : ℕ) (c : Card Keys)
      → let (c', a) = answer_apdu clock C now raw n c in
        signature_sent raw n a ≡ true
        → (c.piv.selected ≡ true)
          × (c.piv.pin_verified ≡ true)
          × (is_authorized c.dev ≡ true)
          × (is_authorized c'.dev ≡ false)
  unfolding answer_apdu route
  signature_needs now raw n c h = elim (Option-cases (apdu_parse raw n)) [
    | inl e ↦ ground arith
    | inr (cmd, e) ↦ ground (arith, authenticate-needs now cmd c, authenticate-credit now cmd c)
  ]

  -- A GENERAL AUTHENTICATE for P-256 and the key 9A whose template holds a hash that the backend makes
  -- a signature of, with the applet selected, the PIN verified and the device
  -- authorized, is signed: the answer is 7C [n + 2] 82 [n] and the n bytes of the backend's
  -- signature of the hash, with 9000, and the device is idle again.
  pub signature_given :
      (now : ℕ) (cmd : Cmd) (hash : List ℕ) (c : Card Keys)
      → (cmd.ins ≡ 0x87) × (cmd.p1 ≡ alg_ecdsa_p256) × (cmd.p2 ≡ key_ref_9a)
      → (cmd.has_lc ≡ true) × (4 ≤ cmd.lc)
      → parse_dat cmd.data_bytes cmd.lc ≡ some hash
      → (c.piv.selected ≡ true) × (c.piv.pin_verified ≡ true)
      → is_authorized c.dev ≡ true
      → let sig = (sign c.keys key_ref_9a alg_ecdsa_p256 hash 72).0 in
        1 ≤ length sig
        → let (c', a) = route clock C now cmd c in
          (a.sw ≡ sw_ok)
          × (flatten a.parts ≡ 0x7C ∷ (length sig + 2) ∷ 0x82 ∷ length sig ∷ sig)
          × (c'.dev.state ≡ idle)
          × (c'.piv ≡ c.piv)
  unfolding route handle_general_authenticate with_presence sign_and_answer consume_auth
      is_authorized op_complete begin_processing
  signature_given now cmd hash c key body dat st auth some_sig =
      let sig : List ℕ = (sign c.keys key_ref_9a alg_ecdsa_p256 hash 72).0 in
      let small = C.sign-le c.keys key_ref_9a alg_ecdsa_p256 hash 72 in
      ground (arith, append-nil sig)
