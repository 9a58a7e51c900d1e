-- ===== src/Firmware/Guards.antt =====
-- What one message of the host can change of the PIN's flag and of the authorization, against what can be
-- seen of it from outside: src/ccid.c and src/piv.c.
use ward3n.Base.{
  ℕ, ◌+◌, ◌≤◌, ◌≡◌, Bool, true, false, not, ◌&&◌, ◌||◌, Option, none, some, List, drop, get_or, ltb,
  leb, ◌==◌, if◌then◌else◌, arith, ==_iff, if_both, Option-cases, Bool-cases, inl, inr,
}
use ward3n.Pico.{Clock}
use ward3n.DeviceState.{is_authorized}
use ward3n.Apdu.{u32, Cmd, Answer, apdu_parse}
use ward3n.Apdu.Status.{sw_ok}
use ward3n.CryptoBackend.{CryptoBackend}
use ward3n.Piv.{Card, route, answer_apdu, piv_process_apdu}
use ward3n.Piv.Applet.{Piv, piv_init, handle_verify}
use ward3n.Piv.Presence.{signature_sent, signature_needs, answer_apdu-credit, bit}
use ward3n.Ccid.{Reader, respond, handle_xfr_block, exchange, process_message, xfer_cb}
use ward3n.Ccid.Responses.{Response}
use ward3n.Ccid.Header.{read_u32}
use ward3n.Firmware.Locked.{select-locked, response-locked, get_data-locked, authenticate-locked}

-- One action from outside: a signature leaves, a VERIFY is answered by 9000, the card is powered on, a
-- press is confirmed.
pub record Seen : Type 0 where
  pub signed : Bool
  pub verified : Bool
  pub powered : Bool
  pub pressed : Bool

abbrev pub nothing : Seen
nothing = record { signed = false; verified = false; powered = false; pressed = false }

abbrev pub is_verify : Option Cmd → Bool
is_verify none = false
is_verify (some cmd) = cmd.ins == 0x20

abbrev pub verify_accepted : List ℕ → ℕ → Answer → Bool
verify_accepted raw n a = is_verify (apdu_parse raw n) && a.sw == sw_ok

-- What one step must keep of the PIN's flag and of the authorization.
abbrev pub Guards : {Keys : Type 0} → Seen → Card Keys → Card Keys → Type 0
Guards s c c' =
    (s.signed ≡ true → (c.piv.pin_verified ≡ true) × (is_authorized c.dev ≡ true))
    × (c'.piv.pin_verified ≡ true → (((c.piv.pin_verified && not s.powered) || s.verified) ≡ true))
    × (is_authorized c'.dev ≡ true → (((is_authorized c.dev && not s.signed) || s.pressed) ≡ true))

verify-unaccepted :
    (cmd : Cmd) (p : Piv)
    → ((handle_verify cmd p).1.sw == sw_ok) ≡ false
    → p.pin_verified ≡ false
    → (handle_verify cmd p).0.pin_verified ≡ false
unfolding handle_verify
verify-unaccepted cmd p refused locked = ground arith

guards_lem :
    (signed verified selected pin pin' auth auth' : Bool)
    → (signed ≡ true → (selected ≡ true) × (pin ≡ true) × (auth ≡ true) × (auth' ≡ false))
    → (verified ≡ false → pin ≡ false → pin' ≡ false)
    → bit signed + bit auth' ≤ bit auth
    → (signed ≡ true → (pin ≡ true) × (auth ≡ true))
      × (pin' ≡ true → (pin && true || verified) ≡ true)
      × (auth' ≡ true → (auth && not signed || false) ≡ true)
guards_lem signed verified selected pin pin' auth auth' needs unverified credit =
    (λ e. ground arith, λ e. ground arith, λ e. ground arith)

module _ (clock : Clock) (C : CryptoBackend) where
  open C use {Keys}

  -- An APDU that reaches the applet, and a message that reaches the reader.
  abbrev pub see_apdu : ℕ → List ℕ → ℕ → Card Keys → Seen
  see_apdu now raw n c =
      let a = (answer_apdu clock C now raw n c).1 in
      record nothing { signed = signature_sent raw n a; verified = verify_accepted raw n a }

  abbrev pub see_message : ℕ → Bool → List ℕ → ℕ → Card Keys → Seen
  see_message now on msg n c =
      let len : ℕ = read_u32 msg 1 in
      if get_or msg 0 0 == 0x62
      then record nothing { powered = true }
      else (if get_or msg 0 0 == 0x6F && on && not (len == 0 || ltb n (u32 (10 + len)))
          then see_apdu now (drop 10 msg) len c
          else nothing)

  route-unverified :
      (now : ℕ) (cmd : Cmd) (c : Card Keys)
      → let (c', a) = route clock C now cmd c in
        (cmd.ins == 0x20 && a.sw == sw_ok) ≡ false
        → c.piv.pin_verified ≡ false
        → c'.piv.pin_verified ≡ false
  unfolding route
  route-unverified now cmd c none_accepted locked = ground (
    arith,
    verify-unaccepted cmd c.piv,
    select-locked cmd c.piv,
    get_data-locked C c.keys cmd c.piv,
    response-locked cmd c.piv,
    authenticate-locked clock C now cmd c,
  )

  answer_apdu-unverified :
      (now : ℕ) (raw : List ℕ) (n : ℕ) (c : Card Keys)
      → let (c', a) = answer_apdu clock C now raw n c in
        verify_accepted raw n a ≡ false → c.piv.pin_verified ≡ false → c'.piv.pin_verified ≡ false
  unfolding answer_apdu
  answer_apdu-unverified now raw n c none_accepted locked = elim (Option-cases (apdu_parse raw n)) [
    | inl e ↦ ground arith
    | inr (cmd, e) ↦ ground (arith, route-unverified now cmd c)
  ]

  answer_apdu-Guards :
      (now : ℕ) (raw : List ℕ) (n : ℕ) (c : Card Keys)
      → Guards (see_apdu now raw n c) c (answer_apdu clock C now raw n c).0
  answer_apdu-Guards now raw n c =
      let (c', a) = answer_apdu clock C now raw n c in
      guards_lem (signature_sent raw n a) (verify_accepted raw n a) c.piv.selected
        c.piv.pin_verified c'.piv.pin_verified (is_authorized c.dev) (is_authorized c'.dev)
        (signature_needs clock C now raw n c) (answer_apdu-unverified now raw n c)
        (answer_apdu-credit clock C now raw n c)

  pub nothing-Guards : (c : Card Keys) → Guards nothing c c
  nothing-Guards c = (λ e. ground arith, λ e. ground arith, λ e. ground arith)

  exchange-Guards :
      (now : ℕ) (msg : List ℕ) (len : ℕ) (tx : List ℕ) (c : Card Keys)
      → Guards (see_apdu now (drop 10 msg) len c) c (exchange clock C now msg len tx c).0
  unfolding exchange piv_process_apdu
  exchange-Guards now msg len tx c = answer_apdu-Guards now (drop 10 msg) len c

  xfr_block-Guards :
      (now : ℕ) (on : Bool) (msg : List ℕ) (n : ℕ) (tx : List ℕ) (c : Card Keys)
      → let len = read_u32 msg 1 in
        Guards
          (if on && not (len == 0 || ltb n (u32 (10 + len)))
            then see_apdu now (drop 10 msg) len c
            else nothing)
          c
          (handle_xfr_block clock C now on msg n tx c).0
  unfolding handle_xfr_block
  xfr_block-Guards now false msg n tx c = nothing-Guards c
  xfr_block-Guards now true msg n tx c =
      let len : ℕ = read_u32 msg 1 in
      elim (Bool-cases (len == 0 || ltb n (u32 (10 + len)))) [
        | inl refused ↦ rw refused (nothing-Guards c)
        | inr accepted ↦ rw accepted (exchange-Guards now msg len tx c)
      ]

  respond-Guards :
      (now : ℕ) (on : Bool) (msg : List ℕ) (n : ℕ) (tx : List ℕ) (c : Card Keys)
      → Guards (see_message now on msg n c) c (respond clock C now on msg n tx c).1
  unfolding respond piv_init
  respond-Guards now on msg n tx c =
      let kind : ℕ = get_or msg 0 0 in
      let Q : Bool × Card Keys × Response → Type 0 = λ t. Guards nothing c t.1 in
      let same : Guards nothing c c = nothing-Guards c in
      elim (Bool-cases (kind == 0x62)) [
        | inl power_on ↦ rw power_on (λ e. ground arith, λ e. ground arith, λ e. ground arith)
        | inr others ↦ elim (Bool-cases (kind == 0x6F)) [
          | inl xfr ↦
              let kind_lem : kind ≡ 0x6F = (==_iff kind 0x6F).0 xfr in
              rw kind_lem (xfr_block-Guards now on msg n tx c)
          | inr rest ↦
              rw (others, rest)
                (if_both Q (kind == 0x63) same (
                  if_both Q (kind == 0x65) same (
                    if_both Q (kind == 0x72) same
                      (if_both Q (kind == 0x61) same (if_both Q (kind == 0x73) same same)))))
        ]
      ]

  pub xfer_cb-Guards :
      (now ep n : ℕ) (r : Reader Keys)
      → Guards
          (if ep == r.ccid.ep_out && leb 10 n
            then see_message now r.ccid.icc_powered r.ccid.rx_buf n r.card
            else nothing)
          r.card
          (xfer_cb clock C now ep n r).card
  unfolding xfer_cb process_message
  xfer_cb-Guards now ep n r =
      let reply = respond-Guards now r.ccid.icc_powered r.ccid.rx_buf n r.ccid.tx_buf r.card in
      elim (Bool-cases (ep == r.ccid.ep_out)) [
        | inl ours ↦ elim (Bool-cases (leb 10 n)) [
          | inl long ↦
              let not_short : ltb n 10 ≡ false = ground arith in rw (ours, long, not_short) reply
          | inr short ↦ rw (ours, short) (nothing-Guards r.card)
        ]
        | inr other ↦ rw other (nothing-Guards r.card)
      ]
