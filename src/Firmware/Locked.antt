-- ===== src/Firmware/Locked.antt =====
-- Runs of src/main.c in which nobody gives the PIN.
use ward3n.Base.{
  ℕ, ◌≡◌, ◌≢◌, refl, false, some, List, drop, take, write_at, get_or, arith, ◌==◌, Bool-cases,
  Option-cases, inl, inr,
}
use ward3n.Pico.{Clock}
use ward3n.Apdu.{Cmd, apdu_parse}
use ward3n.CryptoBackend.{CryptoBackend}
use ward3n.Piv.{Card, handle_get_data, find_object, handle_general_authenticate, route, answer_apdu}
use ward3n.Piv.Applet.{
  Piv, piv_init, bytes_eq, expected_pin, handle_select, handle_verify, send_object,
  handle_get_response,
}
use ward3n.Piv.Pin.{bytes_eq_sound}
use ward3n.Firmware.{Firmware, Action, run}
use ward3n.Firmware.Invariant.{AllCarry, Keeps, run-keeps}

-- The message is no VERIFY whose data begin with the padded PIN.
abbrev pub LacksPin : List ℕ → ℕ → Type 0
LacksPin raw n =
    (cmd : Cmd)
    → apdu_parse raw n ≡ some cmd
    → cmd.ins ≡ 0x20
    → take 8 cmd.data_bytes ≢ expected_pin

mismatch : (xs : List ℕ) → xs ≢ expected_pin → bytes_eq xs (take 8 expected_pin) ≡ false
unfolding write_at
mismatch xs ne = elim (Bool-cases (bytes_eq xs expected_pin)) [
  | inl same ↦ absurd (ne (bytes_eq_sound xs expected_pin same))
  | inr differ ↦ differ
]

verify-locked :
    (cmd : Cmd) (p : Piv)
    → take 8 cmd.data_bytes ≢ expected_pin
    → p.pin_verified ≡ false
    → (handle_verify cmd p).0.pin_verified ≡ false
unfolding handle_verify
verify-locked cmd p ne locked = ground (arith, mismatch (take 8 cmd.data_bytes) ne)

pub select-locked :
    (cmd : Cmd) (p : Piv) → p.pin_verified ≡ false → (handle_select cmd p).0.pin_verified ≡ false
unfolding handle_select
select-locked cmd p locked = ground arith

pub response-locked :
    (cmd : Cmd) (p : Piv)
    → p.pin_verified ≡ false
    → (handle_get_response cmd p).0.pin_verified ≡ false
unfolding handle_get_response
response-locked cmd p locked = ground arith

send_object-locked :
    (cmd : Cmd) (p : Piv) (obj : List ℕ)
    → p.pin_verified ≡ false
    → (send_object cmd p obj).0.pin_verified ≡ false
unfolding send_object
send_object-locked cmd p obj locked = ground arith

module _ (C : CryptoBackend) where
  open C use {Keys}

  pub get_data-locked :
      (keys : Keys) (cmd : Cmd) (p : Piv)
      → p.pin_verified ≡ false
      → (handle_get_data C keys cmd p).0.pin_verified ≡ false
  unfolding handle_get_data
  get_data-locked keys cmd p locked =
      elim (Option-cases (find_object C keys (get_or cmd.data_bytes 1 0) (drop 2 cmd.data_bytes))) [
        | inl e ↦ ground arith
        | inr (obj, e) ↦ ground (arith, send_object-locked cmd p obj locked)
      ]

module _ (clock : Clock) (C : CryptoBackend) where
  open C use {Keys}

  -- The PIN is not verified, and the backend is as it was.
  abbrev IsLocked : Keys → Card Keys → Type 0
  IsLocked keys c = (c.piv.pin_verified ≡ false) × (c.keys ≡ keys)

  pub authenticate-locked :
      (now : ℕ) (cmd : Cmd) (c : Card Keys)
      → c.piv.pin_verified ≡ false
      → (handle_general_authenticate clock C now cmd c).0 ≡ c
  unfolding handle_general_authenticate
  authenticate-locked now cmd c locked = ground arith

  route-IsLocked :
      (now : ℕ) (cmd : Cmd) (keys : Keys) (c : Card Keys)
      → (cmd.ins ≡ 0x20 → take 8 cmd.data_bytes ≢ expected_pin)
      → IsLocked keys c
      → IsLocked keys (route clock C now cmd c).0
  unfolding route
  route-IsLocked now cmd keys c lacks locked = elim (Bool-cases (cmd.ins == 0x20)) [
    | inl verify ↦ ground (arith, verify-locked cmd c.piv (lacks (ground arith)))
    | inr other ↦ ground (
      arith,
      select-locked cmd c.piv,
      get_data-locked C c.keys cmd c.piv,
      response-locked cmd c.piv,
      authenticate-locked now cmd c,
    )
  ]

  answer_apdu-IsLocked :
      (now : ℕ) (raw : List ℕ) (n : ℕ) (keys : Keys) (c : Card Keys)
      → LacksPin raw n
      → IsLocked keys c
      → IsLocked keys (answer_apdu clock C now raw n c).0
  unfolding answer_apdu
  answer_apdu-IsLocked now raw n keys c lacks locked = elim (Option-cases (apdu_parse raw n)) [
    | inl e ↦ ground arith
    | inr (cmd, e) ↦ ground (arith, route-IsLocked now cmd keys c (lacks cmd e) locked)
  ]

  IsLocked-Keeps : (keys : Keys) → Keeps clock C LacksPin (IsLocked keys)
  unfolding piv_init
  IsLocked-Keeps keys = record {
    keep_answer = λ now raw n c lacks locked. answer_apdu-IsLocked now raw n keys c lacks locked;
    keep_power_on = λ c locked. (refl, locked.1);
    keep_device = λ c d locked. locked;
  }

  -- From a state in which the PIN is not verified, in any run of the firmware, whatever is pressed and
  -- whatever messages, resets and power cycles come: if no XfrBlock of the run carries a VERIFY with
  -- the PIN, then the PIN stays unverified and the backend is never used to sign: its keys and its
  -- generator are at the end what they were at the start.
  pub no_pin_no_use :
      (actions : List Action) (f : Firmware Keys)
      → f.reader.card.piv.pin_verified ≡ false
      → AllCarry LacksPin actions
      → let end = (run clock C actions f).0.reader.card in
        (end.piv.pin_verified ≡ false) × (end.keys ≡ f.reader.card.keys)
  no_pin_no_use actions f locked lacks =
      run-keeps clock C (IsLocked-Keeps f.reader.card.keys) actions f lacks (locked, refl)
