-- ===== src/Piv/Uses.antt =====
-- Uses of the private key by src/piv.c against authorizations.
use ward3n.Base.{ℕ, suc, ◌+◌, ◌≤◌, List, arith, Option-cases, inl, inr}
use ward3n.Pico.{Clock}
use ward3n.DeviceState.{is_authorized, begin_processing, op_complete, consume_auth, request_auth}
use ward3n.Apdu.{Cmd, apdu_parse}
use ward3n.CryptoBackend.{CryptoBackend}
use ward3n.Piv.{
  Card, sign_and_answer, with_presence, handle_general_authenticate, route, answer_apdu,
}
use ward3n.Piv.Dat.{parse_dat}
use ward3n.Piv.Presence.{credit}

-- What is counted of a backend: any number that a call of `crypto_sign` raises by at most 1, such as
-- the number of those calls.
pub record Meter (C : CryptoBackend) : Type 0 where
  pub uses : CryptoBackend.Keys C → ℕ
  pub at_most_one :
      (k : CryptoBackend.Keys C) (key_ref alg : ℕ) (hash : List ℕ) (n : ℕ)
      → uses (CryptoBackend.sign C k key_ref alg hash n).1 ≤ suc (uses k)

module _ (clock : Clock) (C : CryptoBackend) (m : Meter C) where
  open C use {Keys}
  open m use {uses, at_most_one}

  -- The uses so far, and the one that the device's authorization stands for.
  abbrev pub balance : Card Keys → ℕ
  balance c = uses c.keys + credit c

  with_presence-balance :
      (now : ℕ) (cmd : Cmd) (hash : List ℕ) (c : Card Keys)
      → balance (with_presence clock C now cmd hash c).0 ≤ balance c
  unfolding with_presence sign_and_answer is_authorized consume_auth op_complete begin_processing
      request_auth
  with_presence-balance now cmd hash c = ground (arith, at_most_one c.keys cmd.p2 cmd.p1 hash 72)

  authenticate-balance :
      (now : ℕ) (cmd : Cmd) (c : Card Keys)
      → balance (handle_general_authenticate clock C now cmd c).0 ≤ balance c
  unfolding handle_general_authenticate
  authenticate-balance now cmd c = elim (Option-cases (parse_dat cmd.data_bytes cmd.lc)) [
    | inl e ↦ ground arith
    | inr (hash, e) ↦ ground (arith, with_presence-balance now cmd hash c)
  ]

  route-balance :
      (now : ℕ) (cmd : Cmd) (c : Card Keys) → balance (route clock C now cmd c).0 ≤ balance c
  unfolding route
  route-balance now cmd c = ground (arith, authenticate-balance now cmd c)

  -- No message to the applet raises the uses of the key and the authorization taken together.
  pub answer_apdu-balance :
      (now : ℕ) (raw : List ℕ) (n : ℕ) (c : Card Keys)
      → balance (answer_apdu clock C now raw n c).0 ≤ balance c
  unfolding answer_apdu
  answer_apdu-balance now raw n c = elim (Option-cases (apdu_parse raw n)) [
    | inl e ↦ ground arith
    | inr (cmd, e) ↦ ground (arith, route-balance now cmd c)
  ]
