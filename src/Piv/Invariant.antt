-- ===== src/Piv/Invariant.antt =====
-- What holds of `_piv` between the commands of src/piv.c.
use ward3n.Base.{
  ℕ, ◌≤◌, ◌≡◌, some, List, length, drop, get_or, length-replicate, arith, Option-cases, inl, inr,
}
use ward3n.Pico.{Clock}
use ward3n.Apdu.{Cmd, apdu_parse}
use ward3n.CryptoBackend.{CryptoBackend, key_ref_9a}
use ward3n.Piv.{
  Card, handle_get_data, find_object, with_presence, sign_and_answer, handle_general_authenticate,
  route, answer_apdu,
}
use ward3n.Piv.Applet.{Piv, piv_init, handle_select, handle_verify}
use ward3n.Piv.Dat.{parse_dat}
use ward3n.Piv.Objects.{ccc_data, chuid_data, disc}
use ward3n.Piv.Chain.{IsValid}
use ward3n.Piv.Transfer.{send_object_lem, response-moves}
use ward3n.Piv.Tlv.{cert_object_lem}

-- The state after `piv_init` is valid.
pub piv_init-IsValid : IsValid piv_init
unfolding piv_init
piv_init-IsValid = record {
  buffer = length-replicate {A = ℕ} 4096 0;
  inside = omega arith;
  sent = omega arith;
}

select-IsValid : (cmd : Cmd) (p : Piv) → IsValid p → IsValid (handle_select cmd p).0
unfolding handle_select
select-IsValid cmd p v = ground arith

verify-IsValid : (cmd : Cmd) (p : Piv) → IsValid p → IsValid (handle_verify cmd p).0
unfolding handle_verify
verify-IsValid cmd p v = ground arith

module _ (C : CryptoBackend) where
  open C use {Keys, get_cert_der, get_cert_der-le}

  -- Every object that GET DATA finds fits the chaining buffer.
  pub find_object-le :
      (keys : Keys) (n : ℕ) (tag : List ℕ) (obj : List ℕ)
      → find_object C keys n tag ≡ some obj
      → length obj ≤ 4096
  unfolding find_object ccc_data chuid_data disc
  find_object-le keys n tag obj e =
      let cert : List ℕ = get_cert_der keys key_ref_9a 3994 in
      ground (arith, cert_object_lem cert (get_cert_der-le keys key_ref_9a 3994))

  get_data-IsValid :
      (keys : Keys) (cmd : Cmd) (p : Piv) → IsValid p → IsValid (handle_get_data C keys cmd p).0
  unfolding handle_get_data
  get_data-IsValid keys cmd p v =
      elim (Option-cases (find_object C keys (get_or cmd.data_bytes 1 0) (drop 2 cmd.data_bytes))) [
        | inl e ↦ ground arith
        | inr (obj, e) ↦ ground (arith, send_object_lem cmd p obj v (find_object-le keys _ _ obj e))
      ]

  sign_and_answer-piv :
      (cmd : Cmd) (hash : List ℕ) (c : Card Keys) → (sign_and_answer C cmd hash c).0.piv ≡ c.piv
  unfolding sign_and_answer
  sign_and_answer-piv cmd hash c = ground arith

module _ (clock : Clock) (C : CryptoBackend) where
  open C use {Keys}

  pub authenticate-piv :
      (now : ℕ) (cmd : Cmd) (c : Card Keys)
      → (handle_general_authenticate clock C now cmd c).0.piv ≡ c.piv
  unfolding handle_general_authenticate with_presence sign_and_answer
  authenticate-piv now cmd c = elim (Option-cases (parse_dat cmd.data_bytes cmd.lc)) [
    | inl e ↦ ground arith
    | inr (hash, e) ↦ ground arith
  ]

  route-IsValid :
      (now : ℕ) (cmd : Cmd) (c : Card Keys)
      → IsValid c.piv
      → IsValid (route clock C now cmd c).0.piv
  unfolding route
  route-IsValid now cmd c v = ground (
    arith,
    select-IsValid cmd c.piv v,
    verify-IsValid cmd c.piv v,
    get_data-IsValid C c.keys cmd c.piv v,
    (response-moves cmd c.piv v).2,
    authenticate-piv now cmd c,
  )

  -- Every message, malformed ones included, keeps the chaining state in its buffer: 4096 bytes, of
  -- which `chain_len` are in use and `chain_offset` sent.
  pub answer_apdu-IsValid :
      (now : ℕ) (raw : List ℕ) (n : ℕ) (c : Card Keys)
      → IsValid c.piv
      → IsValid (answer_apdu clock C now raw n c).0.piv
  unfolding answer_apdu
  answer_apdu-IsValid now raw n c v = elim (Option-cases (apdu_parse raw n)) [
    | inl e ↦ ground arith
    | inr (cmd, e) ↦ ground (arith, route-IsValid now cmd c v)
  ]
