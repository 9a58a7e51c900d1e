-- ===== src/Piv/Fits.antt =====
-- The size of the answers of src/piv.c against the transport's buffer.
use ward3n.Base.{
  ℕ, get_or, ◌+◌, ◌^◌, ◌≤◌, ◌<◌, ◌≡◌, refl, List, [], ◌∷◌, ◌++◌, append-nil, length, take, drop,
  flatten, length-take, IsBytes, arith, Option-cases, inl, inr,
}
use ward3n.Pico.{Clock}
use ward3n.DeviceState.{begin_processing, consume_auth}
use ward3n.Apdu.{Cmd, apdu_parse, Answer, sent, sw_bytes}
use ward3n.Apdu.Parse.{FromMessage, parse-FromMessage}
use ward3n.Apdu.Builder.{emit-sent}
use ward3n.CryptoBackend.{CryptoBackend}
use ward3n.Piv.{
  Card, handle_get_data, find_object, sign_and_answer, with_presence, handle_general_authenticate,
  route, answer_apdu, piv_process_apdu,
}
use ward3n.Piv.Applet.{
  Piv, handle_select, handle_verify, handle_get_response, send_object, send_now, wanted,
}
use ward3n.Piv.Dat.{parse_dat}
use ward3n.Piv.Objects.{fci}

-- The answer's body is no longer than a short response can be.
abbrev pub IsShortAnswer : Answer → Type 0
IsShortAnswer a = length (flatten a.parts) ≤ 256

wanted-le : {raw : List ℕ} {n : ℕ} {cmd : Cmd} → FromMessage raw n cmd → wanted cmd ≤ 256
wanted-le m = ground arith

-- One part.
one_part : (p : List ℕ) → length (flatten (p ∷ [])) ≡ length p
one_part p = rw append-nil refl

send_object-IsShortAnswer :
    (cmd : Cmd) (p : Piv) (obj : List ℕ)
    → wanted cmd ≤ 256
    → IsShortAnswer (send_object cmd p obj).1
unfolding send_object
send_object-IsShortAnswer cmd p obj h =
    ground (arith, one_part obj, one_part (take (wanted cmd) obj), length-take (wanted cmd) obj)

send_now-le : (cmd : Cmd) (p : Piv) → send_now cmd p ≤ wanted cmd
unfolding send_now
send_now-le cmd p = ground arith

get_response-IsShortAnswer :
    (cmd : Cmd) (p : Piv) → wanted cmd ≤ 256 → IsShortAnswer (handle_get_response cmd p).1
unfolding handle_get_response
get_response-IsShortAnswer cmd p h =
    let part : List ℕ = take (send_now cmd p) (drop p.chain_offset p.chain_buf) in
    ground (
      arith,
      one_part part,
      length-take (send_now cmd p) (drop p.chain_offset p.chain_buf),
      send_now-le cmd p,
    )

select-IsShortAnswer : (cmd : Cmd) (p : Piv) → IsShortAnswer (handle_select cmd p).1
unfolding handle_select fci
select-IsShortAnswer cmd p = ground arith

verify-IsShortAnswer : (cmd : Cmd) (p : Piv) → IsShortAnswer (handle_verify cmd p).1
unfolding handle_verify
verify-IsShortAnswer cmd p = ground arith

module _ (C : CryptoBackend) where
  open C use {Keys}

  get_data-IsShortAnswer :
      (keys : Keys) (cmd : Cmd) (p : Piv)
      → wanted cmd ≤ 256
      → IsShortAnswer (handle_get_data C keys cmd p).1
  unfolding handle_get_data
  get_data-IsShortAnswer keys cmd p h =
      elim (Option-cases (find_object C keys (get_or cmd.data_bytes 1 0) (drop 2 cmd.data_bytes))) [
        | inl e ↦ ground arith
        | inr (obj, e) ↦ ground (arith, send_object-IsShortAnswer cmd p obj h)
      ]

  sign_and_answer-IsShortAnswer :
      (cmd : Cmd) (hash : List ℕ) (c : Card Keys) → IsShortAnswer (sign_and_answer C cmd hash c).1
  unfolding sign_and_answer
  sign_and_answer-IsShortAnswer cmd hash c =
      let sig : List ℕ = (C.sign c.keys cmd.p2 cmd.p1 hash 72).0 in
      ground (arith, one_part sig, C.sign-le c.keys cmd.p2 cmd.p1 hash 72)

module _ (clock : Clock) (C : CryptoBackend) where
  open C use {Keys}

  with_presence-IsShortAnswer :
      (now : ℕ) (cmd : Cmd) (hash : List ℕ) (c : Card Keys)
      → IsShortAnswer (with_presence clock C now cmd hash c).1
  unfolding with_presence
  with_presence-IsShortAnswer now cmd hash c = ground (
    arith,
    sign_and_answer-IsShortAnswer C cmd hash
        (record c { dev = begin_processing (consume_auth c.dev).0 }),
  )

  authenticate-IsShortAnswer :
      (now : ℕ) (cmd : Cmd) (c : Card Keys)
      → IsShortAnswer (handle_general_authenticate clock C now cmd c).1
  unfolding handle_general_authenticate
  authenticate-IsShortAnswer now cmd c = elim (Option-cases (parse_dat cmd.data_bytes cmd.lc)) [
    | inl e ↦ ground arith
    | inr (hash, e) ↦ ground (arith, with_presence-IsShortAnswer now cmd hash c)
  ]

  route-IsShortAnswer :
      (now : ℕ) (cmd : Cmd) (c : Card Keys)
      → wanted cmd ≤ 256
      → IsShortAnswer (route clock C now cmd c).1
  unfolding route
  route-IsShortAnswer now cmd c h = ground (
    arith,
    select-IsShortAnswer cmd c.piv,
    verify-IsShortAnswer cmd c.piv,
    get_data-IsShortAnswer C c.keys cmd c.piv h,
    get_response-IsShortAnswer cmd c.piv h,
    authenticate-IsShortAnswer now cmd c,
  )

  pub answer_apdu-IsShortAnswer :
      (now : ℕ) (raw : List ℕ) (n : ℕ) (c : Card Keys)
      → IsBytes raw
      → IsShortAnswer (answer_apdu clock C now raw n c).1
  unfolding answer_apdu
  answer_apdu-IsShortAnswer now raw n c h = elim (Option-cases (apdu_parse raw n)) [
    | inl e ↦ ground arith
    | inr (cmd, e) ↦
        ground (arith, route-IsShortAnswer now cmd c (wanted-le (parse-FromMessage raw n h e)))
  ]

  -- For every message in a buffer of bytes, and an output buffer with room for a short response (a
  -- capacity from 258 on and below 2^31, which the buffer has), the
  -- applet sends its answer whole: the body and the two status bytes, as many bytes as it returns,
  -- at least 2 and at most 258.
  pub piv_process_apdu-sent :
      (now : ℕ) (raw : List ℕ) (n : ℕ) (out : List ℕ) (out_cap : ℕ) (c : Card Keys)
      → IsBytes raw
      → 258 ≤ out_cap
      → out_cap ≤ length out
      → out_cap < 2 ^ 31
      → let a = (answer_apdu clock C now raw n c).1 in
        let o = (piv_process_apdu clock C now raw n out out_cap c).1 in
        (sent o ≡ flatten a.parts ++ sw_bytes a.sw)
        × (o.size ≡ length (flatten a.parts) + 2)
        × (o.size ≤ 258)
  unfolding piv_process_apdu
  piv_process_apdu-sent now raw n out out_cap c h room inside small =
      let a = (answer_apdu clock C now raw n c).1 in
      let short : length (flatten a.parts) ≤ 256 = answer_apdu-IsShortAnswer now raw n c h in
      let (bytes, size) = emit-sent out out_cap a (omega arith) inside small in
      (bytes, size, omega (arith, size, short))
