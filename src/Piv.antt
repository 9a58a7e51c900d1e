-- ===== src/Piv.antt =====
-- src/piv.c: the PIV applet. A handler takes the parsed command and the state that it uses and gives
-- the state afterwards with its answer, which `emit` then writes into the caller's buffer.
pub mod Applet
pub mod Objects
pub mod Dat
pub mod Fits
pub mod Presence
pub mod Uses
pub mod Chain
pub mod Transfer
pub mod Template
pub mod Tlv
pub mod Pin
pub mod Verified
pub mod Invariant
pub mod WellFormed
pub mod Locality
use Applet.{
  Piv, bytes_eq, expected_pin, handle_get_response, handle_select, handle_verify, memcmp_eq,
  more_status, piv_init, send_now, send_object, wanted,
}
use ward3n.Base.{
  ℕ, ◌+◌, ◌-◌, Bool, true, false, not, ◌&&◌, ◌||◌, Option, none, some, List, [], ◌∷◌, length,
  get_or, take, drop, replicate, write_at, ltb, leb, ◌==◌, if◌then◌else◌,
}
use Dat.{parse_dat}
use ward3n.Config.{piv_pin_pad_byte, piv_default_pin}
use ward3n.Pico.{Clock}
use ward3n.DeviceState.{
  Device, request_auth, begin_processing, op_complete, is_authorized, consume_auth,
}
use ward3n.Apdu.{u8, u32, Cmd, apdu_parse, Out, Answer, status, emit}
use ward3n.Apdu.Status.{
  sw_ok, sw_more_data, sw_wrong_length, sw_security_not_satisfied, sw_conditions_not_satisfied,
  sw_incorrect_p1p2, sw_referenced_data_not_found, sw_ins_not_supported, sw_cla_not_supported,
  sw_unknown, sw_file_not_found, sw_wrong_data,
}
use ward3n.CryptoBackend.{CryptoBackend, key_ref_9a, alg_ecdsa_p256}
use Objects.{
  piv_aid, piv_aid_len, piv_tag_ccc, piv_tag_chuid, piv_tag_cert_9a, piv_pin_ref_app, piv_dat_tag,
  piv_dat_response, piv_dat_challenge, ccc_data, chuid_data, fci, disc, cert_object,
}

-- The state that the applet's commands work on: its own, the device's, and the backend's.
pub record Card (Keys : Type 0) : Type 0 where
  pub piv : Piv
  pub dev : Device
  pub keys : Keys

module _ {Keys : Type 0} where
  -- A handler that uses only the applet's own state.
  abbrev pub on_piv : (Piv → Piv × Answer) → Card Keys → Card Keys × Answer
  on_piv f c = let (p, a) = f c.piv in (record c { piv = p }, a)

  -- `sw_end`, for what leaves the `switch` by `break`.
  abbrev pub unrouted : Card Keys → Card Keys × Answer
  unrouted c =
      (c, status (if c.piv.selected then sw_ins_not_supported else sw_conditions_not_satisfied))

  -- `if (!_piv.selected) break;`
  abbrev pub when_selected : Card Keys → Card Keys × Answer → Card Keys × Answer
  when_selected c answer = if not c.piv.selected then unrouted c else answer

module _ (C : CryptoBackend) where
  open C use {Keys, get_cert_der, sign}

  -- The choice of the object by its tag; `none` is SW_REFERENCED_DATA_NOT_FOUND.
  unfoldable pub find_object : Keys → ℕ → List ℕ → Option (List ℕ)
  find_object keys tag_len tag =
      let cert : List ℕ = get_cert_der keys key_ref_9a 3994 in
      if tag_len == 3
      then (if memcmp_eq tag piv_tag_ccc 3
          then some ccc_data
          else (if memcmp_eq tag piv_tag_chuid 3
              then some chuid_data
              else (if memcmp_eq tag piv_tag_cert_9a 3
                  then (if length cert == 0 then none else some (cert_object cert))
                  else none)))
      else (if get_or tag 0 0 == 0x7E then some disc else none)

  unfoldable pub handle_get_data : Keys → Cmd → Piv → Piv × Answer
  handle_get_data keys cmd p =
      let tag_len : ℕ = get_or cmd.data_bytes 1 0 in
      if not (cmd.p1 == 0x3F) || not (cmd.p2 == 0xFF)
      then (p, status sw_incorrect_p1p2)
      else (if not cmd.has_lc || ltb cmd.lc 3 || not (get_or cmd.data_bytes 0 0 == 0x5C)
          then (p, status sw_wrong_data)
          else (if not (tag_len == 3) && not (tag_len == 1)
              then (p, status sw_wrong_data)
              else elim (find_object keys tag_len (drop 2 cmd.data_bytes)) [
                | none ↦ (p, status sw_referenced_data_not_found)
                | some obj ↦ send_object cmd p obj
              ]))

  -- From `crypto_sign` on.
  unfoldable pub sign_and_answer : Cmd → List ℕ → Card Keys → Card Keys × Answer
  sign_and_answer cmd hash c =
      let (sig, keys) = sign c.keys cmd.p2 cmd.p1 hash 72 in
      let c' = record c { dev = op_complete c.dev; keys = keys } in
      if length sig == 0 then (c', status sw_unknown) else (
        c',
        record {
          parts =
              (piv_dat_tag ∷ [])
              ∷ (u8 (2 + length sig) ∷ [])
              ∷ (piv_dat_response ∷ [])
              ∷ (u8 (length sig) ∷ [])
              ∷ sig
              ∷ [];
          sw = sw_ok;
        },
      )

module _ (clock : Clock) (C : CryptoBackend) where
  open C use {Keys}

  -- The check of the user's presence, and the use of the one-shot authorization.
  unfoldable pub with_presence : ℕ → Cmd → List ℕ → Card Keys → Card Keys × Answer
  with_presence now cmd hash c =
      let (dev, consumed) = consume_auth c.dev in
      if not (is_authorized c.dev)
      then (record c { dev = request_auth clock now c.dev }, status sw_conditions_not_satisfied)
      else (if not consumed
          then (record c { dev = dev }, status sw_conditions_not_satisfied)
          else sign_and_answer C cmd hash (record c { dev = begin_processing dev }))

  unfoldable pub handle_general_authenticate : ℕ → Cmd → Card Keys → Card Keys × Answer
  handle_general_authenticate now cmd c =
      if not (cmd.p1 == alg_ecdsa_p256)
      then (c, status sw_incorrect_p1p2)
      else (if not (cmd.p2 == key_ref_9a)
          then (c, status sw_referenced_data_not_found)
          else (if not c.piv.pin_verified
              then (c, status sw_security_not_satisfied)
              else (if not cmd.has_lc || ltb cmd.lc 4
                  then (c, status sw_wrong_length)
                  else elim (parse_dat cmd.data_bytes cmd.lc) [
                    | none ↦ (c, status sw_wrong_data)
                    | some hash ↦ with_presence now cmd hash c
                  ])))

  -- The `switch` on INS.
  unfoldable pub route : ℕ → Cmd → Card Keys → Card Keys × Answer
  route now cmd c =
      if cmd.ins == 0xA4
      then on_piv (handle_select cmd) c
      else (if cmd.ins == 0x20
          then when_selected c (on_piv (handle_verify cmd) c)
          else (if cmd.ins == 0xCB
              then when_selected c (on_piv (handle_get_data C c.keys cmd) c)
              else (if cmd.ins == 0xC0
                  then when_selected c (on_piv (handle_get_response cmd) c)
                  else (if cmd.ins == 0x87
                      then when_selected c (handle_general_authenticate now cmd c)
                      else unrouted c))))

  -- The answer to the `in_len` bytes at `apdu_in`. Where the code writes the two status bytes itself,
  -- the answer has no parts.
  unfoldable pub answer_apdu : ℕ → List ℕ → ℕ → Card Keys → Card Keys × Answer
  answer_apdu now apdu_in in_len c = elim (apdu_parse apdu_in in_len) [
    | none ↦ (c, status sw_unknown)
    | some cmd ↦
        (if not (cmd.cla == 0x00) then (c, status sw_cla_not_supported) else route now cmd c)
  ]

  unfoldable pub piv_process_apdu : ℕ → List ℕ → ℕ → List ℕ → ℕ → Card Keys → Card Keys × Out
  piv_process_apdu now apdu_in in_len apdu_out out_cap c =
      let (c', a) = answer_apdu now apdu_in in_len c in (c', emit apdu_out out_cap a)
