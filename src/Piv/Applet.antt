-- ===== src/Piv/Applet.antt =====
-- The applet's own state of src/piv.c, and the commands that use nothing else: SELECT, VERIFY, GET
-- RESPONSE, and the end of GET DATA.
use ward3n.Base.{
  ℕ, ◌+◌, ◌-◌, Bool, true, false, not, ◌&&◌, ◌||◌, List, [], ◌∷◌, length, take, drop, replicate,
  write_at, ltb, leb, ◌==◌, if◌then◌else◌,
}
use ward3n.Config.{piv_pin_pad_byte, piv_default_pin}
use ward3n.Apdu.{u32, Cmd, Answer, status}
use ward3n.Apdu.Status.{
  sw_ok, sw_more_data, sw_wrong_length, sw_security_not_satisfied, sw_conditions_not_satisfied,
  sw_incorrect_p1p2, sw_referenced_data_not_found, sw_file_not_found, sw_wrong_data,
}
use ward3n.Piv.Objects.{piv_aid, piv_aid_len, piv_pin_ref_app, fci}

-- The static `_piv`.
pub record Piv : Type 0 where
  pub selected : Bool
  pub pin_verified : Bool
  pub chain_buf : List ℕ
  pub chain_len : ℕ
  pub chain_offset : ℕ

-- `memset (&_piv, 0, sizeof (_piv))`
unfoldable pub piv_init : Piv
piv_init = record {
  selected = false;
  pin_verified = false;
  chain_buf = replicate 4096 0;
  chain_len = 0;
  chain_offset = 0;
}

unfoldable pub bytes_eq : List ℕ → List ℕ → Bool
bytes_eq [] [] = true
bytes_eq [] (y ∷ ys) = false
bytes_eq (x ∷ xs) [] = false
bytes_eq (x ∷ xs) (y ∷ ys) = x == y && bytes_eq xs ys

-- `memcmp (a, b, n) == 0`
abbrev pub memcmp_eq : List ℕ → List ℕ → ℕ → Bool
memcmp_eq a b n = bytes_eq (take n a) (take n b)

unfoldable pub handle_select : Cmd → Piv → Piv × Answer
handle_select cmd p =
    if not (cmd.p1 == 0x04)
    then (p, status sw_incorrect_p1p2)
    else (if not cmd.has_lc || ltb cmd.lc piv_aid_len
        then (p, status sw_wrong_data)
        else (if not (memcmp_eq cmd.data_bytes piv_aid piv_aid_len)
            then (p, status sw_file_not_found)
            else (record p { selected = true }, record { parts = fci ∷ []; sw = sw_ok })))

-- The PIN, padded to 8 bytes.
abbrev pub expected_pin : List ℕ
expected_pin = write_at (replicate 8 piv_pin_pad_byte) 0 piv_default_pin

unfoldable pub handle_verify : Cmd → Piv → Piv × Answer
handle_verify cmd p =
    if not (cmd.p1 == 0x00)
    then (p, status sw_incorrect_p1p2)
    else (if not (cmd.p2 == piv_pin_ref_app)
        then (p, status sw_referenced_data_not_found)
        else (if not cmd.has_lc || cmd.lc == 0
            then (p, status 0x63C3)
            else (if not (cmd.lc == 8)
                then (p, status sw_wrong_length)
                else (if not (memcmp_eq cmd.data_bytes expected_pin 8)
                    then (record p { pin_verified = false }, status sw_security_not_satisfied)
                    else (record p { pin_verified = true }, status sw_ok)))))

-- `cmd->has_le ? cmd->le : 256`
abbrev pub wanted : Cmd → ℕ
wanted cmd = if cmd.has_le then cmd.le else 256

-- `SW_MORE_DATA (remaining > 0xFF ? 0xFF : remaining)`
abbrev pub more_status : ℕ → ℕ
more_status remaining = sw_more_data (if ltb 0xFF remaining then 0xFF else remaining)

-- The end of `_handle_get_data`: the object is sent whole, or its first Le bytes, and chaining
-- starts.
unfoldable pub send_object : Cmd → Piv → List ℕ → Piv × Answer
send_object cmd p obj =
    let le : ℕ = wanted cmd in
    if leb (length obj) le then (p, record { parts = obj ∷ []; sw = sw_ok }) else (
      record p {
        chain_buf = write_at p.chain_buf 0 obj;
        chain_len = length obj;
        chain_offset = le;
      },
      record { parts = take le obj ∷ []; sw = more_status (length obj - le) },
    )

-- `send_now`, from `available` and Le.
unfoldable pub send_now : Cmd → Piv → ℕ
send_now cmd p =
    let available : ℕ = p.chain_len - p.chain_offset in
    if leb available (wanted cmd) then available else wanted cmd

unfoldable pub handle_get_response : Cmd → Piv → Piv × Answer
handle_get_response cmd p =
    let offset : ℕ = u32 (p.chain_offset + send_now cmd p) in
    let part : List ℕ = take (send_now cmd p) (drop p.chain_offset p.chain_buf) in
    if leb p.chain_len p.chain_offset then (p, status sw_conditions_not_satisfied) else (
      record p { chain_offset = offset },
      record {
        parts = part ∷ [];
        sw = if leb p.chain_len offset then sw_ok else more_status (p.chain_len - offset);
      },
    )
