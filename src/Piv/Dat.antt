-- ===== src/Piv/Dat.antt =====
-- The parser of the Dynamic Authentication Template in `_handle_general_authenticate` of src/piv.c.
use ward3n.Base.{
  ℕ, ◌-◌, not, ◌&&◌, ◌||◌, Option, none, some, List, get_or, take, drop, ltb, leb, ◌==◌,
  if◌then◌else◌,
}
use ward3n.Piv.Objects.{piv_dat_tag, piv_dat_response, piv_dat_challenge}

-- The length bytes of the template: the pointer and the count of bytes behind them.
unfoldable pub skip_dat_len : List ℕ → ℕ → Option (List ℕ × ℕ)
skip_dat_len p rem =
    if ltb (get_or p 0 0) 0x80
    then some (drop 1 p, rem - 1)
    else (if get_or p 0 0 == 0x81 && leb 2 rem then some (drop 2 p, rem - 2) else none)

-- From the tag 81 on: the hash.
unfoldable pub parse_challenge : List ℕ → ℕ → Option (List ℕ)
parse_challenge p rem =
    let hash_len : ℕ = get_or p 1 0 in
    if ltb rem 2 || not (get_or p 0 0 == piv_dat_challenge)
    then none
    else (if ltb (rem - 2) hash_len || hash_len == 0 || ltb 64 hash_len
        then none
        else some (take hash_len (drop 2 p)))

-- The empty tag 82, and what follows it.
unfoldable pub parse_response_tag : List ℕ → ℕ → Option (List ℕ)
parse_response_tag p rem =
    if ltb rem 2 || not (get_or p 0 0 == piv_dat_response) || not (get_or p 1 0 == 0x00)
    then none
    else parse_challenge (drop 2 p) (rem - 2)

-- The Dynamic Authentication Template, `lc` bytes from `p`: `none` is SW_WRONG_DATA.
unfoldable pub parse_dat : List ℕ → ℕ → Option (List ℕ)
parse_dat p lc =
    if not (get_or p 0 0 == piv_dat_tag)
    then none
    else (if lc - 1 == 0 then none else elim (skip_dat_len (drop 1 p) (lc - 1)) [
      | none ↦ none
      | some (p', rem) ↦ parse_response_tag p' rem
    ])
