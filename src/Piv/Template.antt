-- ===== src/Piv/Template.antt =====
-- The Dynamic Authentication Template of GENERAL AUTHENTICATE in src/piv.c, written and parsed.
use ward3n.Base.{
  ℕ, ◌+◌, ◌-◌, ◌≤◌, ◌≡◌, Option, none, some, List, ◌∷◌, ◌++◌, length, get_or, take, drop, drop-take,
  take-take, take-append, get_or-take, arith, ltb, Bool-cases, Option-cases, inl, inr,
}
use ward3n.Piv.Dat.{parse_dat, skip_dat_len, parse_response_tag, parse_challenge}

-- The template that asks for a signature of `hash`: 7C [n + 4] 82 00 81 [n] [hash].
abbrev pub template : List ℕ → List ℕ
template hash = 0x7C ∷ (4 + length hash) ∷ 0x82 ∷ 0x00 ∷ 0x81 ∷ length hash ∷ hash

-- The same with its length in the long form, 7C 81 [n + 4] 82 00 81 [n] [hash].
abbrev pub long_template : List ℕ → List ℕ
long_template hash = 0x7C ∷ 0x81 ∷ (4 + length hash) ∷ 0x82 ∷ 0x00 ∷ 0x81 ∷ length hash ∷ hash

-- A hash of 1 to 64 bytes is read back from its template, with the length in either form and
-- whatever stands behind the template in the buffer.
pub parse-template :
    (hash rest : List ℕ)
    → 1 ≤ length hash
    → length hash ≤ 64
    → (parse_dat (template hash ++ rest) (length (template hash)) ≡ some hash)
      × (parse_dat (long_template hash ++ rest) (length (long_template hash)) ≡ some hash)
unfolding parse_dat skip_dat_len parse_response_tag parse_challenge
parse-template hash rest lo hi =
    (ground (arith, take-append hash rest), ground (arith, take-append hash rest))

parse_challenge-take :
    (p : List ℕ) (rem : ℕ) → parse_challenge (take rem p) rem ≡ parse_challenge p rem
unfolding parse_challenge
parse_challenge-take p rem = elim (Bool-cases (ltb rem 2)) [
  | inl small ↦ ground arith
  | inr room ↦
      let n : ℕ = get_or p 1 0 in
      ground (
        arith,
        get_or-take p 0 rem 0,
        get_or-take p 1 rem 0,
        drop-take 2 rem p,
        take-take n (rem - 2) (drop 2 p),
      )
]

parse_response_tag-take :
    (p : List ℕ) (rem : ℕ) → parse_response_tag (take rem p) rem ≡ parse_response_tag p rem
unfolding parse_response_tag
parse_response_tag-take p rem = elim (Bool-cases (ltb rem 2)) [
  | inl small ↦ ground arith
  | inr room ↦ ground (
    arith,
    get_or-take p 0 rem 0,
    get_or-take p 1 rem 0,
    drop-take 2 rem p,
    parse_challenge-take (drop 2 p) (rem - 2),
  )
]

abbrev cut : Option (List ℕ × ℕ) → Option (List ℕ × ℕ)
cut none = none
cut (some (p, rem)) = some (take rem p, rem)

-- The length bytes lead to the same place, with what is behind them cut at the same end.
skip_dat_len-take :
    (p : List ℕ) (rem : ℕ) → 1 ≤ rem → skip_dat_len (take rem p) rem ≡ cut (skip_dat_len p rem)
unfolding skip_dat_len
skip_dat_len-take p rem h =
    ground (arith, get_or-take p 0 rem 0, drop-take 1 rem p, drop-take 2 rem p)

-- The parser's result depends, for an Lc from 4 on, on the `lc` bytes of the command's data alone: what stands behind
-- them in the buffer makes no difference.
pub parse_dat-take : (p : List ℕ) (lc : ℕ) → 4 ≤ lc → parse_dat (take lc p) lc ≡ parse_dat p lc
unfolding parse_dat
parse_dat-take p lc h = elim (Option-cases (skip_dat_len (drop 1 p) (lc - 1))) [
  | inl e ↦
      ground (arith, get_or-take p 0 lc 0, drop-take 1 lc p, skip_dat_len-take (drop 1 p) (lc - 1))
  | inr (t, e) ↦ ground (
    arith,
    get_or-take p 0 lc 0,
    drop-take 1 lc p,
    skip_dat_len-take (drop 1 p) (lc - 1),
    parse_response_tag-take t.0 t.1,
  )
]
