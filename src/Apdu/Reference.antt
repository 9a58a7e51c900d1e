-- ===== src/Apdu/Reference.antt =====
-- The APDU parser of src/apdu.c against a reference that takes a message apart as a list.
use ward3n.Base.{
  ℕ, ◌+◌, ◌^◌, ◌≤◌, ◌<◌, ◌≡◌, refl, true, false, Option, none, some, List, [], ◌∷◌, length, get_or,
  take, drop, get_or-drop, length-drop, IsBytes, arith, leb, ◌==◌, if◌then◌else◌,
}
use ward3n.Apdu.{u32, Cmd, apdu_parse}

-- The number of bytes that an Le byte asks for.
abbrev asked_for : ℕ → ℕ
asked_for b = if b == 0 then 256 else b

abbrev bare : ℕ → ℕ → ℕ → ℕ → Cmd
bare cla ins p1 p2 = record {
  cla = cla;
  ins = ins;
  p1 = p1;
  p2 = p2;
  lc = 0;
  data_bytes = [];
  le = 0;
  has_lc = false;
  has_le = false;
}

-- What follows the body: nothing, or Le, behind which the rest is ignored.
abbrev with_end : Cmd → List ℕ → Cmd
with_end h [] = h
with_end h (le ∷ ignored) = record h { has_le = true; le = asked_for le }

-- What follows the header: nothing, Le alone, or Lc with a body that is all there.
abbrev with_tail : Cmd → List ℕ → Option Cmd
with_tail h [] = some h
with_tail h (le ∷ []) = some (record h { has_le = true; le = asked_for le })
with_tail h (lc ∷ b ∷ bs) =
    if leb lc (length (b ∷ bs))
    then some (
        with_end (record h { has_lc = true; lc = lc; data_bytes = take lc (b ∷ bs) })
          (drop lc (b ∷ bs)))
    else none

-- The reference: a short command of ISO 7816-4, read from the list of its bytes.
unfoldable pub iso_parse : List ℕ → Option Cmd
iso_parse [] = none
iso_parse (cla ∷ []) = none
iso_parse (cla ∷ ins ∷ []) = none
iso_parse (cla ∷ ins ∷ p1 ∷ []) = none
iso_parse (cla ∷ ins ∷ p1 ∷ p2 ∷ tail) = with_tail (bare cla ins p1 p2) tail

-- A parsed command with its data as far as Lc says.
abbrev pub trimmed : Option Cmd → Option Cmd
trimmed none = none
trimmed (some c) = some (record c { data_bytes = take c.lc c.data_bytes })

with_end_nil : (h : Cmd) (xs : List ℕ) → length xs ≡ 0 → with_end h xs ≡ h
with_end_nil h [] e = refl
with_end_nil h (x ∷ xs) e = absurd (omega arith)

with_end_cons :
    (h : Cmd) (xs : List ℕ)
    → 1 ≤ length xs
    → with_end h xs ≡ record h { has_le = true; le = asked_for (get_or xs 0 0) }
with_end_cons h [] e = absurd (omega arith)
with_end_cons h (x ∷ xs) e = refl

-- On every message the parser and the reference agree: they refuse the same messages, and read the
-- same header, Lc, Le and data from the others.
pub apdu_parse-iso_parse :
    (raw : List ℕ)
    → IsBytes raw
    → length raw < 2 ^ 32
    → trimmed (apdu_parse raw (length raw)) ≡ iso_parse raw
unfolding apdu_parse iso_parse
apdu_parse-iso_parse [] bytes small = refl
apdu_parse-iso_parse (cla ∷ []) bytes small = refl
apdu_parse-iso_parse (cla ∷ ins ∷ []) bytes small = refl
apdu_parse-iso_parse (cla ∷ ins ∷ p1 ∷ []) bytes small = refl
apdu_parse-iso_parse (cla ∷ ins ∷ p1 ∷ p2 ∷ []) bytes small = refl
apdu_parse-iso_parse (cla ∷ ins ∷ p1 ∷ p2 ∷ le ∷ []) bytes small = refl
apdu_parse-iso_parse (cla ∷ ins ∷ p1 ∷ p2 ∷ lc ∷ b ∷ bs) bytes small =
    let body : List ℕ = b ∷ bs in
    let h = record (bare cla ins p1 p2) { has_lc = true; lc = lc; data_bytes = take lc body } in
    let raw : List ℕ = cla ∷ ins ∷ p1 ∷ p2 ∷ lc ∷ body in
    let idx : u32 (5 + lc) ≡ 5 + lc = omega arith in
    ground (
      arith,
      with_end_nil h (drop lc body),
      with_end_cons h (drop lc body),
      length-drop lc body,
      get_or-drop body 0 lc 0,
    )
