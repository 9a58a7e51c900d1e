-- ===== src/Apdu/Parse.antt =====
-- The APDU parser of src/apdu.c against the short encodings of ISO 7816-4.
use ward3n.Base.{
  ℕ, suc, ◌+◌, ◌%◌, ◌≤◌, ◌<◌, ◌≡◌, ◌⊎◌, ◌↔◌, refl, true, false, none, some, List, [], ◌∷◌, ◌++◌,
  append_assoc, length, get_or, drop, length-append, IsBytes, IsBytes-get_or, get_or-append_length,
  arith,
}
use ward3n.Apdu.{u32, Cmd, apdu_parse}

-- The four cases of a short command: the body, and the Le that is asked for (1 to 256).
pub data Short : Type 0 where
  case1 : Short
  case2 : ℕ → Short
  case3 : List ℕ → Short
  case4 : List ℕ → ℕ → Short

-- The bytes of a command, as ISO 7816-4 writes them.
abbrev pub encode_tail : Short → List ℕ
encode_tail case1 = []
encode_tail (case2 le) = (le % 256) ∷ []
encode_tail (case3 body) = length body ∷ body
encode_tail (case4 body le) = length body ∷ (body ++ ((le % 256) ∷ []))

abbrev pub encode : ℕ → ℕ → ℕ → ℕ → Short → List ℕ
encode cla ins p1 p2 c = cla ∷ ins ∷ p1 ∷ p2 ∷ encode_tail c

abbrev pub IsLe : ℕ → Type 0
IsLe le = (1 ≤ le) × (le ≤ 256)

abbrev pub IsBody : List ℕ → Type 0
IsBody body = (1 ≤ length body) × (length body < 256)

abbrev pub IsShort : Short → Type 0
IsShort case1 = Unit
IsShort (case2 le) = IsLe le
IsShort (case3 body) = IsBody body
IsShort (case4 body le) = IsBody body × IsLe le

-- The command that the bytes stand for; `rest` is what the buffer holds behind them.
abbrev pub decoded : ℕ → ℕ → ℕ → ℕ → Short → List ℕ → Cmd
decoded cla ins p1 p2 case1 rest = record {
  cla = cla;
  ins = ins;
  p1 = p1;
  p2 = p2;
  lc = 0;
  data_bytes = [];
  le = 0;
  has_lc = false;
  has_le = false;
}
decoded cla ins p1 p2 (case2 le) rest = record {
  cla = cla;
  ins = ins;
  p1 = p1;
  p2 = p2;
  lc = 0;
  data_bytes = [];
  le = le;
  has_lc = false;
  has_le = true;
}
decoded cla ins p1 p2 (case3 body) rest = record {
  cla = cla;
  ins = ins;
  p1 = p1;
  p2 = p2;
  lc = length body;
  data_bytes = body ++ rest;
  le = 0;
  has_lc = true;
  has_le = false;
}
decoded cla ins p1 p2 (case4 body le) rest = record {
  cla = cla;
  ins = ins;
  p1 = p1;
  p2 = p2;
  lc = length body;
  data_bytes = body ++ ((le % 256) ∷ rest);
  le = le;
  has_lc = true;
  has_le = true;
}

-- Every short command is parsed back from its encoding, in each of the four cases and whatever
-- stands behind it in the buffer.
pub parse-encode :
    (cla ins p1 p2 : ℕ) (c : Short) (rest : List ℕ)
    → IsShort c
    → apdu_parse (encode cla ins p1 p2 c ++ rest) (length (encode cla ins p1 p2 c))
      ≡ some (decoded cla ins p1 p2 c rest)
unfolding apdu_parse
parse-encode cla ins p1 p2 case1 rest h = refl
parse-encode cla ins p1 p2 (case2 le) rest h = ground arith
parse-encode cla ins p1 p2 (case3 (x ∷ body)) rest h = ground arith
parse-encode cla ins p1 p2 (case3 []) rest h = absurd (omega arith)
parse-encode cla ins p1 p2 (case4 [] le) rest h = absurd (omega arith)
parse-encode cla ins p1 p2 (case4 (x ∷ body) le) rest h =
    rw (append_assoc body (le % 256 ∷ []) rest, end)
      (ground
        (arith, length-append body (le % 256 ∷ []), get_or-append_length body rest (le % 256)))
  where
    end : u32 (5 + suc (length body)) ≡ suc (suc (suc (suc (suc (suc (length body))))))
    end = omega arith

-- In a buffer of bytes the parser accepts exactly the lengths that short APDUs have: a bare header, a header and Le, or
-- a body that ends inside the message.
pub parse_accepts :
    (raw : List ℕ) (n : ℕ)
    → IsBytes raw
    → (apdu_parse raw n ≡ none) ↔ ((n < 4) ⊎ ((5 < n) × (n < 5 + get_or raw 4 0)))
unfolding apdu_parse
parse_accepts raw n h =
    (λ e. ground (arith, IsBytes-get_or raw 4 h), λ e. ground (arith, IsBytes-get_or raw 4 h))

-- What an accepted command says of the message that it was read from.
pub record FromMessage (raw : List ℕ) (n : ℕ) (c : Cmd) : Type 0 where
  pub header_inside : 4 ≤ n
  pub data_inside : c.has_lc ≡ true → 5 + c.lc ≤ n
  pub data_at : c.has_lc ≡ true → c.data_bytes ≡ drop 5 raw
  pub lc_byte : c.lc < 256
  pub le_range : c.has_le ≡ true → (1 ≤ c.le) × (c.le ≤ 256)

-- A command that is accepted from a buffer of bytes lies inside the message: the header, and the data as far as Lc says;
-- its Le, if there is one, is a number from 1 to 256.
pub parse-FromMessage :
    (raw : List ℕ) (n : ℕ) {c : Cmd} → IsBytes raw → apdu_parse raw n ≡ some c → FromMessage raw n c
unfolding apdu_parse
parse-FromMessage raw n h e =
    ground (arith, IsBytes-get_or raw 4 h, IsBytes-get_or raw (u32 (5 + get_or raw 4 0)) h)
