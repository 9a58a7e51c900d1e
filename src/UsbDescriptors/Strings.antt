-- ===== src/UsbDescriptors/Strings.antt =====
-- The string descriptors of src/usb_descriptors.c as a host reads them.
use ward3n.Base.{
  ℕ, zero, suc, ap, ◌∙◌, sym, take_all, take-write_at, length-take, inl, inr, Bool-cases, ◌+◌, ◌-◌,
  ◌*◌, ◌/◌, ◌%◌, ◌≡◌, ◌≤◌, ◌<◌, refl, bit_or, Bool, true, ◌&&◌, Option, none, some, List, [], ◌∷◌,
  length, take, get_or, write_at, length-write_at, ltb, ◌==◌, ==_iff, if◌then◌else◌, arith,
}
use native.Mathlib.Nat.{zero-add}
use ward3n.UsbDescriptors.{TusbCommon, string_header, chr_count_of, descriptor_string}

-- What a host makes of a descriptor: its first word holds the type 3 and the number of bytes, itself
-- included, and the characters follow in a word each.
unfoldable pub read_string : List ℕ → Option (List ℕ)
read_string [] = none
read_string (word ∷ rest) =
    if word / 256 == 3 then some (take ((word % 256 - 2) / 2) rest) else none

abbrev pub read_answer : Option (List ℕ) → Option (List ℕ)
read_answer none = none
read_answer (some desc) = read_string desc

-- The text that a table stands for: the language English for 0, then the strings, at most 63
-- characters of each.
unfoldable pub text_of : List (List ℕ) → ℕ → Option (List ℕ)
text_of table index =
    if index == 0
    then some (0x0409 ∷ [])
    else (if ltb index (length table) then some (take 63 (get_or table index [])) else none)

-- The headers of the first `n` lengths have no carry.
all_headers : ℕ → Bool
all_headers zero = true
all_headers (suc n) = (bit_or 768 (2 * n + 2) == 768 + (2 * n + 2)) && all_headers n

all_headers_sound :
    (n x : ℕ) → all_headers n ≡ true → x < n → bit_or 768 (2 * x + 2) ≡ 768 + (2 * x + 2)
unfolding all_headers
all_headers_sound zero x h less = absurd (omega arith)
all_headers_sound (suc n) x h less =
    ground (arith, all_headers_sound n x, ==_iff (bit_or 768 (2 * n + 2)) (768 + (2 * n + 2)))

write_at-nil : (xs : List ℕ) → write_at xs 0 [] ≡ xs
unfolding write_at
write_at-nil [] = refl
write_at-nil (x ∷ xs) = refl

module _ (T : TusbCommon) where
  string_header_lem : (n : ℕ) → n ≤ 63 → string_header T n ≡ 770 + 2 * n
  unfolding string_header all_headers
  string_header_lem n small =
      let e = all_headers_sound 64 n refl (omega arith) in rw (T.desc_string_lem, e) (omega arith)

  chr_count_of_lem :
      (str : List ℕ)
      → length str < 256
      → chr_count_of T str ≤ 63
        × chr_count_of T str ≤ length str
        × (take (chr_count_of T str) str ≡ take 63 str)
  unfolding chr_count_of
  chr_count_of_lem str small = elim (Bool-cases (ltb 63 (length str % 256))) [
    | inl long ↦ rw long (omega arith, ground arith, refl)
    | inr fits ↦ rw fits (
      ground arith,
      ground arith,
      (let whole : length str % 256 ≡ length str = omega arith in
          rw whole
            (take_all (length str) str (omega arith) ∙ sym (take_all 63 str (ground arith)))),
    )
  ]

  -- What the host reads from a header and `n` characters that are written behind it.
  read_text :
      (n : ℕ) (str desc_str : List ℕ)
      → n ≤ 63
      → n ≤ length str
      → length desc_str ≡ 64
      → let text = write_at (write_at desc_str 1 (take n str)) 0 (string_header T n ∷ []) in
        (length text ≡ 64) × (read_string text ≡ some (take n str))
  unfolding write_at read_string
  read_text n str [] small fits room = absurd (omega arith)
  read_text n str (d ∷ desc_str) small fits room =
      let chars : List ℕ = write_at desc_str 0 (take n str) in
      let e : write_at chars 0 [] ≡ chars = write_at-nil chars in
      let len : length (take n str) ≡ n = omega (arith, length-take n str) in
      let text : take n chars ≡ take n str =
        ap (λ k. take k chars) (sym len)
        ∙ rw zero-add at
            (take-write_at desc_str 0 (take n str) (omega (arith, room, len, small))) in
      let half : (string_header T n % 256 - 2) / 2 ≡ n = omega (arith, string_header_lem n small) in
      let three : string_header T n / 256 ≡ 3 = omega (arith, string_header_lem n small) in
      (
        omega (arith, room, ap length e, length-write_at desc_str 0 (take n str)),
        rw (e, half, three) (ap some text),
      )

  -- The callback for strings, with any table of fewer than 256 strings, for an index whose string, if
  -- there is one, has fewer than 256 characters, and with 64 words of buffer, which it keeps. What a
  -- host reads from its answer is English as the language for the index 0, the first 63 characters of
  -- the string for another index of the table, and nothing for an index beyond the table.
  pub descriptor_string-text :
      (table : List (List ℕ)) (index : ℕ) (desc_str : List ℕ)
      → length table < 256
      → length (get_or table index []) < 256
      → length desc_str ≡ 64
      → let (desc_str', answer) = descriptor_string T table index desc_str in
        (length desc_str' ≡ 64) × (read_answer answer ≡ text_of table index)
  unfolding descriptor_string text_of
  descriptor_string-text table index desc_str few short room =
      let str = get_or table index [] in
      let few' : length table % 256 ≡ length table = omega arith in
      let count = chr_count_of_lem str short in
      let language = read_text 1 (0x0409 ∷ []) desc_str (omega arith) (omega arith) room in
      let text = read_text (chr_count_of T str) str desc_str count.0 count.1 room in
      elim (Bool-cases (index == 0)) [
        | inl zeroth ↦ rw zeroth language
        | inr later ↦ elim (Bool-cases (ltb index (length table))) [
          | inl known ↦ rw (later, few', known) (text.0, text.1 ∙ ap some count.2)
          | inr unknown ↦ rw (later, few', unknown) (room, refl)
        ]
      ]
