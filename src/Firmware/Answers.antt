-- ===== src/Firmware/Answers.antt =====
-- What src/ccid.c owes the host between a message and the call of `ccid_task` that sends the answer.
use ward3n.Base.{
  ℕ, ◌+◌, ◌%◌, ◌^◌, ◌≤◌, ◌≡◌, refl, sym, ◌∙◌, ap, Bool, true, false, Option, none, some, List, ◌++◌,
  length, take, get_or, arith, length-take, take-append_add, le→leb, ==_iff,
}
use mathlib.Core.Path.{subst}
use ward3n.Ccid.{Ccid}
use ward3n.Ccid.Responses.{Response}
use ward3n.Ccid.Header.{ccid_header, read_u32, read-ccid_header}
use ward3n.Ccid.Frame.{Framed}
use ward3n.Ccid.Kinds.{answer_kind}
use ward3n.Firmware.Wire.{is_answer}

-- A response is pending exactly if a message has no answer yet, and it answers that message.
abbrev pub Owes : Option (ℕ × ℕ) → Bool → Response → Type 0
Owes none pending r = pending ≡ false
Owes (some (kind, seq)) pending r =
    (pending ≡ true) × Framed seq r × (get_or r.0 0 0 ≡ answer_kind kind)

header-is_answer :
    (kind seq : ℕ) (block : List ℕ)
    → length block ≡ 10 + read_u32 block 1
    → length block ≤ 512
    → get_or block 6 0 ≡ seq
    → get_or block 0 0 ≡ answer_kind kind
    → is_answer kind seq block ≡ true
header-is_answer kind seq block size small seq_lem kind_lem =
    rw
      (
        (==_iff (length block) (10 + read_u32 block 1)).1 size,
        le→leb (length block) 512 small,
        (==_iff (get_or block 6 0) seq).1 seq_lem,
        (==_iff (get_or block 0 0) (answer_kind kind)).1 kind_lem,
      )
      refl

pub Framed-is_answer :
    (kind seq : ℕ) (r : Ccid)
    → Framed seq (r.tx_buf, r.response_len)
    → get_or r.tx_buf 0 0 ≡ answer_kind kind
    → is_answer kind seq (take (r.response_len % 2 ^ 16) r.tx_buf) ≡ true
Framed-is_answer kind seq r f first =
    let small : r.response_len % 2 ^ 16 ≡ 10 + f.len = omega (arith, f.len_lem, f.fits) in
    let header = ccid_header f.kind f.len seq f.specific_0 f.specific_1 f.specific_2 in
    let kind_lem : f.kind ≡ answer_kind kind = ap (λ t. get_or t 0 0) (sym f.frame) ∙ first in
    let whole : take (r.response_len % 2 ^ 16) r.tx_buf ≡ header ++ take f.len f.rest =
      rw (small, f.frame) (take-append_add header f.rest f.len) in
    let size : length (take f.len f.rest) ≡ f.len =
      omega (arith, length-take f.len f.rest, f.room, f.fits) in
    let len_read =
      read-ccid_header f.kind f.len seq f.specific_0 f.specific_1 f.specific_2 (take f.len f.rest)
        (omega (arith, f.fits)) in
    subst (λ t. is_answer kind seq t ≡ true) (sym whole)
      (header-is_answer kind seq (header ++ take f.len f.rest) (omega (arith, size, len_read))
        (omega (arith, size, f.fits)) refl kind_lem)
