-- ===== src/Piv/Tlv.antt =====
-- The certificate object of src/piv.c against a reader of BER-TLV.
use ward3n.Base.{
  ℕ, ◌+◌, ◌*◌, ◌^◌, ◌≤◌, ◌<◌, ◌≡◌, Option, none, some, List, [], ◌∷◌, ◌++◌, append-nil, length,
  get_or, take, drop, length-append, take-append, drop-append, arith, leb, ltb, ◌==◌, if◌then◌else◌,
}
use ward3n.Piv.Objects.{ber_len, inner_len, cert_object}

-- A data object: its tag, its contents, and what follows it.
pub record Tlv : Type 0 where
  pub tag : ℕ
  pub contents : List ℕ
  pub rest : List ℕ

-- The definite lengths of BER up to two length bytes: the length, and what follows.
abbrev pub read_len : List ℕ → Option (ℕ × List ℕ)
read_len [] = none
read_len (b ∷ bs) =
    if ltb b 0x80
    then some (b, bs)
    else (if b == 0x81
        then some (get_or bs 0 0, drop 1 bs)
        else (if b == 0x82 then some (256 * get_or bs 0 0 + get_or bs 1 0, drop 2 bs) else none))

abbrev pub split_at : ℕ → Option (ℕ × List ℕ) → Option Tlv
split_at tag none = none
split_at tag (some (len, bs)) =
    if leb len (length bs)
    then some (record { tag = tag; contents = take len bs; rest = drop len bs })
    else none

-- One object with a tag of one byte.
unfoldable pub read_tlv : List ℕ → Option Tlv
read_tlv [] = none
read_tlv (tag ∷ bs) = split_at tag (read_len bs)

-- A length below 2^16 is read back from the bytes that the code writes for it.
pub read_len-ber_len :
    (len : ℕ) (bs : List ℕ) → len < 2 ^ 16 → read_len (ber_len len ++ bs) ≡ some (len, bs)
unfolding ber_len
read_len-ber_len len bs h = ground arith

length-ber_len :
    (len : ℕ) → length (ber_len len) ≡ (if ltb len 0x80 then 1 else (if leb len 0xFF then 2 else 3))
unfolding ber_len
length-ber_len len = ground arith

read_tlv-write :
    (tag : ℕ) (contents rest : List ℕ)
    → length contents < 2 ^ 16
    → read_tlv (tag ∷ (ber_len (length contents) ++ (contents ++ rest)))
      ≡ some (record { tag = tag; contents = contents; rest = rest })
unfolding read_tlv
read_tlv-write tag contents rest h = ground (
  arith,
  read_len-ber_len (length contents) (contents ++ rest),
  length-append contents rest,
  take-append contents rest,
  drop-append contents rest,
)

-- The contents of the certificate object.
abbrev pub cert_contents : List ℕ → List ℕ
cert_contents cert =
    0x70 ∷ (ber_len (length cert) ++ (cert ++ (0x71 ∷ 0x01 ∷ 0x00 ∷ 0xFE ∷ 0x00 ∷ [])))

length-cert_contents : (cert : List ℕ) → length (cert_contents cert) ≡ inner_len (length cert)
unfolding inner_len
length-cert_contents cert = ground (
  arith,
  length-append (ber_len (length cert)) (cert ++ (0x71 ∷ 0x01 ∷ 0x00 ∷ 0xFE ∷ 0x00 ∷ [])),
  length-append cert (0x71 ∷ 0x01 ∷ 0x00 ∷ 0xFE ∷ 0x00 ∷ []),
  length-ber_len (length cert),
)

read_tlv-whole :
    (tag : ℕ) (contents : List ℕ)
    → length contents < 2 ^ 16
    → read_tlv (tag ∷ (ber_len (length contents) ++ contents))
      ≡ some (record { tag = tag; contents = contents; rest = [] })
read_tlv-whole tag contents h = rw append-nil at (read_tlv-write tag contents [] h)

length-ber_len-le : (len : ℕ) → length (ber_len len) ≤ 3
length-ber_len-le len = ground (arith, length-ber_len len)

inner_len-le : (n : ℕ) → inner_len n ≤ n + 9
unfolding inner_len
inner_len-le n = ground arith

-- The object that GET DATA builds around a certificate of at most 3994 bytes is one object with tag
-- 53 and nothing behind it, whose contents are the certificate under tag 70 followed by
-- 71 01 00 FE 00; and it fits the 4096 bytes of `cert_obj` and of the chaining buffer.
pub cert_object_lem :
    (cert : List ℕ)
    → length cert ≤ 3994
    → (read_tlv (cert_object cert)
        ≡ some (record { tag = 0x53; contents = cert_contents cert; rest = [] }))
      × (read_tlv (cert_contents cert)
          ≡ some (record {
            tag = 0x70;
            contents = cert;
            rest = 0x71 ∷ 0x01 ∷ 0x00 ∷ 0xFE ∷ 0x00 ∷ [];
          }))
      × (length (cert_object cert) ≤ 4096)
unfolding cert_object
cert_object_lem cert h =
    let inner = length-cert_contents cert in
    let small = inner_len-le (length cert) in
    (
      rw (← inner) (read_tlv-whole 0x53 (cert_contents cert) (omega (arith, small))),
      read_tlv-write 0x70 cert (0x71 ∷ 0x01 ∷ 0x00 ∷ 0xFE ∷ 0x00 ∷ []) (omega arith),
      omega (
        arith,
        small,
        inner,
        length-append (ber_len (inner_len (length cert))) (cert_contents cert),
        length-ber_len-le (inner_len (length cert)),
      ),
    )
