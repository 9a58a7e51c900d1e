-- ===== src/Soft/Persist.antt =====
-- Saving to and loading from the key sector in src/crypto_backend_soft.c.
use ward3n.Base.{
  ℕ, ◌+◌, ◌≤◌, ◌≡◌, refl, sym, ◌∙◌, ap, true, false, not, ◌&&◌, List, [], length, take, slice,
  write_at, length-write_at, slice-write_at_self, slice-write_at_behind, take_all, arith, ltb, leb,
  ◌==◌, nil_of_length, le→leb, leb→le, if_both, if◌then◌else◌, Bool-cases, inl, inr,
}
use mathlib.Core.Path.{subst}
use ward3n.Config.{key_storage_magic}
use ward3n.Soft.Flash.{
  Stored, IsStored, blank, length-blank, word16, word32, of_word, with_magic, with_privkey,
  with_pubkey_x, with_pubkey_y, with_cert_len, flash_save, is_initialized, flash_load,
}

length-with_magic : length with_magic ≡ 4096
length-with_magic = length-write_at blank 0 (word32 key_storage_magic) ∙ length-blank

slice_written :
    (dst : List ℕ) (off : ℕ) (src : List ℕ) (n : ℕ)
    → length src ≡ n
    → off + n ≤ length dst
    → slice off n (write_at dst off src) ≡ src
slice_written dst off src n e h =
    subst (λ t. slice off t (write_at dst off src) ≡ src) e
      (slice-write_at_self dst off src (omega (arith, e)))

module _ (k : Stored) where
  length-with_privkey : length (with_privkey k) ≡ 4096
  length-with_privkey = length-write_at with_magic 4 (take 32 k.privkey) ∙ length-with_magic

  length-with_pubkey_x : length (with_pubkey_x k) ≡ 4096
  length-with_pubkey_x =
      length-write_at (with_privkey k) 36 (take 32 k.pubkey_x) ∙ length-with_privkey

  length-with_pubkey_y : length (with_pubkey_y k) ≡ 4096
  length-with_pubkey_y =
      length-write_at (with_pubkey_x k) 68 (take 32 k.pubkey_y) ∙ length-with_pubkey_x

  length-with_cert_len : length (with_cert_len k) ≡ 4096
  length-with_cert_len =
      length-write_at (with_pubkey_y k) 100 (word16 k.cert_len) ∙ length-with_pubkey_y

  pub length-flash_save : length (flash_save k) ≡ 4096
  unfolding flash_save
  length-flash_save =
      if_both (λ (t : List ℕ). length t ≡ 4096) (not (k.cert_len == 0) && leb k.cert_len 3994)
        (length-write_at (with_cert_len k) 102 (take k.cert_len k.cert_der) ∙ length-with_cert_len)
        length-with_cert_len

module _ (k : Stored) (v : IsStored k) where
  priv : take 32 k.privkey ≡ k.privkey
  priv = take_all 32 k.privkey (omega (arith, v.privkey_len))

  pub_x : take 32 k.pubkey_x ≡ k.pubkey_x
  pub_x = take_all 32 k.pubkey_x (omega (arith, v.pubkey_x_len))

  pub_y : take 32 k.pubkey_y ≡ k.pubkey_y
  pub_y = take_all 32 k.pubkey_y (omega (arith, v.pubkey_y_len))

  cert : take k.cert_len k.cert_der ≡ k.cert_der
  cert = take_all k.cert_len k.cert_der (omega (arith, v.cert_bytes))

  -- The certificate stands behind all else.
  before_cert : (m n : ℕ) → m + n ≤ 102 → slice m n (flash_save k) ≡ slice m n (with_cert_len k)
  unfolding flash_save
  before_cert m n h =
      if_both (λ t. slice m n t ≡ slice m n (with_cert_len k))
        (not (k.cert_len == 0) && leb k.cert_len 3994)
        (slice-write_at_behind (with_cert_len k) 102 (take k.cert_len k.cert_der) m n h) refl

  pub saved_magic : slice 0 4 (flash_save k) ≡ word32 key_storage_magic
  saved_magic =
      before_cert 0 4 (omega arith)
      ∙ slice-write_at_behind (with_pubkey_y k) 100 (word16 k.cert_len) 0 4 (omega arith)
      ∙ slice-write_at_behind (with_pubkey_x k) 68 (take 32 k.pubkey_y) 0 4 (omega arith)
      ∙ slice-write_at_behind (with_privkey k) 36 (take 32 k.pubkey_x) 0 4 (omega arith)
      ∙ slice-write_at_behind with_magic 4 (take 32 k.privkey) 0 4 (omega arith)
      ∙ slice-write_at_self blank 0 (word32 key_storage_magic) (omega (arith, length-blank))

  pub saved_privkey : slice 4 32 (flash_save k) ≡ k.privkey
  saved_privkey =
      before_cert 4 32 (omega arith)
      ∙ slice-write_at_behind (with_pubkey_y k) 100 (word16 k.cert_len) 4 32 (omega arith)
      ∙ slice-write_at_behind (with_pubkey_x k) 68 (take 32 k.pubkey_y) 4 32 (omega arith)
      ∙ slice-write_at_behind (with_privkey k) 36 (take 32 k.pubkey_x) 4 32 (omega arith)
      ∙ rw priv
          (slice_written with_magic 4 k.privkey 32 v.privkey_len (omega (arith, length-with_magic)))

  pub saved_pubkey_x : slice 36 32 (flash_save k) ≡ k.pubkey_x
  saved_pubkey_x =
      before_cert 36 32 (omega arith)
      ∙ slice-write_at_behind (with_pubkey_y k) 100 (word16 k.cert_len) 36 32 (omega arith)
      ∙ slice-write_at_behind (with_pubkey_x k) 68 (take 32 k.pubkey_y) 36 32 (omega arith)
      ∙ rw pub_x (
          slice_written (with_privkey k) 36 k.pubkey_x 32 v.pubkey_x_len
            (omega (arith, length-with_privkey k)))

  pub saved_pubkey_y : slice 68 32 (flash_save k) ≡ k.pubkey_y
  saved_pubkey_y =
      before_cert 68 32 (omega arith)
      ∙ slice-write_at_behind (with_pubkey_y k) 100 (word16 k.cert_len) 68 32 (omega arith)
      ∙ rw pub_y (
          slice_written (with_pubkey_x k) 68 k.pubkey_y 32 v.pubkey_y_len
            (omega (arith, length-with_pubkey_x k)))

  pub saved_cert_len : of_word (slice 100 2 (flash_save k)) ≡ k.cert_len
  saved_cert_len =
      ap of_word (
        before_cert 100 2 (omega arith)
        ∙ slice-write_at_self (with_pubkey_y k) 100 (word16 k.cert_len)
            (omega (arith, length-with_pubkey_y k)))
      ∙ omega (arith, v.cert_word)

  pub saved_cert : k.cert_len ≤ 3994 → slice 102 k.cert_len (flash_save k) ≡ k.cert_der
  unfolding flash_save
  saved_cert small = elim (Bool-cases (k.cert_len == 0)) [
    | inl empty ↦
        let none_left : k.cert_len ≡ 0 = ground arith in
        rw none_left (sym (nil_of_length k.cert_der (v.cert_bytes ∙ none_left)))
    | inr some_left ↦
        rw (some_left, le→leb k.cert_len 3994 small, cert)
          (slice_written (with_cert_len k) 102 k.cert_der k.cert_len v.cert_bytes
            (omega (arith, length-with_cert_len k)))
  ]

-- What a first boot stores, key material of 32 bytes each and a certificate whose length is a 16-bit
-- number, a later boot finds: the sector counts as initialized, and the private
-- key, both halves of the public key and a certificate of at most 3994 bytes are read back as they
-- were. A longer certificate is not stored: the key pair is read back with no certificate.
pub flash_load-flash_save :
    (k : Stored)
    → IsStored k
    → (is_initialized (flash_save k) ≡ true)
      × (flash_load (flash_save k)
          ≡ (if leb k.cert_len 3994 then k else record k { cert_len = 0; cert_der = [] }))
unfolding is_initialized flash_load
flash_load-flash_save k v = (
  rw (saved_magic k v) refl,
  elim (Bool-cases (leb k.cert_len 3994)) [
    | inl fits ↦
        let small : ltb 3994 k.cert_len ≡ false = ground arith in
        rw
          (
            fits,
            saved_cert_len k v,
            small,
            saved_privkey k v,
            saved_pubkey_x k v,
            saved_pubkey_y k v,
            saved_cert k v (leb→le k.cert_len 3994 fits),
          )
          refl
    | inr long ↦
        let big : ltb 3994 k.cert_len ≡ true = ground arith in
        rw
          (long, saved_cert_len k v, big, saved_privkey k v, saved_pubkey_x k v, saved_pubkey_y k v)
          refl
  ],
)
