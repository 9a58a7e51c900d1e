-- ===== src/Soft/Flash.antt =====
-- The key sector of the flash: what `_flash_save` writes and `_flash_load` reads in
-- src/crypto_backend_soft.c, with the layout of include/config.h.
use ward3n.Base.{
  ℕ, ◌+◌, ◌*◌, ◌/◌, ◌%◌, ◌^◌, ◌<◌, ◌≡◌, Bool, not, ◌&&◌, List, [], ◌∷◌, length, take, slice,
  replicate, write_at, length-replicate, ltb, leb, ◌==◌, if◌then◌else◌,
}
use ward3n.Config.{
  flash_sector_size, key_storage_magic, ks_offset_magic, ks_offset_privkey, ks_offset_pubkey_x,
  ks_offset_pubkey_y, ks_offset_cert_len, ks_offset_cert_der, ks_max_cert_len,
}

-- The bytes of a `uint32_t` and of a `uint16_t` in memory, and the numbers that bytes stand for.
abbrev pub word32 : ℕ → List ℕ
word32 x = (x % 256) ∷ (x / 2 ^ 8 % 256) ∷ (x / 2 ^ 16 % 256) ∷ (x / 2 ^ 24 % 256) ∷ []

abbrev pub word16 : ℕ → List ℕ
word16 x = (x % 256) ∷ (x / 2 ^ 8 % 256) ∷ []

abbrev pub of_word : List ℕ → ℕ
of_word [] = 0
of_word (b ∷ bs) = b + 2 ^ 8 * of_word bs

-- `memset (sector, 0xFF, sizeof (sector))`
unfoldable pub blank : List ℕ
blank = replicate flash_sector_size 0xFF

-- What `_flash_save` is given, and what `_flash_load` finds.
pub record Stored : Type 0 where
  pub privkey : List ℕ
  pub pubkey_x : List ℕ
  pub pubkey_y : List ℕ
  pub cert_len : ℕ
  pub cert_der : List ℕ

-- The copies of `_flash_save` into the sector, one after the other.
abbrev pub with_magic : List ℕ
with_magic = write_at blank ks_offset_magic (word32 key_storage_magic)

abbrev pub with_privkey : Stored → List ℕ
with_privkey k = write_at with_magic ks_offset_privkey (take 32 k.privkey)

abbrev pub with_pubkey_x : Stored → List ℕ
with_pubkey_x k = write_at (with_privkey k) ks_offset_pubkey_x (take 32 k.pubkey_x)

abbrev pub with_pubkey_y : Stored → List ℕ
with_pubkey_y k = write_at (with_pubkey_x k) ks_offset_pubkey_y (take 32 k.pubkey_y)

abbrev pub with_cert_len : Stored → List ℕ
with_cert_len k = write_at (with_pubkey_y k) ks_offset_cert_len (word16 k.cert_len)

-- The sector that `_flash_save` programs after erasing it.
unfoldable pub flash_save : Stored → List ℕ
flash_save k =
    if not (k.cert_len == 0) && leb k.cert_len ks_max_cert_len
    then write_at (with_cert_len k) ks_offset_cert_der (take k.cert_len k.cert_der)
    else with_cert_len k

-- `_flash_is_initialized`
unfoldable pub is_initialized : List ℕ → Bool
is_initialized flash = of_word (slice ks_offset_magic 4 flash) == key_storage_magic

-- The copies at the head of `_flash_load`.
unfoldable pub flash_load : List ℕ → Stored
flash_load flash =
    let stored : ℕ = of_word (slice ks_offset_cert_len 2 flash) in
    let len : ℕ = if ltb ks_max_cert_len stored then 0 else stored in
    record {
      privkey = slice ks_offset_privkey 32 flash;
      pubkey_x = slice ks_offset_pubkey_x 32 flash;
      pubkey_y = slice ks_offset_pubkey_y 32 flash;
      cert_len = len;
      cert_der = slice ks_offset_cert_der len flash;
    }

-- A key pair with 32 bytes to a number, and a certificate of `cert_len` bytes, a 16-bit number.
pub record IsStored (k : Stored) : Type 0 where
  pub privkey_len : length k.privkey ≡ 32
  pub pubkey_x_len : length k.pubkey_x ≡ 32
  pub pubkey_y_len : length k.pubkey_y ≡ 32
  pub cert_word : k.cert_len < 2 ^ 16
  pub cert_bytes : length k.cert_der ≡ k.cert_len

pub length-blank : length blank ≡ 4096
unfolding blank
length-blank = length-replicate {A = ℕ} 4096 0xFF
