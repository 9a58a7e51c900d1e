-- ===== src/Soft.antt =====
-- src/crypto_backend_soft.c: the software backend over mbedTLS. The library's contexts and its calls
-- are parameters of the model.
pub mod Flash
pub mod Persist
pub mod PowerLoss
pub mod Backend
pub mod Boot
pub mod Generate
pub mod Reboot
use ward3n.Base.{
  ℕ, ◌≤◌, ◌≡◌, Bool, true, false, not, ◌&&◌, ◌||◌, List, [], length, take, ltb, ◌==◌, if◌then◌else◌,
}
use ward3n.Base.Int.{ℤ, pos, negsuc}
use ward3n.CryptoBackend.{key_ref_9a, alg_ecdsa_p256}

-- `ret != 0`
abbrev pub failed : ℤ → Bool
failed (pos n) = not (n == 0)
failed (negsuc n) = true

-- The contexts of mbedTLS, and the two calls that the public functions make.
pub record Mbedtls : Type 1 where
  pub Pk : Type 0
  pub Drbg : Type 0
  -- `mbedtls_pk_sign` with SHA-256: the result, the bytes written (`*sig_len` of them), and the
  -- generator afterwards.
  pub pk_sign : Pk → List ℕ → ℕ → Drbg → ℤ × List ℕ × Drbg
  -- `mbedtls_ecp_write_public_key`, uncompressed: the result and the bytes written.
  pub write_public_key : Pk → ℕ → ℤ × List ℕ
  -- The signature's length is at most the size of its buffer.
  pub pk_sign-le :
      (pk : Pk) (hash : List ℕ) (size : ℕ) (d : Drbg) → length (pk_sign pk hash size d).1 ≤ size

-- The static variables.
pub record Soft (Pk Drbg : Type 0) : Type 0 where
  pub initialized : Bool
  pub pk : Pk
  pub drbg : Drbg
  pub cert_der : List ℕ
  pub cert_len : ℕ

module _ {Pk Drbg : Type 0} where
  -- `crypto_get_cert_der`; no bytes is the result 0.
  unfoldable pub get_cert_der : Soft Pk Drbg → ℕ → ℕ → List ℕ
  get_cert_der s key_ref buf_len =
      if not s.initialized || not (key_ref == key_ref_9a)
      then []
      else (if s.cert_len == 0 || ltb buf_len s.cert_len then [] else take s.cert_len s.cert_der)

module _ (M : Mbedtls) where
  open M use {Pk, Drbg, pk_sign, write_public_key}

  -- `crypto_get_pubkey`
  unfoldable pub get_pubkey : Soft Pk Drbg → ℕ → ℕ → List ℕ
  get_pubkey s key_ref buf_len =
      let (ret, point) = write_public_key s.pk buf_len in
      if not s.initialized || not (key_ref == key_ref_9a)
      then []
      else (if ltb buf_len 65
          then []
          else (if failed ret || not (length point == 65) then [] else point))

  -- `crypto_sign`, for a hash of `length hash` bytes
  unfoldable pub sign : Soft Pk Drbg → ℕ → ℕ → List ℕ → ℕ → List ℕ × Soft Pk Drbg
  sign s key_ref alg hash sig_out_len =
      let (ret, sig, drbg) = pk_sign s.pk hash sig_out_len s.drbg in
      let s' = record s { drbg = drbg } in
      if not s.initialized
      then ([], s)
      else (if not (key_ref == key_ref_9a) || not (alg == alg_ecdsa_p256)
          then ([], s)
          else (if not (length hash == 32)
              then ([], s)
              else (if ltb sig_out_len 72
                  then ([], s)
                  else (if failed ret then ([], s') else (sig, s')))))
