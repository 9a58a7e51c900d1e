-- ===== src/Soft/Backend.antt =====
-- The software backend of src/crypto_backend_soft.c as a backend of include/crypto_backend.h.
use ward3n.Base.{
  ℕ, ◌≤◌, ◌≡◌, ◌≢◌, true, false, not, ◌&&◌, List, [], length, length-take, arith, ltb, ◌==◌,
}
use ward3n.Base.Int.{pos}
use ward3n.CryptoBackend.{CryptoBackend, key_ref_9a, alg_ecdsa_p256}
use ward3n.Soft.{Mbedtls, Soft, get_cert_der, sign}

pub get_cert_der-le :
    {Pk Drbg : Type 0} (s : Soft Pk Drbg) (key_ref n : ℕ) → length (get_cert_der s key_ref n) ≤ n
unfolding get_cert_der
get_cert_der-le s key_ref n = ground (arith, length-take s.cert_len s.cert_der)

module _ (M : Mbedtls) where
  open M use {Pk, Drbg, pk_sign, pk_sign-le, write_public_key}

  pub sign-le :
      (s : Soft Pk Drbg) (key_ref alg : ℕ) (hash : List ℕ) (n : ℕ)
      → length (sign M s key_ref alg hash n).0 ≤ n
  unfolding sign
  sign-le s key_ref alg hash n = ground (arith, pk_sign-le s.pk hash n s.drbg)

  -- The backend that the applet is linked with.
  abbrev pub soft_backend : CryptoBackend
  soft_backend = record {
    Keys = Soft Pk Drbg;
    get_cert_der = get_cert_der;
    sign = sign M;
    get_cert_der-le = get_cert_der-le;
    sign-le = sign-le;
  }

  -- `crypto_sign` signs exactly the 32-byte hashes for the key 9A and P-256, once the backend is
  -- initialized and with room for 72 bytes: then the bytes are mbedTLS's, or none where its call
  -- fails. In every other case nothing is written and neither the key nor the generator is used.
  pub sign_lem :
      (s : Soft Pk Drbg) (key_ref alg : ℕ) (hash : List ℕ) (n : ℕ)
      → let (ret, sig, drbg) = pk_sign s.pk hash n s.drbg in
        let accepted =
          s.initialized
          && key_ref == key_ref_9a
          && alg == alg_ecdsa_p256
          && length hash == 32
          && not (ltb n 72) in
        (accepted ≡ true
          → ret ≡ pos 0
          → sign M s key_ref alg hash n ≡ (sig, record s { drbg = drbg }))
        × (accepted ≡ true
            → ret ≢ pos 0
            → sign M s key_ref alg hash n ≡ ([], record s { drbg = drbg }))
        × (accepted ≡ false → sign M s key_ref alg hash n ≡ ([], s))
  unfolding sign
  sign_lem s key_ref alg hash n = (λ a e. ground arith, λ a ne. ground arith, λ a. ground arith)
