-- ===== src/CryptoBackend.antt =====
-- include/crypto_backend.h: the interface through which the applet uses a crypto backend. The soft
-- backend implements it; a secure element can take its place.
use ward3n.Base.{ℕ, ◌≤◌, List, length}

abbrev pub key_ref_9a : ℕ
key_ref_9a = 0x9A

abbrev pub alg_ecdsa_p256 : ℕ
alg_ecdsa_p256 = 0x11

pub record CryptoBackend : Type 1 where
  pub Keys : Type 0
  -- The bytes written for a key reference into a buffer of the given size; none is the result 0.
  pub get_cert_der : Keys → ℕ → ℕ → List ℕ
  -- `crypto_sign (key_ref, alg, hash, sig_out_len)`: the bytes written, and the backend afterwards.
  pub sign : Keys → ℕ → ℕ → List ℕ → ℕ → List ℕ × Keys
  pub get_cert_der-le : (k : Keys) (key_ref n : ℕ) → length (get_cert_der k key_ref n) ≤ n
  pub sign-le :
      (k : Keys) (key_ref alg : ℕ) (hash : List ℕ) (n : ℕ)
      → length (sign k key_ref alg hash n).0 ≤ n
