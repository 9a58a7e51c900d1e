-- ===== src/Soft/Boot.antt =====
-- The boot of src/crypto_backend_soft.c: `_generate_and_persist`, the rest of `_flash_load`, and
-- `crypto_backend_init`, over the calls of mbedTLS that they make. The flash is the key sector. The
-- contexts that are freed at the end of a function are values that nothing keeps.
use ward3n.Base.{
  ℕ, ◌-◌, ◌%◌, ◌^◌, ◌≤◌, ◌≡◌, true, not, ◌||◌, List, [], ◌∷◌, ◌++◌, length, take, drop, write_at,
  ◌==◌, if◌then◌else◌,
}
use ward3n.Base.Int.{ℤ, pos, negsuc, is_le_zero}
use ward3n.Soft.{Mbedtls, Soft, failed}
use ward3n.Soft.Flash.{flash_save, flash_load, is_initialized}

-- The calls of mbedTLS: each gives its result and the context afterwards. The constants that the code
-- passes (the curve, the hash, the version, the random source) belong to the call.
pub record Setup (M : Mbedtls) : Type 1 where
  pub Entropy : Type 0
  pub Crt : Type 0
  pub Mpi : Type 0
  pub entropy_init : Entropy
  pub ctr_drbg_init : Mbedtls.Drbg M
  pub pk_init : Mbedtls.Pk M
  pub ctr_drbg_seed : Mbedtls.Drbg M → Entropy → List ℕ → ℤ × Mbedtls.Drbg M × Entropy
  pub pk_setup : Mbedtls.Pk M → ℤ × Mbedtls.Pk M
  pub ecp_read_key : Mbedtls.Pk M → List ℕ → ℤ × Mbedtls.Pk M
  pub ecp_point_read_binary : List ℕ → ℤ
  pub ecp_keypair_calc_public : Mbedtls.Pk M → Mbedtls.Drbg M → ℤ × Mbedtls.Pk M × Mbedtls.Drbg M
  pub ecp_gen_key : Mbedtls.Pk M → Mbedtls.Drbg M → ℤ × Mbedtls.Pk M × Mbedtls.Drbg M
  -- The result and the bytes of the buffer, of the given size.
  pub ecp_write_key_ext : Mbedtls.Pk M → ℕ → ℤ × List ℕ
  pub crt_init : Crt
  pub mpi_init : Mpi
  pub set_subject_key : Mbedtls.Pk M → Crt → Crt
  pub set_issuer_key : Mbedtls.Pk M → Crt → Crt
  pub set_version : Crt → Crt
  pub set_md_alg : Crt → Crt
  pub set_subject_name : List ℕ → Crt → ℤ × Crt
  pub set_issuer_name : List ℕ → Crt → ℤ × Crt
  pub mpi_read_binary : Mpi → List ℕ → ℤ × Mpi
  pub set_serial : Mpi → Crt → ℤ × Crt
  pub set_validity : List ℕ → List ℕ → Crt → ℤ × Crt
  pub set_basic_constraints : Crt → ℤ × Crt
  pub set_subject_key_identifier : Crt → ℤ × Crt
  pub set_authority_key_identifier : Crt → ℤ × Crt
  pub set_key_usage : Crt → ℤ × Crt
  -- The extended key usage, not critical, with the bytes of its value.
  pub set_extension : List ℕ → Crt → ℤ × Crt
  -- The result, and the bytes of the buffer, of the given size, at whose end it writes.
  pub write_crt_der : Crt → ℕ → Mbedtls.Drbg M → ℤ × List ℕ × Mbedtls.Drbg M
  -- The private key fills its 32 bytes.
  pub ecp_write_key_ext_lem :
      (pk : Mbedtls.Pk M)
      → (ecp_write_key_ext pk 32).0 ≡ pos 0
      → length (ecp_write_key_ext pk 32).1 ≡ 32
  -- The buffer keeps its size; a result that is not negative is the number of bytes written, which is
  -- positive and no more than fits.
  pub write_crt_der_lem :
      (crt : Crt) (size : ℕ) (d : Mbedtls.Drbg M) (n : ℕ)
      → (write_crt_der crt size d).0 ≡ pos n
      → (length (write_crt_der crt size d).1 ≡ size) × (1 ≤ n) × (n ≤ size)

abbrev pub subject : List ℕ
subject =
    b'C' ∷ b'N' ∷ b'=' ∷ b'w' ∷ b'a' ∷ b'r' ∷ b'd' ∷ b'3' ∷ b'n' ∷ b' ' ∷ b'P' ∷ b'I' ∷ b'V' ∷ b' '
    ∷ b'K' ∷ b'e' ∷ b'y' ∷ b',' ∷ b'O' ∷ b'=' ∷ b'w' ∷ b'a' ∷ b'r' ∷ b'd' ∷ b'3' ∷ b'n' ∷ b','
    ∷ b'C' ∷ b'=' ∷ b'U' ∷ b'S' ∷ []

abbrev pub not_before : List ℕ
not_before =
    b'2' ∷ b'0' ∷ b'2' ∷ b'4' ∷ b'0' ∷ b'1' ∷ b'0' ∷ b'1' ∷ b'0' ∷ b'0' ∷ b'0' ∷ b'0' ∷ b'0' ∷ b'0'
    ∷ []

abbrev pub not_after : List ℕ
not_after =
    b'2' ∷ b'0' ∷ b'9' ∷ b'9' ∷ b'1' ∷ b'2' ∷ b'3' ∷ b'1' ∷ b'2' ∷ b'3' ∷ b'5' ∷ b'9' ∷ b'5' ∷ b'9'
    ∷ []

abbrev pub eku_der : List ℕ
eku_der = 0x30 ∷ 0x0A ∷ 0x06 ∷ 0x08 ∷ 0x2B ∷ 0x06 ∷ 0x01 ∷ 0x05 ∷ 0x05 ∷ 0x07 ∷ 0x03 ∷ 0x02 ∷ []

-- `if (ret != 0) goto cert_cleanup;` after each call of a list.
abbrev pub all_calls : {Crt : Type 0} → List (Crt → ℤ × Crt) → Crt → ℤ × Crt
all_calls [] crt = (pos 0, crt)
all_calls (call ∷ calls) crt =
    let (ret, crt') = call crt in if failed ret then (ret, crt') else all_calls calls crt'

-- `written`, where it is positive.
abbrev pub magnitude : ℤ → ℕ
magnitude (pos n) = n
magnitude (negsuc n) = 0

module _ (M : Mbedtls) (T : Setup M) where
  open M use {Pk, Drbg, write_public_key}
  open T use {Crt}

  -- The certificate's fields: `uid` is the board's identifier.
  unfoldable pub fill_certificate : List ℕ → Pk → ℤ × Crt
  fill_certificate uid pk =
      let started =
        T.set_md_alg (T.set_version (T.set_issuer_key pk (T.set_subject_key pk T.crt_init))) in
      let (ret, serial) = T.mpi_read_binary T.mpi_init uid in
      all_calls
        (T.set_subject_name subject
          ∷ T.set_issuer_name subject
          ∷ (λ crt. (ret, crt))
          ∷ T.set_serial serial
          ∷ T.set_validity not_before not_after
          ∷ T.set_basic_constraints
          ∷ T.set_subject_key_identifier
          ∷ T.set_authority_key_identifier
          ∷ T.set_key_usage
          ∷ T.set_extension eku_der
          ∷ [])
        started

  -- From the certificate on: its bytes go to the front of `_cert_9a_der`, and all is stored. (What a
  -- certificate of more than 3994 bytes overwrites behind that buffer is not modelled.)
  unfoldable pub persist : List ℕ → List ℕ → Crt → Soft Pk Drbg → List ℕ → ℤ × Soft Pk Drbg × List ℕ
  persist privkey point crt s flash =
      let (written, tmp, drbg) = T.write_crt_der crt 4096 s.drbg in
      let n : ℕ = magnitude written in
      let s' = record s {
        drbg = drbg;
        cert_len = n % 2 ^ 16;
        cert_der = write_at s.cert_der 0 (take n (drop (4096 - n) tmp));
      } in
      if is_le_zero written then (written, record s { drbg = drbg }, flash) else (
        pos 0,
        s',
        flash_save (record {
          privkey = privkey;
          pubkey_x = drop 1 point;
          pubkey_y = drop 33 point;
          cert_len = s'.cert_len;
          cert_der = s'.cert_der;
        }),
      )

  -- `_generate_and_persist`
  unfoldable pub generate_and_persist : List ℕ → Soft Pk Drbg → List ℕ → ℤ × Soft Pk Drbg × List ℕ
  generate_and_persist uid s flash =
      let (set_up, pk0) = T.pk_setup T.pk_init in
      let (generated, pk, drbg) = T.ecp_gen_key pk0 s.drbg in
      let s' = record s { pk = pk; drbg = drbg } in
      let (exported, privkey) = T.ecp_write_key_ext pk 32 in
      let (written, point) = write_public_key pk 65 in
      let (filled, crt) = fill_certificate uid pk in
      if failed set_up
      then (set_up, record s { pk = pk0 }, flash)
      else (if failed generated
          then (generated, s', flash)
          else (if failed exported
              then (exported, s', flash)
              else (if failed written || not (length point == 65)
                  then (if failed written then written else negsuc 0, s', flash)
                  else (if failed filled
                      then (filled, s', flash)
                      else persist privkey point crt s' flash))))

  -- `_flash_load`
  unfoldable pub load : Soft Pk Drbg → List ℕ → ℤ × Soft Pk Drbg
  load s flash =
      let k = flash_load flash in
      let s' = record s { cert_len = k.cert_len; cert_der = write_at s.cert_der 0 k.cert_der } in
      let (set_up, pk0) = T.pk_setup T.pk_init in
      let (read, pk1) = T.ecp_read_key pk0 k.privkey in
      let point_ok : ℤ = T.ecp_point_read_binary (0x04 ∷ (k.pubkey_x ++ k.pubkey_y)) in
      let (calculated, pk, drbg) = T.ecp_keypair_calc_public pk1 s.drbg in
      if failed set_up
      then (set_up, record s' { pk = pk0 })
      else (if failed read
          then (read, record s' { pk = pk1 })
          else (if failed point_ok
              then (point_ok, record s' { pk = pk1 })
              else (calculated, record s' { pk = pk; drbg = drbg })))

  -- `crypto_backend_init`: the result, the static variables and the flash afterwards.
  unfoldable pub crypto_backend_init : List ℕ → Soft Pk Drbg → List ℕ → ℤ × Soft Pk Drbg × List ℕ
  crypto_backend_init uid s flash =
      let (seeded, drbg, _) = T.ctr_drbg_seed T.ctr_drbg_init T.entropy_init uid in
      let s0 = record s { pk = T.pk_init; drbg = drbg } in
      let (loaded, s1) = load s0 flash in
      let (made, s2, flash') = generate_and_persist uid s0 flash in
      if failed seeded
      then (seeded, s0, flash)
      else (if is_initialized flash
          then (if failed loaded
              then (loaded, s1, flash)
              else (pos 0, record s1 { initialized = true }, flash))
          else (if failed made
              then (made, s2, flash')
              else (pos 0, record s2 { initialized = true }, flash')))
