-- ===== src/Soft/Generate.antt =====
-- What a first boot of src/crypto_backend_soft.c leaves: `_generate_and_persist` when it succeeds.
use ward3n.Base.{
  ℕ, ◌-◌, ◌^◌, ◌<◌, ◌≡◌, refl, List, length, take, drop, take-take, length-write_at, arith,
  Bool-cases, inl, inr,
}
use ward3n.Base.Int.{pos, is_le_zero}
use ward3n.Soft.{Mbedtls, Soft}
use ward3n.Soft.Flash.{Stored, flash_save}
use ward3n.Soft.Boot.{Setup, magnitude, persist, generate_and_persist, fill_certificate}

-- What `flash_save` reads of its arguments.
abbrev pub normal : Stored → Stored
normal k = record {
  privkey = take 32 k.privkey;
  pubkey_x = take 32 k.pubkey_x;
  pubkey_y = take 32 k.pubkey_y;
  cert_len = k.cert_len;
  cert_der = take k.cert_len k.cert_der;
}

pub flash_save-normal : (k : Stored) → flash_save k ≡ flash_save (normal k)
unfolding flash_save
flash_save-normal k =
    rw
      (
        take-take 32 32 k.privkey (omega arith),
        take-take 32 32 k.pubkey_x (omega arith),
        take-take 32 32 k.pubkey_y (omega arith),
        take-take k.cert_len k.cert_len k.cert_der (omega arith),
      )
      refl

module _ (M : Mbedtls) (T : Setup M) where
  open M use {Pk, Drbg, write_public_key}

  -- What `_generate_and_persist` leaves when it succeeds.
  abbrev pub kept : Soft Pk Drbg → Stored
  kept s = record {
    privkey = (T.ecp_write_key_ext s.pk 32).1;
    pubkey_x = drop 1 (write_public_key s.pk 65).1;
    pubkey_y = drop 33 (write_public_key s.pk 65).1;
    cert_len = s.cert_len;
    cert_der = s.cert_der;
  }

  persist_lem :
      (privkey point : List ℕ) (crt : Setup.Crt T) (s : Soft Pk Drbg) (flash : List ℕ)
      → (persist M T privkey point crt s flash).0 ≡ pos 0
      → let (_, s', flash') = persist M T privkey point crt s flash in
        (flash'
          ≡ flash_save (record {
            privkey = privkey;
            pubkey_x = drop 1 point;
            pubkey_y = drop 33 point;
            cert_len = s'.cert_len;
            cert_der = s'.cert_der;
          }))
        × (length s'.cert_der ≡ length s.cert_der)
        × (s'.cert_len < 2 ^ 16)
        × (s'.pk ≡ s.pk)
  unfolding persist
  persist_lem privkey point crt s flash ok =
      let out = T.write_crt_der crt 4096 s.drbg in
      elim (Bool-cases (is_le_zero out.0)) [
        | inl none_written ↦ absurd (ground (arith, T.write_crt_der_lem crt 4096 s.drbg 0))
        | inr some_written ↦ ground (
          arith,
          length-write_at s.cert_der 0
              (take (magnitude out.0) (drop (4096 - magnitude out.0) out.1)),
        )
      ]

  pub generate_lem :
      (uid : List ℕ) (s : Soft Pk Drbg) (flash : List ℕ)
      → (generate_and_persist M T uid s flash).0 ≡ pos 0
      → let (_, s', flash') = generate_and_persist M T uid s flash in
        (flash' ≡ flash_save (kept s'))
        × (length s'.cert_der ≡ length s.cert_der)
        × (s'.cert_len < 2 ^ 16)
        × (length (T.ecp_write_key_ext s'.pk 32).1 ≡ 32)
        × (length (write_public_key s'.pk 65).1 ≡ 65)
  unfolding generate_and_persist
  generate_lem uid s flash ok =
      let pk0 = (T.pk_setup T.pk_init).1 in
      let made = T.ecp_gen_key pk0 s.drbg in
      let pk = made.1 in
      let s0 = record s { pk = pk; drbg = made.2 } in
      let privkey = (T.ecp_write_key_ext pk 32).1 in
      let point = (write_public_key pk 65).1 in
      let crt = (fill_certificate M T uid pk).1 in
      ground (arith, persist_lem privkey point crt s0 flash, T.ecp_write_key_ext_lem pk)
