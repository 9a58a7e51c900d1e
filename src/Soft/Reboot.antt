-- ===== src/Soft/Reboot.antt =====
-- Two boots of src/crypto_backend_soft.c on the same flash.
use ward3n.Base.{
  ℕ, ◌≤◌, ◌≡◌, ◌∙◌, ap, true, false, List, length, take, drop, write_at, leb, take_all,
  take-write_at, length-take, length-drop, arith,
}
use mathlib.Core.Path.{subst}
use native.Mathlib.Nat.{zero-add}
use ward3n.Base.Int.{pos}
use ward3n.Soft.{Mbedtls, Soft, get_cert_der}
use ward3n.Soft.Flash.{IsStored, flash_save, flash_load, is_initialized}
use ward3n.Soft.Persist.{flash_load-flash_save}
use ward3n.Soft.Boot.{Setup, load, crypto_backend_init}
use ward3n.Soft.Generate.{normal, flash_save-normal, kept, generate_lem}

take_written :
    (dst src : List ℕ) (n : ℕ) → length src ≡ n → n ≤ length dst → take n (write_at dst 0 src) ≡ src
take_written dst src n e h =
    subst (λ k. take k (write_at dst 0 src) ≡ src) e
      (rw zero-add at (take-write_at dst 0 src (omega (arith, e))))

same_certificate :
    {Pk Drbg : Type 0} (s t : Soft Pk Drbg) (key_ref n : ℕ)
    → (s.initialized ≡ true) × (t.initialized ≡ true)
    → t.cert_len ≡ s.cert_len
    → take s.cert_len t.cert_der ≡ take s.cert_len s.cert_der
    → get_cert_der t key_ref n ≡ get_cert_der s key_ref n
unfolding get_cert_der
same_certificate s t key_ref n on len der = ground arith

module _ (M : Mbedtls) (T : Setup M) where
  open M use {Pk, Drbg, write_public_key}

  load-cert :
      (s : Soft Pk Drbg) (flash : List ℕ)
      → let s' = (load M T s flash).1 in
        (s'.cert_len ≡ (flash_load flash).cert_len)
        × (s'.cert_der ≡ write_at s.cert_der 0 (flash_load flash).cert_der)
  unfolding load
  load-cert s flash = (ground arith, ground arith)

  kept-IsStored :
      (s : Soft Pk Drbg)
      → length s.cert_der ≡ 3994
      → s.cert_len ≤ 3994
      → length (T.ecp_write_key_ext s.pk 32).1 ≡ 32
      → length (write_public_key s.pk 65).1 ≡ 65
      → IsStored (normal (kept M T s))
  kept-IsStored s room fits key point = record {
    privkey_len = omega (arith, length-take 32 (T.ecp_write_key_ext s.pk 32).1);
    pubkey_x_len = omega (
      arith,
      length-take 32 (drop 1 (write_public_key s.pk 65).1),
      length-drop 1 (write_public_key s.pk 65).1,
    );
    pubkey_y_len = omega (
      arith,
      length-take 32 (drop 33 (write_public_key s.pk 65).1),
      length-drop 33 (write_public_key s.pk 65).1,
    );
    cert_word = omega arith;
    cert_bytes = omega (arith, length-take s.cert_len s.cert_der);
  }

  -- The flash after a first boot, read again.
  reload :
      (s : Soft Pk Drbg)
      → length s.cert_der ≡ 3994
      → s.cert_len ≤ 3994
      → length (T.ecp_write_key_ext s.pk 32).1 ≡ 32
      → length (write_public_key s.pk 65).1 ≡ 65
      → (is_initialized (flash_save (kept M T s)) ≡ true)
        × (flash_load (flash_save (kept M T s)) ≡ normal (kept M T s))
  reload s room fits key point =
      let (set, same) =
        flash_load-flash_save (normal (kept M T s)) (kept-IsStored s room fits key point) in
      let small : leb s.cert_len 3994 ≡ true = ground arith in
      rw (flash_save-normal (kept M T s)) (set, rw small at same)

  init-first :
      (uid : List ℕ) (s : Soft Pk Drbg) (flash : List ℕ)
      → is_initialized flash ≡ false
      → length s.cert_der ≡ 3994
      → (crypto_backend_init M T uid s flash).0 ≡ pos 0
      → let (_, s', flash') = crypto_backend_init M T uid s flash in
        (flash' ≡ flash_save (kept M T s'))
        × (length s'.cert_der ≡ 3994)
        × (length (T.ecp_write_key_ext s'.pk 32).1 ≡ 32)
        × (length (write_public_key s'.pk 65).1 ≡ 65)
        × (s'.initialized ≡ true)
  unfolding crypto_backend_init
  init-first uid s flash blank_flash room ok =
      let s0 = record s {
        pk = T.pk_init;
        drbg = (T.ctr_drbg_seed T.ctr_drbg_init T.entropy_init uid).1;
      } in
      ground (arith, generate_lem M T uid s0 flash)

  init-again :
      (uid : List ℕ) (s : Soft Pk Drbg) (flash : List ℕ)
      → is_initialized flash ≡ true
      → (crypto_backend_init M T uid s flash).0 ≡ pos 0
      → let (_, s', flash') = crypto_backend_init M T uid s flash in
        (flash' ≡ flash)
        × (s'.cert_len ≡ (flash_load flash).cert_len)
        × (s'.cert_der ≡ write_at s.cert_der 0 (flash_load flash).cert_der)
        × (s'.initialized ≡ true)
  unfolding crypto_backend_init
  init-again uid s flash set ok =
      let s0 = record s {
        pk = T.pk_init;
        drbg = (T.ctr_drbg_seed T.ctr_drbg_init T.entropy_init uid).1;
      } in
      ground (arith, load-cert s0 flash)

  -- A first boot on a blank flash that succeeds, with a certificate of at most 3994 bytes, and a later
  -- boot on the flash that it leaves: the flash counts as initialized and holds the private key that
  -- was exported, and if the later boot succeeds too, it leaves the flash alone and hands out the
  -- first boot's certificate, whatever is asked for.
  pub boot_twice :
      (uid : List ℕ) (s t : Soft Pk Drbg) (flash : List ℕ)
      → is_initialized flash ≡ false
      → (length s.cert_der ≡ 3994) × (length t.cert_der ≡ 3994)
      → (crypto_backend_init M T uid s flash).0 ≡ pos 0
      → (crypto_backend_init M T uid s flash).1.cert_len ≤ 3994
      → (crypto_backend_init M T uid t (crypto_backend_init M T uid s flash).2).0 ≡ pos 0
      → let (_, s', flash') = crypto_backend_init M T uid s flash in
        let (_, t', flash'') = crypto_backend_init M T uid t flash' in
        (is_initialized flash' ≡ true)
        × ((flash_load flash').privkey ≡ (T.ecp_write_key_ext s'.pk 32).1)
        × (flash'' ≡ flash')
        × ((key_ref n : ℕ) → get_cert_der t' key_ref n ≡ get_cert_der s' key_ref n)
  boot_twice uid s t flash blank_flash room ok fits again =
      let s' = (crypto_backend_init M T uid s flash).1 in
      let flash' = (crypto_backend_init M T uid s flash).2 in
      let t' = (crypto_backend_init M T uid t flash').1 in
      let first = init-first uid s flash blank_flash room.0 ok in
      let back = reload s' first.1 fits first.2 first.3 in
      let set : is_initialized flash' ≡ true = ap is_initialized first.0 ∙ back.0 in
      let stored : flash_load flash' ≡ normal (kept M T s') = ap flash_load first.0 ∙ back.1 in
      let second = init-again uid t flash' set again in
      let len : t'.cert_len ≡ s'.cert_len = second.1 ∙ ap (λ k. k.cert_len) stored in
      let der : take s'.cert_len t'.cert_der ≡ take s'.cert_len s'.cert_der =
        ap (take s'.cert_len) (second.2 ∙ ap (λ k. write_at t.cert_der 0 k.cert_der) stored)
        ∙ take_written t.cert_der (take s'.cert_len s'.cert_der) s'.cert_len
            (omega (arith, length-take s'.cert_len s'.cert_der, first.1)) (omega (arith, room)) in
      (
        set,
        ap (λ k. k.privkey) stored
            ∙ take_all 32 (T.ecp_write_key_ext s'.pk 32).1 (omega (arith, first.2)),
        second.0,
        λ key_ref n. same_certificate s' t' key_ref n (first.4, second.3) len der,
      )
