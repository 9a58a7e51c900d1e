-- ===== src/Tests/Booting.antt =====
-- Two boots with a library whose calls succeed.
use ward3n.Base.{
  ℕ, suc, ◌≤◌, ◌≡◌, refl, true, false, List, [], ◌∷◌, length, replicate, length-replicate, arith,
  write_at, leb, if◌then◌else◌,
}
use ward3n.Base.Int.{ℤ, pos, negsuc}
use ward3n.Soft.{Soft, get_cert_der}
use ward3n.Soft.Flash.{is_initialized, flash_load, flash_save, blank}
use ward3n.Soft.Boot.{
  Setup, crypto_backend_init, generate_and_persist, load, persist, fill_certificate,
}
use ward3n.Soft.Reboot.{boot_twice}
use ward3n.Tests.Fixtures.{library}

-- The certificate has 300 bytes; a smaller buffer is an error.
abbrev pub written : ℕ → ℤ
written size = if leb 300 size then pos 300 else negsuc 41

pub written_lem :
    (size n : ℕ)
    → written size ≡ pos n
    → (length {A = ℕ} (replicate size 0x30) ≡ size) × (1 ≤ n) × (n ≤ size)
written_lem size n ok = ground (arith, length-replicate {A = ℕ} size 0x30)

abbrev pub setup : Setup library
setup = record {
  Entropy = Unit;
  Crt = ℕ;
  Mpi = List ℕ;
  entropy_init = tt;
  ctr_drbg_init = 0;
  pk_init = 0;
  ctr_drbg_seed = λ d e uid. (pos 0, 1, tt);
  pk_setup = λ pk. (pos 0, 1);
  ecp_read_key = λ pk key. (pos 0, 7);
  ecp_point_read_binary = λ point. pos 0;
  ecp_keypair_calc_public = λ pk d. (pos 0, pk, suc d);
  ecp_gen_key = λ pk d. (pos 0, 7, suc d);
  ecp_write_key_ext = λ pk size. (pos 0, replicate 32 pk);
  crt_init = 0;
  mpi_init = [];
  set_subject_key = λ pk crt. suc crt;
  set_issuer_key = λ pk crt. suc crt;
  set_version = λ crt. suc crt;
  set_md_alg = λ crt. suc crt;
  set_subject_name = λ name crt. (pos 0, suc crt);
  set_issuer_name = λ name crt. (pos 0, suc crt);
  mpi_read_binary = λ n bytes. (pos 0, bytes);
  set_serial = λ n crt. (pos 0, suc crt);
  set_validity = λ from to crt. (pos 0, suc crt);
  set_basic_constraints = λ crt. (pos 0, suc crt);
  set_subject_key_identifier = λ crt. (pos 0, suc crt);
  set_authority_key_identifier = λ crt. (pos 0, suc crt);
  set_key_usage = λ crt. (pos 0, suc crt);
  set_extension = λ bytes crt. (pos 0, suc crt);
  write_crt_der = λ crt size d. (written size, replicate size 0x30, suc d);
  ecp_write_key_ext_lem = λ pk ok. length-replicate {A = ℕ} 32 pk;
  write_crt_der_lem = λ crt size d n ok. written_lem size n ok;
}

abbrev pub off : Soft ℕ ℕ
off = record { initialized = false; pk = 0; drbg = 0; cert_der = replicate 3994 0; cert_len = 0 }

blank_flash : is_initialized blank ≡ false
unfolding is_initialized blank
blank_flash = refl

first_boot :
    let (ret, s, flash) = crypto_backend_init library setup (1 ∷ 2 ∷ []) off blank in
    (ret ≡ pos 0) × (s.cert_len ≡ 300)
unfolding crypto_backend_init generate_and_persist fill_certificate persist is_initialized blank
first_boot = (refl, refl)

later_boot :
    let flash = (crypto_backend_init library setup (1 ∷ 2 ∷ []) off blank).2 in
    (crypto_backend_init library setup (1 ∷ 2 ∷ []) off flash).0 ≡ pos 0
unfolding crypto_backend_init generate_and_persist fill_certificate persist is_initialized blank
    load flash_save write_at
later_boot = refl

boot_twice_example :
    let (_, s', flash') = crypto_backend_init library setup (1 ∷ 2 ∷ []) off blank in
    let (_, t', flash'') = crypto_backend_init library setup (1 ∷ 2 ∷ []) off flash' in
    (is_initialized flash' ≡ true)
    × ((flash_load flash').privkey ≡ (Setup.ecp_write_key_ext setup s'.pk 32).1)
    × (flash'' ≡ flash')
    × ((key_ref n : ℕ) → get_cert_der t' key_ref n ≡ get_cert_der s' key_ref n)
boot_twice_example =
    boot_twice library setup (1 ∷ 2 ∷ []) off off blank blank_flash
      (length-replicate {A = ℕ} 3994 0, length-replicate {A = ℕ} 3994 0) first_boot.0
      (omega (arith, first_boot.1)) later_boot
