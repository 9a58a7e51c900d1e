-- ===== src/Tests/Storage.antt =====
-- A key pair with a certificate, stored and loaded, and a library that signs.
use ward3n.Base.{ℕ, ◌≡◌, refl, true, replicate, length-replicate, arith}
use ward3n.Soft.{Soft}
use ward3n.Soft.Flash.{Stored, IsStored, flash_save, flash_load, is_initialized}
use ward3n.Soft.Persist.{flash_load-flash_save}

abbrev pub stored : Stored
stored = record {
  privkey = replicate 32 0x11;
  pubkey_x = replicate 32 0x22;
  pubkey_y = replicate 32 0x33;
  cert_len = 300;
  cert_der = replicate 300 0x30;
}

pub stored-IsStored : IsStored stored
stored-IsStored = record {
  privkey_len = refl;
  pubkey_x_len = refl;
  pubkey_y_len = refl;
  cert_word = omega arith;
  cert_bytes = length-replicate {A = ℕ} 300 0x30;
}

flash_load-flash_save_example :
    (is_initialized (flash_save stored) ≡ true) × (flash_load (flash_save stored) ≡ stored)
flash_load-flash_save_example = flash_load-flash_save stored stored-IsStored

abbrev backend : Soft ℕ ℕ
backend = record {
  initialized = true;
  pk = 0;
  drbg = 0;
  cert_der = replicate 300 0x30;
  cert_len = 300;
}
