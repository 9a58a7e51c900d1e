-- ===== src/Firmware/Boot.antt =====
-- The start of `main` in src/main.c: from the static variables to the loop, with the software backend.
use mathlib.Core.Path.{subst}
use ward3n.Base.{
  ℕ, ◌+◌, ◌≤◌, ◌≡◌, refl, ap, true, false, Option, none, some, List, [], ◌∷◌, replicate,
  if◌then◌else◌, arith, Bool-cases, inl, inr,
}
use ward3n.Base.Int.{ℤ, pos, negsuc}
use ward3n.Pico.{Clock}
use ward3n.DeviceState
use ward3n.DeviceState.{is_authorized, init}
use ward3n.Piv.Applet.{piv_init}
use ward3n.Piv.Uses.{Meter}
use ward3n.Ccid
use ward3n.Button
use ward3n.Neopixel
use ward3n.Neopixel.{set}
use ward3n.Soft.{Mbedtls, Soft, failed}
use ward3n.Soft.Backend.{soft_backend}
use ward3n.Soft.Boot.{Setup, crypto_backend_init}
use ward3n.Firmware.{Firmware, Action, run}
use ward3n.Firmware.Presses.{uses-le-presses}

-- The static variables of the backend, where the contexts of mbedTLS hold what they hold.
abbrev pub soft_at_boot : {Pk Drbg : Type 0} → Pk → Drbg → Soft Pk Drbg
soft_at_boot pk drbg = record {
  initialized = false;
  pk = pk;
  drbg = drbg;
  cert_der = replicate 3994 0;
  cert_len = 0;
}

-- The firmware that enters the loop. (`tusb_init` calls the driver's `init`, which is an action.)
abbrev pub started : {Keys : Type 0} → Keys → Firmware Keys
started keys = record {
  reader = record {
    ccid = Ccid.at_boot;
    card = record { piv = piv_init; dev = DeviceState.init DeviceState.at_boot; keys = keys };
  };
  button = Button.at_boot;
  led = Neopixel.at_boot;
}

failed_lem : (ret : ℤ) → failed ret ≡ false → ret ≡ pos 0
failed_lem (pos n) h = ap pos (ground arith)
failed_lem (negsuc n) h = absurd (ground arith)

module _ (M : Mbedtls) (T : Setup M) where
  open M use {Pk, Drbg}

  -- `main` up to the loop: the words that the LED is sent, the flash, and the firmware that enters the
  -- loop, or none where `main` hangs.
  unfoldable pub boot :
      List ℕ → Soft Pk Drbg → List ℕ → List ℕ × List ℕ × Option (Firmware (Soft Pk Drbg))
  boot uid s flash =
      let (err, keys, flash') = crypto_backend_init M T uid s flash in
      if failed err
      then (set 40 0 0 ∷ set 255 0 0 ∷ [], flash', none)
      else (set 40 0 0 ∷ [], flash', some (started keys))

  init-initialized :
      (uid : List ℕ) (s : Soft Pk Drbg) (flash : List ℕ)
      → (crypto_backend_init M T uid s flash).0 ≡ pos 0
      → (crypto_backend_init M T uid s flash).1.initialized ≡ true
  unfolding crypto_backend_init
  init-initialized uid s flash ok = ground arith

  boot-some :
      (uid : List ℕ) (s : Soft Pk Drbg) (flash : List ℕ) (f : Firmware (Soft Pk Drbg))
      → (boot uid s flash).2 ≡ some f
      → let (err, keys, flash') = crypto_backend_init M T uid s flash in
        (err ≡ pos 0) × (started keys ≡ f)
  unfolding boot
  boot-some uid s flash f e = elim (Bool-cases (failed (crypto_backend_init M T uid s flash).0)) [
    | inl bad ↦ ground arith
    | inr good ↦ (failed_lem (crypto_backend_init M T uid s flash).0 good, ground arith)
  ]

module _ (clock : Clock) (M : Mbedtls) (T : Setup M) (m : Meter (soft_backend M)) where
  open M use {Pk, Drbg}
  open m use {uses}

  -- A boot that enters the loop, on any flash, and any run after it: the backend is initialized and the
  -- PIN unverified as the run begins, and the private key is used at most as often as presses of the
  -- button are confirmed in the run.
  pub boot-uses :
      (uid : List ℕ) (s : Soft Pk Drbg) (flash : List ℕ) (f : Firmware (Soft Pk Drbg))
      (actions : List Action)
      → (boot M T uid s flash).2 ≡ some f
      → let (end, presses) = run clock (soft_backend M) actions f in
        (f.reader.card.keys.initialized ≡ true)
        × (f.reader.card.piv.pin_verified ≡ false)
        × (uses end.reader.card.keys ≤ uses f.reader.card.keys + presses)
  unfolding init is_authorized piv_init
  boot-uses uid s flash f actions e =
      let (ok, same) = boot-some M T uid s flash f e in
      let keys = (crypto_backend_init M T uid s flash).1 in
      let bound = uses-le-presses clock (soft_backend M) m actions (started keys) in
      subst
        (λ g.
          let (end, presses) = run clock (soft_backend M) actions g in
          (g.reader.card.keys.initialized ≡ true)
          × (g.reader.card.piv.pin_verified ≡ false)
          × (uses end.reader.card.keys ≤ uses g.reader.card.keys + presses))
        same (init-initialized M T uid s flash ok, refl, omega (arith, bound))
