-- ===== src/Tests/Fixtures.antt =====
-- A clock that ticks, a backend that counts its signatures, and a reader in the state in which a host
-- asks for a signature.
use ward3n.Base.{
  ℕ, leb, leb→le, le→leb, suc, ◌+◌, ◌*◌, refl, true, false, List, [], ◌∷◌, ◌++◌, take, replicate,
  length-take, IsBytes, IsBytes-append, IsBytes-replicate, length-replicate, arith,
}
use ward3n.Base.Int.{sub_ℕ, pos}
use ward3n.Soft.{Mbedtls}
use ward3n.Pico.{Clock}
use ward3n.DeviceState.{Device, waiting_button, authorized}
use ward3n.CryptoBackend.{CryptoBackend}
use ward3n.Piv.{Card}
use ward3n.Piv.Applet.{Piv}
use ward3n.Piv.Uses.{Meter}
use ward3n.Ccid.{Ccid, Reader}
use ward3n.Ccid.Frame.{IsReader}
use ward3n.Firmware.{Firmware}
use ward3n.Button
use ward3n.Neopixel

abbrev pub ticking : Clock
ticking = record {
  make_timeout_time_ms = λ now ms. now + 1000 * ms;
  absolute_time_diff_us = λ from to. sub_ℕ to from;
  make_timeout_time_ms_lem = λ now ms h. refl;
  absolute_time_diff_us_lem = λ from to. refl;
  time_reached = λ now t. leb t now;
  time_reached_lem = λ now t. (λ h. leb→le t now h, λ h. le→leb t now h);
}

-- A certificate of 300 bytes, which needs chaining.
abbrev pub certificate : List ℕ
certificate = replicate 300 0x30

-- A "signature": 30 06, and six bytes.
abbrev pub signature : List ℕ
signature = 0x30 ∷ 0x06 ∷ replicate 6 0x02

-- Its keys are the number of signatures that it has made.
abbrev pub counting : CryptoBackend
counting = record {
  Keys = ℕ;
  get_cert_der = λ k key_ref n. take n certificate;
  sign = λ k key_ref alg hash n. (take n signature, suc k);
  get_cert_der-le = λ k key_ref n. omega (arith, length-take n certificate);
  sign-le = λ k key_ref alg hash n. omega (arith, length-take n signature);
}

abbrev pub signatures : Meter counting
signatures = record { uses = λ k. k; at_most_one = λ k key_ref alg hash n. omega arith }

abbrev pub hash : List ℕ
hash = replicate 32 0xAB

-- GENERAL AUTHENTICATE for the key 9A with the hash.
abbrev pub authenticate : List ℕ
authenticate = 0x00 ∷ 0x87 ∷ 0x11 ∷ 0x9A ∷ 0x26 ∷ 0x7C ∷ 0x24 ∷ 0x82 ∷ 0x00 ∷ 0x81 ∷ 0x20 ∷ hash

-- The same in an XfrBlock with bSeq 7, 53 bytes, in a receive buffer of 512 bytes.
abbrev pub xfr_header : List ℕ
xfr_header = 0x6F ∷ 43 ∷ 0 ∷ 0 ∷ 0 ∷ 0 ∷ 7 ∷ 0 ∷ 0 ∷ 0 ∷ []

abbrev pub xfr_authenticate : List ℕ
xfr_authenticate = xfr_header ++ (authenticate ++ replicate 459 0)

pub authenticate-IsBytes : IsBytes (authenticate ++ replicate 459 0)
authenticate-IsBytes =
    let tail =
      IsBytes-append hash (replicate 459 0) (IsBytes-replicate 32 0xAB (omega arith))
        (IsBytes-replicate 459 0 (omega arith)) in
    ground (arith, tail)

pub xfr_authenticate-IsBytes : IsBytes xfr_authenticate
xfr_authenticate-IsBytes = ground (arith, authenticate-IsBytes)

-- The applet with the PIN verified and nothing to send.
abbrev pub unlocked : Piv
unlocked = record {
  selected = true;
  pin_verified = true;
  chain_buf = replicate 4096 0;
  chain_len = 0;
  chain_offset = 0;
}

abbrev pub waiting : Device
waiting = record { state = waiting_button; deadline = 30000000; auth_consumed = false }

abbrev pub pressed_device : Device
pressed_device = record { state = authorized; deadline = 10000000; auth_consumed = false }

abbrev pub card : Device → Card ℕ
card d = record { piv = unlocked; dev = d; keys = 0 }

abbrev pub ccid : Ccid
ccid = record {
  icc_powered = true;
  ep_out = 0x01;
  ep_in = 0x81;
  ep_intr = 0x82;
  rx_buf = xfr_authenticate;
  tx_buf = replicate 512 0;
  response_pending = false;
  response_len = 0;
}

abbrev pub reader : Device → Reader ℕ
reader d = record { ccid = ccid; card = card d }

pub reader-IsReader : (d : Device) → IsReader (reader d)
reader-IsReader d = record {
  received = xfr_authenticate-IsBytes;
  transmit = length-replicate {A = ℕ} 512 0;
}

abbrev pub firmware : Firmware ℕ
firmware = record { reader = reader waiting; button = Button.at_boot; led = Neopixel.at_boot }

-- Every call succeeds; the generator counts them.
abbrev pub library : Mbedtls
library = record {
  Pk = ℕ;
  Drbg = ℕ;
  pk_sign = λ pk h size d. (pos 0, take size signature, suc d);
  write_public_key = λ pk size. (pos 0, replicate 65 0x04);
  pk_sign-le = λ pk h size d. omega (arith, length-take size signature);
}
