-- ===== src/Piv/Pin.antt =====
-- The comparison in VERIFY of src/piv.c, and the bytes of the PIN.
use ward3n.Base.{ℕ, ◌≡◌, ◌↔◌, write_at, refl, true, List, [], ◌∷◌, take, arith, ==_iff, ==_refl}
use ward3n.Piv.Applet.{bytes_eq, memcmp_eq, expected_pin}

pub bytes_eq_sound : (xs ys : List ℕ) → bytes_eq xs ys ≡ true → xs ≡ ys
unfolding bytes_eq
bytes_eq_sound [] [] h = refl
bytes_eq_sound [] (y ∷ ys) h = cc
bytes_eq_sound (x ∷ xs) [] h = cc
bytes_eq_sound (x ∷ xs) (y ∷ ys) h = ground (arith, ==_iff x y, bytes_eq_sound xs ys)

pub bytes_eq_refl : (xs : List ℕ) → bytes_eq xs xs ≡ true
unfolding bytes_eq
bytes_eq_refl [] = refl
bytes_eq_refl (x ∷ xs) = ground (arith, ==_refl x, bytes_eq_refl xs)

-- The digits 1 to 6 in ASCII, padded by FF.
abbrev pub padded_pin : List ℕ
padded_pin = 0x31 ∷ 0x32 ∷ 0x33 ∷ 0x34 ∷ 0x35 ∷ 0x36 ∷ 0xFF ∷ 0xFF ∷ []

pub memcmp_eq_iff : (xs : List ℕ) → (memcmp_eq xs expected_pin 8 ≡ true) ↔ (take 8 xs ≡ padded_pin)
unfolding write_at
memcmp_eq_iff xs =
    (λ h. bytes_eq_sound (take 8 xs) padded_pin h, λ e. rw e (bytes_eq_refl padded_pin))
