-- ===== src/Base/Slices.antt =====
-- Slices of buffers: `take` and `drop` of one another, and of what `memcpy` leaves.
use Prim.Native.Nat.{ℕ, zero, suc, ◌+◌, ◌-◌, ◌≤◌, ◌<◌}
use mathlib.Core.Path.{◌≡◌, refl, sym, ◌∙◌, ap}
use mathlib.Core.List.{List, [], ◌∷◌, ◌++◌}
use native.Mathlib.Nat.{suc-add, zero-add, sub-zero, zero-sub, suc-sub-suc}
use native.Mathlib.Omega.{arith}
use ward3n.Base.Lists.{length, get_or, take, drop, write_at}

module _ {ℓ} {A : Type ℓ} where
  pub drop-nil : (n : ℕ) → drop {A = A} n [] ≡ []
  drop-nil zero = refl
  drop-nil (suc n) = refl

  pub take-nil : (n : ℕ) → take {A = A} n [] ≡ []
  take-nil zero = refl
  take-nil (suc n) = refl

  pub drop-take : (m n : ℕ) (xs : List A) → drop m (take n xs) ≡ take (n - m) (drop m xs)
  drop-take zero n xs = rw sub-zero refl
  drop-take (suc m) zero xs = rw zero-sub refl
  drop-take (suc m) (suc n) [] = sym (take-nil (suc n - suc m))
  drop-take (suc m) (suc n) (x ∷ xs) = rw suc-sub-suc (drop-take m n xs)

  pub drop-drop : (m n : ℕ) (xs : List A) → drop m (drop n xs) ≡ drop (n + m) xs
  drop-drop m zero xs = rw zero-add refl
  drop-drop m (suc n) [] = drop-nil m ∙ sym (drop-nil (suc n + m))
  drop-drop m (suc n) (x ∷ xs) = rw suc-add (drop-drop m n xs)

  pub take-take : (m n : ℕ) (xs : List A) → m ≤ n → take m (take n xs) ≡ take m xs
  take-take zero n xs h = refl
  take-take (suc m) zero xs h = absurd (omega arith)
  take-take (suc m) (suc n) [] h = refl
  take-take (suc m) (suc n) (x ∷ xs) h = ap (◌∷◌ x) (take-take m n xs (omega arith))

  pub take-add : (m n : ℕ) (xs : List A) → take (m + n) xs ≡ take m xs ++ take n (drop m xs)
  take-add zero n xs = rw zero-add refl
  take-add (suc m) n [] = take-nil (suc m + n) ∙ sym (take-nil n)
  take-add (suc m) n (x ∷ xs) = rw suc-add (ap (◌∷◌ x) (take-add m n xs))

  pub get_or-take : (xs : List A) (i n : ℕ) (d : A) → i < n → get_or (take n xs) i d ≡ get_or xs i d
  get_or-take [] i zero d h = refl
  get_or-take [] i (suc n) d h = refl
  get_or-take (x ∷ xs) i zero d h = absurd (omega arith)
  get_or-take (x ∷ xs) zero (suc n) d h = refl
  get_or-take (x ∷ xs) (suc i) (suc n) d h = get_or-take xs i n d (omega arith)

  pub get_or-drop : (xs : List A) (i n : ℕ) (d : A) → get_or (drop n xs) i d ≡ get_or xs (n + i) d
  get_or-drop xs i zero d = rw zero-add refl
  get_or-drop [] i (suc n) d = refl
  get_or-drop (x ∷ xs) i (suc n) d = rw suc-add (get_or-drop xs i n d)

  pub write_at-prefix :
      (front src rest : List A)
      → length front ≡ length src
      → write_at (front ++ rest) 0 src ≡ src ++ rest
  unfolding write_at
  write_at-prefix [] [] [] h = refl
  write_at-prefix [] [] (y ∷ rest) h = refl
  write_at-prefix [] (s ∷ src) rest h = absurd (omega arith)
  write_at-prefix (x ∷ front) [] rest h = absurd (omega arith)
  write_at-prefix (x ∷ front) (s ∷ src) rest h =
      ap (◌∷◌ s) (write_at-prefix front src rest (omega arith))

  pub take-append_add : (xs ys : List A) (n : ℕ) → take (length xs + n) (xs ++ ys) ≡ xs ++ take n ys
  take-append_add [] ys n = rw zero-add refl
  take-append_add (x ∷ xs) ys n = rw suc-add (ap (◌∷◌ x) (take-append_add xs ys n))

  -- The bytes `[off, off + n)` of a buffer.
  abbrev pub slice : ℕ → ℕ → List A → List A
  slice off n xs = take n (drop off xs)

  pub slice-write_at_self :
      (dst : List A) (off : ℕ) (src : List A)
      → off + length src ≤ length dst
      → slice off (length src) (write_at dst off src) ≡ src
  unfolding write_at
  slice-write_at_self [] zero [] h = refl
  slice-write_at_self [] zero (s ∷ src) h = absurd (omega arith)
  slice-write_at_self [] (suc off) src h = absurd (omega arith)
  slice-write_at_self (d ∷ ds) (suc off) src h = slice-write_at_self ds off src (omega arith)
  slice-write_at_self (d ∷ ds) zero [] h = refl
  slice-write_at_self (d ∷ ds) zero (s ∷ src) h =
      ap (◌∷◌ s) (slice-write_at_self ds zero src (omega arith))

  -- A copy behind the slice, and one before it.
  pub slice-write_at_behind :
      (dst : List A) (off : ℕ) (src : List A) (m n : ℕ)
      → m + n ≤ off
      → slice m n (write_at dst off src) ≡ slice m n dst
  unfolding write_at
  slice-write_at_behind [] off src m n h = refl
  slice-write_at_behind (d ∷ ds) zero src zero zero h = refl
  slice-write_at_behind (d ∷ ds) zero src zero (suc n) h = absurd (omega arith)
  slice-write_at_behind (d ∷ ds) zero src (suc m) n h = absurd (omega arith)
  slice-write_at_behind (d ∷ ds) (suc off) src zero zero h = refl
  slice-write_at_behind (d ∷ ds) (suc off) src zero (suc n) h =
      ap (◌∷◌ d) (slice-write_at_behind ds off src zero n (omega arith))
  slice-write_at_behind (d ∷ ds) (suc off) src (suc m) n h =
      slice-write_at_behind ds off src m n (omega arith)

  pub nil_of_length : (xs : List A) → length xs ≡ 0 → xs ≡ []
  nil_of_length [] h = refl
  nil_of_length (x ∷ xs) h = absurd (omega arith)
