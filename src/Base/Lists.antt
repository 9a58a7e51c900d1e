-- ===== src/Base/Lists.antt =====
-- Byte buffers as lists with native indices: reading, slicing, and `memcpy` into a buffer.
use Prim.Native.Nat.{ℕ, zero, suc, ◌+◌, ◌-◌, ◌≤◌, ◌<◌, min}
use mathlib.Core.Path.{◌≡◌, refl, ap}
use mathlib.Core.List.{List, [], ◌∷◌, ◌++◌}
use native.Mathlib.Nat.{suc-add, zero-add}
use native.Mathlib.Omega.{arith}

module _ {ℓ} {A : Type ℓ} where
  abbrev pub length : List A → ℕ
  length [] = 0
  length (x ∷ xs) = suc (length xs)

  abbrev pub get_or : List A → ℕ → A → A
  get_or [] i d = d
  get_or (x ∷ xs) zero d = x
  get_or (x ∷ xs) (suc i) d = get_or xs i d

  abbrev pub take : ℕ → List A → List A
  take zero xs = []
  take (suc n) [] = []
  take (suc n) (x ∷ xs) = x ∷ take n xs

  abbrev pub drop : ℕ → List A → List A
  drop zero xs = xs
  drop (suc n) [] = []
  drop (suc n) (x ∷ xs) = drop n xs

  abbrev pub replicate : ℕ → A → List A
  replicate zero a = []
  replicate (suc n) a = a ∷ replicate n a

  abbrev pub flatten : List (List A) → List A
  flatten [] = []
  flatten (xs ∷ xss) = xs ++ flatten xss

  -- `memcpy (dst + off, src, length src)`; what would fall behind the end of `dst` is not written.
  unfoldable pub write_at : List A → ℕ → List A → List A
  write_at [] off src = []
  write_at (d ∷ ds) (suc off) src = d ∷ write_at ds off src
  write_at (d ∷ ds) zero [] = d ∷ ds
  write_at (d ∷ ds) zero (s ∷ src) = s ∷ write_at ds zero src

  pub length-append : (xs ys : List A) → length (xs ++ ys) ≡ length xs + length ys
  length-append [] ys = omega arith
  length-append (x ∷ xs) ys = omega (arith, length-append xs ys)

  pub length-take : (n : ℕ) (xs : List A) → length (take n xs) ≡ min n (length xs)
  length-take zero xs = omega arith
  length-take (suc n) [] = omega arith
  length-take (suc n) (x ∷ xs) = omega (arith, length-take n xs)

  pub length-drop : (n : ℕ) (xs : List A) → length (drop n xs) ≡ length xs - n
  length-drop zero xs = omega arith
  length-drop (suc n) [] = omega arith
  length-drop (suc n) (x ∷ xs) = omega (arith, length-drop n xs)

  pub length-replicate : (n : ℕ) (a : A) → length (replicate n a) ≡ n
  length-replicate zero a = refl
  length-replicate (suc n) a = ap suc (length-replicate n a)

  pub take-append-drop : (n : ℕ) (xs : List A) → take n xs ++ drop n xs ≡ xs
  take-append-drop zero xs = refl
  take-append-drop (suc n) [] = refl
  take-append-drop (suc n) (x ∷ xs) = ap (◌∷◌ x) (take-append-drop n xs)

  pub take_all : (n : ℕ) (xs : List A) → length xs ≤ n → take n xs ≡ xs
  take_all zero [] h = refl
  take_all zero (x ∷ xs) h = absurd (omega arith)
  take_all (suc n) [] h = refl
  take_all (suc n) (x ∷ xs) h = ap (◌∷◌ x) (take_all n xs (omega arith))

  pub take-append : (xs ys : List A) → take (length xs) (xs ++ ys) ≡ xs
  take-append [] ys = refl
  take-append (x ∷ xs) ys = ap (◌∷◌ x) (take-append xs ys)

  pub drop-append : (xs ys : List A) → drop (length xs) (xs ++ ys) ≡ ys
  drop-append [] ys = refl
  drop-append (x ∷ xs) ys = drop-append xs ys

  pub drop_all : (n : ℕ) (xs : List A) → length xs ≤ n → drop n xs ≡ []
  drop_all zero [] h = refl
  drop_all zero (x ∷ xs) h = absurd (omega arith)
  drop_all (suc n) [] h = refl
  drop_all (suc n) (x ∷ xs) h = drop_all n xs (omega arith)

  pub length-write_at :
      (dst : List A) (off : ℕ) (src : List A) → length (write_at dst off src) ≡ length dst
  unfolding write_at
  length-write_at [] off src = refl
  length-write_at (d ∷ ds) (suc off) src = ap suc (length-write_at ds off src)
  length-write_at (d ∷ ds) zero [] = refl
  length-write_at (d ∷ ds) zero (s ∷ src) = ap suc (length-write_at ds zero src)

  -- A copy that fits: what stands before it is kept, the source follows, and the rest is kept.
  pub write_at_lem :
      (dst : List A) (off : ℕ) (src : List A)
      → off + length src ≤ length dst
      → write_at dst off src ≡ take off dst ++ (src ++ drop (length src) (drop off dst))
  unfolding write_at
  write_at_lem [] zero [] h = refl
  write_at_lem [] zero (s ∷ src) h = absurd (omega arith)
  write_at_lem [] (suc off) src h = absurd (omega arith)
  write_at_lem (d ∷ ds) (suc off) src h = ap (◌∷◌ d) (write_at_lem ds off src (omega arith))
  write_at_lem (d ∷ ds) zero [] h = refl
  write_at_lem (d ∷ ds) zero (s ∷ src) h = ap (◌∷◌ s) (write_at_lem ds zero src (omega arith))

  pub take-write_at :
      (dst : List A) (off : ℕ) (src : List A)
      → off + length src ≤ length dst
      → take (off + length src) (write_at dst off src) ≡ take off dst ++ src
  unfolding write_at
  take-write_at [] zero [] h = refl
  take-write_at [] zero (s ∷ src) h = absurd (omega arith)
  take-write_at [] (suc off) src h = absurd (omega arith)
  take-write_at (d ∷ ds) (suc off) src h =
      rw suc-add (ap (◌∷◌ d) (take-write_at ds off src (omega arith)))
  take-write_at (d ∷ ds) zero [] h = refl
  take-write_at (d ∷ ds) zero (s ∷ src) h =
      rw zero-add (ap (◌∷◌ s) (rw zero-add at (take-write_at ds zero src (omega arith))))

  -- A copy that ends at `n` or before leaves what stands from `n` on.
  pub drop-write_at :
      (dst : List A) (off : ℕ) (src : List A) (n : ℕ)
      → off + length src ≤ n
      → drop n (write_at dst off src) ≡ drop n dst
  unfolding write_at
  drop-write_at [] off src n h = refl
  drop-write_at (d ∷ ds) (suc off) src zero h = absurd (omega arith)
  drop-write_at (d ∷ ds) (suc off) src (suc n) h = drop-write_at ds off src n (omega arith)
  drop-write_at (d ∷ ds) zero [] n h = refl
  drop-write_at (d ∷ ds) zero (s ∷ src) zero h = absurd (omega arith)
  drop-write_at (d ∷ ds) zero (s ∷ src) (suc n) h = drop-write_at ds zero src n (omega arith)

-- A buffer of bytes.
abbrev pub IsBytes : List ℕ → Type 0
IsBytes [] = Unit
IsBytes (x ∷ xs) = (x < 256) × IsBytes xs

pub IsBytes-get_or : (xs : List ℕ) (i : ℕ) → IsBytes xs → get_or xs i 0 < 256
IsBytes-get_or [] i h = omega arith
IsBytes-get_or (x ∷ xs) zero h = h.0
IsBytes-get_or (x ∷ xs) (suc i) h = IsBytes-get_or xs i h.1

pub IsBytes-append : (xs ys : List ℕ) → IsBytes xs → IsBytes ys → IsBytes (xs ++ ys)
IsBytes-append [] ys h k = k
IsBytes-append (x ∷ xs) ys h k = (h.0, IsBytes-append xs ys h.1 k)

pub IsBytes-take : (n : ℕ) (xs : List ℕ) → IsBytes xs → IsBytes (take n xs)
IsBytes-take zero xs h = tt
IsBytes-take (suc n) [] h = tt
IsBytes-take (suc n) (x ∷ xs) h = (h.0, IsBytes-take n xs h.1)

pub IsBytes-drop : (n : ℕ) (xs : List ℕ) → IsBytes xs → IsBytes (drop n xs)
IsBytes-drop zero xs h = h
IsBytes-drop (suc n) [] h = tt
IsBytes-drop (suc n) (x ∷ xs) h = IsBytes-drop n xs h.1

pub get_or-append_length : (xs ys : List ℕ) (y : ℕ) → get_or (xs ++ (y ∷ ys)) (length xs) 0 ≡ y
get_or-append_length [] ys y = refl
get_or-append_length (x ∷ xs) ys y = get_or-append_length xs ys y

pub IsBytes-write_at :
    (dst : List ℕ) (off : ℕ) (src : List ℕ)
    → IsBytes dst
    → IsBytes src
    → IsBytes (write_at dst off src)
unfolding write_at
IsBytes-write_at [] off src h k = h
IsBytes-write_at (d ∷ ds) (suc off) src h k = (h.0, IsBytes-write_at ds off src h.1 k)
IsBytes-write_at (d ∷ ds) zero [] h k = h
IsBytes-write_at (d ∷ ds) zero (s ∷ src) h k = (k.0, IsBytes-write_at ds zero src h.1 k.1)

pub IsBytes-replicate : (n x : ℕ) → x < 256 → IsBytes (replicate n x)
IsBytes-replicate zero x h = tt
IsBytes-replicate (suc n) x h = (h, IsBytes-replicate n x h)

-- What makes a buffer of bytes out of others, for `search`.
pub ruleset bytes_rules = (
  IsBytes-append, IsBytes-take, IsBytes-drop, IsBytes-write_at, IsBytes-replicate, IsBytes-get_or,
)
