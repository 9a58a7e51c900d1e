-- ===== src/Tests/Power.antt =====
-- A flash that is programmed in pages, and a power that goes at the second of them.
use ward3n.Base.{
  ℕ, zero, suc, ◌+◌, ◌-◌, ◌*◌, ◌≤◌, ◌<◌, ◌≡◌, refl, ◌∙◌, ap, true, false, List, [], ◌∷◌, ◌++◌,
  length, take, drop, slice, replicate, length-take, drop-take, take-take, inl, inr, Bool-cases,
  leb, take_all, append-nil, arith,
}
use ward3n.Soft.Flash.{flash_save, flash_load, is_initialized}
use ward3n.Soft.PowerLoss.{Programming, power_loss}
use ward3n.Tests.Storage.{stored, stored-IsStored}

abbrev ff : ℕ → List ℕ
ff n = replicate n 0xFF

-- A slice that lies in the front of two lists, and one that lies behind it
slice-append_front :
    (xs ys : List ℕ) (off n : ℕ) → off + n ≤ length xs → slice off n (xs ++ ys) ≡ slice off n xs
slice-append_front [] ys zero zero h = refl
slice-append_front [] ys zero (suc n) h = absurd (omega arith)
slice-append_front [] ys (suc off) n h = absurd (omega arith)
slice-append_front (x ∷ xs) ys zero zero h = refl
slice-append_front (x ∷ xs) ys zero (suc n) h =
    ap (◌∷◌ x) (slice-append_front xs ys zero n (omega arith))
slice-append_front (x ∷ xs) ys (suc off) n h = slice-append_front xs ys off n (omega arith)

slice-replicate : (size off n : ℕ) → off + n ≤ size → slice off n (ff size) ≡ ff n
slice-replicate zero zero zero h = refl
slice-replicate zero zero (suc n) h = absurd (omega arith)
slice-replicate zero (suc off) n h = absurd (omega arith)
slice-replicate (suc size) zero zero h = refl
slice-replicate (suc size) zero (suc n) h =
    ap (◌∷◌ 0xFF) (slice-replicate size zero n (omega arith))
slice-replicate (suc size) (suc off) n h = slice-replicate size off n (omega arith)

slice-append_back :
    (xs : List ℕ) (size off n : ℕ)
    → length xs ≤ off
    → off + n ≤ length xs + size
    → slice off n (xs ++ ff size) ≡ ff n
slice-append_back [] size off n h k = slice-replicate size off n (omega arith)
slice-append_back (x ∷ xs) size zero n h k = absurd (omega arith)
slice-append_back (x ∷ xs) size (suc off) n h k =
    slice-append_back xs size off n (omega arith) (omega arith)

slice-take : (xs : List ℕ) (m off n : ℕ) → off + n ≤ m → slice off n (take m xs) ≡ slice off n xs
slice-take xs m off n h =
    ap (take n) (drop-take off m xs) ∙ take-take n (m - off) (drop off xs) (omega arith)

abbrev programmed : ℕ → List ℕ → List ℕ
programmed page sector = take (256 * page) sector ++ ff (4096 - 256 * page)

programmed_before :
    (page : ℕ) (sector : List ℕ) (off n : ℕ)
    → length sector ≡ 4096
    → off + n ≤ 256 * page
    → slice off n (programmed page sector) ≡ slice off n sector
programmed_before page sector off n whole inside = elim (Bool-cases (leb (256 * page) 4096)) [
  | inl within ↦
      let le : 256 * page ≤ 4096 = ground arith in
      slice-append_front (take (256 * page) sector) (ff (4096 - 256 * page)) off n
        (omega (arith, length-take (256 * page) sector))
      ∙ slice-take sector (256 * page) off n inside
  | inr past ↦
      let lt : 4096 < 256 * page = ground arith in
      let none_left : 4096 - 256 * page ≡ 0 = omega (arith, lt) in
      rw (none_left, take_all (256 * page) sector (omega (arith, lt, whole)), append-nil sector)
        refl
]

-- At a page, nothing of it is programmed yet.
abbrev by_pages : Programming
by_pages = record {
  erased = ff 4096;
  cut = programmed;
  erased_lem = slice-replicate 4096;
  cut_before = programmed_before;
  cut_behind = λ page sector off n whole behind inside.
      slice-append_back (take (256 * page) sector) (4096 - 256 * page) off n
        (omega (arith, length-take (256 * page) sector))
        (omega (arith, length-take (256 * page) sector));
}

-- The certificate has 300 bytes, of which 154 stand in the first page.
power_loss_example :
    let sector = by_pages.cut 1 (flash_save stored) in
    let found = flash_load sector in
    (is_initialized by_pages.erased ≡ false)
    × (is_initialized sector ≡ true)
    × (found.privkey ≡ stored.privkey)
    × (found.pubkey_x ≡ stored.pubkey_x)
    × (found.pubkey_y ≡ stored.pubkey_y)
    × (found.cert_len ≡ 300)
    × (take 154 found.cert_der ≡ take 154 stored.cert_der)
    × (drop 410 found.cert_der ≡ [])
power_loss_example =
    power_loss by_pages stored 1 stored-IsStored (omega arith) (omega arith) (omega arith)
