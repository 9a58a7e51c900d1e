-- ===== src/Soft/PowerLoss.antt =====
-- A loss of power while `_flash_save` of src/crypto_backend_soft.c writes the key sector.
-- The SDK's calls on the flash are a parameter, with what is documented of them: an erased sector holds
-- FF, and a sector is programmed in pages of 256 bytes, from the first one on.
use ward3n.Base.{
  ℕ, ◌+◌, ◌-◌, ◌*◌, ◌≤◌, ◌<◌, ◌≡◌, refl, sym, ◌∙◌, ap, true, false, List, length, take, drop, slice,
  replicate, arith, ltb, take-take, drop-take, drop-drop, inl, inr, Bool-cases, leb,
}
use ward3n.Soft.Flash.{Stored, IsStored, flash_save, is_initialized, flash_load}
use ward3n.Soft.Persist.{
  saved_magic, saved_privkey, saved_pubkey_x, saved_pubkey_y, saved_cert_len, saved_cert,
  length-flash_save,
}

pub record Programming : Type 0 where
  -- The sector after `flash_range_erase`
  pub erased : List ℕ
  -- What the sector holds of the data if the power goes while `flash_range_program` is at a page
  pub cut : ℕ → List ℕ → List ℕ
  pub erased_lem : (off n : ℕ) → off + n ≤ 4096 → slice off n erased ≡ replicate n 0xFF
  -- The pages in front of that one are programmed, and the ones behind it are still erased.
  pub cut_before :
      (page : ℕ) (sector : List ℕ) (off n : ℕ)
      → length sector ≡ 4096
      → off + n ≤ 256 * page
      → slice off n (cut page sector) ≡ slice off n sector
  pub cut_behind :
      (page : ℕ) (sector : List ℕ) (off n : ℕ)
      → length sector ≡ 4096
      → 256 * (page + 1) ≤ off
      → off + n ≤ 4096
      → slice off n (cut page sector) ≡ replicate n 0xFF

module _ (F : Programming) where
  open F use {erased, cut, erased_lem, cut_before, cut_behind}

  erased-uninitialized : is_initialized erased ≡ false
  unfolding is_initialized
  erased-uninitialized = rw (erased_lem 0 4 (omega arith)) refl

  module _ (k : Stored) (page : ℕ) (v : IsStored k) (first : 1 ≤ page) (last : page < 16)
      (small : k.cert_len ≤ 3994) where
    abbrev left : List ℕ
    left = cut page (flash_save k)

    -- The first page, in front of the certificate
    kept : (off n : ℕ) → off + n ≤ 256 → slice off n left ≡ slice off n (flash_save k)
    kept off n h = cut_before page (flash_save k) off n (length-flash_save k) (omega arith)

    cut_cert_len : (flash_load left).cert_len ≡ k.cert_len
    unfolding flash_load
    cut_cert_len =
        let not_large : ltb 3994 k.cert_len ≡ false = ground arith in
        rw (kept 100 2 (omega arith), saved_cert_len k v, not_large) refl

    cut_cert : (flash_load left).cert_der ≡ slice 102 k.cert_len left
    unfolding flash_load
    cut_cert =
        let not_large : ltb 3994 k.cert_len ≡ false = ground arith in
        rw (kept 100 2 (omega arith), saved_cert_len k v, not_large) refl

    cut_front :
        take (256 * page - 102) (slice 102 k.cert_len left) ≡ take (256 * page - 102) k.cert_der
    cut_front =
        let m : ℕ = 256 * page - 102 in
        let saved : slice 102 k.cert_len (flash_save k) ≡ k.cert_der = saved_cert k v small in
        elim (Bool-cases (leb m k.cert_len)) [
          | inl inside ↦
              let le : m ≤ k.cert_len = ground arith in
              take-take m k.cert_len (drop 102 left) le
              ∙ cut_before page (flash_save k) 102 m (length-flash_save k) (omega arith)
              ∙ sym (take-take m k.cert_len (drop 102 (flash_save k)) le)
              ∙ ap (take m) saved
          | inr beyond ↦
              let lt : k.cert_len < m = ground arith in
              ap (take m) (
                cut_before page (flash_save k) 102 k.cert_len (length-flash_save k) (omega arith)
                ∙ saved)
        ]

    cut_back :
        drop (256 * (page + 1) - 102) (slice 102 k.cert_len left)
        ≡ replicate (k.cert_len - (256 * (page + 1) - 102)) 0xFF
    cut_back =
        let q : ℕ = 256 * (page + 1) - 102 in
        drop-take q k.cert_len (drop 102 left)
        ∙ ap (take (k.cert_len - q)) (drop-drop q 102 left)
        ∙ cut_behind page (flash_save k) (102 + q) (k.cert_len - q) (length-flash_save k)
            (omega arith) (omega arith)

  -- A first boot stores key material of 32 bytes each and a certificate of at most 3994 bytes, and loses
  -- the power behind the erasure. If that is before a byte is programmed, the sector does not count as
  -- initialized. If it is at a page from the second on, the sector counts as initialized: the private
  -- key, both halves of the public key and the certificate's length are read back as they were, and so
  -- are the certificate's bytes in the pages in front of that one, but its bytes in the pages behind it
  -- are read back as FF.
  pub power_loss :
      (k : Stored) (page : ℕ)
      → IsStored k
      → 1 ≤ page
      → page < 16
      → k.cert_len ≤ 3994
      → let found = flash_load (cut page (flash_save k)) in
        (is_initialized erased ≡ false)
        × (is_initialized (cut page (flash_save k)) ≡ true)
        × (found.privkey ≡ k.privkey)
        × (found.pubkey_x ≡ k.pubkey_x)
        × (found.pubkey_y ≡ k.pubkey_y)
        × (found.cert_len ≡ k.cert_len)
        × (take (256 * page - 102) found.cert_der ≡ take (256 * page - 102) k.cert_der)
        × (drop (256 * (page + 1) - 102) found.cert_der
            ≡ replicate (k.cert_len - (256 * (page + 1) - 102)) 0xFF)
  unfolding is_initialized flash_load
  power_loss k page v first last small = (
    erased-uninitialized,
    rw (kept k page v first last small 0 4 (omega arith), saved_magic k v) refl,
    kept k page v first last small 4 32 (omega arith) ∙ saved_privkey k v,
    kept k page v first last small 36 32 (omega arith) ∙ saved_pubkey_x k v,
    kept k page v first last small 68 32 (omega arith) ∙ saved_pubkey_y k v,
    cut_cert_len k page v first last small,
    ap (take (256 * page - 102)) (cut_cert k page v first last small)
        ∙ cut_front k page v first last small,
    ap (drop (256 * (page + 1) - 102)) (cut_cert k page v first last small)
        ∙ cut_back k page v first last small,
  )
