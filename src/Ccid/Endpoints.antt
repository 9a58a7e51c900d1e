-- ===== src/Ccid/Endpoints.antt =====
-- What `_ccid_open` of src/ccid.c changes of the driver's state.
use ward3n.Base.{
  ℕ, zero, suc, ◌+◌, ◌%◌, ◌^◌, ◌≡◌, refl, ap, not, ◌||◌, Option, none, some, ltb, ◌==◌, if_both,
  Option-cases, inl, inr,
}
use mathlib.Core.Path.{subst}
use ward3n.Ccid.{Ccid}
use ward3n.Ccid.Open.{
  TinyUsb, note_endpoint, open_endpoints, finish_open, ccid_open, skip_functional,
}

-- Another state differs in the endpoints alone.
pub record SameButEndpoints (r r' : Ccid) : Type 0 where
  pub same : r' ≡ record r { ep_out = r'.ep_out; ep_in = r'.ep_in; ep_intr = r'.ep_intr }

module _ (U : TinyUsb) where
  open U use {Desc}

  note_endpoint-SameButEndpoints :
      (d : Desc) (r r' : Ccid) → SameButEndpoints r r' → SameButEndpoints r (note_endpoint U d r')
  unfolding note_endpoint
  note_endpoint-SameButEndpoints d r r' h =
      let a : ℕ = U.endpoint_address d in
      if_both (SameButEndpoints r) (U.endpoint_xfer d == U.xfer_bulk)
        (if_both (SameButEndpoints r) (U.is_out a)
          (record { same = ap (λ (t : Ccid). record t { ep_out = a }) h.same })
          (record { same = ap (λ (t : Ccid). record t { ep_in = a }) h.same }))
        (if_both (SameButEndpoints r) (U.endpoint_xfer d == U.xfer_interrupt)
          (record { same = ap (λ (t : Ccid). record t { ep_intr = a }) h.same }) h)

  open_endpoints-SameButEndpoints :
      (left max_len : ℕ) (d : Desc) (drv_len : ℕ) (r r' : Ccid)
      → SameButEndpoints r r'
      → SameButEndpoints r (open_endpoints U left max_len d drv_len r').0
  unfolding open_endpoints
  open_endpoints-SameButEndpoints zero max_len d drv_len r r' h = h
  open_endpoints-SameButEndpoints (suc left) max_len d drv_len r r' h =
      let P : Ccid × Option ℕ → Type 0 = λ t. SameButEndpoints r t.0 in
      if_both P (not (ltb drv_len max_len) || not (U.desc_type d == U.desc_endpoint)) h (
        if_both P (not (U.edpt_open d)) h (
          open_endpoints-SameButEndpoints left max_len (U.desc_next d)
            ((drv_len + U.desc_len d) % 2 ^ 16) r (note_endpoint U d r')
            (note_endpoint-SameButEndpoints d r r' h)))

  finish_open-SameButEndpoints :
      (max_len : ℕ) (found : Desc × ℕ) (r : Ccid)
      → SameButEndpoints r (finish_open U max_len found r).0
  unfolding finish_open
  finish_open-SameButEndpoints max_len (d, drv_len) r =
      let cleared : Ccid = record r { ep_out = 0; ep_in = 0; ep_intr = 0 } in
      let (r', out) = open_endpoints U 3 max_len d drv_len cleared in
      let kept =
        open_endpoints-SameButEndpoints 3 max_len d drv_len r cleared (record { same = refl }) in
      let P : Ccid × ℕ → Type 0 = λ t. SameButEndpoints r t.0 in
      elim (Option-cases out) [
        | inl e ↦ rw (finish_open, e) kept
        | inr (len, e) ↦ rw (finish_open, e) (if_both P (r'.ep_out == 0 || r'.ep_in == 0) kept kept)
      ]

  abbrev EndsSame : Ccid → Option (Ccid × ℕ) → Type 0
  EndsSame r none = Unit
  EndsSame r (some (r', value)) = SameButEndpoints r r'

  ends_same :
      (fuel : ℕ) (itf : Desc) (max_len : ℕ) (r : Ccid) → EndsSame r (ccid_open U fuel itf max_len r)
  unfolding ccid_open
  ends_same fuel itf max_len r =
      if_both (EndsSame r) (not (U.class_smart_card == U.interface_class itf))
        (record { same = refl })
        (elim (Option-cases (skip_functional U fuel max_len (U.desc_next itf) U.interface_size)) [
          | inl e ↦ rw e tt
          | inr (found, e) ↦ rw e (finish_open-SameButEndpoints max_len found r)
        ])

  -- An opening that ends changes the endpoints alone, on every branch.
  pub ccid_open-SameButEndpoints :
      (fuel : ℕ) (itf : Desc) (max_len : ℕ) (r r' : Ccid) (value : ℕ)
      → ccid_open U fuel itf max_len r ≡ some (r', value)
      → SameButEndpoints r r'
  ccid_open-SameButEndpoints fuel itf max_len r r' value e =
      subst (EndsSame r) e (ends_same fuel itf max_len r)
