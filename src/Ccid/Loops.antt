-- ===== src/Ccid/Loops.antt =====
-- The two loops of `_ccid_open` of src/ccid.c over the descriptors of an interface.
use ward3n.Base.{
  ℕ, zero, suc, ◌+◌, ◌%◌, ◌^◌, ◌≤◌, ◌<◌, ◌≡◌, ◌≢◌, ◌⊎◌, refl, ◌∙◌, ap, true, false, not, ◌&&◌, ◌||◌,
  Option, none, some, ltb, ◌==◌, if◌then◌else◌, arith, Bool-cases, inl, inr,
}
use ward3n.Ccid.{Ccid}
use ward3n.Ccid.Open.{TinyUsb, skip_functional, note_endpoint, open_endpoints}

module _ (U : TinyUsb) where
  open U use {Desc}

  -- The descriptor behind the first k, and the bytes of these.
  abbrev pub skip : ℕ → Desc → Desc
  skip zero d = d
  skip (suc k) d = skip k (U.desc_next d)

  abbrev pub span : ℕ → Desc → ℕ
  span zero d = 0
  span (suc k) d = U.desc_len d + span k (U.desc_next d)

  -- The first k descriptors are class-specific; they are endpoints, all of them opened.
  abbrev pub Functional : ℕ → Desc → Type 0
  Functional zero d = Unit
  Functional (suc k) d = (U.desc_type d ≡ 0x21) × Functional k (U.desc_next d)

  abbrev pub Endpoints : ℕ → Desc → Type 0
  Endpoints zero d = Unit
  Endpoints (suc k) d =
      (U.desc_type d ≡ U.desc_endpoint) × (U.edpt_open d ≡ true) × Endpoints k (U.desc_next d)

  -- What the loop over the class-specific descriptors ends with.
  pub record Skipped (max_len from : ℕ) (d : Desc) (found : Option (Desc × ℕ)) : Type 0 where
    pub passed : ℕ
    pub len : ℕ
    pub some_found : found ≡ some (skip passed d, len)
    pub exact : len ≡ from + span passed d
    pub functional : Functional passed d
    pub ended : (U.desc_type (skip passed d) ≢ 0x21) ⊎ (max_len ≤ len)
    pub bounded : len < max_len + 256

  -- With descriptors of at least one byte, fuel for the bytes that are left is enough.
  pub skip_functional-Skipped :
      (fuel max_len : ℕ) (d : Desc) (drv_len : ℕ)
      → ((e : Desc) → 1 ≤ U.desc_len e)
      → max_len + 256 < 2 ^ 16
      → drv_len < max_len + 256
      → (1 ≤ fuel) × (max_len < drv_len + fuel)
      → Skipped max_len drv_len d (skip_functional U fuel max_len d drv_len)
  unfolding skip_functional
  skip_functional-Skipped zero max_len d drv_len pos small inside enough =
      absurd (omega (arith, enough))
  skip_functional-Skipped (suc fuel) max_len d drv_len pos small inside enough =
      elim (Bool-cases (U.desc_type d == 0x21 && ltb drv_len max_len)) [
        | inl on ↦
            let step : (drv_len + U.desc_len d) % 2 ^ 16 ≡ drv_len + U.desc_len d =
              ground (arith, U.desc_len-lt d) in
            let next =
              skip_functional-Skipped fuel max_len (U.desc_next d) (drv_len + U.desc_len d) pos
                small (ground (arith, U.desc_len-lt d))
                (ground (arith, pos d), ground (arith, pos d)) in
            rw (on, step)
              (record {
                passed = suc next.passed;
                len = next.len;
                some_found = next.some_found;
                exact = omega (arith, next.exact);
                functional = (ground arith, next.functional);
                ended = next.ended;
                bounded = next.bounded;
              })
        | inr off ↦ rw off (record {
          passed = 0;
          len = drv_len;
          some_found = refl;
          exact = omega arith;
          functional = tt;
          ended = ground arith;
          bounded = inside;
        })
      ]

  -- The address of the last bulk endpoint of each direction among k descriptors, or else a.
  abbrev pub last_out : ℕ → Desc → ℕ → ℕ
  last_out zero d a = a
  last_out (suc k) d a = last_out k (U.desc_next d) (
      if U.endpoint_xfer d == U.xfer_bulk && U.is_out (U.endpoint_address d)
      then U.endpoint_address d
      else a)

  abbrev pub last_in : ℕ → Desc → ℕ → ℕ
  last_in zero d a = a
  last_in (suc k) d a = last_in k (U.desc_next d) (
      if U.endpoint_xfer d == U.xfer_bulk && not (U.is_out (U.endpoint_address d))
      then U.endpoint_address d
      else a)

  note_endpoint_lem :
      (d : Desc) (r : Ccid)
      → ((note_endpoint U d r).ep_out ≡ last_out 1 d r.ep_out)
        × ((note_endpoint U d r).ep_in ≡ last_in 1 d r.ep_in)
  unfolding note_endpoint
  note_endpoint_lem d r = (ground arith, ground arith)

  -- The loop over the endpoints goes from one state to another, and ends with a length.
  pub record Counted (left max_len from : ℕ) (d : Desc) (r r' : Ccid) (len : ℕ) : Type 0 where
    pub count : ℕ
    pub few : count ≤ left
    pub exact : len ≡ from + span count d
    pub endpoints : Endpoints count d
    pub ended : (count ≡ left) ⊎ (U.desc_type (skip count d) ≢ U.desc_endpoint) ⊎ (max_len ≤ len)
    pub bounded : len < max_len + 256
    pub out : r'.ep_out ≡ last_out count d r.ep_out
    pub in_ : r'.ep_in ≡ last_in count d r.ep_in

  -- The loop ends at an endpoint that TinyUSB does not open.
  abbrev pub Unopened : ℕ → Desc → Type 0
  Unopened left d =
      (k : ℕ) × (k < left)
      × Endpoints k d
      × (U.desc_type (skip k d) ≡ U.desc_endpoint)
      × (U.edpt_open (skip k d) ≡ false)

  pub open_endpoints_lem :
      (left max_len : ℕ) (d : Desc) (drv_len : ℕ) (r : Ccid)
      → max_len + 256 < 2 ^ 16
      → drv_len < max_len + 256
      → let (r', out) = open_endpoints U left max_len d drv_len r in
        ((len : ℕ) → out ≡ some len → Counted left max_len drv_len d r r' len)
        × (out ≡ none → Unopened left d)
  unfolding open_endpoints
  open_endpoints_lem zero max_len d drv_len r small inside = (
    λ len e. record {
      count = 0;
      few = omega arith;
      exact = ground arith;
      endpoints = tt;
      ended = inl refl;
      bounded = ground arith;
      out = refl;
      in_ = refl;
    },
    λ e. absurd (ground arith),
  )
  open_endpoints_lem (suc left) max_len d drv_len r small inside =
      elim (Bool-cases (not (ltb drv_len max_len) || not (U.desc_type d == U.desc_endpoint))) [
        | inl done ↦ rw done (
          λ len e. record {
            count = 0;
            few = omega arith;
            exact = ground arith;
            endpoints = tt;
            ended = inr (ground arith);
            bounded = ground arith;
            out = refl;
            in_ = refl;
          },
          λ e. absurd (ground arith),
        )
        | inr more ↦ elim (Bool-cases (U.edpt_open d)) [
          | inl opened ↦
              let step : (drv_len + U.desc_len d) % 2 ^ 16 ≡ drv_len + U.desc_len d =
                ground (arith, U.desc_len-lt d) in
              let (counts, fails) =
                open_endpoints_lem left max_len (U.desc_next d) (drv_len + U.desc_len d)
                  (note_endpoint U d r) small (ground (arith, U.desc_len-lt d)) in
              let noted = note_endpoint_lem d r in
              let endpoint : U.desc_type d ≡ U.desc_endpoint = ground arith in
              rw (more, opened, step)
                (
                  λ len e.
                      let next = counts len e in
                      record {
                        count = suc next.count;
                        few = omega (arith, next.few);
                        exact = omega (arith, next.exact);
                        endpoints = (endpoint, opened, next.endpoints);
                        ended = ground (arith, next.ended);
                        bounded = next.bounded;
                        out = next.out ∙ ap (last_out next.count (U.desc_next d)) noted.0;
                        in_ = next.in_ ∙ ap (last_in next.count (U.desc_next d)) noted.1;
                      },
                  λ e.
                      let (k, under, before, type, shut) = fails e in
                      (suc k, omega (arith, under), (endpoint, opened, before), type, shut),
                )
          | inr shut ↦
              rw (more, shut)
                (λ len e. absurd (ground arith), λ e. (0, omega arith, tt, ground arith, shut))
        ]
      ]
