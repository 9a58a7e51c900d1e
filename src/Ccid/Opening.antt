-- ===== src/Ccid/Opening.antt =====
-- What `_ccid_open` of src/ccid.c reads of an interface, and the value that it returns to TinyUSB.
use ward3n.Base.{
  ℕ, ◌+◌, ◌^◌, ◌≤◌, ◌<◌, ◌≡◌, ◌≢◌, ◌⊎◌, refl, ◌||◌, Option, some, ◌==◌, arith, Bool-cases,
  Option-cases, inl, inr,
}
use ward3n.Ccid.{Ccid}
use ward3n.Ccid.Open.{TinyUsb, open_endpoints, finish_open, ccid_open}
use ward3n.Ccid.Loops.{
  skip, span, last_out, last_in, Functional, Endpoints, Skipped, Unopened, skip_functional-Skipped,
  open_endpoints_lem,
}

module _ (U : TinyUsb) where
  open U use {Desc}

  -- A reading of class-specific descriptors behind the interface's, and of endpoints behind these,
  -- which are opened: `len` is the number of bytes of them all, and the state knows the last bulk
  -- endpoint of each direction.
  pub record Read (itf : Desc) (max_len : ℕ) (state : Ccid) (len : ℕ) : Type 0 where
    pub functional : ℕ
    pub endpoints : ℕ
    pub exact :
        len
        ≡ U.interface_size
          + span U functional (U.desc_next itf)
          + span U endpoints (skip U functional (U.desc_next itf))
    pub are_functional : Functional U functional (U.desc_next itf)
    pub all_passed :
        (U.desc_type (skip U functional (U.desc_next itf)) ≢ 0x21)
        ⊎ (max_len ≤ U.interface_size + span U functional (U.desc_next itf))
    pub are_endpoints : Endpoints U endpoints (skip U functional (U.desc_next itf))
    pub few : endpoints ≤ 3
    pub all_taken :
        (endpoints ≡ 3)
        ⊎ (U.desc_type (skip U endpoints (skip U functional (U.desc_next itf))) ≢ U.desc_endpoint)
        ⊎ (max_len ≤ len)
    pub bounded : len < max_len + 256
    pub out : state.ep_out ≡ last_out U endpoints (skip U functional (U.desc_next itf)) 0
    pub in_ : state.ep_in ≡ last_in U endpoints (skip U functional (U.desc_next itf)) 0

  -- An opening that returns 0: another driver's interface, an endpoint that is not opened among the
  -- three behind the class-specific descriptors, or no bulk endpoint of one direction in what is read.
  abbrev pub Refused : Desc → ℕ → Ccid → Type 0
  Refused itf max_len state =
      (U.class_smart_card ≢ U.interface_class itf)
      ⊎ ((functional : ℕ) × Functional U functional (U.desc_next itf)
          × Unopened U 3 (skip U functional (U.desc_next itf)))
      ⊎ ((len : ℕ) × Read itf max_len state len × ((state.ep_out ≡ 0) ⊎ (state.ep_in ≡ 0)))

  -- The end of an opening: the state, and the value returned.
  pub record Opened (itf : Desc) (max_len : ℕ) (result : Option (Ccid × ℕ)) : Type 0 where
    pub state : Ccid
    pub value : ℕ
    pub some_result : result ≡ some (state, value)
    pub refused_or_taken :
        ((value ≡ 0) × Refused itf max_len state)
        ⊎ (Read itf max_len state value × (state.ep_out ≢ 0) × (state.ep_in ≢ 0))

  finish_open-Opened :
      (max_len : ℕ) (itf : Desc) (r : Ccid) (found : Option (Desc × ℕ))
      → max_len + 256 < 2 ^ 16
      → (s : Skipped U max_len U.interface_size (U.desc_next itf) found)
      → let (r', value) = finish_open U max_len (skip U s.passed (U.desc_next itf), s.len) r in
        ((value ≡ 0) × Refused itf max_len r')
        ⊎ (Read itf max_len r' value × (r'.ep_out ≢ 0) × (r'.ep_in ≢ 0))
  unfolding finish_open
  finish_open-Opened max_len itf r found small s =
      let d : Desc = skip U s.passed (U.desc_next itf) in
      let cleared : Ccid = record r { ep_out = 0; ep_in = 0; ep_intr = 0 } in
      let (state, out) = open_endpoints U 3 max_len d s.len cleared in
      let (counts, fails) = open_endpoints_lem U 3 max_len d s.len cleared small s.bounded in
      let read : (len : ℕ) → out ≡ some len → Read itf max_len state len = λ len e.
        let c = counts len e in
        record {
          functional = s.passed;
          endpoints = c.count;
          exact = omega (arith, c.exact, s.exact);
          are_functional = s.functional;
          all_passed = ground (arith, s.ended, s.exact);
          are_endpoints = c.endpoints;
          few = c.few;
          all_taken = c.ended;
          bounded = c.bounded;
          out = c.out;
          in_ = c.in_;
        } in
      elim (Option-cases out) [
        | inl failed ↦
            rw (finish_open, failed) (inl (refl, inr (inl (s.passed, s.functional, fails failed))))
        | inr (len, e) ↦ elim (Bool-cases (state.ep_out == 0 || state.ep_in == 0)) [
          | inl unknown ↦
              rw (finish_open, e, unknown) (inl (refl, inr (inr (len, read len e, ground arith))))
          | inr known ↦ rw (finish_open, e, known) (inr (read len e, ground arith, ground arith))
        ]
      ]

  -- An interface whose descriptors have at least one byte each, in a configuration with a total
  -- length below 65280: fuel for one pass per byte is enough for the loop over the class-specific
  -- descriptors. The value returned is 0 and the interface is of another class, or an endpoint
  -- among the three behind its class-specific descriptors is not opened; or class-specific
  -- descriptors are passed, up to another one or to the limit, and up to three endpoints behind
  -- them are opened, up to another descriptor or to the limit, and the state has the addresses of
  -- the last bulk endpoint of each direction: then the value is 0 if one of these is 0, and
  -- otherwise it is the sum of the lengths of the interface's descriptor and of all those passed
  -- and opened, less than 256 beyond the limit.
  pub ccid_open-ends :
      (itf : Desc) (max_len : ℕ) (r : Ccid)
      → ((e : Desc) → 1 ≤ U.desc_len e)
      → max_len + 256 < 2 ^ 16
      → Opened itf max_len (ccid_open U (max_len + 1) itf max_len r)
  unfolding ccid_open
  ccid_open-ends itf max_len r pos small =
      elim (Bool-cases (U.class_smart_card == U.interface_class itf)) [
        | inl ours ↦
            let found =
              skip_functional-Skipped U (max_len + 1) max_len (U.desc_next itf) U.interface_size pos
                small (omega (arith, U.interface_size-lt)) (omega arith, omega arith) in
            let (state, value) =
              finish_open U max_len (skip U found.passed (U.desc_next itf), found.len) r in
            rw (ours, found.some_found)
              (record {
                state = state;
                value = value;
                some_result = refl;
                refused_or_taken = finish_open-Opened max_len itf r _ small found;
              })
        | inr other ↦ rw other (record {
          state = r;
          value = 0;
          some_result = refl;
          refused_or_taken = inl (refl, inl (ground arith));
        })
      ]
