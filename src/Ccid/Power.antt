-- ===== src/Ccid/Power.antt =====
-- The power state of the card's slot in src/ccid.c.
use ward3n.Base.{
  ℕ, ◌≤◌, ◌≡◌, ◌≢◌, ◌⊎◌, refl, ◌∙◌, ap, Bool, true, false, Option, none, some, List, [], ◌∷◌,
  get_or, ◌==◌, arith, Option-cases, inl, inr,
}
use ward3n.Pico.{Clock}
use ward3n.CryptoBackend.{CryptoBackend}
use ward3n.Apdu.{Cmd, apdu_parse}
use ward3n.Piv.{Card, answer_apdu, route}
use ward3n.Piv.Chain.{pending}
use ward3n.Piv.Applet.{piv_init, handle_select}
use ward3n.Ccid.{Reader, handle_xfr_block, respond, process_message}

-- A message that arrives: the time, what the transfer leaves in the receive buffer, and its length.
pub record Arrival : Type 0 where
  pub now : ℕ
  pub bytes : List ℕ
  pub len : ℕ

-- No message of the list is an IccPowerOn.
abbrev pub NoPowerOn : List Arrival → Type 0
NoPowerOn [] = Unit
NoPowerOn (m ∷ ms) = (get_or m.bytes 0 0 ≢ 0x62) × NoPowerOn ms

abbrev pub is_select : Option Cmd → Bool
is_select none = false
is_select (some cmd) = cmd.ins == 0xA4

module _ (clock : Clock) (C : CryptoBackend) where
  open C use {Keys}

  -- The transfer fills the receive buffer, and the message is processed.
  unfoldable pub arrive : Arrival → Reader Keys → Reader Keys
  arrive m r =
      process_message clock C m.now m.bytes m.len
        (record r { ccid = record r.ccid { rx_buf = m.bytes } })

  pub arrive_all : List Arrival → Reader Keys → Reader Keys
  arrive_all [] r = r
  arrive_all (m ∷ ms) r = arrive_all ms (arrive m r)

  respond-unpowered :
      (now : ℕ) (msg : List ℕ) (n : ℕ) (tx : List ℕ) (card : Card Keys)
      → get_or msg 0 0 ≢ 0x62
      → let (powered, card', resp) = respond clock C now false msg n tx card in
        (powered ≡ false) × (card' ≡ card)
  unfolding respond handle_xfr_block
  respond-unpowered now msg n tx card other = ground arith

  arrive-unpowered :
      (m : Arrival) (r : Reader Keys)
      → r.ccid.icc_powered ≡ false
      → get_or m.bytes 0 0 ≢ 0x62
      → ((arrive m r).card ≡ r.card) × ((arrive m r).ccid.icc_powered ≡ false)
  unfolding arrive process_message
  arrive-unpowered m r off other =
      ground (arith, respond-unpowered m.now m.bytes m.len r.ccid.tx_buf r.card other)

  -- Whatever messages an unpowered reader gets, XfrBlock among them: until an IccPowerOn comes, the
  -- card is not touched, neither the applet nor the device's state nor the keys, and the slot stays
  -- unpowered.
  pub unpowered_inert :
      (ms : List Arrival) (r : Reader Keys)
      → r.ccid.icc_powered ≡ false
      → NoPowerOn ms
      → ((arrive_all ms r).card ≡ r.card) × ((arrive_all ms r).ccid.icc_powered ≡ false)
  unfolding arrive_all
  unpowered_inert [] r off none_on = (refl, off)
  unpowered_inert (m ∷ ms) r off none_on =
      let (same, still) = arrive-unpowered m r off none_on.0 in
      let (all_same, all_off) = unpowered_inert ms (arrive m r) still none_on.1 in
      (all_same ∙ same, all_off)

  power_off-keeps :
      (m : Arrival) (r : Reader Keys)
      → 10 ≤ m.len
      → get_or m.bytes 0 0 ≡ 0x63
      → ((arrive m r).card ≡ r.card) × ((arrive m r).ccid.icc_powered ≡ false)
  unfolding arrive process_message respond
  power_off-keeps m r long off = (ground arith, ground arith)

  power_on-starts :
      (m : Arrival) (r : Reader Keys)
      → 10 ≤ m.len
      → get_or m.bytes 0 0 ≡ 0x62
      → ((arrive m r).card ≡ record r.card { piv = piv_init })
        × ((arrive m r).ccid.icc_powered ≡ true)
  unfolding arrive process_message respond
  power_on-starts m r long on = (ground arith, ground arith)

  -- What a message may do to a card whose applet is not selected: nothing to the PIN, the device's
  -- state and the keys, and only a SELECT is answered by 9000.
  abbrev pub Closed : Card Keys → ℕ → List ℕ → ℕ → Type 0
  Closed c now raw n =
      let (c', a) = answer_apdu clock C now raw n c in
      (c'.piv.pin_verified ≡ c.piv.pin_verified)
      × (c'.dev ≡ c.dev)
      × (c'.keys ≡ c.keys)
      × ((a.sw ≢ 0x9000) ⊎ (is_select (apdu_parse raw n) ≡ true))

  unselected-Closed :
      (c : Card Keys) (now : ℕ) (raw : List ℕ) (n : ℕ) → c.piv.selected ≡ false → Closed c now raw n
  unfolding answer_apdu route handle_select
  unselected-Closed c now raw n shut = elim (Option-cases (apdu_parse raw n)) [
    | inl e ↦ rw (answer_apdu, e) (refl, refl, refl, inl (ground arith))
    | inr (cmd, e) ↦ rw (answer_apdu, e) (ground arith, ground arith, ground arith, ground arith)
  ]

  -- IccPowerOff, then messages other than IccPowerOn, then IccPowerOn, in a reader in any state; both
  -- messages have at least ten bytes. Up to the IccPowerOn the whole card is as it was before the
  -- IccPowerOff, a verified PIN and the selection included, and the slot is unpowered. The IccPowerOn
  -- powers the slot and keeps the device's state and the keys, and behind it no applet is selected,
  -- the PIN is not verified, and no bytes wait for a GET RESPONSE: whatever APDU comes first, it
  -- leaves the PIN unverified and the device's state and the keys alone, and is answered by 9000 only
  -- if it is a SELECT.
  pub power_lem :
      (off on : Arrival) (ms : List Arrival) (r : Reader Keys) (now : ℕ) (raw : List ℕ) (n : ℕ)
      → (10 ≤ off.len) × (get_or off.bytes 0 0 ≡ 0x63)
      → NoPowerOn ms
      → (10 ≤ on.len) × (get_or on.bytes 0 0 ≡ 0x62)
      → let before = arrive_all ms (arrive off r) in
        let after = arrive on before in
        (before.card ≡ r.card)
        × (before.ccid.icc_powered ≡ false)
        × (after.ccid.icc_powered ≡ true)
        × (after.card.dev ≡ r.card.dev)
        × (after.card.keys ≡ r.card.keys)
        × (after.card.piv.selected ≡ false)
        × (after.card.piv.pin_verified ≡ false)
        × (pending after.card.piv ≡ [])
        × Closed after.card now raw n
  unfolding piv_init
  power_lem off on ms r now raw n offs quiet ons =
      let (kept, dark) = power_off-keeps off r offs.0 offs.1 in
      let (same, still) = unpowered_inert ms (arrive off r) dark quiet in
      let before = arrive_all ms (arrive off r) in
      let (card, powered) = power_on-starts on before ons.0 ons.1 in
      let whole : before.card ≡ r.card = same ∙ kept in
      let started : (arrive on before).card ≡ record r.card { piv = piv_init } =
        card ∙ ap (λ (c : Card Keys). record c { piv = piv_init }) whole in
      (
        whole,
        still,
        powered,
        ap (λ (c : Card Keys). c.dev) started,
        ap (λ (c : Card Keys). c.keys) started,
        ap (λ (c : Card Keys). c.piv.selected) started,
        ap (λ (c : Card Keys). c.piv.pin_verified) started,
        ap (λ (c : Card Keys). pending c.piv) started,
        unselected-Closed (arrive on before).card now raw n
            (ap (λ (c : Card Keys). c.piv.selected) started),
      )
