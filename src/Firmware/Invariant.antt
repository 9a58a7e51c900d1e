-- ===== src/Firmware/Invariant.antt =====
-- A rule for runs of src/main.c: what the applet's answers, a power on and the changes of the device's
-- state keep of the card, every run keeps.
use ward3n.Base.{
  ℕ, Bool, true, false, List, [], ◌∷◌, drop, get_or, ◌+◌, ltb, leb, ◌==◌, ◌||◌, if_both,
}
use ward3n.Pico.{Clock}
use ward3n.Apdu.{u32}
use ward3n.DeviceState.{Device}
use ward3n.CryptoBackend.{CryptoBackend}
use ward3n.Piv.{Card, answer_apdu, piv_process_apdu}
use ward3n.Piv.Applet.{piv_init}
use ward3n.Ccid.{Reader, exchange, handle_xfr_block, respond, process_message, xfer_cb}
use ward3n.Ccid.Responses.{Response}
use ward3n.Ccid.Header.{read_u32}
use ward3n.Firmware.{
  Firmware, Action, transfer, driver_init, bus_reset, unmount, mount, suspend, resume, driver_open,
  send, edge, poll, tick, animate, act, run,
}

-- What is asked of the APDUs that a run's transfers carry: the bytes behind the header, and dwLength.
abbrev pub Carries : (List ℕ → ℕ → Type 0) → Action → Type 0
Carries Allowed (transfer now ep rx n) = Allowed (drop 10 rx) (read_u32 rx 1)
Carries Allowed _ = Unit

abbrev pub AllCarry : (List ℕ → ℕ → Type 0) → List Action → Type 0
AllCarry Allowed [] = Unit
AllCarry Allowed (a ∷ rest) = Carries Allowed a × AllCarry Allowed rest

-- What is to be shown of a predicate on the card.
pub record Keeps (clock : Clock) (C : CryptoBackend) (Allowed : List ℕ → ℕ → Type 0)
    (P : Card (CryptoBackend.Keys C) → Type 0) : Type 0 where
  pub keep_answer :
      (now : ℕ) (raw : List ℕ) (n : ℕ) (c : Card (CryptoBackend.Keys C))
      → Allowed raw n
      → P c
      → P (answer_apdu clock C now raw n c).0
  pub keep_power_on : (c : Card (CryptoBackend.Keys C)) → P c → P (record c { piv = piv_init })
  pub keep_device : (c : Card (CryptoBackend.Keys C)) (d : Device) → P c → P (record c { dev = d })

-- What a transfer makes of the card: nothing, a power on, or the applet's answer to the APDU behind the
-- header.
module _ (clock : Clock) (C : CryptoBackend) (P : Card (CryptoBackend.Keys C) → Type 0)
    (c : Card (CryptoBackend.Keys C)) (now : ℕ) where
  open C use {Keys}

  abbrev AfterAnswer : List ℕ → Type 0
  AfterAnswer msg = P (answer_apdu clock C now (drop 10 msg) (read_u32 msg 1) c).0

  exchange-cases :
      (msg tx : List ℕ) → AfterAnswer msg → P (exchange clock C now msg (read_u32 msg 1) tx c).0
  unfolding exchange piv_process_apdu
  exchange-cases msg tx answer = answer

  xfr_block-cases :
      (powered : Bool) (msg : List ℕ) (n : ℕ) (tx : List ℕ)
      → P c
      → AfterAnswer msg
      → P (handle_xfr_block clock C now powered msg n tx c).0
  unfolding handle_xfr_block
  xfr_block-cases false msg n tx same answer = same
  xfr_block-cases true msg n tx same answer =
      if_both (λ (t : Card Keys × Response). P t.0)
        (read_u32 msg 1 == 0 || ltb n (u32 (10 + read_u32 msg 1))) same
        (exchange-cases msg tx answer)

  pub respond-cases :
      (powered : Bool) (msg : List ℕ) (n : ℕ) (tx : List ℕ)
      → P c
      → P (record c { piv = piv_init })
      → AfterAnswer msg
      → P (respond clock C now powered msg n tx c).1
  unfolding respond
  respond-cases powered msg n tx same power_on answer =
      let kind : ℕ = get_or msg 0 0 in
      let Q : Bool × Card Keys × Response → Type 0 = λ t. P t.1 in
      if_both Q (kind == 0x62) power_on (
        if_both Q (kind == 0x63) same (
          if_both Q (kind == 0x65) same (
            if_both Q (kind == 0x6F) (xfr_block-cases powered msg n tx same answer) (
              if_both Q (kind == 0x72) same
                (if_both Q (kind == 0x61) same (if_both Q (kind == 0x73) same same))))))

module _ (clock : Clock) (C : CryptoBackend) (P : Card (CryptoBackend.Keys C) → Type 0) where
  open C use {Keys}

  pub xfer_cb-cases :
      (now ep n : ℕ) (r : Reader Keys)
      → P r.card
      → P (record r.card { piv = piv_init })
      → P (answer_apdu clock C now (drop 10 r.ccid.rx_buf) (read_u32 r.ccid.rx_buf 1) r.card).0
      → P (xfer_cb clock C now ep n r).card
  unfolding xfer_cb process_message
  xfer_cb-cases now ep n r same power_on answer =
      let Q : Reader Keys → Type 0 = λ t. P t.card in
      if_both Q (ep == r.ccid.ep_out)
        (if_both Q (leb 10 n)
          (if_both Q (ltb n 10) same (
            respond-cases clock C P r.card now r.ccid.icc_powered r.ccid.rx_buf n r.ccid.tx_buf same
              power_on answer))
          same)
        same

module _ (clock : Clock) (C : CryptoBackend) {Allowed : List ℕ → ℕ → Type 0}
    {P : Card (CryptoBackend.Keys C) → Type 0} (keeps : Keeps clock C Allowed P) where
  open C use {Keys}
  open keeps use {keep_answer, keep_power_on, keep_device}

  act-keeps :
      (a : Action) (f : Firmware Keys)
      → Carries Allowed a
      → P f.reader.card
      → P (act clock C a f).0.reader.card
  unfolding act
  act-keeps (transfer now ep rx n) f ok p =
      let r : Reader Keys = record f.reader { ccid = record f.reader.ccid { rx_buf = rx } } in
      xfer_cb-cases clock C P now ep n r p (keep_power_on r.card p)
        (keep_answer now (drop 10 rx) (read_u32 rx 1) r.card ok p)
  act-keeps driver_init f ok p = p
  act-keeps bus_reset f ok p = p
  act-keeps unmount f ok p = keep_device f.reader.card _ p
  act-keeps mount f ok p = p
  act-keeps suspend f ok p = p
  act-keeps resume f ok p = p
  act-keeps (driver_open out in_ intr) f ok p = p
  act-keeps (send claimed) f ok p = p
  act-keeps (edge now gpio) f ok p = p
  act-keeps (poll now pressed_at level) f ok p = keep_device f.reader.card _ p
  act-keeps (tick now) f ok p = keep_device f.reader.card _ p
  act-keeps (animate due_at now) f ok p = p

  -- The rule.
  pub run-keeps :
      (actions : List Action) (f : Firmware Keys)
      → AllCarry Allowed actions
      → P f.reader.card
      → P (run clock C actions f).0.reader.card
  unfolding run
  run-keeps [] f ok p = p
  run-keeps (a ∷ rest) f ok p = run-keeps rest (act clock C a f).0 ok.1 (act-keeps a f ok.0 p)
