-- ===== src/Ccid/Reading.antt =====
-- A host that reads an object through src/ccid.c: messages one after the other, each answered by
-- `_process_message` and sent by `ccid_task`, and the bodies of the answers put together.
use mathlib.Core.Path.{ap₂, subst}
use ward3n.Base.{
  ℕ, ◌+◌, ◌-◌, ◌^◌, ◌≤◌, ◌<◌, ◌≡◌, refl, ◌∙◌, ap, true, false, Option, none, some, List, [], ◌∷◌,
  ◌++◌, length, take, drop, get_or, flatten, length-append, take-append, IsBytes, arith,
}
use ward3n.Pico.{Clock}
use ward3n.Apdu.{Cmd, Answer, apdu_parse, sw_bytes}
use ward3n.CryptoBackend.{CryptoBackend}
use ward3n.Piv.{Card, route, answer_apdu, on_piv}
use ward3n.Piv.Applet.{Piv, handle_get_response}
use ward3n.Piv.Presence.{answer_apdu-route}
use ward3n.Piv.Transfer.{collect}
use ward3n.Ccid.{Ccid, Reader, process_message, ccid_task}
use ward3n.Ccid.Header.{read_u32, ccid_header}
use ward3n.Ccid.Frame.{IsReader}
use ward3n.Ccid.Framing.{process_message-Framed}
use ward3n.Ccid.Exchange.{exchange-sent, exchange-step, answered}

-- A transfer on the bulk endpoint: when it completes, and the first `size` bytes of the buffer.
pub record Message : Type 0 where
  pub at : ℕ
  pub buffer : List ℕ
  pub size : ℕ

-- The data of a DataBlock without the status word.
abbrev pub body_of : Option (List ℕ) → List ℕ
body_of none = []
body_of (some bytes) = take (length bytes - 12) (drop 10 bytes)

-- An XfrBlock with a command in it.
pub record IsXfr (m : Message) (cmd : Cmd) : Type 0 where
  pub received : IsBytes m.buffer
  pub kind : get_or m.buffer 0 0 ≡ 0x6F
  pub some_apdu : 1 ≤ read_u32 m.buffer 1
  pub inside : 10 + read_u32 m.buffer 1 ≤ m.size
  pub fits : m.size ≤ 512
  pub parsed : apdu_parse (drop 10 m.buffer) (read_u32 m.buffer 1) ≡ some cmd
  pub cla_lem : cmd.cla ≡ 0x00

-- XfrBlocks with GET RESPONSE commands.
abbrev pub AreResponses : List Message → List Cmd → Type 0
AreResponses [] [] = Unit
AreResponses (m ∷ ms) (cmd ∷ cmds) = IsXfr m cmd × (cmd.ins ≡ 0xC0) × AreResponses ms cmds
AreResponses _ _ = ⊥

-- A powered reader with a card.
pub record IsPowered {Keys : Type 0} (c : Card Keys) (r : Reader Keys) : Type 0 where
  pub transmit : length r.ccid.tx_buf ≡ 512
  pub powered : r.ccid.icc_powered ≡ true
  pub card_lem : r.card ≡ c

body_lem :
    (len seq : ℕ) (body : List ℕ) (sw : ℕ)
    → body_of (some (ccid_header 0x80 len seq 0 0 0 ++ (body ++ sw_bytes sw))) ≡ body
body_lem len seq body sw =
    let size : length (body ++ sw_bytes sw) ≡ length body + 2 = length-append body (sw_bytes sw) in
    let k : length (ccid_header 0x80 len seq 0 0 0 ++ (body ++ sw_bytes sw)) - 12 ≡ length body =
      omega (arith, size) in
    ap (λ t. take t (body ++ sw_bytes sw)) k ∙ take-append body (sw_bytes sw)

module _ (clock : Clock) (C : CryptoBackend) where
  open C use {Keys}

  abbrev loaded : Message → Reader Keys → Reader Keys
  loaded m r = record r { ccid = record r.ccid { rx_buf = m.buffer } }

  -- One message and its answer.
  unfoldable pub converse : Message → Reader Keys → List ℕ × Reader Keys
  converse m r =
      let r' = process_message clock C m.at m.buffer m.size (loaded m r) in
      let (ccid, out) = ccid_task true r'.ccid in (body_of out, record r' { ccid = ccid })

  unfoldable pub read_all : List Message → Reader Keys → List ℕ
  read_all [] r = []
  read_all (m ∷ ms) r = let (body, r') = converse m r in body ++ read_all ms r'

  task_lem :
      (r : Ccid)
      → r.response_pending ≡ true
      → r.response_len < 2 ^ 16
      → ccid_task true r
        ≡ (record r { response_pending = false }, some (take r.response_len r.tx_buf))
  unfolding ccid_task
  task_lem r pending small = ground arith

  pub converse_lem :
      (m : Message) (cmd : Cmd) (c : Card Keys) (r : Reader Keys)
      → IsXfr m cmd
      → IsPowered c r
      → let (c', a) = route clock C m.at cmd c in
        ((converse m r).0 ≡ flatten a.parts) × IsPowered c' (converse m r).1
  unfolding converse answered
  converse_lem m cmd c r x p =
      let a = (answer_apdu clock C m.at (drop 10 m.buffer) (read_u32 m.buffer 1) r.card).1 in
      let v : IsReader (loaded m r) = record { received = x.received; transmit = p.transmit } in
      let (long, _) = process_message-Framed clock C m.at m.size (loaded m r) v in
      let (pending, framed, v') = long (omega (arith, x.inside)) in
      let (bytes, short, moved) =
        exchange-sent clock C m.at m.size (loaded m r) v p.powered x.kind x.some_apdu x.inside
          x.fits in
      let step =
        exchange-step clock C m.at m.size (loaded m r) v p.powered x.kind x.some_apdu x.inside
          x.fits in
      let r' = process_message clock C m.at m.buffer m.size (loaded m r) in
      let task = task_lem r'.ccid pending (omega (arith, short)) in
      let answer : answer_apdu clock C m.at (drop 10 m.buffer) (read_u32 m.buffer 1) r.card
          ≡ route clock C m.at cmd c =
        ap (answer_apdu clock C m.at (drop 10 m.buffer) (read_u32 m.buffer 1)) p.card_lem
        ∙ answer_apdu-route clock C m.at (drop 10 m.buffer) (read_u32 m.buffer 1) cmd c x.parsed
            x.cla_lem in
      (
        ap (λ (t : Ccid × Option (List ℕ)). body_of t.1) task
            ∙ ap (λ (t : List ℕ). body_of (some t)) bytes
            ∙ body_lem (length (flatten a.parts) + 2) (get_or m.buffer 6 0) (flatten a.parts) a.sw
            ∙ ap (λ (t : Card Keys × Answer). flatten t.1.parts) answer,
        record {
          transmit = ap (λ (t : Ccid × Option (List ℕ)). length t.0.tx_buf) task ∙ v'.transmit;
          powered =
              ap (λ (t : Ccid × Option (List ℕ)). t.0.icc_powered) task
              ∙ ap (λ (t : Reader Keys). t.ccid.icc_powered) step;
          card_lem = moved ∙ ap (λ (t : Card Keys × Answer). t.0) answer;
        },
      )

  selected-get_response :
      (cmd : Cmd) (p : Piv) → (handle_get_response cmd p).0.selected ≡ p.selected
  unfolding handle_get_response
  selected-get_response cmd p = ground arith

  route-get_response :
      (now : ℕ) (cmd : Cmd) (c : Card Keys)
      → cmd.ins ≡ 0xC0
      → c.piv.selected ≡ true
      → route clock C now cmd c ≡ on_piv (handle_get_response cmd) c
  unfolding route
  route-get_response now cmd c ins open_applet = rw (ins, open_applet) refl

  -- What the GET RESPONSE commands of a host collect, comes through the transport.
  pub read_all-collect :
      (ms : List Message) (cmds : List Cmd) (c : Card Keys) (r : Reader Keys)
      → AreResponses ms cmds
      → IsPowered c r
      → c.piv.selected ≡ true
      → read_all ms r ≡ (collect cmds c.piv).0
  unfolding read_all collect
  read_all-collect [] [] c r x p open_applet = refl
  read_all-collect [] (cmd ∷ cmds) c r x p open_applet = absurd x
  read_all-collect (m ∷ ms) [] c r x p open_applet = absurd x
  read_all-collect (m ∷ ms) (cmd ∷ cmds) c r (xfr, ins, rest) p open_applet =
      let (body, p') = converse_lem m cmd c r xfr p in
      let routed = route-get_response m.at cmd c ins open_applet in
      let c' = (on_piv (handle_get_response cmd) c).0 in
      let still : c'.piv.selected ≡ true = selected-get_response cmd c.piv ∙ open_applet in
      let powered : IsPowered c' (converse m r).1 =
        subst (λ (t : Card Keys × Answer). IsPowered t.0 (converse m r).1) routed p' in
      ap₂ ◌++◌ (body ∙ ap (λ (t : Card Keys × Answer). flatten t.1.parts) routed)
        (read_all-collect ms cmds c' (converse m r).1 rest powered still)
