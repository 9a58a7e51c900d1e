-- ===== src/Piv/Locality.antt =====
-- Which bytes of a message the answers of src/piv.c depend on.
use ward3n.Base.{
  ℕ, ◌+◌, ◌-◌, ◌≤◌, ◌≡◌, refl, sym, ◌∙◌, ap, true, false, ◌||◌, not, Option, none, some, List, [],
  get_or, take, drop, take-take, drop-take, get_or-take, get_or-drop, arith, ltb, ◌==◌,
  if◌then◌else◌, Bool-cases, Option-cases, inl, inr, IsBytes,
}
use ward3n.Pico.{Clock}
use ward3n.Apdu.{u32, Cmd, apdu_parse, Answer, status}
use ward3n.Apdu.Status.{sw_unknown, sw_cla_not_supported}
use ward3n.Apdu.Parse.{parse-FromMessage}
use ward3n.CryptoBackend.{CryptoBackend}
use ward3n.Piv.{
  Card, find_object, handle_get_data, with_presence, sign_and_answer, handle_general_authenticate,
  route, answer_apdu,
}
use ward3n.Piv.Applet.{
  Piv, handle_select, handle_verify, send_object, handle_get_response, send_now,
}
use ward3n.Piv.Dat.{parse_dat}
use ward3n.Piv.Template.{parse_dat-take}

-- The command with the buffer cut off `m` bytes behind the start of its data.
abbrev cut : ℕ → Cmd → Cmd
cut m cmd = record cmd { data_bytes = take m cmd.data_bytes }

abbrev cut_parsed : ℕ → Option Cmd → Option Cmd
cut_parsed m none = none
cut_parsed m (some cmd) = some (cut m cmd)

parse-take :
    (raw : List ℕ) (n : ℕ) → apdu_parse (take n raw) n ≡ cut_parsed (n - 5) (apdu_parse raw n)
unfolding apdu_parse
parse-take raw n = ground (
  arith,
  get_or-take raw 0 n 0,
  get_or-take raw 1 n 0,
  get_or-take raw 2 n 0,
  get_or-take raw 3 n 0,
  get_or-take raw 4 n 0,
  get_or-take raw (u32 (5 + get_or raw 4 0)) n 0,
  drop-take 5 n raw,
)

parse-fields :
    (raw : List ℕ) (n : ℕ) {cmd : Cmd}
    → apdu_parse raw n ≡ some cmd
    → (cmd.ins ≡ get_or raw 1 0)
      × (cmd.has_lc ≡ true → cmd.lc ≡ get_or raw 4 0)
      × (cmd.has_lc ≡ false → (cmd.lc ≡ 0) × (cmd.data_bytes ≡ []))
unfolding apdu_parse
parse-fields raw n e = ground arith

select-cut :
    (m : ℕ) (cmd : Cmd) (p : Piv) → cmd.lc ≤ m → handle_select (cut m cmd) p ≡ handle_select cmd p
unfolding handle_select
select-cut m cmd p h = ground (arith, take-take 11 m cmd.data_bytes)

verify-cut :
    (m : ℕ) (cmd : Cmd) (p : Piv) → cmd.lc ≤ m → handle_verify (cut m cmd) p ≡ handle_verify cmd p
unfolding handle_verify
verify-cut m cmd p h = ground (arith, take-take 8 m cmd.data_bytes)

response-cut :
    (m : ℕ) (cmd : Cmd) (p : Piv) → handle_get_response (cut m cmd) p ≡ handle_get_response cmd p
unfolding handle_get_response send_now
response-cut m cmd p = refl

parse_dat-cut : (m lc : ℕ) (p : List ℕ) → 4 ≤ lc → lc ≤ m → parse_dat (take m p) lc ≡ parse_dat p lc
parse_dat-cut m lc p four h =
    sym (parse_dat-take (take m p) lc four)
    ∙ ap (λ t. parse_dat t lc) (take-take lc m p h)
    ∙ parse_dat-take p lc four

lc_inside :
    (raw : List ℕ) (n : ℕ) {cmd : Cmd} → IsBytes raw → apdu_parse raw n ≡ some cmd → cmd.lc ≤ n - 5
lc_inside raw n {cmd} bytes e = elim (Bool-cases cmd.has_lc) [
  | inl body ↦ omega (arith, (parse-FromMessage raw n bytes e).data_inside body)
  | inr none_there ↦ omega (arith, ((parse-fields raw n e).2 none_there).0)
]

read_data :
    (raw : List ℕ) (n : ℕ) {cmd : Cmd}
    → (get_or raw 1 0 ≡ 0xCB → get_or raw 6 0 ≡ 3 → 5 ≤ get_or raw 4 0)
    → apdu_parse raw n ≡ some cmd
    → cmd.ins ≡ 0xCB
    → get_or cmd.data_bytes 1 0 ≡ 3
    → 5 ≤ cmd.lc
unfolding apdu_parse
read_data raw n whole e get_data three = ground (arith, get_or-drop raw 1 5 0)

module _ (C : CryptoBackend) where
  open C use {Keys}

  find_object-cut :
      (keys : Keys) (n m : ℕ) (tag : List ℕ)
      → (n ≡ 3 → 3 ≤ m)
      → 1 ≤ m
      → find_object C keys n (take m tag) ≡ find_object C keys n tag
  unfolding find_object
  find_object-cut keys n m tag three one = elim (Bool-cases (n == 3)) [
    | inl e ↦ rw (e, take-take 3 m tag (three (ground arith))) refl
    | inr e ↦ rw (e, get_or-take tag 0 m 0 (omega arith)) refl
  ]

  -- GET DATA, with Lc from 5 on where the tag has three bytes.
  get_data-cut :
      (keys : Keys) (m : ℕ) (cmd : Cmd) (p : Piv)
      → cmd.lc ≤ m
      → (get_or cmd.data_bytes 1 0 ≡ 3 → 5 ≤ cmd.lc)
      → handle_get_data C keys (cut m cmd) p ≡ handle_get_data C keys cmd p
  unfolding handle_get_data send_object
  get_data-cut keys m cmd p h whole = elim (Bool-cases (not cmd.has_lc || ltb cmd.lc 3)) [
    | inl short ↦ ground arith
    | inr long ↦
        let room : 3 ≤ m = ground arith in
        let wide : get_or cmd.data_bytes 1 0 ≡ 3 → 3 ≤ m - 2 = λ e. omega (arith, whole e) in
        rw
          (
            get_or-take cmd.data_bytes 0 m 0 (omega arith),
            get_or-take cmd.data_bytes 1 m 0 (omega arith),
            drop-take 2 m cmd.data_bytes,
            find_object-cut keys (get_or cmd.data_bytes 1 0) (m - 2) (drop 2 cmd.data_bytes) wide
                (omega arith),
          )
          refl
  ]

module _ (clock : Clock) (C : CryptoBackend) where
  open C use {Keys}

  authenticate-cut :
      (now m : ℕ) (cmd : Cmd) (c : Card Keys)
      → cmd.lc ≤ m
      → handle_general_authenticate clock C now (cut m cmd) c
        ≡ handle_general_authenticate clock C now cmd c
  unfolding handle_general_authenticate with_presence sign_and_answer
  authenticate-cut now m cmd c h = elim (Bool-cases (not cmd.has_lc || ltb cmd.lc 4)) [
    | inl short ↦ ground arith
    | inr long ↦ rw (parse_dat-cut m cmd.lc cmd.data_bytes (ground arith) h) refl
  ]

  route-cut :
      (now m : ℕ) (cmd : Cmd) (c : Card Keys)
      → cmd.lc ≤ m
      → (cmd.ins ≡ 0xCB → get_or cmd.data_bytes 1 0 ≡ 3 → 5 ≤ cmd.lc)
      → route clock C now (cut m cmd) c ≡ route clock C now cmd c
  unfolding route
  route-cut now m cmd c h whole = elim (Bool-cases (cmd.ins == 0xCB)) [
    | inl yes_data ↦
        rw
          (
            select-cut m cmd c.piv h,
            verify-cut m cmd c.piv h,
            response-cut m cmd c.piv,
            authenticate-cut now m cmd c h,
            get_data-cut C c.keys m cmd c.piv h (whole (ground arith)),
          )
          refl
    | inr other ↦
        rw
          (
            other,
            select-cut m cmd c.piv h,
            verify-cut m cmd c.piv h,
            response-cut m cmd c.piv,
            authenticate-cut now m cmd c h,
          )
          refl
  ]

  abbrev answer_parsed : ℕ → Card Keys → Option Cmd → Card Keys × Answer
  answer_parsed now c parsed = elim parsed [
    | none ↦ (c, status sw_unknown)
    | some cmd ↦
        (if not (cmd.cla == 0x00)
          then (c, status sw_cla_not_supported)
          else route clock C now cmd c)
  ]

  answer_cut :
      (now m : ℕ) (cmd : Cmd) (c : Card Keys)
      → cmd.lc ≤ m
      → (cmd.ins ≡ 0xCB → get_or cmd.data_bytes 1 0 ≡ 3 → 5 ≤ cmd.lc)
      → answer_parsed now c (some (cut m cmd)) ≡ answer_parsed now c (some cmd)
  answer_cut now m cmd c h whole = rw (route-cut now m cmd c h whole) refl

  -- The answer to a message in a buffer of bytes depends on the message's own `n` bytes alone: what
  -- stands behind them in the buffer makes no difference to the answer nor to the state, for every
  -- message but one with INS CB, 3 as the length of its tag, and a fifth byte (Lc) less than five.
  pub answer_apdu-take :
      (now : ℕ) (raw : List ℕ) (n : ℕ) (c : Card Keys)
      → IsBytes raw
      → (get_or raw 1 0 ≡ 0xCB → get_or raw 6 0 ≡ 3 → 5 ≤ get_or raw 4 0)
      → answer_apdu clock C now (take n raw) n c ≡ answer_apdu clock C now raw n c
  unfolding answer_apdu
  answer_apdu-take now raw n c bytes whole = elim (Option-cases (apdu_parse raw n)) [
    | inl e ↦ ap (answer_parsed now c) (parse-take raw n ∙ ap (cut_parsed (n - 5)) e ∙ sym e)
    | inr (cmd, e) ↦
        ap (answer_parsed now c) (parse-take raw n ∙ ap (cut_parsed (n - 5)) e)
        ∙ answer_cut now (n - 5) cmd c (lc_inside raw n bytes e) (read_data raw n whole e)
        ∙ ap (answer_parsed now c) (sym e)
  ]
