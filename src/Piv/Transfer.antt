-- ===== src/Piv/Transfer.antt =====
-- The transfer of a data object in pieces by GET DATA and GET RESPONSE in src/piv.c.
use ward3n.Base.{
  ℕ, ◌+◌, ◌-◌, ◌≤◌, ◌<◌, min, ◌≡◌, refl, sym, ◌∙◌, ap, List, [], ◌∷◌, ◌++◌, append-nil, length,
  take, drop, flatten, write_at, length-write_at, take-write_at, take_all, drop_all, drop-drop,
  take-nil, drop-nil, take-add, nil_of_length, arith, leb, Bool-cases, inl, inr,
}
use mathlib.Core.Path.{ap₂, subst}
use native.Mathlib.Nat.{zero-add}
use ward3n.Apdu.{Cmd}
use ward3n.Apdu.Status.{sw_ok}
use ward3n.Piv.Applet.{Piv, wanted, send_object, handle_get_response}
use ward3n.Piv.Chain.{IsValid, pending, get_response_lem, more_status_lem}

-- The state in which `_handle_get_data` starts chaining.
abbrev chained : Cmd → Piv → List ℕ → Piv
chained cmd p obj = record p {
  chain_buf = write_at p.chain_buf 0 obj;
  chain_len = length obj;
  chain_offset = wanted cmd;
}

chained-pending :
    (cmd : Cmd) (p : Piv) (obj : List ℕ)
    → IsValid p
    → length obj ≤ 4096
    → pending (chained cmd p obj) ≡ drop (wanted cmd) obj
chained-pending cmd p obj v small =
    ap (drop (wanted cmd)) (rw zero-add at (take-write_at p.chain_buf 0 obj (omega arith)))

chained-IsValid :
    (cmd : Cmd) (p : Piv) (obj : List ℕ)
    → IsValid p
    → length obj ≤ 4096
    → wanted cmd < length obj
    → IsValid (chained cmd p obj)
chained-IsValid cmd p obj v small long = omega (arith, length-write_at p.chain_buf 0 obj)

-- An object of at most 4096 bytes, in a valid state, which stays valid. Up to Le bytes are sent whole with 9000 and no state changes; of
-- a longer one the first Le bytes are sent, the others are pending, and the status word tells how
-- many those are.
pub send_object_lem :
    (cmd : Cmd) (p : Piv) (obj : List ℕ)
    → IsValid p
    → length obj ≤ 4096
    → let (p', a) = send_object cmd p obj in
      IsValid p'
      × (length obj ≤ wanted cmd → (p' ≡ p) × (flatten a.parts ≡ obj) × (a.sw ≡ sw_ok))
      × (wanted cmd < length obj
          → (flatten a.parts ≡ take (wanted cmd) obj)
            × (pending p' ≡ drop (wanted cmd) obj)
            × (a.sw ≡ 0x6100 + min (length obj - wanted cmd) 255))
unfolding send_object
send_object_lem cmd p obj v small = elim (Bool-cases (leb (length obj) (wanted cmd))) [
  | inl whole ↦ (rw whole v, λ h. ground (arith, append-nil obj), λ h. absurd (ground arith))
  | inr long ↦
      let gt : wanted cmd < length obj = ground arith in
      (
        rw long (chained-IsValid cmd p obj v small gt),
        λ h. absurd (omega arith),
        λ h. rw long (
          append-nil _,
          chained-pending cmd p obj v small,
          more_status_lem (length obj - wanted cmd),
        ),
      )
]

-- GET RESPONSE commands one after the other: the bytes that they answer with, and the state.
unfoldable pub collect : List Cmd → Piv → List ℕ × Piv
collect [] p = ([], p)
collect (cmd ∷ cmds) p =
    let (p', a) = handle_get_response cmd p in
    let (bytes, q) = collect cmds p' in (flatten a.parts ++ bytes, q)

-- The bytes that they ask for.
abbrev pub asked : List Cmd → ℕ
asked [] = 0
asked (cmd ∷ cmds) = wanted cmd + asked cmds

-- One GET RESPONSE in any valid state: the pending bytes lose what is sent.
pub response-moves :
    (cmd : Cmd) (p : Piv)
    → IsValid p
    → let (p', a) = handle_get_response cmd p in
      (flatten a.parts ≡ take (wanted cmd) (pending p))
      × (pending p' ≡ drop (wanted cmd) (pending p))
      × IsValid p'
response-moves cmd p v =
    let (empty, some_left) = get_response_lem cmd p v in
    elim (Bool-cases (leb 1 (length (pending p)))) [
      | inl more ↦ let r = some_left (ground arith) in (r.bytes, r.rest, r.valid)
      | inr none_left ↦
          let zero_left : length (pending p) ≡ 0 = ground arith in
          let (same, refused) = empty zero_left in
          let nil = nil_of_length (pending p) zero_left in
          (
            ap (λ t. flatten t.parts) refused
                ∙ sym (ap (take (wanted cmd)) nil ∙ take-nil (wanted cmd)),
            ap pending same ∙ nil ∙ sym (ap (drop (wanted cmd)) nil ∙ drop-nil (wanted cmd)),
            subst IsValid (sym same) v,
          )
    ]

collect-pending :
    (cmds : List Cmd) (p : Piv)
    → IsValid p
    → let (bytes, q) = collect cmds p in
      (bytes ≡ take (asked cmds) (pending p))
      × (pending q ≡ drop (asked cmds) (pending p))
      × IsValid q
unfolding collect
collect-pending [] p v = (refl, refl, v)
collect-pending (cmd ∷ cmds) p v =
    let (front, rest, v') = response-moves cmd p v in
    let (bytes, left, v'') = collect-pending cmds (handle_get_response cmd p).0 v' in
    (
      ap₂ ◌++◌ front (bytes ∙ ap (take (asked cmds)) rest)
          ∙ sym (take-add (wanted cmd) (asked cmds) (pending p)),
      left ∙ ap (drop (asked cmds)) rest ∙ drop-drop (asked cmds) (wanted cmd) (pending p),
      v'',
    )

-- In a valid state, an object of at most 4096 bytes that is longer than the Le of its GET DATA: the first answer and
-- those of the GET RESPONSE commands after it are, put together, the object's bytes as many as were
-- asked for in all, and what was not asked for is still pending. So with enough asked for the object
-- arrives whole and nothing is left.
pub transfer_whole :
    (cmd : Cmd) (cmds : List Cmd) (p : Piv) (obj : List ℕ)
    → IsValid p
    → length obj ≤ 4096
    → wanted cmd < length obj
    → let (p', a) = send_object cmd p obj in
      let (bytes, q) = collect cmds p' in
      let total = wanted cmd + asked cmds in
      (flatten a.parts ++ bytes ≡ take total obj)
      × (pending q ≡ drop total obj)
      × (length obj ≤ total → (flatten a.parts ++ bytes ≡ obj) × (pending q ≡ []))
transfer_whole cmd cmds p obj v small long =
    let (p', a) = send_object cmd p obj in
    let (v', whole, chains) = send_object_lem cmd p obj v small in
    let (front, rest, told) = chains long in
    let (bytes, left, v'') = collect-pending cmds p' v' in
    let total = wanted cmd + asked cmds in
    let all : flatten a.parts ++ (collect cmds p').0 ≡ take total obj =
      ap₂ ◌++◌ front (bytes ∙ ap (take (asked cmds)) rest)
      ∙ sym (take-add (wanted cmd) (asked cmds) obj) in
    let end : pending (collect cmds p').1 ≡ drop total obj =
      left ∙ ap (drop (asked cmds)) rest ∙ drop-drop (asked cmds) (wanted cmd) obj in
    (all, end, λ h. (all ∙ take_all total obj h, end ∙ drop_all total obj h))
