-- ===== src/Apdu.antt =====
-- src/apdu.c and include/apdu.h: the parser of ISO 7816-4 short APDUs and the response builder.
-- A pointer into a buffer is the list of the bytes from there to the buffer's end, so a read behind
-- the length that a caller states finds what the buffer holds there; `size_t` has 32 bits.
pub mod Status
pub mod Builder
pub mod Parse
pub mod Reference
use ward3n.Base.{
  ℕ, ◌+◌, ◌/◌, ◌%◌, ◌^◌, Bool, true, false, Option, none, some, List, [], ◌∷◌, length, get_or, take,
  drop, flatten, write_at, ltb, ◌==◌, if◌then◌else◌,
}

-- `(uint8_t)x`
abbrev pub u8 : ℕ → ℕ
u8 x = x % 2 ^ 8

-- An addition of `size_t` or `uint32_t`.
abbrev pub u32 : ℕ → ℕ
u32 x = x % 2 ^ 32

-- `apdu_cmd_t`. A null `data` is the empty list.
pub record Cmd : Type 0 where
  pub cla : ℕ
  pub ins : ℕ
  pub p1 : ℕ
  pub p2 : ℕ
  pub lc : ℕ
  pub data_bytes : List ℕ
  pub le : ℕ
  pub has_lc : Bool
  pub has_le : Bool

-- The Le byte 0 stands for 256.
abbrev pub le_of : ℕ → ℕ
le_of b = if b == 0 then 256 else b

-- After `memset` and the four header bytes.
abbrev pub header : List ℕ → Cmd
header raw = record {
  cla = get_or raw 0 0;
  ins = get_or raw 1 0;
  p1 = get_or raw 2 0;
  p2 = get_or raw 3 0;
  lc = 0;
  data_bytes = [];
  le = 0;
  has_lc = false;
  has_le = false;
}

-- `none` is `return false`; no caller reads `*out` then. The pointers are never null.
unfoldable pub apdu_parse : List ℕ → ℕ → Option Cmd
apdu_parse raw raw_len =
    let lc : ℕ = get_or raw 4 0 in
    let idx : ℕ = u32 (5 + lc) in
    let with_lc = record (header raw) { has_lc = true; lc = lc; data_bytes = drop 5 raw } in
    if ltb raw_len 4
    then none
    else (if raw_len == 4
        then some (header raw)
        else (if raw_len == 5
            then some (record (header raw) { has_le = true; le = le_of lc })
            else (if ltb raw_len idx
                then none
                else (if ltb idx raw_len
                    then some (record with_lc { has_le = true; le = le_of (get_or raw idx 0) })
                    else some with_lc))))

-- `apdu_resp_t`: `buf` is the memory from the caller's pointer on.
pub record Resp : Type 0 where
  pub buf : List ℕ
  pub capacity : ℕ
  pub len : ℕ
  pub sw : ℕ

unfoldable pub resp_init : List ℕ → ℕ → Resp
resp_init buf capacity = record { buf = buf; capacity = capacity; len = 0; sw = 0x9000 }

-- The value returned is the second part.
unfoldable pub resp_append : Resp → List ℕ → ℕ → Resp × Bool
resp_append r bytes n =
    if n == 0
    then (r, true)
    else (if ltb r.capacity (u32 (r.len + n + 2))
        then (r, false)
        else (record r { buf = write_at r.buf r.len (take n bytes); len = u32 (r.len + n) }, true))

unfoldable pub resp_push : Resp → ℕ → Resp × Bool
resp_push r byte = resp_append r (byte ∷ []) 1

-- The two bytes of a status word.
abbrev pub sw_bytes : ℕ → List ℕ
sw_bytes sw = u8 (sw / 2 ^ 8) ∷ u8 sw ∷ []

-- The bytes that a call leaves in the caller's buffer, and the count that it returns.
pub record Out : Type 0 where
  pub buf : List ℕ
  pub size : ℕ

unfoldable pub resp_finalize : Resp → ℕ → Out
resp_finalize r sw = record { buf = write_at r.buf r.len (sw_bytes sw); size = u32 (r.len + 2) }

-- What a handler hands to the builder: its calls of `apdu_resp_append` and `apdu_resp_push` in
-- order, and the status word of the `apdu_resp_finalize` that it returns through.
pub record Answer : Type 0 where
  pub parts : List (List ℕ)
  pub sw : ℕ

-- An early `return apdu_resp_finalize(&r, sw)`.
abbrev pub status : ℕ → Answer
status sw = record { parts = []; sw = sw }

unfoldable pub append_parts : Resp → List (List ℕ) → Resp
append_parts r [] = r
append_parts r (p ∷ ps) = append_parts (resp_append r p (length p)).0 ps

-- The calls of the builder that make up one response in a buffer.
unfoldable pub emit : List ℕ → ℕ → Answer → Out
unfolding append_parts resp_init resp_append resp_finalize
emit out out_cap a = resp_finalize (append_parts (resp_init out out_cap) a.parts) a.sw

-- The bytes that the caller sends on.
abbrev pub sent : Out → List ℕ
sent o = take o.size o.buf
