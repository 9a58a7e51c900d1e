-- ===== src/Firmware/Wire.antt =====
-- What a host sees of a run of src/main.c on the CCID endpoints, and a monitor that watches it.
use ward3n.Base.{
  ℕ, ◌+◌, Bool, true, false, ◌&&◌, Option, none, some, List, [], ◌∷◌, ◌++◌, length, get_or, leb,
  ◌==◌, if◌then◌else◌,
}
use ward3n.Pico.{Clock}
use ward3n.CryptoBackend.{CryptoBackend}
use ward3n.Ccid.{ccid_task}
use ward3n.Ccid.Header.{read_u32}
use ward3n.Ccid.Kinds.{answer_kind}
use ward3n.Firmware.{Firmware, Action, transfer, driver_init, bus_reset, send, act}

-- A message with its kind and its bSeq; a call of `ccid_task`, with whether the endpoint was claimed and
-- with the block that it hands over, if it does; a reset of the bus or of the driver.
pub data Event : Type 0 where
  received : ℕ → ℕ → Event
  offered : Bool → Option (List ℕ) → Event
  reset : Event

-- A block that answers a message: at most 512 bytes, with the message's bSeq, a bMessageType that fits
-- the message's, and in dwLength the number of the bytes behind the header.
abbrev pub is_answer : ℕ → ℕ → List ℕ → Bool
is_answer kind seq block =
    (length block == 10 + read_u32 block 1 && leb (length block) 512)
    && (get_or block 6 0 == seq && get_or block 0 0 == answer_kind kind)

-- The monitor, with the message that has no answer yet, if there is one. A call that has claimed the
-- endpoint must hand over an answer to that message, and no other call a block.
unfoldable pub is_orderly : List Event → Option (ℕ × ℕ) → Bool
is_orderly [] open_message = true
is_orderly (received kind seq ∷ rest) open_message = is_orderly rest (some (kind, seq))
is_orderly (offered true (some block) ∷ rest) (some (kind, seq)) =
    let ok = is_orderly rest none in is_answer kind seq block && ok
is_orderly (offered true none ∷ rest) none = is_orderly rest none
is_orderly (offered false none ∷ rest) open_message = is_orderly rest open_message
is_orderly (offered _ _ ∷ rest) open_message = false
is_orderly (reset ∷ rest) open_message = is_orderly rest none

module _ (clock : Clock) (C : CryptoBackend) where
  open C use {Keys}

  abbrev pub events : Action → Firmware Keys → List Event
  events (transfer now ep rx n) f =
      if ep == f.reader.ccid.ep_out && leb 10 n
      then received (get_or rx 0 0) (get_or rx 6 0) ∷ []
      else []
  events driver_init f = reset ∷ []
  events bus_reset f = reset ∷ []
  events (send claimed) f = offered claimed (ccid_task claimed f.reader.ccid).1 ∷ []
  events _ f = []

  unfoldable pub wire : List Action → Firmware Keys → List Event
  wire [] f = []
  wire (a ∷ rest) f = events a f ++ wire rest (act clock C a f).0
