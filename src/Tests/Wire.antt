-- ===== src/Tests/Wire.antt =====
-- A request for a signature on the wire, and the chaining state behind it.
use ward3n.Base.{ℕ, ◌≡◌, refl, true, false, none, List, [], ◌∷◌, length-replicate, arith}
use ward3n.Piv.Chain.{IsValid}
use ward3n.Firmware.{Action, transfer, send, bus_reset, run}
use ward3n.Firmware.Wire.{is_orderly, wire}
use ward3n.Firmware.Orderly.{wire-orderly}
use ward3n.Firmware.Chaining.{run-IsValid}
use ward3n.Firmware.Bytes.{CarryBytes}
use ward3n.Tests.Fixtures.{
  ticking, counting, waiting, xfr_authenticate, xfr_authenticate-IsBytes, firmware, reader-IsReader,
  unlocked,
}

-- The message, a busy endpoint, a claimed one, and a message that a reset drops.
abbrev actions : List Action
actions =
    transfer 5 1 xfr_authenticate 53
    ∷ send false
    ∷ send true
    ∷ send true
    ∷ transfer 6 1 xfr_authenticate 53
    ∷ bus_reset
    ∷ send true
    ∷ []

actions_bytes : CarryBytes actions
actions_bytes =
    (xfr_authenticate-IsBytes, (tt, (tt, (tt, (xfr_authenticate-IsBytes, (tt, (tt, tt)))))))

wire-orderly_example : is_orderly (wire ticking counting actions firmware) none ≡ true
wire-orderly_example =
    wire-orderly ticking counting actions firmware (reader-IsReader waiting) refl actions_bytes

unlocked-IsValid : IsValid unlocked
unlocked-IsValid = record {
  buffer = length-replicate {A = ℕ} 4096 0;
  inside = omega arith;
  sent = omega arith;
}

run-IsValid_example : IsValid (run ticking counting actions firmware).0.reader.card.piv
run-IsValid_example = run-IsValid ticking counting actions firmware unlocked-IsValid
