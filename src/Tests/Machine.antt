-- ===== src/Tests/Machine.antt =====
-- A press and the signature that it allows, as a walk of the device's state machine.
use ward3n.Base.{true, List, [], ◌∷◌}
use ward3n.Firmware.{Action, transfer, edge, poll, tick, send}
use ward3n.Tests.Fixtures.{xfr_authenticate}

abbrev actions : List Action
actions =
    edge 5 9
    ∷ poll 40005 40006 0
    ∷ tick 50000
    ∷ transfer 60000 1 xfr_authenticate 53
    ∷ send true
    ∷ transfer 70000 1 xfr_authenticate 53
    ∷ tick 40000000
    ∷ []
