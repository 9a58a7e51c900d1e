-- ===== src/Firmware/Bytes.antt =====
-- The bytes that TinyUSB's transfers bring to src/main.c.
use ward3n.Base.{List, [], ◌∷◌, IsBytes}
use ward3n.Firmware.{Action, transfer}

-- The receive buffer of a transfer holds bytes, and so do those of all transfers of a run.
abbrev pub CarriesBytes : Action → Type 0
CarriesBytes (transfer now ep rx n) = IsBytes rx
CarriesBytes _ = Unit

abbrev pub CarryBytes : List Action → Type 0
CarryBytes [] = Unit
CarryBytes (a ∷ rest) = CarriesBytes a × CarryBytes rest
