-- ===== src/Firmware/Chaining.antt =====
-- The chaining state of src/piv.c over runs of src/main.c.
use ward3n.Base.{ℕ, List, [], ◌∷◌}
use ward3n.Pico.{Clock}
use ward3n.CryptoBackend.{CryptoBackend}
use ward3n.Piv.{Card}
use ward3n.Piv.Chain.{IsValid}
use ward3n.Piv.Invariant.{piv_init-IsValid, answer_apdu-IsValid}
use ward3n.Firmware.{Firmware, Action, transfer, run}
use ward3n.Firmware.Invariant.{AllCarry, Carries, Keeps, run-keeps}

-- Every APDU is allowed.
abbrev Anything : List ℕ → ℕ → Type 0
Anything raw n = Unit

module _ (clock : Clock) (C : CryptoBackend) where
  open C use {Keys}

  Carries-Anything : (a : Action) → Carries Anything a
  Carries-Anything (transfer now ep rx n) = tt
  Carries-Anything _ = tt

  AllCarry-Anything : (actions : List Action) → AllCarry Anything actions
  AllCarry-Anything [] = tt
  AllCarry-Anything (a ∷ rest) = (Carries-Anything a, AllCarry-Anything rest)

  IsValid-Keeps : Keeps clock C Anything (λ (c : Card Keys). IsValid c.piv)
  IsValid-Keeps = record {
    keep_answer = λ now raw n c allowed v. answer_apdu-IsValid clock C now raw n c v;
    keep_power_on = λ c v. piv_init-IsValid;
    keep_device = λ c d v. v;
  }

  -- Every run of the firmware, whatever messages, malformed ones included, resets, interrupts and
  -- polls come in whatever order, keeps the chaining state in its buffer: 4096 bytes, of which
  -- `chain_len` are in use and `chain_offset` sent.
  pub run-IsValid :
      (actions : List Action) (f : Firmware Keys)
      → IsValid f.reader.card.piv
      → IsValid (run clock C actions f).0.reader.card.piv
  run-IsValid actions f v = run-keeps clock C IsValid-Keeps actions f (AllCarry-Anything actions) v
