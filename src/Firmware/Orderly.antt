-- ===== src/Firmware/Orderly.antt =====
-- The blocks that a run of src/main.c sends, under the monitor of the CCID endpoints.
use ward3n.Base.{
  ℕ, ◌≤◌, ◌≡◌, refl, Bool, true, false, Option, none, some, List, [], ◌∷◌, ◌++◌, get_or, leb, ◌==◌,
  arith, IsBytes, Bool-cases, inl, inr, length-replicate, IsBytes-replicate, leb→le,
}
use ward3n.Pico.{Clock}
use ward3n.CryptoBackend.{CryptoBackend}
use ward3n.Ccid.{Reader, xfer_cb, ccid_init, ccid_reset, ccid_task}
use ward3n.Ccid.Frame.{IsReader}
use ward3n.Ccid.Framing.{process_message-Framed}
use ward3n.Ccid.Kinds.{process_message-kind}
use ward3n.Firmware.{
  Firmware, Action, transfer, driver_init, bus_reset, unmount, mount, suspend, resume, driver_open,
  send, edge, poll, tick, animate, act,
}
use ward3n.Firmware.Bytes.{CarriesBytes, CarryBytes}
use ward3n.Firmware.Wire.{Event, is_orderly, events, wire}
use ward3n.Firmware.Answers.{Owes, Framed-is_answer}

module _ (clock : Clock) (C : CryptoBackend) where
  open C use {Keys}

  -- A monitor in a state that fits the reader
  record Fits (open_message : Option (ℕ × ℕ)) (f : Firmware Keys) : Type 0 where
    reader : IsReader f.reader
    owes :
        Owes open_message f.reader.ccid.response_pending
          (f.reader.ccid.tx_buf, f.reader.ccid.response_len)

  -- What one action makes of the monitor: it accepts the action's event, and fits again.
  record Accepts (open_message : Option (ℕ × ℕ)) (a : Action) (f : Firmware Keys) : Type 0 where
    next : Option (ℕ × ℕ)
    accepted :
        (rest : List Event)
        → is_orderly rest next ≡ true
        → is_orderly (events clock C a f ++ rest) open_message ≡ true
    fits : Fits next (act clock C a f).0

  transfer-Accepts :
      (now ep : ℕ) (rx : List ℕ) (n : ℕ) (m : Option (ℕ × ℕ)) (f : Firmware Keys)
      → Fits m f
      → IsBytes rx
      → Accepts m (transfer now ep rx n) f
  unfolding act xfer_cb is_orderly
  transfer-Accepts now ep rx n m f v bytes =
      let r : Reader Keys = record f.reader { ccid = record f.reader.ccid { rx_buf = rx } } in
      let ready : IsReader r = record { received = bytes; transmit = v.reader.transmit } in
      elim (Bool-cases (ep == f.reader.ccid.ep_out)) [
        | inl ours ↦ elim (Bool-cases (leb 10 n)) [
          | inl long ↦
              let le : 10 ≤ n = leb→le 10 n long in
              let (pending, framed, ready') = (process_message-Framed clock C now n r ready).0 le in
              let first = process_message-kind clock C now n r v.reader.transmit le in
              record {
                next = some (get_or rx 0 0, get_or rx 6 0);
                accepted = λ rest ok. rw (ours, long) ok;
                fits = record {
                  reader = rw (ours, long) ready';
                  owes = rw (ours, long) (pending, framed, first);
                };
              }
          | inr short ↦ record {
            next = m;
            accepted = λ rest ok. rw (ours, short) ok;
            fits = record { reader = rw (ours, short) ready; owes = rw (ours, short) v.owes };
          }
        ]
        | inr other ↦ record {
          next = m;
          accepted = λ rest ok. rw other ok;
          fits = record { reader = rw other ready; owes = rw other v.owes };
        }
      ]

  -- The sender: with nothing pending, with a busy endpoint, and with one that is claimed
  send-Accepts :
      (claimed : Bool) (m : Option (ℕ × ℕ)) (f : Firmware Keys)
      → Fits m f
      → Accepts m (send claimed) f
  unfolding act ccid_task is_orderly
  send-Accepts true none f v = record {
    next = none;
    accepted = λ rest ok. rw v.owes ok;
    fits = record {
      reader = record {
        received = rw v.owes v.reader.received;
        transmit = rw v.owes v.reader.transmit;
      };
      owes = rw v.owes refl;
    };
  }
  send-Accepts false none f v = record {
    next = none;
    accepted = λ rest ok. rw v.owes ok;
    fits = record {
      reader = record {
        received = rw v.owes v.reader.received;
        transmit = rw v.owes v.reader.transmit;
      };
      owes = rw v.owes refl;
    };
  }
  send-Accepts false (some (kind, seq)) f v = record {
    next = some (kind, seq);
    accepted = λ rest ok. rw v.owes.0 ok;
    fits = record {
      reader = record {
        received = rw v.owes.0 v.reader.received;
        transmit = rw v.owes.0 v.reader.transmit;
      };
      owes = rw v.owes.0 (refl, v.owes.1, v.owes.2);
    };
  }
  send-Accepts true (some (kind, seq)) f v = record {
    next = none;
    accepted =
        λ rest ok. rw v.owes.0 (rw (Framed-is_answer kind seq f.reader.ccid v.owes.1 v.owes.2) ok);
    fits = record {
      reader = record {
        received = rw v.owes.0 v.reader.received;
        transmit = rw v.owes.0 v.reader.transmit;
      };
      owes = rw v.owes.0 refl;
    };
  }

  -- An action that leaves the reader alone
  quiet-Accepts :
      (a : Action) (m : Option (ℕ × ℕ)) (f : Firmware Keys)
      → Fits m f
      → events clock C a f ≡ []
      → (act clock C a f).0.reader.ccid ≡ f.reader.ccid
      → Accepts m a f
  quiet-Accepts a m f v none_seen same = record {
    next = m;
    accepted = λ rest ok. rw none_seen ok;
    fits = record {
      reader = record {
        received = rw same v.reader.received;
        transmit = rw same v.reader.transmit;
      };
      owes = rw same v.owes;
    };
  }

  act-Accepts :
      (a : Action) (m : Option (ℕ × ℕ)) (f : Firmware Keys)
      → Fits m f
      → CarriesBytes a
      → Accepts m a f
  unfolding act is_orderly ccid_init ccid_reset
  act-Accepts (transfer now ep rx n) m f v bytes = transfer-Accepts now ep rx n m f v bytes
  act-Accepts driver_init m f v bytes = record {
    next = none;
    accepted = λ rest ok. ok;
    fits = record {
      reader = record {
        received = IsBytes-replicate 512 0 (omega arith);
        transmit = length-replicate {A = ℕ} 512 0;
      };
      owes = refl;
    };
  }
  act-Accepts bus_reset m f v bytes = record {
    next = none;
    accepted = λ rest ok. ok;
    fits = record {
      reader = record { received = v.reader.received; transmit = v.reader.transmit };
      owes = refl;
    };
  }
  act-Accepts (send claimed) m f v bytes = send-Accepts claimed m f v
  act-Accepts unmount m f v bytes = quiet-Accepts unmount m f v refl refl
  act-Accepts mount m f v bytes = quiet-Accepts mount m f v refl refl
  act-Accepts suspend m f v bytes = quiet-Accepts suspend m f v refl refl
  act-Accepts resume m f v bytes = quiet-Accepts resume m f v refl refl
  act-Accepts (driver_open out in_ intr) m f v bytes = record {
    next = m;
    accepted = λ rest ok. ok;
    fits = record {
      reader = record { received = v.reader.received; transmit = v.reader.transmit };
      owes = v.owes;
    };
  }
  act-Accepts (edge now gpio) m f v bytes = quiet-Accepts (edge now gpio) m f v refl refl
  act-Accepts (poll now pressed_at level) m f v bytes =
      quiet-Accepts (poll now pressed_at level) m f v refl refl
  act-Accepts (tick now) m f v bytes = quiet-Accepts (tick now) m f v refl refl
  act-Accepts (animate due_at now) m f v bytes = quiet-Accepts (animate due_at now) m f v refl refl

  orderly :
      (actions : List Action) (f : Firmware Keys) (open_message : Option (ℕ × ℕ))
      → Fits open_message f
      → CarryBytes actions
      → is_orderly (wire clock C actions f) open_message ≡ true
  unfolding wire is_orderly
  orderly [] f m v bytes = refl
  orderly (a ∷ rest) f m v bytes =
      let step = act-Accepts a m f v bytes.0 in
      step.accepted (wire clock C rest (act clock C a f).0)
        (orderly rest (act clock C a f).0 step.next step.fits bytes.1)

  -- In any run whose transfers carry bytes, from a reader with bytes in its receive buffer, 512 bytes of
  -- transmit buffer and no response pending: a call of `ccid_task` hands a block to the endpoint exactly
  -- if it has claimed it and the latest message of at least ten bytes since the last reset has no answer
  -- yet. The block has that message's bSeq, a bMessageType that fits its kind, at most 512 bytes, and in
  -- dwLength the number of the bytes behind the header.
  pub wire-orderly :
      (actions : List Action) (f : Firmware Keys)
      → IsReader f.reader
      → f.reader.ccid.response_pending ≡ false
      → CarryBytes actions
      → is_orderly (wire clock C actions f) none ≡ true
  wire-orderly actions f v idle bytes =
      orderly actions f none (record { reader = v; owes = idle }) bytes
