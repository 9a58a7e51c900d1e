-- ===== src/Lib.antt =====
-- ward3n: a verification library for the firmware of a PIV security key on the RP2040.
--
-- The host talks CCID over USB to the key. A message that arrives on the bulk endpoint is handled by
-- src/ccid.c, which answers the reader's own messages and hands the APDU of an XfrBlock to the PIV
-- applet of src/piv.c. The applet parses it with src/apdu.c, answers SELECT, VERIFY, GET DATA,
-- GET RESPONSE and GENERAL AUTHENTICATE, and builds its response with src/apdu.c in the transmit
-- buffer. For a signature it asks src/device_state.c for an authorization, which the button of
-- src/button.c gives, and calls the crypto backend (include/crypto_backend.h), which
-- src/crypto_backend_soft.c implements over mbedTLS. src/main.c drives all of this from one loop.
--
-- Which file models which part:
--   Base          numbers, lists, buffers (memcpy as `write_at`), tests; Base.Int: signed differences
--   Config        include/config.h
--   Pico          the clock of the Pico SDK: a parameter (`Clock`), with what the SDK documents of it
--   DeviceState   src/device_state.c: `Device` is its three static variables, one function each for
--                 dev_state_tick, dev_state_request_auth, dev_state_button_pressed and the others
--   Apdu          src/apdu.c: apdu_parse, and the builder apdu_resp_init, _append, _push, _finalize
--   CryptoBackend include/crypto_backend.h as a record of operations, which the applet takes
--   Piv           src/piv.c: `Piv` is the static _piv; one function per handler, `route` and
--                 `answer_apdu` for the routing; Piv.Applet has the state and the commands that
--                 use nothing else, Piv.Objects has the data objects, Piv.Dat the parser
--                 of the Dynamic Authentication Template
--   Ccid          src/ccid.c: `Ccid` is its static variables; `process_message` and its cases, the
--                 callbacks of the class driver, `ccid_task`. Ccid.Responses has the responses that
--                 it builds itself, Ccid.Open has _ccid_open, over the accessors of TinyUSB
--                 (`TinyUsb`), Ccid.Loops and Ccid.Opening what it reads, Ccid.Driver the table of the
--                 driver's functions; Ccid.Reading and Ccid.Certificate have a host that reads an object in several messages
--   Button        src/button.c: `gpio_irq` and `was_pressed`; Button.Poll has the poll a step at a time,
--                 with the interrupt between any two of them
--   Soft          src/crypto_backend_soft.c: the accessors and `sign` over mbedTLS as a parameter
--                 (`Mbedtls`); Soft.Flash has the layout of the key sector, Soft.Boot the boot over
--                 further calls of mbedTLS (`Setup`), Soft.PowerLoss a loss of power while the
--                 sector is written, over the SDK's calls on the flash (`Programming`)
--   Neopixel      src/neopixel.c: `tick` with the word that it sends to the PIO; Neopixel.Display has
--                 the colours that are seen
--   UsbDescriptors src/usb_descriptors.c: the descriptors as bytes, and the callback for strings, over
--                 TinyUSB's constants and macros (`TusbCommon`)
--   Firmware      src/main.c: a run is a list of actions (what tud_task delivers, the loop's calls,
--                 the button's interrupt), in any order. Firmware.Invariant has the rule for what
--                 every run keeps of the card, Firmware.Quiet the calls between two messages,
--                 Firmware.Request the message that asks for a signature, Firmware.Guards and
--                 Firmware.Trace a monitor of what can be seen of a run, Firmware.Wire a monitor of
--                 the endpoints, Firmware.Machine the moves of the device's state machine
--                 (DeviceState.Machine), Firmware.Bytes the bytes that transfers bring,
--                 Firmware.Boot the start of `main`. An opening by TinyUSB is the action
--                 `driver_open` with the endpoints that `ccid_open` leaves (Firmware.Opening)
--   Tests         concrete devices and messages, and the theorems applied to them
--
-- A pointer into a buffer is the list of the bytes from there to the buffer's end, so that a read
-- behind a stated length finds what the buffer holds. `size_t` and `uint32_t` sums wrap at 2^32 where
-- the code adds. A function that reads the clock takes the time as an argument. A handler's response
-- is an `Answer`: the byte strings that it appends, in order, and its status word; `emit` turns it
-- into the builder's calls. The loop of _ccid_open over the class-specific descriptors runs on
-- fuel, one more than the length that TinyUSB passes, which is enough where each descriptor has a byte
-- at least (Ccid.Opening); the other loops are copies of memory, or have a fixed number of passes.
--
-- Not modelled: what is inside mbedTLS, TinyUSB and the Pico SDK, the program of the LED's PIO, and
-- what a certificate of more than 3994 bytes overwrites. In a run an interrupt comes between two
-- calls of the loop. Of these calls only the poll shares variables with it, and Button.Poll has the
-- interrupt in the middle of the poll, whose steps stand in the order of the source: what a
-- compiler may do with the load of _edge_time, which is not volatile, is left out. A loss of power
-- during the erasure of the key sector, or in its first page, is not modelled. A run drops the
-- words that the LED is sent, so that a suspend changes nothing in it. The field `sw` of
-- apdu_resp_t, which nothing reads, is set at the start only.
pub mod Base
pub mod Config
pub mod Pico
pub mod DeviceState
pub mod Apdu
pub mod CryptoBackend
pub mod Piv
pub mod Ccid
pub mod Button
pub mod Neopixel
pub mod Firmware
pub mod Soft
pub mod UsbDescriptors
pub mod Tests
