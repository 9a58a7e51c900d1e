-- ===== src/Tests/Opening.antt =====
-- The descriptors of the firmware's own interface: 84 bytes, with three endpoints.
use ward3n.Base.{ℕ, ◌+◌, ◌≤◌, ◌<◌, ◌≡◌, refl, true, some, arith, ltb, ◌==◌, if◌then◌else◌}
use ward3n.Ccid.Open.{
  TinyUsb, ccid_open, skip_functional, finish_open, open_endpoints, note_endpoint,
}
use ward3n.Ccid.Opening.{Opened, ccid_open-ends}
use ward3n.Tests.Fixtures.{ccid}

-- A descriptor is its number: the interface, the functional descriptor, and the endpoints.
abbrev len_of : ℕ → ℕ
len_of d = if d == 0 then 9 else (if d == 1 then 54 else 7)

len_of-small : (d : ℕ) → len_of d < 256
len_of-small d = ground arith

len_of-positive : (d : ℕ) → 1 ≤ len_of d
len_of-positive d = ground arith

abbrev bus : TinyUsb
bus = record {
  Desc = ℕ;
  desc_next = λ d. d + 1;
  desc_type = λ d. if d == 0 then 4 else (if d == 1 then 0x21 else 5);
  desc_len = len_of;
  interface_class = λ d. 0x0B;
  endpoint_address = λ d. if d == 2 then 0x01 else (if d == 3 then 0x81 else 0x82);
  endpoint_xfer = λ d. if d == 4 then 3 else 2;
  is_out = λ a. ltb a 0x80;
  edpt_open = λ d. true;
  class_smart_card = 0x0B;
  interface_size = 9;
  desc_endpoint = 5;
  xfer_bulk = 2;
  xfer_interrupt = 3;
  desc_len-lt = len_of-small;
  interface_size-lt = omega arith;
}

opens : ccid_open bus 85 0 84 ccid ≡ some (ccid, 84)
unfolding ccid_open skip_functional finish_open open_endpoints note_endpoint
opens = refl

ccid_open-ends_example : Opened bus 0 84 (ccid_open bus 85 0 84 ccid)
ccid_open-ends_example = ccid_open-ends bus 0 84 ccid len_of-positive (omega arith)
