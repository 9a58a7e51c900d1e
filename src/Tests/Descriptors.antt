-- ===== src/Tests/Descriptors.antt =====
-- The descriptors of the firmware with TinyUSB's documented constants, as a host and `_ccid_open` read
-- them.
use ward3n.Base.{
  ℕ, ◌+◌, ◌*◌, ◌/◌, ◌%◌, ◌^◌, ◌≡◌, ◌-◌, refl, true, some, List, [], ◌∷◌, length, replicate,
  length-replicate, get_or, ltb, arith, IsBytes, IsBytes-get_or,
}
use ward3n.Ccid.Open.{TinyUsb, ccid_open}
use ward3n.UsbDescriptors.{
  TusbCommon, tud_descriptor_configuration_cb, desc_configuration, config_header,
  interface_descriptor, functional_descriptor, endpoint_descriptor, string_table, descriptor_string,
}
use ward3n.UsbDescriptors.Configuration.{Reads, configuration-opens}
use ward3n.UsbDescriptors.Strings.{read_answer, text_of, descriptor_string-text}
use ward3n.Tests.Fixtures.{ccid}

abbrev common : TusbCommon
common = record {
  desc_device = 1;
  desc_configuration = 2;
  desc_string = 3;
  desc_interface = 4;
  desc_endpoint = 5;
  config_att_remote_wakeup = 0x20;
  xfer_bulk = 2;
  xfer_interrupt = 3;
  u16_to_u8s_le = λ v. v % 256 ∷ v / 256 % 256 ∷ [];
  u32_to_u8s_le = λ v. v % 256 ∷ v / 2 ^ 8 % 256 ∷ v / 2 ^ 16 % 256 ∷ v / 2 ^ 24 % 256 ∷ [];
  desc_device_lem = refl;
  desc_configuration_lem = refl;
  desc_string_lem = refl;
  desc_interface_lem = refl;
  desc_endpoint_lem = refl;
  config_att_remote_wakeup_lem = refl;
  xfer_bulk_lem = refl;
  xfer_interrupt_lem = refl;
  u16_to_u8s_le_lem = λ v. refl;
  u32_to_u8s_le_lem = λ v. refl;
}

abbrev bytes : List ℕ
bytes = tud_descriptor_configuration_cb common 0

bytes-IsBytes : IsBytes bytes
unfolding tud_descriptor_configuration_cb desc_configuration config_header interface_descriptor
    functional_descriptor endpoint_descriptor
bytes-IsBytes = ground arith

-- A descriptor is its place in the bytes.
abbrev bus : TinyUsb
bus = record {
  Desc = ℕ;
  desc_next = λ i. i + get_or bytes i 0;
  desc_type = λ i. get_or bytes (i + 1) 0;
  desc_len = λ i. get_or bytes i 0;
  interface_class = λ i. get_or bytes (i + 5) 0;
  endpoint_address = λ i. get_or bytes (i + 2) 0;
  endpoint_xfer = λ i. get_or bytes (i + 3) 0 % 4;
  is_out = λ a. ltb a 0x80;
  edpt_open = λ d. true;
  class_smart_card = 0x0B;
  interface_size = 9;
  desc_endpoint = 5;
  xfer_bulk = 2;
  xfer_interrupt = 3;
  desc_len-lt = λ i. IsBytes-get_or bytes i bytes-IsBytes;
  interface_size-lt = omega arith;
}

abbrev reads : Reads bus bytes
reads = record {
  at = λ i. i;
  len_lem = λ i. refl;
  next_lem = λ i. refl;
  type_lem = λ i. refl;
  class_lem = λ i. refl;
  address_lem = λ i. refl;
  xfer_lem = λ i. refl;
  is_out_lem = λ a. refl;
  edpt_open_lem = λ d. refl;
  class_smart_card_lem = refl;
  interface_size_lem = refl;
  desc_endpoint_lem = refl;
  xfer_bulk_lem = refl;
  xfer_interrupt_lem = refl;
}

configuration-opens_example :
    (get_or bytes 2 0 + 256 * get_or bytes 3 0 ≡ length bytes)
    × (ccid_open bus 85 (get_or bytes 0 0) 84 ccid ≡ some (ccid, length bytes - get_or bytes 0 0))
configuration-opens_example =
    configuration-opens common bus 0 85 84 ccid reads (omega arith, omega arith)

descriptor_string-text_example :
    let (desc_str', answer) = descriptor_string common string_table 1 (replicate 64 0) in
    (length desc_str' ≡ 64) × (read_answer answer ≡ text_of string_table 1)
descriptor_string-text_example =
    descriptor_string-text common string_table 1 (replicate 64 0) (omega arith) (omega arith)
      (length-replicate {A = ℕ} 64 0)

-- The manufacturer, "ward3n".
manufacturer : text_of string_table 1 ≡ some (b'w' ∷ b'a' ∷ b'r' ∷ b'd' ∷ b'3' ∷ b'n' ∷ [])
unfolding text_of
manufacturer = refl
