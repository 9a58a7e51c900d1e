-- ===== src/UsbDescriptors.antt =====
-- src/usb_descriptors.c: the descriptors as bytes, and the callback for strings. The constants and the
-- macros of TinyUSB are parameters with their documented values.
pub mod Configuration
pub mod Strings
use ward3n.Base.{
  ℕ, ◌+◌, ◌*◌, ◌/◌, ◌%◌, ◌^◌, ◌≡◌, bit_or, Option, none, some, List, [], ◌∷◌, ◌++◌, length, take,
  get_or, flatten, write_at, ltb, ◌==◌, if◌then◌else◌,
}
use ward3n.Config.{
  ccid_ep_bulk_out, ccid_ep_bulk_in, ccid_ep_intr_in, ccid_ep_bulk_size, ccid_ep_intr_size, usb_vid,
  usb_pid,
}

-- What the file takes from tusb.h: the descriptor types and attributes of USB 2.0, and the macros that
-- spread a number over bytes.
pub record TusbCommon : Type 0 where
  pub desc_device : ℕ
  pub desc_configuration : ℕ
  pub desc_string : ℕ
  pub desc_interface : ℕ
  pub desc_endpoint : ℕ
  pub config_att_remote_wakeup : ℕ
  pub xfer_bulk : ℕ
  pub xfer_interrupt : ℕ
  pub u16_to_u8s_le : ℕ → List ℕ
  pub u32_to_u8s_le : ℕ → List ℕ
  pub desc_device_lem : desc_device ≡ 1
  pub desc_configuration_lem : desc_configuration ≡ 2
  pub desc_string_lem : desc_string ≡ 3
  pub desc_interface_lem : desc_interface ≡ 4
  pub desc_endpoint_lem : desc_endpoint ≡ 5
  pub config_att_remote_wakeup_lem : config_att_remote_wakeup ≡ 0x20
  pub xfer_bulk_lem : xfer_bulk ≡ 2
  pub xfer_interrupt_lem : xfer_interrupt ≡ 3
  pub u16_to_u8s_le_lem : (v : ℕ) → u16_to_u8s_le v ≡ v % 256 ∷ v / 256 % 256 ∷ []
  pub u32_to_u8s_le_lem :
      (v : ℕ)
      → u32_to_u8s_le v ≡ v % 256 ∷ v / 2 ^ 8 % 256 ∷ v / 2 ^ 16 % 256 ∷ v / 2 ^ 24 % 256 ∷ []

abbrev pub str_idx_mfgr : ℕ
str_idx_mfgr = 1

abbrev pub str_idx_product : ℕ
str_idx_product = 2

abbrev pub str_idx_serial : ℕ
str_idx_serial = 3

abbrev pub ccid_func_desc_len : ℕ
ccid_func_desc_len = 54

abbrev pub config_total_len : ℕ
config_total_len = 9 + 9 + ccid_func_desc_len + 7 + 7 + 7

abbrev pub ccid_descriptor_type : ℕ
ccid_descriptor_type = 0x21

-- `tusb_desc_device_t`, packed, with its fields in order.
pub record DeviceDescriptor : Type 0 where
  pub b_length : ℕ
  pub b_descriptor_type : ℕ
  pub bcd_usb : ℕ
  pub b_device_class : ℕ
  pub b_device_sub_class : ℕ
  pub b_device_protocol : ℕ
  pub b_max_packet_size0 : ℕ
  pub id_vendor : ℕ
  pub id_product : ℕ
  pub bcd_device : ℕ
  pub i_manufacturer : ℕ
  pub i_product : ℕ
  pub i_serial_number : ℕ
  pub b_num_configurations : ℕ

abbrev pub string_table : List (List ℕ)
string_table =
    (0x09 ∷ 0x04 ∷ [])
    ∷ (b'w' ∷ b'a' ∷ b'r' ∷ b'd' ∷ b'3' ∷ b'n' ∷ [])
    ∷ (b'P' ∷ b'I' ∷ b'V' ∷ b' ' ∷ b'S' ∷ b'e' ∷ b'c' ∷ b'u' ∷ b'r' ∷ b'i' ∷ b't' ∷ b'y' ∷ b' '
        ∷ b'K' ∷ b'e' ∷ b'y' ∷ [])
    ∷ (b'0' ∷ b'0' ∷ b'0' ∷ b'0' ∷ b'0' ∷ b'0' ∷ b'0' ∷ b'1' ∷ [])
    ∷ []

module _ (T : TusbCommon) where
  -- `size` is `sizeof (tusb_desc_device_t)`, `endpoint0_size` is CFG_TUD_ENDPOINT0_SIZE.
  unfoldable pub desc_device : ℕ → ℕ → DeviceDescriptor
  desc_device size endpoint0_size = record {
    b_length = size;
    b_descriptor_type = T.desc_device;
    bcd_usb = 0x0200;
    b_device_class = 0x00;
    b_device_sub_class = 0x00;
    b_device_protocol = 0x00;
    b_max_packet_size0 = endpoint0_size;
    id_vendor = usb_vid;
    id_product = usb_pid;
    bcd_device = 0x0100;
    i_manufacturer = str_idx_mfgr;
    i_product = str_idx_product;
    i_serial_number = str_idx_serial;
    b_num_configurations = 1;
  }

  unfoldable pub tud_descriptor_device_cb : ℕ → ℕ → DeviceDescriptor
  tud_descriptor_device_cb size endpoint0_size = desc_device size endpoint0_size

  unfoldable pub config_header : List ℕ
  config_header =
      9 ∷ T.desc_configuration ∷ []
      ++ T.u16_to_u8s_le config_total_len
      ++ 1 ∷ 1 ∷ 0 ∷ bit_or T.config_att_remote_wakeup 0x80 ∷ 50 ∷ []

  unfoldable pub interface_descriptor : List ℕ
  interface_descriptor = 9 ∷ T.desc_interface ∷ 0 ∷ 0 ∷ 3 ∷ 0x0B ∷ 0x00 ∷ 0x00 ∷ 0 ∷ []

  unfoldable pub functional_descriptor : List ℕ
  functional_descriptor =
      ccid_func_desc_len ∷ ccid_descriptor_type ∷ []
      ++ T.u16_to_u8s_le 0x0110
      ++ 0x00 ∷ 0x07 ∷ []
      ++ T.u32_to_u8s_le 0x00000003
      ++ T.u32_to_u8s_le 0x00000DFC
      ++ T.u32_to_u8s_le 0x00000DFC
      ++ 0x00 ∷ []
      ++ T.u32_to_u8s_le 0x000025CD
      ++ T.u32_to_u8s_le 0x000025CD
      ++ 0x00 ∷ []
      ++ T.u32_to_u8s_le 0x000000FE
      ++ T.u32_to_u8s_le 0x00000000
      ++ T.u32_to_u8s_le 0x00000000
      ++ T.u32_to_u8s_le 0x00040000
      ++ T.u32_to_u8s_le 0x0000010F
      ++ 0xFF ∷ 0xFF ∷ []
      ++ T.u16_to_u8s_le 0x0000
      ++ 0x00 ∷ 0x01 ∷ []

  unfoldable pub endpoint_descriptor : ℕ → ℕ → ℕ → ℕ → List ℕ
  endpoint_descriptor address xfer size interval =
      7 ∷ T.desc_endpoint ∷ address ∷ xfer ∷ [] ++ T.u16_to_u8s_le size ++ interval ∷ []

  unfoldable pub desc_configuration : List ℕ
  desc_configuration =
      config_header
      ++ interface_descriptor
      ++ functional_descriptor
      ++ endpoint_descriptor ccid_ep_bulk_out T.xfer_bulk ccid_ep_bulk_size 0
      ++ endpoint_descriptor ccid_ep_bulk_in T.xfer_bulk ccid_ep_bulk_size 0
      ++ endpoint_descriptor ccid_ep_intr_in T.xfer_interrupt ccid_ep_intr_size 16

  unfoldable pub tud_descriptor_configuration_cb : ℕ → List ℕ
  tud_descriptor_configuration_cb index = desc_configuration

  -- The first word of `_desc_str`, for a number of characters.
  unfoldable pub string_header : ℕ → ℕ
  string_header chr_count = bit_or (T.desc_string * 2 ^ 8) (2 * chr_count + 2) % 2 ^ 16

  -- `chr_count`: the length in a byte, and at most 63.
  unfoldable pub chr_count_of : List ℕ → ℕ
  chr_count_of str = let n = length str % 256 in if ltb 63 n then 63 else n

  -- `tud_descriptor_string_cb` with a table: `_desc_str`, and what is returned, or NULL.
  unfoldable pub descriptor_string : List (List ℕ) → ℕ → List ℕ → List ℕ × Option (List ℕ)
  descriptor_string table index desc_str =
      let language = write_at (write_at desc_str 1 (0x0409 ∷ [])) 0 (string_header 1 ∷ []) in
      let str = get_or table index [] in
      let n = chr_count_of str in
      let text = write_at (write_at desc_str 1 (take n str)) 0 (string_header n ∷ []) in
      if index == 0
      then (language, some language)
      else (if ltb index (length table % 256) then (text, some text) else (desc_str, none))

  unfoldable pub tud_descriptor_string_cb : ℕ → List ℕ → List ℕ × Option (List ℕ)
  tud_descriptor_string_cb index desc_str = descriptor_string string_table index desc_str
