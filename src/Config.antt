-- ===== src/Config.antt =====
-- include/config.h: the flash layout, the times of the state machine, and the PIN.
use ward3n.Base.{ℕ, ◌+◌, ◌-◌, ◌*◌, List, [], ◌∷◌}

abbrev pub neopixel_pin : ℕ
neopixel_pin = 16

abbrev pub button_pin : ℕ
button_pin = 9

abbrev pub button_debounce_ms : ℕ
button_debounce_ms = 30

abbrev pub auth_window_ms : ℕ
auth_window_ms = 10000

abbrev pub wait_button_timeout_ms : ℕ
wait_button_timeout_ms = 30000

-- FLASH_SECTOR_SIZE of the Pico SDK, which the layout of the key sector is written for.
abbrev pub flash_sector_size : ℕ
flash_sector_size = 4096

abbrev pub flash_size_bytes : ℕ
flash_size_bytes = 2 * 1024 * 1024

abbrev pub key_storage_offset : ℕ
key_storage_offset = flash_size_bytes - flash_sector_size

abbrev pub key_storage_magic : ℕ
key_storage_magic = 0xA3B1C057

abbrev pub ks_offset_magic : ℕ
ks_offset_magic = 0

abbrev pub ks_offset_privkey : ℕ
ks_offset_privkey = 4

abbrev pub ks_offset_pubkey_x : ℕ
ks_offset_pubkey_x = 36

abbrev pub ks_offset_pubkey_y : ℕ
ks_offset_pubkey_y = 68

abbrev pub ks_offset_cert_len : ℕ
ks_offset_cert_len = 100

abbrev pub ks_offset_cert_der : ℕ
ks_offset_cert_der = 102

abbrev pub ks_max_cert_len : ℕ
ks_max_cert_len = flash_sector_size - ks_offset_cert_der

-- KEY_STORAGE_XIP_ADDR, over XIP_BASE of the Pico SDK
abbrev pub key_storage_xip_addr : ℕ → ℕ
key_storage_xip_addr xip_base = xip_base + key_storage_offset

-- Nothing in the code uses these two.
abbrev pub piv_pin_len_min : ℕ
piv_pin_len_min = 6

abbrev pub piv_pin_len_max : ℕ
piv_pin_len_max = 8

abbrev pub piv_pin_pad_byte : ℕ
piv_pin_pad_byte = 0xFF

-- "123456"
abbrev pub piv_default_pin : List ℕ
piv_default_pin = b'1' ∷ b'2' ∷ b'3' ∷ b'4' ∷ b'5' ∷ b'6' ∷ []

abbrev pub ccid_buf_size : ℕ
ccid_buf_size = 512

abbrev pub ccid_ep_bulk_out : ℕ
ccid_ep_bulk_out = 0x01

abbrev pub ccid_ep_bulk_in : ℕ
ccid_ep_bulk_in = 0x81

abbrev pub ccid_ep_intr_in : ℕ
ccid_ep_intr_in = 0x82

abbrev pub ccid_ep_bulk_size : ℕ
ccid_ep_bulk_size = 64

abbrev pub ccid_ep_intr_size : ℕ
ccid_ep_intr_size = 8

abbrev pub usb_vid : ℕ
usb_vid = 0x1209

abbrev pub usb_pid : ℕ
usb_pid = 0x0001
