-- ===== src/Apdu/Status.antt =====
-- The status words of include/apdu.h that the applet answers with.
use ward3n.Base.{
  ℕ, ◌%◌, ◌+◌, ◌<◌, ◌≡◌, refl, bit_or, Bool, true, ◌&&◌, zero, suc, arith, ◌==◌, ==_iff,
}

abbrev pub sw_ok : ℕ
sw_ok = 0x9000

-- `SW_MORE_DATA (n)`
unfoldable pub sw_more_data : ℕ → ℕ
sw_more_data n = bit_or 0x6100 (n % 256)

abbrev pub sw_wrong_length : ℕ
sw_wrong_length = 0x6700

abbrev pub sw_security_not_satisfied : ℕ
sw_security_not_satisfied = 0x6982

abbrev pub sw_conditions_not_satisfied : ℕ
sw_conditions_not_satisfied = 0x6985

abbrev pub sw_incorrect_p1p2 : ℕ
sw_incorrect_p1p2 = 0x6A86

abbrev pub sw_referenced_data_not_found : ℕ
sw_referenced_data_not_found = 0x6A88

abbrev pub sw_ins_not_supported : ℕ
sw_ins_not_supported = 0x6D00

abbrev pub sw_cla_not_supported : ℕ
sw_cla_not_supported = 0x6E00

abbrev pub sw_unknown : ℕ
sw_unknown = 0x6F00

abbrev pub sw_file_not_found : ℕ
sw_file_not_found = 0x6A82

abbrev pub sw_wrong_data : ℕ
sw_wrong_data = 0x6A80

-- The low byte of 0x6100 is 0, so the bits of the count do not collide: all 256 counts are tried.
all_more : ℕ → Bool
all_more zero = true
all_more (suc n) = (bit_or 0x6100 n == 0x6100 + n) && all_more n

all_more_sound : (n x : ℕ) → all_more n ≡ true → x < n → bit_or 0x6100 x ≡ 0x6100 + x
unfolding all_more
all_more_sound zero x h lt = absurd (omega arith)
all_more_sound (suc n) x h lt =
    ground (arith, all_more_sound n x, ==_iff (bit_or 0x6100 n) (0x6100 + n))

all_more_table : all_more 256 ≡ true
unfolding all_more
all_more_table = refl

pub sw_more_data_lem : (n : ℕ) → sw_more_data n ≡ 0x6100 + n % 256
unfolding sw_more_data
sw_more_data_lem n = all_more_sound 256 (n % 256) all_more_table (omega arith)
