-- ===== src/Container/Voc.antt =====
-- axfer/container-voc.c: tables, sizes and time constants. `Parse` and `Build` hold the rest.
pub mod TimeConst
pub mod Parse
pub mod Build
use alsa_utils.Common.{
  ℕ, ◌+◌, ◌-◌, ◌*◌, ◌/◌, ◌%◌, Bool, true, false, ◌&&◌, ◌||◌, Option, none, some, List, [], ◌∷◌, ltb,
  leb, ◌==◌, if◌then◌else◌,
}
use alsa_utils.Common.Words.{u32, u16, sub_u32, byte_at}
use alsa_utils.Axfer.Pcm.{Format, u8, s16_le, a_law, mu_law}

-- "Creative Voice File\x1a"
abbrev pub voc_magic : List ℕ
voc_magic =
    b'C' ∷ b'r' ∷ b'e' ∷ b'a' ∷ b't' ∷ b'i' ∷ b'v' ∷ b'e' ∷ 32 ∷ b'V' ∷ b'o' ∷ b'i' ∷ b'c' ∷ b'e'
    ∷ 32 ∷ b'F' ∷ b'i' ∷ b'l' ∷ b'e' ∷ 0x1a ∷ []

abbrev pub voc_version_1_10 : ℕ
voc_version_1_10 = 0x010a

abbrev pub voc_version_1_20 : ℕ
voc_version_1_20 = 0x0114

-- `enum block_type`
abbrev pub block_type_terminator : ℕ
block_type_terminator = 0

abbrev pub block_type_v110_data : ℕ
block_type_v110_data = 1

abbrev pub block_type_continuous_data : ℕ
block_type_continuous_data = 2

abbrev pub block_type_extended_v110_format : ℕ
block_type_extended_v110_format = 8

abbrev pub block_type_v120_data : ℕ
block_type_v120_data = 9

pub record FormatMap : Type 0 where
  pub minimal_version : ℕ
  pub code_id : ℕ
  pub format : Format

abbrev pub format_maps : List FormatMap
format_maps =
    record { minimal_version = voc_version_1_10; code_id = 0; format = u8 }
    ∷ record { minimal_version = voc_version_1_20; code_id = 4; format = s16_le }
    ∷ record { minimal_version = voc_version_1_20; code_id = 6; format = a_law }
    ∷ record { minimal_version = voc_version_1_20; code_id = 7; format = mu_law }
    ∷ []

-- `struct time_const`: frames per second, and the code.
abbrev pub TimeConst : Type 0
TimeConst = ℕ × ℕ

abbrev pub v110_time_consts : List TimeConst
v110_time_consts =
    (5512, 74)
    ∷ (8000, 130)
    ∷ (11025, 165)
    ∷ (16000, 193)
    ∷ (22050, 210)
    ∷ (32000, 224)
    ∷ (44100, 233)
    ∷ (48000, 235)
    ∷ (64000, 240)
    ∷ []

abbrev pub ex_v110_time_consts : List TimeConst
ex_v110_time_consts =
    (5512, 19092)
    ∷ (8000, 33536)
    ∷ (11025, 42317)
    ∷ (16000, 49536)
    ∷ (22050, 53927)
    ∷ (32000, 57536)
    ∷ (44100, 59732)
    ∷ (48000, 60203)
    ∷ (64000, 61536)
    ∷ (88200, 62634)
    ∷ (96000, 62870)
    ∷ (176400, 64085)
    ∷ (192000, 64203)
    ∷ (352800, 64811)
    ∷ (384000, 64870)
    ∷ []

-- Three bytes of little-endian order, at an offset.
abbrev pub parse_block_data_size : List ℕ → ℕ → ℕ
parse_block_data_size bs i = byte_at bs (i + 2) * 65536 + byte_at bs (i + 1) * 256 + byte_at bs i

abbrev pub build_block_data_size : ℕ → List ℕ
build_block_data_size size = size % 256 ∷ size / 256 % 256 ∷ size / 65536 % 256 ∷ []

-- The searches of a table, by the rate and by the code: a code stands for the one below it too.
unfoldable pub code_of_rate : ℕ → List TimeConst → Option ℕ
code_of_rate rate [] = none
code_of_rate rate ((r, k) ∷ t) = if r == rate then some k else code_of_rate rate t

pub rate_of_code : ℕ → List TimeConst → Option ℕ
rate_of_code code [] = none
rate_of_code code ((r, k) ∷ t) = if k == code || k - 1 == code then some r else rate_of_code code t

-- `none` is a division by zero; the inner one is -EINVAL.
abbrev pub Checked : Type 0
Checked = Option (Option ℕ)

-- `a / b` in C.
abbrev pub div_checked : ℕ → ℕ → (ℕ → ℕ) → Checked
div_checked a b f = if b == 0 then none else some (some (f (a / b)))

abbrev pub extended_code : ℕ → Option ℕ → Checked
extended_code rate none = div_checked 256000000 rate (λ q. u16 (sub_u32 65536 q))
extended_code rate (some k) =
    if leb rate 192000
    then some (some k)
    else div_checked 256000000 rate (λ q. u16 (sub_u32 65536 q))

abbrev pub plain_code : ℕ → Option ℕ → Checked
plain_code rate none = div_checked 1000000 rate (λ q. u16 (sub_u32 256 q))
plain_code rate (some k) = some (some (k % 256))

pub build_time_constant : ℕ → ℕ → Bool → Checked
build_time_constant frames_per_second samples_per_frame true =
    let rate = u32 (frames_per_second * samples_per_frame) in
    if ltb 2 samples_per_frame
    then some none
    else extended_code rate (code_of_rate rate ex_v110_time_consts)
build_time_constant frames_per_second samples_per_frame false =
    if samples_per_frame == 1
    then plain_code frames_per_second (code_of_rate frames_per_second v110_time_consts)
    else some none

abbrev pub extended_rate : ℕ → ℕ → Option ℕ → Checked
extended_rate code samples_per_frame (some r) = div_checked r samples_per_frame (λ q. q)
extended_rate code samples_per_frame none =
    if samples_per_frame == 0
    then none
    else div_checked (256000000 / samples_per_frame) (65536 - code) (λ q. q)

abbrev pub plain_rate : ℕ → Option ℕ → Checked
plain_rate code (some r) = some (some r)
plain_rate code none = if code == 256 then none else some (some (1000000 / (256 - code)))

-- `code` is an `uint16_t`, and below 256 where `extended` is false.
pub parse_time_constant : ℕ → ℕ → Bool → Checked
parse_time_constant code samples_per_frame true =
    if ltb 2 samples_per_frame
    then some none
    else extended_rate code samples_per_frame (rate_of_code code ex_v110_time_consts)
parse_time_constant code samples_per_frame false =
    if samples_per_frame == 1
    then plain_rate code (rate_of_code code v110_time_consts)
    else some none

-- `check_code_id`: the code is cut to 8 bits.
pub check_code_id_in : ℕ → ℕ → List FormatMap → Bool
check_code_id_in code version [] = false
check_code_id_in code version (m ∷ maps) =
    code == m.code_id && leb m.minimal_version version || check_code_id_in code version maps

pub check_code_id : ℕ → ℕ → Bool
check_code_id code_id version = check_code_id_in (code_id % 256) version format_maps
