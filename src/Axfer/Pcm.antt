-- ===== src/Axfer/Pcm.antt =====
-- What axfer/container*.c uses of alsa-lib: the sample formats by name, and four queries on them.
use alsa_utils.Common.{ℕ, suc, ◌+◌, ◌-◌, ◌/◌, Bool, true, false, ◌==◌}
use alsa_utils.Common.Words.{u32}

-- `snd_pcm_format_t`: the constants that the sources name, and every other one by its number.
pub data Format : Type 0 where
  unknown : Format
  s8 u8 : Format
  s16_le s16_be : Format
  s24_le s24_be : Format
  s32_le s32_be : Format
  float_le float_be : Format
  float64_le float64_be : Format
  mu_law a_law : Format
  s24_3le s24_3be : Format
  s20_3le s20_3be : Format
  s18_3le s18_3be : Format
  other : ℕ → Format

-- `snd_pcm_access_t`: its five constants, and every number that is none of them.
pub data Access : Type 0 where
  mmap_interleaved mmap_noninterleaved mmap_complex : Access
  rw_interleaved rw_noninterleaved : Access
  other_access : ℕ → Access

-- `access >= SND_PCM_ACCESS_MMAP_INTERLEAVED && access <= SND_PCM_ACCESS_RW_NONINTERLEAVED`
abbrev pub access_in_range : Access → Bool
access_in_range (other_access n) = false
access_in_range a = true

-- A number for each format, to compare them by.
abbrev pub index : Format → ℕ
index unknown = 0
index s8 = 1
index u8 = 2
index s16_le = 3
index s16_be = 4
index s24_le = 5
index s24_be = 6
index s32_le = 7
index s32_be = 8
index float_le = 9
index float_be = 10
index float64_le = 11
index float64_be = 12
index mu_law = 13
index a_law = 14
index s24_3le = 15
index s24_3be = 16
index s20_3le = 17
index s20_3be = 18
index s18_3le = 19
index s18_3be = 20
index (other n) = 21 + n

-- A C `int`: `negsuc n` is -(n + 1).
pub data CInt : Type 0 where
  pos : ℕ → CInt
  negsuc : ℕ → CInt

abbrev pub format_eq : Format → Format → Bool
format_eq a b = index a == index b

abbrev pub int_eq : CInt → CInt → Bool
int_eq (pos a) (pos b) = a == b
int_eq (negsuc a) (negsuc b) = a == b
int_eq a b = false

-- `x / 8`, which rounds towards zero, stored in an `unsigned int`.
abbrev pub int_div8 : CInt → ℕ
int_div8 (pos n) = u32 (n / 8)
int_div8 (negsuc n) = u32 (4294967296 - suc n / 8)

-- The functions of alsa-lib, as an argument of what calls them.
pub record Pcm : Type 0 where
  pub width : Format → CInt
  pub physical_width : Format → CInt
  pub big_endian : Format → CInt
  -- `format >= SND_PCM_FORMAT_S8 && format <= SND_PCM_FORMAT_LAST`
  pub in_range : Format → Bool
