-- ===== src/Container/RiffWave.antt =====
-- axfer/container-riff-wave.c: the table of formats, the identifiers, and the fields of a subchunk.
-- `Parse` and `Build` hold the two halves of the file.
pub mod Parse
pub mod Build
pub mod RoundTrip
use alsa_utils.Common.{ℕ, ◌-◌, Bool, true, false, List, [], ◌∷◌, ltb, if◌then◌else◌}
use alsa_utils.Common.Words.{
  le16_at, be16_at, le32_at, be32_at, le16_bytes, be16_bytes, le32_bytes, be32_bytes,
}
use alsa_utils.Axfer.Pcm.{
  Format, u8, s16_le, s16_be, s24_le, s24_be, s32_le, s32_be, s24_3le, s24_3be, s20_3le, s20_3be,
  s18_3le, s18_3be, float_le, float_be, float64_le, float64_be, a_law, mu_law, CInt, pos, negsuc,
}

abbrev pub riff_chunk_id_le : List ℕ
riff_chunk_id_le = b'R' ∷ b'I' ∷ b'F' ∷ b'F' ∷ []

abbrev pub riff_chunk_id_be : List ℕ
riff_chunk_id_be = b'R' ∷ b'I' ∷ b'F' ∷ b'X' ∷ []

abbrev pub riff_form_wave : List ℕ
riff_form_wave = b'W' ∷ b'A' ∷ b'V' ∷ b'E' ∷ []

abbrev pub fmt_subchunk_id : List ℕ
fmt_subchunk_id = b'f' ∷ b'm' ∷ b't' ∷ 32 ∷ []

abbrev pub data_subchunk_id : List ℕ
data_subchunk_id = b'd' ∷ b'a' ∷ b't' ∷ b'a' ∷ []

-- `format_maps`: `enum wave_format` as its number, and the sample format.
abbrev pub FormatMap : Type 0
FormatMap = ℕ × Format

abbrev pub format_maps : List FormatMap
format_maps =
    (1, u8)
    ∷ (1, s16_le)
    ∷ (1, s16_be)
    ∷ (1, s24_le)
    ∷ (1, s24_be)
    ∷ (1, s32_le)
    ∷ (1, s32_be)
    ∷ (1, s24_3le)
    ∷ (1, s24_3be)
    ∷ (1, s20_3le)
    ∷ (1, s20_3be)
    ∷ (1, s18_3le)
    ∷ (1, s18_3be)
    ∷ (3, float_le)
    ∷ (3, float_be)
    ∷ (3, float64_le)
    ∷ (3, float64_be)
    ∷ (6, a_law)
    ∷ (7, mu_law)
    ∷ []

-- `be ? be16toh(x) : le16toh(x)` at an offset, and the same for 32 bits.
abbrev pub field16 : Bool → List ℕ → ℕ → ℕ
field16 true bs i = be16_at bs i
field16 false bs i = le16_at bs i

abbrev pub field32 : Bool → List ℕ → ℕ → ℕ
field32 true bs i = be32_at bs i
field32 false bs i = le32_at bs i

abbrev pub bytes16 : Bool → ℕ → List ℕ
bytes16 true x = be16_bytes x
bytes16 false x = le16_bytes x

abbrev pub bytes32 : Bool → ℕ → List ℕ
bytes32 true x = be32_bytes x
bytes32 false x = le32_bytes x

-- The `int` that an `unsigned int` converts to.
abbrev pub to_int : ℕ → CInt
to_int n = if ltb n 2147483648 then pos n else negsuc (4294967295 - n)
