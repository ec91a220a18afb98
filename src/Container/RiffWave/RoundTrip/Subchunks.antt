-- ===== src/Container/RiffWave/RoundTrip/Subchunks.antt =====
-- The parser on the subchunks that the builder writes, one by one.
use alsa_utils.Common.{
  ℕ, zero, suc, ◌+◌, ◌*◌, ◌/◌, ◌%◌, ◌<◌, ◌≡◌, refl, ap, false, true, Bool, List, arith, ==_iff,
}
use alsa_utils.Common.Words.{u32}
use alsa_utils.Axfer.Pcm.{Pcm}
use alsa_utils.Axfer.Os.{Os}
use alsa_utils.Axfer.Context.{Context, WaveBuilder, WaveParser, wave_parser, ok, State}
use alsa_utils.Container.RiffWave.Build.{build_wave_format_subchunk}
use alsa_utils.Container.RiffWave.Parse.{fmt_fields, parse_wave_fmt_subchunk, skip_data}

-- The values that a header is written for, and that fit their fields.
pub record Values : Type 0 where
  pub format : ℕ
  pub avail_bits_in_sample : ℕ
  pub bytes_per_sample : ℕ
  pub samples_per_frame : ℕ
  pub frames_per_second : ℕ

abbrev pub frame_size : Values → ℕ
frame_size v = v.bytes_per_sample * v.samples_per_frame

abbrev pub byte_rate : Values → ℕ
byte_rate v = v.bytes_per_sample * v.samples_per_frame * v.frames_per_second

pub record Fits (v : Values) : Type 0 where
  pub format_fits : v.format < 65536
  pub bits_fit : v.avail_bits_in_sample < 65536
  pub channels_fit : v.samples_per_frame < 65536
  pub rate_fits : v.frames_per_second < 4294967296
  pub frame_fits : frame_size v < 65536
  pub bytes_fit : byte_rate v < 4294967296

abbrev pub built : Bool → Values → WaveBuilder
built be v = record {
  be = be;
  format = v.format;
  avail_bits_in_sample = v.avail_bits_in_sample;
  bytes_per_sample = v.bytes_per_sample;
  samples_per_frame = v.samples_per_frame;
  frames_per_second = v.frames_per_second;
}

-- The state of the parser behind the format subchunk.
abbrev pub read_back : Bool → Values → ℕ → WaveParser
read_back be v byte_count = record {
  be = be;
  format = v.format;
  samples_per_frame = v.samples_per_frame;
  frames_per_second = v.frames_per_second;
  average_bytes_per_second = byte_rate v;
  bytes_per_frame = frame_size v;
  avail_bits_in_sample = v.avail_bits_in_sample;
  byte_count = byte_count;
}

abbrev pub with_state : Context → WaveParser → Context
with_state c st = record c { private_data = wave_parser st }

le16_fixed : (x : ℕ) → x < 65536 → x % 256 + 256 * (x / 256 % 256) ≡ x
le16_fixed x h = omega arith

be16_fixed : (x : ℕ) → x < 65536 → 256 * (x / 256 % 256) + x % 256 ≡ x
be16_fixed x h = omega arith

pub le32_fixed :
    (x : ℕ)
    → x < 4294967296
    → x % 256 + 256 * (x / 256 % 256) + 65536 * (x / 65536 % 256) + 16777216 * (x / 16777216 % 256)
      ≡ x
le32_fixed x h = omega arith

pub be32_fixed :
    (x : ℕ)
    → x < 4294967296
    → 16777216 * (x / 16777216 % 256) + 65536 * (x / 65536 % 256) + 256 * (x / 256 % 256) + x % 256
      ≡ x
be32_fixed x h = omega arith

u32_fixed : (x : ℕ) → x < 4294967296 → u32 x ≡ x
u32_fixed x h = omega arith

fmt_fields-build :
    (be : Bool) (v : Values) (st : WaveParser)
    → Fits v
    → fmt_fields (record st { be = be }) (build_wave_format_subchunk (built be v))
      ≡ read_back be v st.byte_count
unfolding build_wave_format_subchunk
fmt_fields-build true v st f =
    rw (u32_fixed (byte_rate v) f.bytes_fit, u32_fixed (frame_size v) (omega arith))
      (rw (
        be16_fixed v.format f.format_fits,
        be16_fixed v.samples_per_frame f.channels_fit,
        be32_fixed v.frames_per_second f.rate_fits,
        be32_fixed (byte_rate v) f.bytes_fit,
        be16_fixed (frame_size v) f.frame_fits,
        be16_fixed v.avail_bits_in_sample f.bits_fit,
      ))
fmt_fields-build false v st f =
    rw (u32_fixed (byte_rate v) f.bytes_fit, u32_fixed (frame_size v) (omega arith))
      (rw (
        le16_fixed v.format f.format_fits,
        le16_fixed v.samples_per_frame f.channels_fit,
        le32_fixed v.frames_per_second f.rate_fits,
        le32_fixed (byte_rate v) f.bytes_fit,
        le16_fixed (frame_size v) f.frame_fits,
        le16_fixed v.avail_bits_in_sample f.bits_fit,
      ))

module _ ⦃os : Os⦄ (pcm : Pcm) (fuel : ℕ) where
  pub parse_wave_fmt_subchunk_lem :
      (be : Bool) (v : Values) (st : WaveParser) (c : Context) (w : os.World)
      → Fits v
      → parse_wave_fmt_subchunk pcm fuel
          (build_wave_format_subchunk (built be v))
          (with_state c (record st { be = be }), w)
        ≡ (ok tt, (with_state c (read_back be v st.byte_count), w))
  unfolding parse_wave_fmt_subchunk
  parse_wave_fmt_subchunk_lem be v st c w f = rw (
    fmt_fields-build be v st f,
    ap (λ s. s.average_bytes_per_second) (fmt_fields-build be v st f),
    ap (λ s. s.bytes_per_frame) (fmt_fields-build be v st f),
    ap (λ s. s.frames_per_second) (fmt_fields-build be v st f),
    u32_fixed (byte_rate v) f.bytes_fit,
    (==_iff (byte_rate v) (byte_rate v)).1 refl,
  )

  pub skip_data_nothing :
      (rounds : ℕ) (buf : List ℕ) (s : State)
      → 0 < rounds
      → skip_data pcm fuel rounds 0 buf s ≡ (ok (false, buf), s)
  unfolding skip_data
  skip_data_nothing zero buf s h = absurd (omega arith)
  skip_data_nothing (suc rounds) buf s h = refl
