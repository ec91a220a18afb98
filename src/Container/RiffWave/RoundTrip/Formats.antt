-- ===== src/Container/RiffWave/RoundTrip/Formats.antt =====
-- The sample format that the parser finds for the fields which the builder writes.
use alsa_utils.Common.{
  All-Memᴰ, ℕ, ◌*◌, ◌≡◌, ◌<◌, refl, ◌∙◌, Bool, true, Option, none, some, List, [], ◌∷◌, All, arith,
}
use mathlib.Core.Path.{subst}
use mathlib.Core.List.{Memᴰ}
use alsa_utils.Axfer.Pcm.{
  Format, unknown, s8, s16_le, s16_be, s24_le, s24_be, s32_le, s32_be, float_le, float_be,
  float64_le, float64_be, s24_3le, s24_3be, s20_3le, s20_3be, s18_3le, s18_3be, other, CInt, pos,
  negsuc, Pcm, int_eq,
}
use alsa_utils.Axfer.Context.{Params, WaveParser}
use alsa_utils.Container.RiffWave.{FormatMap, format_maps}
use alsa_utils.Container.RiffWave.Parse.{find_format}
use alsa_utils.Container.RiffWave.RoundTrip.Subchunks.{Values}
use alsa_utils.Container.RiffWave.Build.{format_of}

-- What alsa-lib documents of the formats of `format_maps`: the bits of a sample, the bits that it
-- takes in memory, and whether it is big-endian, which is an error for those of one byte.
abbrev pub bits : Format → ℕ
bits s16_le = 16
bits s16_be = 16
bits s24_le = 24
bits s24_be = 24
bits s32_le = 32
bits s32_be = 32
bits float_le = 32
bits float_be = 32
bits float64_le = 64
bits float64_be = 64
bits s24_3le = 24
bits s24_3be = 24
bits s20_3le = 20
bits s20_3be = 20
bits s18_3le = 18
bits s18_3be = 18
bits f = 8

abbrev pub sample_size : Format → ℕ
sample_size s16_le = 2
sample_size s16_be = 2
sample_size s24_le = 4
sample_size s24_be = 4
sample_size s32_le = 4
sample_size s32_be = 4
sample_size float_le = 4
sample_size float_be = 4
sample_size float64_le = 8
sample_size float64_be = 8
sample_size s24_3le = 3
sample_size s24_3be = 3
sample_size s20_3le = 3
sample_size s20_3be = 3
sample_size s18_3le = 3
sample_size s18_3be = 3
sample_size f = 1

abbrev pub byte_order : Format → CInt
byte_order s16_le = pos 0
byte_order s16_be = pos 1
byte_order s24_le = pos 0
byte_order s24_be = pos 1
byte_order s32_le = pos 0
byte_order s32_be = pos 1
byte_order float_le = pos 0
byte_order float_be = pos 1
byte_order float64_le = pos 0
byte_order float64_be = pos 1
byte_order s24_3le = pos 0
byte_order s24_3be = pos 1
byte_order s20_3le = pos 0
byte_order s20_3be = pos 1
byte_order s18_3le = pos 0
byte_order s18_3be = pos 1
byte_order f = negsuc 21

abbrev pub Documented : Pcm → Format → Type 0
Documented pcm f =
    (pcm.width f ≡ pos (bits f))
    × (pcm.physical_width f ≡ pos (8 * sample_size f))
    × (pcm.big_endian f ≡ byte_order f)

abbrev pub documented_pcm : Pcm
documented_pcm = record {
  width = λ f. pos (bits f);
  physical_width = λ f. pos (8 * sample_size f);
  big_endian = byte_order;
  in_range = λ f. true;
}

find_format-agrees :
    (pcm : Pcm) (st : WaveParser) (w : ℕ) (maps : List FormatMap)
    → All (λ m. Documented pcm (m.1)) maps
    → find_format pcm st w maps ≡ find_format documented_pcm st w maps
unfolding find_format
find_format-agrees pcm st w [] h = refl
find_format-agrees pcm st w ((k, f) ∷ maps) ((a, b, c), h) =
    rw (a, b, c, find_format-agrees pcm st w maps h)

-- The fields that a format is written with.
abbrev pub described : WaveParser → Format → ℕ → WaveParser
described st f k = record st {
  be = int_eq (byte_order f) (pos 1);
  format = k;
  avail_bits_in_sample = bits f;
}

abbrev Finds : WaveParser → Format → Option ℕ → Type 0
Finds st f none = Unit {0}
Finds st f (some k) =
    find_format documented_pcm (described st f k) (8 * sample_size f) format_maps ≡ some f

format_of-other : (n : ℕ) → format_of (other n) format_maps ≡ none
unfolding format_of
format_of-other n = ground arith

find_format-each : (f : Format) (st : WaveParser) → Finds st f (format_of f format_maps)
unfolding find_format format_of
find_format-each unknown st = tt
find_format-each s8 st = tt
find_format-each (other n) st = rw (format_of-other n) tt
find_format-each _ st = refl

-- The format that was written is the first one that fits.
pub find_format-described :
    (pcm : Pcm) (f : Format) (k : ℕ) (st : WaveParser)
    → All (λ m. Documented pcm (m.1)) format_maps
    → format_of f format_maps ≡ some k
    → find_format pcm (described st f k) (8 * sample_size f) format_maps ≡ some f
find_format-described pcm f k st h e =
    find_format-agrees pcm (described st f k) (8 * sample_size f) format_maps h
    ∙ subst (Finds st f) e (find_format-each f st)

-- The search of the builder finds each entry of the table.
pub format_of-listed :
    (k : ℕ) (f : Format) → Memᴰ (k, f) format_maps → format_of f format_maps ≡ some k
unfolding format_of
format_of-listed k f h =
    All-Memᴰ (λ m. format_of (m.1) format_maps ≡ some (m.0)) format_maps
      (
        refl,
        (
          refl,
          (
            refl,
            (
              refl,
              (
                refl,
                (
                  refl,
                  (
                    refl,
                    (
                      refl,
                      (
                        refl,
                        (
                          refl,
                          (
                            refl,
                            (refl, (refl, (refl, (refl, (refl, (refl, (refl, (refl, tt)))))))),
                          ),
                        ),
                      ),
                    ),
                  ),
                ),
              ),
            ),
          ),
        ),
      )
      h

-- The values that the builder writes for parameters whose format has the code `k`.
abbrev pub values_of : Params → ℕ → Values
values_of p k = record {
  format = k;
  avail_bits_in_sample = bits p.format;
  bytes_per_sample = sample_size p.format;
  samples_per_frame = p.samples_per_frame;
  frames_per_second = p.frames_per_second;
}

abbrev pub order_of : Params → Bool
order_of p = int_eq (byte_order p.format) (pos 1)

pub bits-lt : (f : Format) → bits f < 65536
bits-lt unknown = omega arith
bits-lt _ = omega arith
