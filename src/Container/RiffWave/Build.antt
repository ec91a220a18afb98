-- ===== src/Container/RiffWave/Build.antt =====
-- axfer/container-riff-wave.c: the builder.
pub mod Layout
use alsa_utils.Common.{
  ℕ, ◌+◌, ◌*◌, Bool, true, false, Option, none, some, List, [], ◌∷◌, ◌++◌, ltb, if◌then◌else◌,
}
use alsa_utils.Common.Words.{u32, sub_u32, sub_u64}
use alsa_utils.Axfer.Pcm.{Format, Pcm, CInt, pos, negsuc, int_eq, int_div8, format_eq}
use alsa_utils.Axfer.Os.{Os, einval}
use alsa_utils.Axfer.Context.{
  Params, WaveBuilder, Private, wave_builder, M, pure, throw, get, put, ◌>>=◌, ◌>>◌, bind_result,
}
use alsa_utils.Container.Io.{container_recursive_write, container_seek_offset}
use alsa_utils.Container.RiffWave.{
  riff_chunk_id_le, riff_chunk_id_be, riff_form_wave, fmt_subchunk_id, data_subchunk_id, FormatMap,
  format_maps, bytes16, bytes32,
}

-- `private_data` of a builder, which the initialisation fills with zeros.
abbrev pub wave_builder_of : Private → WaveBuilder
wave_builder_of (wave_builder st) = st
wave_builder_of p = record {
  be = false;
  format = 0;
  avail_bits_in_sample = 0;
  bytes_per_sample = 0;
  samples_per_frame = 0;
  frames_per_second = 0;
}

-- An `int` in an `unsigned int`.
abbrev pub from_int : CInt → ℕ
from_int (pos n) = u32 n
from_int (negsuc n) = sub_u32 4294967295 n

-- The size of `struct riff_chunk_data`, of `struct wave_fmt_subchunk` and of
-- `struct wave_data_subchunk`: 4, 24 and 8.
abbrev pub headers_size : ℕ
headers_size = 36

unfoldable pub build_riff_chunk_header : ℕ → Bool → List ℕ
build_riff_chunk_header byte_count be =
    (if be then riff_chunk_id_be else riff_chunk_id_le) ++ bytes32 be (headers_size + byte_count)

pub build_subchunk_header : List ℕ → ℕ → Bool → List ℕ
build_subchunk_header form size be = form ++ bytes32 be size

unfoldable pub build_wave_format_subchunk : WaveBuilder → List ℕ
unfolding build_subchunk_header
build_wave_format_subchunk st =
    build_subchunk_header fmt_subchunk_id 16 st.be
    ++ (bytes16 st.be st.format
        ++ (bytes16 st.be st.samples_per_frame
            ++ (bytes32 st.be st.frames_per_second
                ++ (bytes32 st.be
                      (u32 (st.bytes_per_sample * st.samples_per_frame * st.frames_per_second))
                    ++ (bytes16 st.be (u32 (st.bytes_per_sample * st.samples_per_frame))
                        ++ bytes16 st.be st.avail_bits_in_sample)))))

unfoldable pub build_wave_data_subchunk : ℕ → Bool → List ℕ
unfolding build_subchunk_header
build_wave_data_subchunk byte_count be = build_subchunk_header data_subchunk_id byte_count be

-- `total_byte_count`, as `write_riff_chunk_for_wave` hands it to `build_riff_chunk_header`.
unfoldable pub total_byte_count : ℕ → ℕ → ℕ
total_byte_count max_size byte_count =
    if ltb (sub_u64 max_size headers_size) byte_count then max_size else headers_size + byte_count

unfoldable pub format_of : Format → List FormatMap → Option ℕ
format_of f [] = none
format_of f ((k, g) ∷ maps) = if format_eq g f then some k else format_of f maps

module _ ⦃os : Os⦄ (pcm : Pcm) (fuel : ℕ) where
  pub write_riff_chunk_for_wave : ℕ → M (Unit {0})
  write_riff_chunk_for_wave byte_count = do
    c ← get
    let st = wave_builder_of c.private_data
    container_recursive_write fuel
        (build_riff_chunk_header (total_byte_count c.max_size byte_count) st.be)
    container_recursive_write fuel riff_form_wave
    container_recursive_write fuel (build_wave_format_subchunk st)
    container_recursive_write fuel (build_wave_data_subchunk byte_count st.be)

  unfoldable pub wave_builder_start : Params → Option ℕ → M Params
  wave_builder_start params none = throw einval
  wave_builder_start params (some wformat) = do
    c ← get
    put (record c {
      private_data = wave_builder (record {
        be = int_eq (pcm.big_endian params.format) (pos 1);
        format = wformat;
        avail_bits_in_sample = from_int (pcm.width params.format);
        bytes_per_sample = int_div8 (pcm.physical_width params.format);
        samples_per_frame = params.samples_per_frame;
        frames_per_second = params.frames_per_second;
      });
    })
    write_riff_chunk_for_wave params.byte_count
    pure params

  unfoldable pub wave_builder_pre_process : Params → M Params
  wave_builder_pre_process params = wave_builder_start params (format_of params.format format_maps)

  pub wave_builder_post_process : ℕ → M (Unit {0})
  wave_builder_post_process handled_byte_count = do
    container_seek_offset 0
    write_riff_chunk_for_wave handled_byte_count
