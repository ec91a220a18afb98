-- ===== src/Container/Tests/Waves.antt =====
-- A RIFF/WAVE file at concrete inputs: written, and read back.
use mathlib.Core.List.{Memᴰ}
use mathlib.Core.List.Memᴰ.{head, tail}
use alsa_utils.Common.{ℕ, ◌≡◌, refl, List, [], ◌∷◌, ◌++◌, drop, All, arith}
use alsa_utils.Axfer.Pcm.{s16_le}
use alsa_utils.Axfer.Os.Laws.{splice}
use alsa_utils.Axfer.Context.{Context, Params, wave_builder, ok}
use alsa_utils.Container.Session.{cleared}
use alsa_utils.Container.RiffWave.{FormatMap, format_maps, riff_chunk_id_le}
use alsa_utils.Container.RiffWave.Parse.{wave_parser_pre_process}
use alsa_utils.Container.RiffWave.Build.{
  total_byte_count, build_riff_chunk_header, build_wave_format_subchunk, build_wave_data_subchunk,
  wave_builder_pre_process,
}
use alsa_utils.Container.RiffWave.Build.Layout.{wave_header}
use alsa_utils.Container.RiffWave.RoundTrip.{wave_parser-build}
use alsa_utils.Container.RiffWave.RoundTrip.Subchunks.{built, read_back, with_state}
use alsa_utils.Container.RiffWave.RoundTrip.Formats.{
  Documented, documented_pcm, values_of, order_of,
}
use alsa_utils.Container.RiffWave.RoundTrip.Written.{wave_builder_pre_process_lem}
use alsa_utils.Container.Tests.Machine.{File, file, file_os, file_reads, file_writes}

abbrev frames : List ℕ
frames = 1 ∷ 2 ∷ 3 ∷ 4 ∷ []

abbrev cd : Params
cd = record { format = s16_le; samples_per_frame = 2; frames_per_second = 44100; byte_count = 4 }

abbrev opened : Context
opened = record (cleared 3) { magic = riff_chunk_id_le }

abbrev wave_bytes : List ℕ
wave_bytes = wave_header (built (order_of cd) (values_of cd 1)) 1000 4 ++ frames

abbrev wave_file : File
wave_file = file 1 [] (drop 4 wave_bytes)

known_formats : (maps : List FormatMap) → All (λ m. Documented documented_pcm (m.1)) maps
known_formats [] = tt
known_formats (m ∷ maps) = ((refl, refl, refl), known_formats maps)

s16_le_listed : Memᴰ (1, s16_le) format_maps
s16_le_listed = tail (head refl)

magic-opened : riff_chunk_id_le ++ wave_file.back ≡ wave_bytes
unfolding build_riff_chunk_header build_wave_format_subchunk build_wave_data_subchunk
    total_byte_count
magic-opened = refl

wave_parser_example :
    (w' : File) × (wave_parser_pre_process documented_pcm 30 cd (opened, wave_file)
      ≡ (ok cd, (with_state opened (read_back (order_of cd) (values_of cd 1) 4), w')))
    × (w'.back ≡ frames)
wave_parser_example =
    wave_parser-build documented_pcm 30 file_reads cd cd 1 1000 frames opened wave_file
      (known_formats format_maps) s16_le_listed (omega arith) (omega arith) (omega arith)
      (omega arith) (omega arith) (omega arith) (omega arith) refl refl refl magic-opened
      (omega arith)

wave_builder_pre_process_example :
    (w' : File) × (wave_builder_pre_process documented_pcm 50 cd (cleared 3, file 1 [] []) ≡ (
      ok cd,
      (
        record (cleared 3) { private_data = wave_builder (built (order_of cd) (values_of cd 1)) },
        w',
      ),
    ))
    × ((w'.front ++ w'.back) ≡ splice [] 0 (wave_header (built (order_of cd) (values_of cd 1)) 0 4))
wave_builder_pre_process_example =
    wave_builder_pre_process_lem documented_pcm 50 file_writes cd 1 (cleared 3) (file 1 [] [])
      (refl, refl, refl) s16_le_listed refl (omega arith)
