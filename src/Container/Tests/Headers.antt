-- ===== src/Container/Tests/Headers.antt =====
-- Headers of Sun audio and RIFF/WAVE files at concrete inputs.
use mathlib.Core.List.{Memᴰ}
use alsa_utils.Common.{
  ℕ, ◌+◌, ◌≡◌, refl, false, some, List, [], ◌∷◌, ◌++◌, length, drop, ◌⊎◌, arith,
}
use alsa_utils.Axfer.Pcm.{s16_be}
use alsa_utils.Axfer.Os.{einval}
use alsa_utils.Axfer.Os.Laws.{splice}
use alsa_utils.Axfer.Context.{
  Context, Params, AuBuilder, au_builder, WaveBuilder, wave_builder, ok, err, fault,
}
use alsa_utils.Container.Session.{cleared}
use alsa_utils.Container.Au.{
  au_magic, format_maps, code_of_format, build_container_header, au_parser_pre_process,
  au_builder_pre_process, au_builder_post_process,
}
use alsa_utils.Container.Au.Build.{
  header_of, builder_context, au_builder_pre_process_lem, au_builder_post_process_lem,
}
use alsa_utils.Container.Au.RoundTrip.{parsed, parser_state, au_parser-build}
use alsa_utils.Container.RiffWave.{field32}
use alsa_utils.Container.RiffWave.Build.{wave_builder_post_process}
use alsa_utils.Container.RiffWave.Build.Layout.{
  wave_header, riff_size-counts_twice, wave_builder_post_process_lem,
}
use alsa_utils.Container.RiffWave.Parse.{wave_parser_pre_process}
use alsa_utils.Container.RiffWave.Parse.Ends.{wave_parser_truncated}
use alsa_utils.Container.Tests.Machine.{File, file, file_os, file_reads, file_writes, test_pcm}

abbrev stereo : AuBuilder
stereo = record {
  bytes_per_sample = 2;
  samples_per_frame = 2;
  frames_per_second = 44100;
  code_id = 3;
}

abbrev frames : List ℕ
frames = 1 ∷ 2 ∷ 3 ∷ 4 ∷ []

abbrev params : Params
params = record {
  format = s16_be;
  samples_per_frame = 2;
  frames_per_second = 44100;
  byte_count = 4;
}

-- The first four bytes are read already.
abbrev opened : Context
opened = record (cleared 3) { magic = au_magic }

abbrev au_file : File
au_file = file 1 [] (drop 4 (build_container_header stereo 44100 4 ++ frames))

header-opened : au_magic ++ au_file.back ≡ build_container_header stereo 44100 4 ++ frames
unfolding build_container_header
header-opened = refl

code_of-s16_be : code_of_format s16_be format_maps ≡ some 3
unfolding code_of_format
code_of-s16_be = refl

au_parser_example :
    (w' : File) × (au_parser_pre_process test_pcm 30 [] params (opened, au_file) ≡ (
      ok (parsed test_pcm stereo s16_be 44100 4),
      (parser_state test_pcm stereo s16_be opened, w'),
    ))
    × (w'.back ≡ frames)
au_parser_example =
    au_parser-build test_pcm 30 file_reads stereo s16_be [] frames 44100 4 params opened au_file
      code_of-s16_be (omega arith) (omega arith) (omega arith) refl refl refl header-opened
      (omega arith)

au_builder_pre_process_example :
    (((code : ℕ) → ¬ Memᴰ (code, s16_be) format_maps)
      × (au_builder_pre_process test_pcm 30 params (cleared 3, file 1 [] [])
          ≡ (err einval, (cleared 3, file 1 [] []))))
    ⊎ ((code : ℕ) × (w' : File) × Memᴰ (code, s16_be) format_maps
        × (au_builder_pre_process test_pcm 30 params (cleared 3, file 1 [] [])
            ≡ (ok params, (builder_context test_pcm params code (cleared 3), w')))
        × ((w'.front ++ w'.back)
            ≡ splice [] 0 (header_of (builder_context test_pcm params code (cleared 3)) 4)))
au_builder_pre_process_example =
    au_builder_pre_process_lem test_pcm 30 file_writes params (cleared 3) (file 1 [] []) refl
      (omega arith)

abbrev au_written : Context
au_written = record (cleared 3) { private_data = au_builder stereo }

au_builder_post_process_example :
    (w' : File) × (au_builder_post_process test_pcm 30 4 (au_written, file 0 frames [])
      ≡ (ok tt, (au_written, w')))
    × ((w'.front ++ w'.back) ≡ header_of au_written 4 ++ drop 24 (frames ++ []))
au_builder_post_process_example =
    au_builder_post_process_lem test_pcm 30 file_writes 4 au_written (file 0 frames []) refl
      (omega arith)

abbrev wave : WaveBuilder
wave = record {
  be = false;
  format = 1;
  avail_bits_in_sample = 16;
  bytes_per_sample = 2;
  samples_per_frame = 2;
  frames_per_second = 44100;
}

abbrev wave_written : Context
wave_written = record (cleared 3) { private_data = wave_builder wave; max_size = 1000 }

wave_builder_post_process_example :
    (w' : File) × (wave_builder_post_process test_pcm 50 4 (wave_written, file 1 frames [])
      ≡ (ok tt, (wave_written, w')))
    × ((w'.front ++ w'.back) ≡ wave_header wave 1000 4 ++ drop 44 (frames ++ []))
wave_builder_post_process_example =
    wave_builder_post_process_lem test_pcm 50 file_writes 4 wave_written (file 1 frames []) refl
      (omega arith)

riff_size_example :
    field32 false (wave_header wave 1000 4) 4 + 8 ≡ length (wave_header wave 1000 4) + 4 + 36
riff_size_example = riff_size-counts_twice wave 1000 4 (omega arith) (omega arith)

wave_parser_truncated_example :
    (wave_parser_pre_process test_pcm 20 params (cleared 3, file 1 [] (1 ∷ 2 ∷ []))).0 ≡ fault
wave_parser_truncated_example =
    wave_parser_truncated test_pcm 20 file_reads params (cleared 3) (file 1 [] (1 ∷ 2 ∷ [])) refl
      refl (omega arith) (omega arith)
