-- ===== src/Container/Tests/Blocks.antt =====
-- VOC files at concrete inputs.
use alsa_utils.Common.{ℕ, ◌≡◌, refl, false, some, List, [], ◌∷◌, arith}
use alsa_utils.Axfer.Context.{fault, stuck}
use alsa_utils.Container.Session.{cleared}
use alsa_utils.Container.Voc.{
  voc_version_1_10, v110_time_consts, ex_v110_time_consts, code_of_rate, build_time_constant,
  parse_time_constant,
}
use alsa_utils.Container.Voc.Build.{decide_version}
use alsa_utils.Container.Voc.Build.Sizes.{version_1_10_keeps_rate}
use alsa_utils.Container.Voc.Parse.{detect_loop}
use alsa_utils.Container.Voc.Parse.Blocks.{detect_loop_small_block, detect_loop_truncated}
use alsa_utils.Container.Tests.Machine.{file, file_os, file_reads}

code_of_rate-8000 : code_of_rate 8000 v110_time_consts ≡ some 130
unfolding code_of_rate
code_of_rate-8000 = refl

code_of_rate-44100 : code_of_rate 44100 ex_v110_time_consts ≡ some 59732
unfolding code_of_rate
code_of_rate-44100 = refl

decide_version-8000 : decide_version 0x010a 1 8000 ≡ (voc_version_1_10, false)
unfolding decide_version code_of_rate
decide_version-8000 = refl

version_1_10_keeps_rate_example :
    (code : ℕ) × (build_time_constant 8000 1 false ≡ some (some code))
    × (parse_time_constant code 1 false ≡ some (some 8000))
version_1_10_keeps_rate_example =
    version_1_10_keeps_rate 0x010a 1 8000 false (omega arith) (omega arith) decide_version-8000

-- A marker with two bytes of data.
abbrev marker : List ℕ
marker = 4 ∷ 2 ∷ 0 ∷ 0 ∷ 1 ∷ 2 ∷ []

detect_loop_small_block_example : (detect_loop 9 9 [] (cleared 3, file 1 [] marker)).0 ≡ fault
detect_loop_small_block_example =
    detect_loop_small_block 9 file_reads 8 4 2 0 0 [] (1 ∷ 2 ∷ []) (cleared 3) (file 1 [] marker)
      refl (omega arith) (omega arith) (omega arith) refl refl (λ v n h. refl) (omega arith)

detect_loop_truncated_example :
    (detect_loop 9 50 [] (cleared 3, file 1 [] (8 ∷ 4 ∷ 0 ∷ []))).0 ≡ stuck
detect_loop_truncated_example =
    detect_loop_truncated 9 file_reads 50 [] (4 ∷ 0 ∷ []) (cleared 3) (file 1 [] (8 ∷ 4 ∷ 0 ∷ []))
      refl (omega arith) refl refl (λ v. refl) (omega arith)
