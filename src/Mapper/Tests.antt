-- ===== src/Mapper/Tests.antt =====
-- The theorems on the mappers at concrete inputs: two channels, samples of two bytes.
use alsa_utils.Common.{ℕ, zero, suc, ◌<◌, ◌≡◌, refl, some, List, [], ◌∷◌, arith}
use alsa_utils.Axfer.Context.{Context, builder, ok, State}
use alsa_utils.Container.Tests.Machine.{file, file_os, file_writes, test_pcm}
use alsa_utils.Container.Session.{cleared}
use alsa_utils.Mapper.{mapper_context_process_frames}
use alsa_utils.Mapper.State.{zero_mapper, frames}
use alsa_utils.Mapper.Align.{align_to_vector, align_from_vector, align_to_i, align_from_i}
use alsa_utils.Mapper.Align.Interleave.{
  Deinterleaves, Interleaves, align_to_vector_lem, align_from_vector_lem,
}
use alsa_utils.Mapper.Align.RoundTrip.{align_to_vector-align_from_vector, align_i_vector}
use alsa_utils.Mapper.Frames.{Ready, AllWrote, aligning_demuxer, multiple_demuxer_lem}

-- Three frames, and the samples of each channel.
abbrev six_samples : List ℕ
six_samples = 1 ∷ 2 ∷ 3 ∷ 4 ∷ 5 ∷ 6 ∷ 7 ∷ 8 ∷ 9 ∷ 10 ∷ 11 ∷ 12 ∷ []

abbrev channels : List (List ℕ)
channels = (1 ∷ 2 ∷ 5 ∷ 6 ∷ 9 ∷ 10 ∷ []) ∷ (3 ∷ 4 ∷ 7 ∷ 8 ∷ 11 ∷ 12 ∷ []) ∷ []

abbrev silence : List (List ℕ)
silence = (0 ∷ 0 ∷ 0 ∷ 0 ∷ 0 ∷ 0 ∷ []) ∷ (0 ∷ 0 ∷ 0 ∷ 0 ∷ 0 ∷ 0 ∷ []) ∷ []

abbrev six_silent : List ℕ
six_silent = 0 ∷ 0 ∷ 0 ∷ 0 ∷ 0 ∷ 0 ∷ 0 ∷ 0 ∷ 0 ∷ 0 ∷ 0 ∷ 0 ∷ []

both : (P : ℕ → Type 0) → P 0 → P 1 → (i : ℕ) → i < 2 → P i
both P p q zero h = p
both P p q (suc zero) h = q
both P p q (suc (suc i)) h = absurd (omega arith)

align_to_vector_example :
    (after : List (List ℕ)) × (align_to_vector silence 3 six_samples 2 2 ≡ some after)
    × Deinterleaves 2 2 3 six_samples silence after
align_to_vector_example =
    align_to_vector_lem 2 2 3 (omega arith) (omega arith) six_samples silence (omega arith)
      (both _ (omega arith) (omega arith)) (omega arith)

align_from_vector_example :
    (after : List ℕ) × (align_from_vector channels 3 six_silent 2 2 ≡ some after)
    × Interleaves 2 2 3 channels six_silent after
align_from_vector_example =
    align_from_vector_lem 2 2 3 (omega arith) (omega arith) six_silent channels (omega arith)
      (both _ (omega arith) (omega arith)) (omega arith)

align_to_vector-align_from_vector_example :
    (mid : List ℕ) × (align_from_vector channels 3 six_silent 2 2 ≡ some mid)
    × (align_to_vector silence 3 mid 2 2 ≡ some channels)
align_to_vector-align_from_vector_example =
    align_to_vector-align_from_vector 2 2 3 (omega arith) (omega arith) channels silence six_silent
      refl refl (both _ refl refl) (both _ refl refl) refl

align_i_vector_example :
    (align_from_i six_samples 3 silence 2 (1 ∷ 1 ∷ []) 2
      ≡ align_to_vector silence 3 six_samples 2 2)
    × (align_to_i six_samples 3 silence 2 (1 ∷ 1 ∷ []) 2
        ≡ align_from_vector silence 3 six_samples 2 2)
align_i_vector_example = align_i_vector 2 3 (1 ∷ 1 ∷ []) 2 (both _ refl refl) six_samples silence

-- A container of one channel.
abbrev mono : Context
mono = record (cleared 3) {
  kind = builder;
  max_size = 100;
  bytes_per_sample = 2;
  samples_per_frame = 1;
}

abbrev two_files : List State
two_files = (mono, file 1 (9 ∷ []) []) ∷ (mono, file 0 [] (7 ∷ [])) ∷ []

multiple_demuxer_example :
    (dsts' : List (List ℕ)) × (cntrs' : List State) × (mapper_context_process_frames test_pcm 9
        (frames six_samples)
        3
        (
          aligning_demuxer test_pcm 9 file_writes 2 3
              (record zero_mapper { frames_per_buffer = 4 })
              2
              silence,
          two_files,
        )
      ≡ (
        ok (frames six_samples, 3),
        (
          aligning_demuxer test_pcm 9 file_writes 2 3
              (record zero_mapper { frames_per_buffer = 4 })
              2
              dsts',
          cntrs',
        ),
      ))
    × Deinterleaves 2 2 3 six_samples silence dsts'
    × AllWrote test_pcm 9 file_writes 2 3 dsts' two_files cntrs'
multiple_demuxer_example =
    multiple_demuxer_lem test_pcm 9 file_writes 2 3 (record zero_mapper { frames_per_buffer = 4 })
      six_samples silence two_files (omega arith) (omega arith) (omega arith) (omega arith)
      (omega arith) refl (both _ (omega arith) (omega arith)) (omega arith) (ready, (ready', tt))
  where
    ready : Ready test_pcm 9 file_writes 2 3 1 (mono, file 1 (9 ∷ []) [])
    ready = record {
      is_builder = refl;
      goes_on = refl;
      quiet = refl;
      sample_size = refl;
      channels = refl;
      room = omega arith;
      limit = omega arith;
      enough = omega arith;
    }

    ready' : Ready test_pcm 9 file_writes 2 3 1 (mono, file 0 [] (7 ∷ []))
    ready' = record {
      is_builder = refl;
      goes_on = refl;
      quiet = refl;
      sample_size = refl;
      channels = refl;
      room = omega arith;
      limit = omega arith;
      enough = omega arith;
    }
