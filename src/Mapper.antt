-- ===== src/Mapper.antt =====
-- axfer/mapper.h and axfer/mapper.c: between the frames of a PCM and one container, or one for each
-- channel. `Single` and `Multiple` hold the two kinds of it, `Align` the copies of samples.
pub mod Align
pub mod State
pub mod Single
pub mod Multiple
pub mod Frames
mod Tests
use alsa_utils.Common.{ℕ, Bool, true, false, not, ◌&&◌, none, List, ltb, leb, ◌==◌, if◌then◌else◌}
use alsa_utils.Axfer.Pcm.{Access, access_in_range, Pcm}
use alsa_utils.Axfer.Os.{Os, einval, enomem}
use alsa_utils.Axfer.Context.{Res, ok, err, abort}
use alsa_utils.Mapper.State.{
  MapperType, muxer, demuxer, MapperTarget, single, multiple, Private, null, single_state,
  multiple_state, MapperContext, FrameBuffer, Step, is_null, is_multiple, zero_mapper,
}
use alsa_utils.Mapper.Single.{
  single_pre_process, single_muxer_process_frames, single_demuxer_process_frames,
  single_post_process,
}
use alsa_utils.Mapper.Multiple.{
  multiple_pre_process, multiple_muxer_process_frames, multiple_demuxer_process_frames,
  multiple_post_process,
}

abbrev pub target_of : ℕ → MapperTarget
target_of cntr_count = if cntr_count == 1 then single else multiple

-- `private_data` as it is allocated: zeros.
abbrev pub private_of : MapperTarget → Private
private_of single = single_state (record { align = false; buf = none })
private_of multiple = multiple_state (record { align = false; bufs = none; cntr_count = 0 })

-- `fails` says whether malloc does.
pub mapper_context_init : Bool → MapperContext → MapperType → ℕ → ℕ → Res (Unit {0}) × MapperContext
mapper_context_init fails mapper type cntr_count verbose =
    if not (ltb 0 cntr_count)
    then (abort, mapper)
    else if not (is_null mapper.private_data)
    then (abort, mapper)
    else let m = record zero_mapper { type = type; target = target_of cntr_count } in
      if fails then (err enomem, m) else (
        ok tt,
        record m {
          private_data = private_of (target_of cntr_count);
          cntr_count = cntr_count;
          verbose = verbose;
        },
      )

module _ ⦃os : Os⦄ where
  -- `mapper->ops`
  pub ops_pre_process : (ℕ → Bool) → MapperTarget → Step (Unit {0})
  ops_pre_process fails single s = single_pre_process (fails 0) s
  ops_pre_process fails multiple s = multiple_pre_process fails s

  pub mapper_context_pre_process : (ℕ → Bool) → Access → ℕ → ℕ → ℕ → Step (Unit {0})
  mapper_context_pre_process fails access bytes_per_sample samples_per_frame frames_per_buffer
        (m, cntrs) =
      if not (access_in_range access && (ltb 0 bytes_per_sample && ltb 0 samples_per_frame))
      then (abort, (m, cntrs))
      else if is_multiple m.target && not (samples_per_frame == m.cntr_count)
      then (err einval, (m, cntrs))
      else ops_pre_process fails m.target (
        record m {
          access = access;
          bytes_per_sample = bytes_per_sample;
          samples_per_frame = samples_per_frame;
          frames_per_buffer = frames_per_buffer;
        },
        cntrs,
      )

  module _ (pcm : Pcm) (fuel : ℕ) where
    unfoldable pub ops_process_frames :
        MapperType → MapperTarget → FrameBuffer → ℕ → Step (FrameBuffer × ℕ)
    ops_process_frames muxer single buf n s = single_muxer_process_frames pcm fuel buf n s
    ops_process_frames muxer multiple buf n s = multiple_muxer_process_frames pcm fuel buf n s
    ops_process_frames demuxer single buf n s = single_demuxer_process_frames pcm fuel buf n s
    ops_process_frames demuxer multiple buf n s = multiple_demuxer_process_frames pcm fuel buf n s

    -- The answer has the buffer and the number of frames.
    unfoldable pub mapper_context_process_frames : FrameBuffer → ℕ → Step (FrameBuffer × ℕ)
    mapper_context_process_frames buf frame_count (m, cntrs) =
        if leb frame_count m.frames_per_buffer
        then (ops_process_frames m.type m.target buf frame_count (m, cntrs))
        else (abort, (m, cntrs))

-- `mapper->ops->post_process`, where the mapper is initialised.
pub mapper_context_post_process : MapperContext → MapperContext
mapper_context_post_process m = elim (m.private_data) [
  | null ↦ m
  | single_state st ↦ record m { private_data = single_state (single_post_process st) }
  | multiple_state st ↦ record m { private_data = multiple_state (multiple_post_process st) }
]

pub mapper_context_destroy : MapperContext → MapperContext
mapper_context_destroy m = record m { private_data = null }
