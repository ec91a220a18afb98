-- ===== src/Mapper/State.antt =====
-- axfer/mapper.h: the state of a mapper, and that of its steps.
use alsa_utils.Common.{ℕ, Bool, true, false, Option, List}
use alsa_utils.Axfer.Pcm.{
  Access, mmap_interleaved, mmap_noninterleaved, rw_interleaved, rw_noninterleaved,
}
use alsa_utils.Axfer.Os.{Os}
use alsa_utils.Axfer.Context.{Res, State}

-- `enum mapper_type`: a muxer takes frames from containers, a demuxer brings them to containers.
pub data MapperType : Type 0 where
  muxer demuxer : MapperType

-- `enum mapper_target`
pub data MapperTarget : Type 0 where
  single multiple : MapperTarget

-- `struct single_state` of mapper-single.c. Which function `align_frames` is, the type of the mapper
-- says; here is whether it is set.
pub record SingleState : Type 0 where
  pub align : Bool
  pub buf : Option (List ℕ)

-- `struct multiple_state` of mapper-multiple.c. Where an allocation has failed, `bufs` has the
-- buffers in front of it.
pub record MultipleState : Type 0 where
  pub align : Bool
  pub bufs : Option (List (List ℕ))
  pub cntr_count : ℕ

-- What `private_data` points to.
pub data Private : Type 0 where
  null : Private
  single_state : SingleState → Private
  multiple_state : MultipleState → Private

-- `struct mapper_context`. `ops` is determined by `type` and `target`.
pub record MapperContext : Type 0 where
  pub type : MapperType
  pub target : MapperTarget
  pub private_data : Private
  pub cntr_count : ℕ
  pub access : Access
  pub bytes_per_sample : ℕ
  pub samples_per_frame : ℕ
  pub frames_per_buffer : ℕ
  pub verbose : ℕ

abbrev pub zero_mapper : MapperContext
zero_mapper = record {
  type = muxer;
  target = single;
  private_data = null;
  cntr_count = 0;
  access = mmap_interleaved;
  bytes_per_sample = 0;
  samples_per_frame = 0;
  frames_per_buffer = 0;
  verbose = 0;
}

abbrev pub is_null : Private → Bool
is_null null = true
is_null p = false

abbrev pub is_multiple : MapperTarget → Bool
is_multiple multiple = true
is_multiple single = false

abbrev pub is_demuxer : MapperType → Bool
is_demuxer demuxer = true
is_demuxer muxer = false

abbrev pub is_interleaved : Access → Bool
is_interleaved rw_interleaved = true
is_interleaved mmap_interleaved = true
is_interleaved a = false

abbrev pub is_noninterleaved : Access → Bool
is_noninterleaved rw_noninterleaved = true
is_noninterleaved mmap_noninterleaved = true
is_noninterleaved a = false

-- What a `void *frame_buf` points to: interleaved frames, or a pointer for each channel.
pub data FrameBuffer : Type 0 where
  frames : List ℕ → FrameBuffer
  vector : List (List ℕ) → FrameBuffer

module _ ⦃os : Os⦄ where
  -- A mapper, and its containers, each with what the kernel knows of its descriptor.
  abbrev pub MapperState : Type 0
  MapperState = MapperContext × List State

  abbrev pub Step : Type 0 → Type 0
  Step A = MapperState → Res A × MapperState
