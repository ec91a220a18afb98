-- ===== src/Axfer/FrameCache.antt =====
-- axfer/frame-cache.c and axfer/frame-cache.h: the frames that a transfer has not consumed yet.
pub mod Queue
pub mod Start
pub mod Single
mod Tests
use alsa_utils.Common.{
  ℕ, zero, suc, ◌+◌, ◌*◌, Bool, true, false, ◌||◌, Option, none, some, List, [], ◌∷◌, ◌++◌, length,
  take, drop, replicate, leb, if◌then◌else◌,
}
use alsa_utils.Common.Words.{u32, sub_u32}
use alsa_utils.Axfer.Pcm.{Access, rw_interleaved, rw_noninterleaved, mmap_interleaved}
use alsa_utils.Axfer.Os.{Errno, einval, enomem}

-- A buffer, and how far its `buf_ptr` is from its start.
abbrev pub Buffer : Type 0
Buffer = List ℕ × ℕ

-- `struct frame_cache`: one buffer for interleaved frames, or one for each channel.
-- `align_frames` is determined by `access`.
pub record FrameCache : Type 0 where
  pub access : Access
  pub remained_count : ℕ
  pub bytes_per_sample : ℕ
  pub samples_per_frame : ℕ
  pub frames_per_cache : ℕ
  pub bufs : List Buffer

-- `memmove(buf, buf + offset, size)`, then `buf_ptr = buf + size`. Out of bounds, `none`.
abbrev pub move_front : ℕ → ℕ → Buffer → Option Buffer
move_front offset size (buf, ptr) =
    if leb (offset + size) (length buf)
    then some (take size (drop offset buf) ++ drop size buf, size)
    else none

abbrev pub cons_moved : Option Buffer → Option (List Buffer) → Option (List Buffer)
cons_moved (some b) (some bs) = some (b ∷ bs)
cons_moved a b = none

pub move_all : ℕ → ℕ → List Buffer → Option (List Buffer)
move_all offset size [] = some []
move_all offset size (b ∷ bs) = cons_moved (move_front offset size b) (move_all offset size bs)

-- The bytes of a frame in one buffer.
abbrev pub unit_size : FrameCache → ℕ
unit_size c = elim (c.access) [
  | rw_interleaved ↦ c.bytes_per_sample * c.samples_per_frame
  | _ ↦ c.bytes_per_sample
]

abbrev pub with_bufs : FrameCache → ℕ → Option (List Buffer) → Option FrameCache
with_bufs c remained none = none
with_bufs c remained (some bs) = some (record c { remained_count = remained; bufs = bs })

-- `align_frames_in_i` and `align_frames_in_n`, which differ in the size of a frame in a buffer.
pub frame_cache_reduce : FrameCache → ℕ → Option FrameCache
frame_cache_reduce c consumed_count =
    let remained = sub_u32 c.remained_count consumed_count in
    with_bufs c remained
      (move_all (u32 (unit_size c * consumed_count)) (u32 (unit_size c * remained)) c.bufs)

unfoldable pub frame_cache_increase_count : FrameCache → ℕ → FrameCache
frame_cache_increase_count c n = record c { remained_count = u32 (c.remained_count + n) }

-- Buffers of zeros, one after the other, until a calloc fails: the call with number `i` does if
-- `fails i`.
pub calloc_all : (ℕ → Bool) → ℕ → ℕ → ℕ → Option (List Buffer)
calloc_all fails i zero size = some []
calloc_all fails i (suc n) size =
    if fails i
    then none
    else cons_moved (some (replicate size 0, 0)) (calloc_all fails (i + 1) n size)

-- `memset(cache, 0, sizeof(*cache))`, where alsa-lib gives the number 0 to the first access.
pub frame_cache_destroy : FrameCache → FrameCache
frame_cache_destroy c = record {
  access = mmap_interleaved;
  remained_count = 0;
  bytes_per_sample = 0;
  samples_per_frame = 0;
  frames_per_cache = 0;
  bufs = [];
}

-- The result with the cache: no error, or the error that is returned as its negative.
abbrev pub finish_init : FrameCache → Option (List Buffer) → Option Errno × FrameCache
finish_init c none = (some enomem, frame_cache_destroy c)
finish_init c (some bs) = (none, record c { bufs = bs })

abbrev pub allocate : (ℕ → Bool) → FrameCache → Option Errno × FrameCache
allocate fails c = elim (c.access) [
  | rw_interleaved ↦
      finish_init c
        (calloc_all fails 0 1 (c.frames_per_cache * u32 (c.bytes_per_sample * c.samples_per_frame)))
  | rw_noninterleaved ↦
      if fails 0 || fails 1
      then (some enomem, frame_cache_destroy c)
      else finish_init c
          (calloc_all fails 2 c.samples_per_frame (c.frames_per_cache * c.bytes_per_sample))
  | _ ↦ (some einval, c)
]

pub frame_cache_init : (ℕ → Bool) → FrameCache → Access → ℕ → ℕ → ℕ → Option Errno × FrameCache
frame_cache_init fails c access bytes_per_sample samples_per_frame frames_per_cache =
    allocate fails (record c {
      access = access;
      remained_count = 0;
      bytes_per_sample = bytes_per_sample;
      samples_per_frame = samples_per_frame;
      frames_per_cache = frames_per_cache;
    })

abbrev pub frame_cache_get_count : FrameCache → ℕ
frame_cache_get_count c = c.remained_count
