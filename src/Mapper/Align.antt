-- ===== src/Mapper/Align.antt =====
-- axfer/mapper-single.c and axfer/mapper-multiple.c: the four functions that copy samples between one
-- buffer of interleaved frames and one buffer for each channel. A copy out of bounds is `none`.
pub mod Bytes
pub mod Gather
pub mod Interleave
pub mod RoundTrip
use alsa_utils.Common.{
  ℕ, zero, suc, ◌+◌, ◌*◌, Bool, true, false, ◌&&◌, Option, none, some, List, [], ◌∷◌, length, take,
  drop, leb, if◌then◌else◌, get_or, splice,
}
use alsa_utils.Common.Words.{u32}

-- `memcpy(dst + dst_pos, src + src_pos, n)`
abbrev pub copy_sample : ℕ → List ℕ → ℕ → List ℕ → ℕ → Option (List ℕ)
copy_sample n dst dst_pos src src_pos =
    if leb (dst_pos + n) (length dst) && leb (src_pos + n) (length src)
    then some (splice dst dst_pos (take n (drop src_pos src)))
    else none

abbrev pub or_none {ℓ κ} : {A : Type ℓ} {B : Type κ} → Option A → (A → Option B) → Option B
or_none none f = none
or_none (some a) f = f a

-- The inner loop, from frame `j` on: a position is given for each frame.
pub copy_frames : ℕ → (ℕ → ℕ) → (ℕ → ℕ) → ℕ → ℕ → List ℕ → List ℕ → Option (List ℕ)
copy_frames n dst_pos src_pos zero j dst src = some dst
copy_frames n dst_pos src_pos (suc rounds) j dst src =
    or_none (copy_sample n dst (dst_pos j) src (src_pos j))
      (λ dst'. copy_frames n dst_pos src_pos rounds (j + 1) dst' src)

-- The outer loops from channel `i` on: to a buffer for each channel, and from them. A channel without
-- a buffer is out of bounds.
pub scatter :
    ℕ → (ℕ → ℕ → ℕ) → (ℕ → ℕ → ℕ) → ℕ → ℕ → ℕ → List (List ℕ) → List ℕ → Option (List (List ℕ))
scatter n dst_pos src_pos frame_count zero i dsts src = some dsts
scatter n dst_pos src_pos frame_count (suc count) i [] src = none
scatter n dst_pos src_pos frame_count (suc count) i (dst ∷ dsts) src =
    or_none (copy_frames n (dst_pos i) (src_pos i) frame_count 0 dst src) λ dst'.
      or_none (scatter n dst_pos src_pos frame_count count (i + 1) dsts src)
        λ dsts'. some (dst' ∷ dsts')

pub gather : ℕ → (ℕ → ℕ → ℕ) → (ℕ → ℕ → ℕ) → ℕ → ℕ → ℕ → List ℕ → List (List ℕ) → Option (List ℕ)
gather n dst_pos src_pos frame_count zero i dst srcs = some dst
gather n dst_pos src_pos frame_count (suc count) i dst [] = none
gather n dst_pos src_pos frame_count (suc count) i dst (src ∷ srcs) =
    or_none (copy_frames n (dst_pos i) (src_pos i) frame_count 0 dst src)
      λ dst'. gather n dst_pos src_pos frame_count count (i + 1) dst' srcs

-- Where the sample of channel `i` in frame `j` stands among frames of `channels` samples, and where
-- frame `j` of a buffer of `width` samples a frame begins.
abbrev pub interleaved_pos : ℕ → ℕ → ℕ → ℕ → ℕ
interleaved_pos bytes_per_sample channels i j = u32 (bytes_per_sample * u32 (channels * j + i))

abbrev pub frame_pos : ℕ → ℕ → ℕ
frame_pos bytes_per_sample j = u32 (bytes_per_sample * j)

abbrev pub wide_frame_pos : ℕ → List ℕ → ℕ → ℕ → ℕ
wide_frame_pos bytes_per_sample widths i j = u32 (bytes_per_sample * get_or widths i 0 * j)

-- mapper-single.c: `src` is interleaved, and there is a buffer for each channel.
pub align_to_vector : List (List ℕ) → ℕ → List ℕ → ℕ → ℕ → Option (List (List ℕ))
align_to_vector dst_bufs frame_count src bytes_per_sample samples_per_frame =
    scatter bytes_per_sample (λ i. frame_pos bytes_per_sample)
      (interleaved_pos bytes_per_sample samples_per_frame) frame_count samples_per_frame 0 dst_bufs
      src

pub align_from_vector : List (List ℕ) → ℕ → List ℕ → ℕ → ℕ → Option (List ℕ)
align_from_vector src_bufs frame_count dst bytes_per_sample samples_per_frame =
    gather bytes_per_sample (interleaved_pos bytes_per_sample samples_per_frame)
      (λ i. frame_pos bytes_per_sample) frame_count samples_per_frame 0 dst src_bufs

-- mapper-multiple.c: each container has a buffer, whose frames have `samples_per_frame` of the
-- container, the entry of `widths`.
pub align_to_i : List ℕ → ℕ → List (List ℕ) → ℕ → List ℕ → ℕ → Option (List ℕ)
align_to_i dst frame_count src_bufs bytes_per_sample widths cntr_count =
    gather bytes_per_sample (interleaved_pos bytes_per_sample cntr_count)
      (wide_frame_pos bytes_per_sample widths) frame_count cntr_count 0 dst src_bufs

pub align_from_i : List ℕ → ℕ → List (List ℕ) → ℕ → List ℕ → ℕ → Option (List (List ℕ))
align_from_i src frame_count dst_bufs bytes_per_sample widths cntr_count =
    scatter bytes_per_sample (wide_frame_pos bytes_per_sample widths)
      (interleaved_pos bytes_per_sample cntr_count) frame_count cntr_count 0 dst_bufs src
