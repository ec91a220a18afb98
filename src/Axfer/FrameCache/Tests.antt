-- ===== src/Axfer/FrameCache/Tests.antt =====
-- The theorems on the frame cache at concrete inputs.
use alsa_utils.Common.{◌-◌, ◌*◌, ◌≡◌, refl, false, some, [], ◌∷◌, map, All, drop, arith}
use alsa_utils.Axfer.Pcm.{rw_interleaved, rw_noninterleaved}
use alsa_utils.Axfer.FrameCache.{FrameCache, frame_cache_reduce, frame_cache_init}
use alsa_utils.Axfer.FrameCache.Queue.{IsCache, PointsTo, cached, frame_cache_reduce_lem}
use alsa_utils.Axfer.FrameCache.Start.{Started, with_parameters, frame_cache_init_lem}

-- Three stereo frames of 8 bits, with room for four.
abbrev stereo : FrameCache
stereo = record {
  access = rw_noninterleaved;
  remained_count = 3;
  bytes_per_sample = 1;
  samples_per_frame = 2;
  frames_per_cache = 4;
  bufs = (1 ∷ 2 ∷ 3 ∷ 0 ∷ [], 0) ∷ (4 ∷ 5 ∷ 6 ∷ 0 ∷ [], 0) ∷ [];
}

stereo-IsCache : IsCache stereo
stereo-IsCache = record {
  counted = omega arith;
  few = omega arith;
  fits = omega arith;
  buffers = (refl, (refl, tt));
}

frame_cache_reduce_example :
    (c' : FrameCache) × (frame_cache_reduce stereo 2 ≡ some c')
    × IsCache c'
    × (cached c' ≡ map (drop (1 * 2)) (cached stereo))
    × (c'.remained_count ≡ 3 - 2)
    × All (PointsTo (1 * (3 - 2))) c'.bufs
frame_cache_reduce_example = frame_cache_reduce_lem stereo 2 stereo-IsCache (omega arith)

frame_cache_init_example :
    Started
      (λ i. false)
      (with_parameters stereo rw_interleaved 2 2 100)
      (frame_cache_init (λ i. false) stereo rw_interleaved 2 2 100)
frame_cache_init_example =
    frame_cache_init_lem (λ i. false) stereo rw_interleaved 2 2 100 (omega arith) (omega arith)
      (omega arith) (omega arith)
