-- ===== src/Axfer/FrameCache/Single.antt =====
-- The cache with one buffer, of interleaved frames.
use alsa_utils.Common.{
  ℕ, ◌+◌, ◌-◌, ◌*◌, ◌≤◌, ◌≡◌, refl, true, some, List, [], ◌∷◌, ◌++◌, length, take, drop, All, leb,
  arith,
}
use alsa_utils.Common.Words.{sub_u32}
use mathlib.Core.Path.{subst}
use alsa_utils.Axfer.FrameCache.{FrameCache, move_all, unit_size, frame_cache_reduce}
use alsa_utils.Axfer.FrameCache.Queue.{IsCache, HasRoom, mul_le, split_size, u32_below}

-- The cache of interleaved frames after frames were consumed.
abbrev pub reduced_cache : FrameCache → ℕ → List ℕ → FrameCache
reduced_cache c n buf =
    let u = unit_size c in
    record c {
      remained_count = c.remained_count - n;
      bufs =
          (
            take (u * (c.remained_count - n)) (drop (u * n) buf)
                ++ drop (u * (c.remained_count - n)) buf,
            u * (c.remained_count - n),
          )
          ∷ [];
    }

pub reduce_one :
    (c : FrameCache) (n : ℕ) (buf : List ℕ) (ptr : ℕ)
    → IsCache c
    → c.bufs ≡ (buf, ptr) ∷ []
    → n ≤ c.remained_count
    → frame_cache_reduce c n ≡ some (reduced_cache c n buf)
unfolding frame_cache_reduce move_all
reduce_one c n buf ptr h e l =
    rw
      (
        remaining,
        e,
        u32_below (u * n) (u * c.frames_per_cache) (omega (arith, bound, total)) h.fits,
        u32_below (u * k) (u * c.frames_per_cache) (omega (arith, bound, total)) h.fits,
        in_bounds,
      )
      refl
  where
    u : ℕ
    u = unit_size c

    k : ℕ
    k = c.remained_count - n

    remaining : sub_u32 c.remained_count n ≡ c.remained_count - n
    remaining = omega (arith, h.counted, h.few)

    bound : u * c.remained_count ≤ u * c.frames_per_cache
    bound = mul_le u c.remained_count c.frames_per_cache h.counted

    total : u * n + u * k ≡ u * c.remained_count
    total = split_size u c.remained_count n l

    one : All (HasRoom (u * c.frames_per_cache)) ((buf, ptr) ∷ [])
    one = subst (All (HasRoom (u * c.frames_per_cache))) e h.buffers

    in_bounds : leb (u * n + u * k) (length buf) ≡ true
    in_bounds = ground (arith, bound, total, one.0)
