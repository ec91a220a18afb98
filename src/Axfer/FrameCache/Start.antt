-- ===== src/Axfer/FrameCache/Start.antt =====
-- How a cache starts.
use alsa_utils.Common.{
  ℕ, zero, suc, ◌+◌, ◌*◌, ◌≤◌, ◌<◌, ◌≡◌, refl, ◌∙◌, ap, Bool, true, false, Option, none, some, List,
  ◌⊎◌, ◌≢◌, inl, inr, All, replicate, arith, Bool-cases, length-replicate,
}
use native.Mathlib.Nat.{mul_comm}
use native.Mathlib.Decide.{dec_lt}
use alsa_utils.Common.Words.{u32}
use alsa_utils.Axfer.Os.{Errno, enomem, einval}
use alsa_utils.Axfer.Pcm.{Access, rw_interleaved, rw_noninterleaved}
use alsa_utils.Axfer.FrameCache.{
  Buffer, FrameCache, calloc_all, unit_size, frame_cache_init, frame_cache_destroy,
}
use alsa_utils.Axfer.FrameCache.Queue.{IsCache, HasRoom}

-- Buffers of zeros, with their pointers at the start.
abbrev pub zeroed : ℕ → ℕ → List Buffer
zeroed n size = replicate n (replicate size 0, 0)

zeroed-HasRoom : (n size : ℕ) → All (HasRoom size) (zeroed n size)
zeroed-HasRoom zero size = tt
zeroed-HasRoom (suc n) size = (length-replicate size 0, zeroed-HasRoom n size)

-- One of some calls of calloc fails, or none.
abbrev pub SomeFails : (ℕ → Bool) → ℕ → ℕ → Type 0
SomeFails fails first n = (i : ℕ) × (first ≤ i) × (i < first + n) × (fails i ≡ true)

abbrev pub NoneFails : (ℕ → Bool) → ℕ → ℕ → Type 0
NoneFails fails first n = (i : ℕ) → first ≤ i → i < first + n → fails i ≡ false

NoneFails-suc :
    (fails : ℕ → Bool) (first n : ℕ)
    → fails first ≡ false
    → NoneFails fails (first + 1) n
    → NoneFails fails first (suc n)
NoneFails-suc fails first n e h i lo hi = elim (dec_lt first i) [
  | yes l ↦ h i (omega arith) (omega arith)
  | no l ↦ ap fails (omega arith) ∙ e
]

calloc_all_lem :
    (fails : ℕ → Bool) (i n size : ℕ)
    → ((calloc_all fails i n size ≡ none) × SomeFails fails i n)
      ⊎ ((calloc_all fails i n size ≡ some (zeroed n size)) × NoneFails fails i n)
unfolding calloc_all
calloc_all_lem fails i zero size = inr (refl, λ j lo hi. absurd (omega arith))
calloc_all_lem fails i (suc n) size = elim (Bool-cases (fails i)) [
  | inl e ↦ inl (rw e refl, (i, omega arith, omega arith, e))
  | inr e ↦ elim (calloc_all_lem fails (i + 1) n size) [
    | inl (e', (j, lo, hi, h)) ↦ inl (rw (e, e') refl, (j, omega arith, omega arith, h))
    | inr (e', h) ↦ inr (rw (e, e') refl, NoneFails-suc fails i n e h)
  ]
]

-- The buffers that an access needs: one, or one for each channel; and the calls of calloc, of which
-- two more are for the pointers.
abbrev pub buffer_count : Access → ℕ → ℕ
buffer_count rw_interleaved n = 1
buffer_count rw_noninterleaved n = n
buffer_count access n = 0

abbrev pub call_count : Access → ℕ → ℕ
call_count rw_interleaved n = 1
call_count rw_noninterleaved n = suc (suc n)
call_count access n = 0

abbrev pub with_parameters : FrameCache → Access → ℕ → ℕ → ℕ → FrameCache
with_parameters c access bytes_per_sample samples_per_frame frames_per_cache = record c {
  access = access;
  remained_count = 0;
  bytes_per_sample = bytes_per_sample;
  samples_per_frame = samples_per_frame;
  frames_per_cache = frames_per_cache;
}

-- With its buffers.
abbrev pub empty_cache : FrameCache → FrameCache
empty_cache c = record c {
  bufs = zeroed (buffer_count c.access c.samples_per_frame) (unit_size c * c.frames_per_cache);
}

-- The three ends of the start of a cache with the parameters of `c`.
abbrev pub Started : (ℕ → Bool) → FrameCache → Option Errno × FrameCache → Type 0
Started fails c (e, cache) =
    ((e ≡ some enomem)
      × (cache ≡ frame_cache_destroy c)
      × SomeFails fails 0 (call_count c.access c.samples_per_frame))
    ⊎ ((e ≡ some einval)
        × (c.access ≢ rw_interleaved)
        × (c.access ≢ rw_noninterleaved)
        × (cache ≡ c))
    ⊎ ((e ≡ none)
        × ((c.access ≡ rw_interleaved) ⊎ (c.access ≡ rw_noninterleaved))
        × NoneFails fails 0 (call_count c.access c.samples_per_frame)
        × (cache ≡ empty_cache c)
        × IsCache cache)

-- For sizes that fit: `frame_cache_init` returns -ENOMEM and leaves the cache destroyed, and then one
-- of the calls of calloc that the access needs fails; or it returns -EINVAL and only stores the
-- parameters, and then the access is neither of the two; or it succeeds, and then none of these calls
-- fails, and the cache is well-formed, has the parameters, no frames, and buffers of zeros, one or one
-- for each channel, with room for all its frames.
pub frame_cache_init_lem :
    (fails : ℕ → Bool) (c : FrameCache) (access : Access)
    (bytes_per_sample samples_per_frame frames_per_cache : ℕ)
    → frames_per_cache < 4294967296
    → bytes_per_sample * samples_per_frame < 4294967296
    → bytes_per_sample * frames_per_cache < 4294967296
    → bytes_per_sample * samples_per_frame * frames_per_cache < 4294967296
    → Started fails
        (with_parameters c access bytes_per_sample samples_per_frame frames_per_cache)
        (frame_cache_init fails c access bytes_per_sample samples_per_frame frames_per_cache)
unfolding frame_cache_init frame_cache_destroy
frame_cache_init_lem fails c rw_interleaved b n f hf hs hn hi =
    elim (calloc_all_lem fails 0 1 (f * u32 (b * n))) [
      | inl (e, h) ↦ inl (rw e (refl, refl, h))
      | inr (e, h) ↦
          rw (e, whole)
            (inr (
              inr (
                refl,
                inl refl,
                h,
                refl,
                record {
                  counted = omega arith;
                  few = hf;
                  fits = hi;
                  buffers = zeroed-HasRoom 1 (b * n * f);
                },
              )))
    ]
  where
    whole : f * u32 (b * n) ≡ b * n * f
    whole = ap (λ x. f * x) (omega arith) ∙ mul_comm f (b * n)
frame_cache_init_lem fails c rw_noninterleaved b n f hf hs hn hi = elim (Bool-cases (fails 0)) [
  | inl e ↦ inl (rw e (refl, refl, (0, omega arith, omega arith, e)))
  | inr e ↦ elim (Bool-cases (fails 1)) [
    | inl e' ↦ inl (rw (e, e') (refl, refl, (1, omega arith, omega arith, e')))
    | inr e' ↦ elim (calloc_all_lem fails 2 n (f * b)) [
      | inl (e'', (j, lo, up, h)) ↦
          inl (rw (e, e', e'') (refl, refl, (j, omega arith, omega arith, h)))
      | inr (e'', h) ↦
          rw (e, e', e'', mul_comm f b)
            (inr (
              inr (
                refl,
                inr refl,
                NoneFails-suc fails 0 (suc n) e (NoneFails-suc fails 1 n e' h),
                refl,
                record {
                  counted = omega arith;
                  few = hf;
                  fits = hn;
                  buffers = zeroed-HasRoom n (b * f);
                },
              )))
    ]
  ]
]
frame_cache_init_lem fails c _ b n f hf hs hn hi = inr (inl (refl, λ e. cc, λ e. cc, refl))
