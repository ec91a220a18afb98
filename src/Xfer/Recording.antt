-- ===== src/Xfer/Recording.antt =====
-- Captured frames reach a file in their order: what read_frames leaves in the file and in the cache.
use alsa_utils.Common.{
  ℕ, ◌+◌, ◌*◌, ◌≤◌, ◌≡◌, sym, ◌∙◌, ap, true, Bool-cases, inl, inr, List, [], ◌∷◌, ◌++◌,
  append_assoc, append-nil, length, take, splice, length-take, take-append_add, length-splice, All,
  ltb, arith,
}
use alsa_utils.Common.Words.{u32, sub_u32}
use mathlib.Core.Path.{subst}
use native.Mathlib.Nat.{mul-add}
use alsa_utils.Axfer.Pcm.{Pcm}
use alsa_utils.Axfer.Os.{Os}
use alsa_utils.Axfer.Os.Laws.{WriteLaws}
use alsa_utils.Axfer.Context.{ok, err}
use alsa_utils.Axfer.FrameCache.{unit_size, frame_cache_increase_count}
use alsa_utils.Axfer.FrameCache.Queue.{HasRoom, mul_le}
use alsa_utils.Xfer.{
  store_all, Transfer, Outcome, give_to_mapper, least, after_pcm_read, read_frames,
}
use alsa_utils.Xfer.Alsa.{Device, ReadFrames, got, read_error}
use alsa_utils.Xfer.Capture.{Filled, Ready, give_lem}

module _ ⦃os : Os⦄ ⦃device : Device⦄ (pcm : Pcm) (fuel : ℕ) (file : WriteLaws)
    (taken : device.World → List ℕ) where
  open device use {read}
  open file use {contents}

  -- The pointer of the cache stands behind its frames.
  abbrev pub Capturing : List ℕ → Transfer → Type 0
  Capturing before s =
      (f : Filled pcm fuel file taken before s) × (f.pointer
        ≡ unit_size s.cache * s.cache.remained_count)

  -- What a call for `n` frames reads.
  abbrev pub Fetched : ℕ → ℕ → device.World → ReadFrames × device.World → Type 0
  Fetched size n w (read_error e, w') = taken w' ≡ taken w
  Fetched size n w (got k (xs ∷ []), w') =
      (k ≤ n) × (length xs ≡ size * k) × (taken w' ≡ taken w ++ xs)
  Fetched size n w (got k xss, w') = ⊥

  abbrev stored : Transfer → ℕ → List ℕ → device.World → Transfer
  stored s n xs w = record s {
    cache =
        frame_cache_increase_count (record s.cache { bufs = store_all (xs ∷ []) s.cache.bufs }) n;
    world = w;
  }

  stored-Filled :
      (before : List ℕ) (s : Transfer) (f : Filled pcm fuel file taken before s) (n : ℕ)
      (xs : List ℕ) (w : device.World)
      → f.pointer ≡ unit_size s.cache * s.cache.remained_count
      → s.cache.remained_count + n ≤ s.cache.frames_per_cache
      → length xs ≡ unit_size s.cache * n
      → taken w ≡ taken s.world ++ xs
      → (g : Filled pcm fuel file taken before (stored s n xs w)) × (Ready pcm fuel file taken s
            f.container f.kernel
          → Ready pcm fuel file taken (stored s n xs w) g.container g.kernel)
  unfolding frame_cache_increase_count store_all
  stored-Filled before s f n xs w behind room size t = (
    record {
      buffer = splice f.buffer f.pointer xs;
      pointer = f.pointer;
      mapper = f.mapper;
      container = f.container;
      kernel = f.kernel;
      cached = record {
        counted = omega (arith, room, f.cached.few);
        few = f.cached.few;
        fits = f.cached.fits;
        buffers =
            subst (All (HasRoom (u * s.cache.frames_per_cache))) (sym one)
              (length-splice f.buffer f.pointer xs inside ∙ whole, tt);
      };
      interleaved = f.interleaved;
      held = one;
      mapped = f.mapped;
      type = f.type;
      target = f.target;
      plain = f.plain;
      sized = f.sized;
      kind = f.kind;
      frame_size = f.frame_size;
      positive = f.positive;
      narrow = f.narrow;
      at_end = f.at_end;
      order =
          ap (λ ys. contents f.kernel ++ ys) front
          ∙ sym (append_assoc (contents f.kernel) _ xs)
          ∙ ap (λ ys. ys ++ xs) f.order
          ∙ append_assoc before (taken s.world) xs
          ∙ ap (λ ys. before ++ ys) (sym t);
    },
    λ r. record {
      goes_on = r.goes_on;
      quiet = r.quiet;
      room = r.room;
      limit = r.limit;
      enough = r.enough;
    },
  )
    where
      u : ℕ
      u = unit_size s.cache

      one : store_all (xs ∷ []) s.cache.bufs ≡ (splice f.buffer f.pointer xs, f.pointer) ∷ []
      one = ap (store_all (xs ∷ [])) f.held

      whole : length f.buffer ≡ u * s.cache.frames_per_cache
      whole = (subst (All (HasRoom (u * s.cache.frames_per_cache))) f.held f.cached.buffers).0

      sum : u * (s.cache.remained_count + n) ≡ u * s.cache.remained_count + u * n
      sum = mul-add u s.cache.remained_count n

      inside : f.pointer + length xs ≤ length f.buffer
      inside = omega (
        arith,
        behind,
        size,
        whole,
        mul_le u (s.cache.remained_count + n) s.cache.frames_per_cache room,
        sum,
      )

      count : u32 (s.cache.remained_count + n) ≡ s.cache.remained_count + n
      count = omega (arith, room, f.cached.few)

      front :
          take (u * u32 (s.cache.remained_count + n)) (splice f.buffer f.pointer xs)
          ≡ take (u * s.cache.remained_count) f.buffer ++ xs
      front =
          take-append_add (take f.pointer f.buffer) _ (u * u32 (s.cache.remained_count + n))
            (length xs)
            (ap (λ c. u * c) count
              ∙ omega (arith, sum, size, behind, inside, length-take f.pointer f.buffer))
          ∙ ap (λ ys. take f.pointer f.buffer ++ ys)
              (take-append_add xs _ (length xs) 0 (omega arith) ∙ append-nil xs)
          ∙ ap (λ c. take c f.buffer ++ xs) behind

  -- How a call for `frame_count` frames ends.
  abbrev pub Kept : List ℕ → ℕ → Outcome → Type 0
  Kept before frame_count (ok n, t) = (n ≤ frame_count) × Capturing before t
  Kept before frame_count (err e, t) = Capturing before t
  Kept before frame_count (r, t) = ⊥

  give-Kept :
      (before : List ℕ) (frame_count n : ℕ) (s : Transfer) (f : Filled pcm fuel file taken before s)
      → Ready pcm fuel file taken s f.container f.kernel
      → n ≤ s.cache.remained_count
      → n ≤ frame_count
      → Kept before frame_count (give_to_mapper pcm fuel n s)
  give-Kept before frame_count n s f ready few most =
      let (t, e, g, left) = give_lem pcm fuel file taken before s n f ready few in
      subst (Kept before frame_count) (sym e) (most, g)

  -- With a demuxer that passes interleaved frames on to one builder that can take a full buffer, and
  -- no more frames available than the cache has room for, a call of read_frames ends without undefined
  -- behaviour, reports no more frames than were wanted, and keeps that the file, followed by the
  -- frames of the cache, is `before`, followed by what was read from the PCM, even if the PCM fails.
  pub read_frames_lem :
      (before : List ℕ) (frame_count avail_count : ℕ) (s : Transfer) (c : Capturing before s)
      → Ready pcm fuel file taken s (c.0.container) (c.0.kernel)
      → avail_count ≤ s.cache.frames_per_cache
      → ((n : ℕ) (w : device.World) → Fetched (unit_size s.cache) n w (read s.cache.access n w))
      → Kept before frame_count (read_frames pcm fuel frame_count avail_count s)
  unfolding read_frames frame_cache_increase_count
  read_frames_lem before frame_count avail_count s (f, behind) ready small law =
      elim (Bool-cases (ltb s.cache.remained_count n)) [
        | inl e ↦ rw e (
            after (sub_u32 n s.cache.remained_count) (read s.cache.access _ s.world) (law _ s.world)
              (gap e))
        | inr e ↦ rw e (give-Kept before frame_count n s f ready (ground arith) most)
      ]
    where
      n : ℕ
      n = least frame_count avail_count

      most : n ≤ frame_count
      most = ground arith

      few : n ≤ s.cache.frames_per_cache
      few = ground arith

      gap :
          ltb s.cache.remained_count n ≡ true
          → s.cache.remained_count + sub_u32 n s.cache.remained_count ≤ n
      gap e = ground (arith, few, f.cached.few)

      after :
          (m : ℕ) (r : ReadFrames × device.World)
          → Fetched (unit_size s.cache) m s.world r
          → s.cache.remained_count + m ≤ n
          → Kept before frame_count (after_pcm_read pcm fuel s r)
      after m (read_error e, w) h room = (
        record {
          buffer = f.buffer;
          pointer = f.pointer;
          mapper = f.mapper;
          container = f.container;
          kernel = f.kernel;
          cached = f.cached;
          interleaved = f.interleaved;
          held = f.held;
          mapped = f.mapped;
          type = f.type;
          target = f.target;
          plain = f.plain;
          sized = f.sized;
          kind = f.kind;
          frame_size = f.frame_size;
          positive = f.positive;
          narrow = f.narrow;
          at_end = f.at_end;
          order = f.order ∙ ap (λ xs. before ++ xs) (sym h);
        },
        behind,
      )
      after m (got k [], w) h room = absurd h
      after m (got k (xs ∷ ys ∷ xss), w) h room = absurd h
      after m (got k (xs ∷ []), w) (j, l, t) room =
          let (g, still) =
            stored-Filled before s f k xs w behind (omega (arith, j, room, few)) l t in
          give-Kept before frame_count (u32 (s.cache.remained_count + k)) (stored s k xs w) g
            (still ready) (omega arith) (omega (arith, j, room, most, f.cached.few, few))
