-- ===== src/Xfer/Capture.antt =====
-- The way of captured frames through the cache of frames and a mapper to a file.
use alsa_utils.Common.{
  ℕ, ◌+◌, ◌-◌, ◌*◌, ◌≤◌, ◌<◌, ◌≡◌, refl, sym, ◌∙◌, ap, true, false, List, [], ◌∷◌, ◌++◌,
  append_assoc, append-nil, map, length, take, drop, splice, length-append, length-take, take-take,
  take-all, drop-all, take-append-drop, All, leb, arith,
}
use mathlib.Core.Path.{subst}
use native.Mathlib.Nat.{mul_comm}
use alsa_utils.Axfer.Pcm.{rw_interleaved, Pcm}
use alsa_utils.Axfer.Os.{Os}
use alsa_utils.Axfer.Os.Laws.{WriteLaws}
use alsa_utils.Axfer.Context.{Context, builder, ok}
use alsa_utils.Axfer.FrameCache.{unit_size}
use alsa_utils.Axfer.FrameCache.Queue.{
  IsCache, HasRoom, moved, length-moved, take-moved, mul_le, split_size,
}
use alsa_utils.Container.Transfer.Frames.{counted, builder_process_frames}
use alsa_utils.Mapper.State.{MapperContext, demuxer, single, frames}
use alsa_utils.Mapper.Single.{single_of, transfer_single, single_demuxer_process_frames}
use alsa_utils.Mapper.{mapper_context_process_frames, ops_process_frames}
use alsa_utils.Xfer.{first_of, shaped, buf_of, Transfer, consumed, reduced, give_to_mapper}
use alsa_utils.Xfer.Alsa.{Device}
use alsa_utils.Axfer.FrameCache.Single.{reduced_cache, reduce_one}

module _ ⦃os : Os⦄ ⦃device : Device⦄ (pcm : Pcm) (fuel : ℕ) (file : WriteLaws)
    (taken : device.World → List ℕ) where
  open file use {contents, offset, patience}

  -- A demuxer that passes interleaved frames on to one builder, which writes at the end of its file.
  -- The file and the frames in the cache are `before`, followed by what was read from the PCM.
  pub record Filled (before : List ℕ) (s : Transfer) : Type 0 where
    pub buffer : List ℕ
    pub pointer : ℕ
    pub mapper : MapperContext
    pub container : Context
    pub kernel : os.World
    pub cached : IsCache s.cache
    pub interleaved : s.cache.access ≡ rw_interleaved
    pub held : s.cache.bufs ≡ (buffer, pointer) ∷ []
    pub mapped : s.mapper ≡ (mapper, (container, kernel) ∷ [])
    pub type : mapper.type ≡ demuxer
    pub target : mapper.target ≡ single
    pub plain : (single_of mapper.private_data).align ≡ false
    pub sized : mapper.frames_per_buffer ≡ s.cache.frames_per_cache
    pub kind : container.kind ≡ builder
    pub frame_size : container.bytes_per_sample * container.samples_per_frame ≡ unit_size s.cache
    pub positive : 0 < unit_size s.cache
    pub narrow : unit_size s.cache < 4294967296
    pub at_end : offset kernel ≡ length (contents kernel)
    pub order :
        contents kernel ++ take (unit_size s.cache * s.cache.remained_count) buffer
        ≡ before ++ taken s.world

  -- The container can take a full buffer: it is not at its end, not interrupted, has room, and there
  -- is fuel.
  pub record Ready (s : Transfer) (k : Context) (v : os.World) : Type 0 where
    pub goes_on : k.eof ≡ false
    pub quiet : k.interrupted ≡ false
    pub room : k.handled_byte_count + unit_size s.cache * s.cache.frames_per_cache ≤ k.max_size
    pub limit : k.max_size < 18446744073709551616
    pub enough : unit_size s.cache * s.cache.frames_per_cache + patience v < fuel

  demuxed :
      (m : MapperContext) (buf : List ℕ) (n size : ℕ) (k : Context) (v : os.World)
      → m.type ≡ demuxer
      → m.target ≡ single
      → (single_of m.private_data).align ≡ false
      → n ≤ m.frames_per_buffer
      → k.kind ≡ builder
      → k.eof ≡ false
      → k.interrupted ≡ false
      → k.bytes_per_sample * k.samples_per_frame ≡ size
      → 0 < size
      → size < 4294967296
      → n * size < 4294967296
      → n * size ≤ length buf
      → k.handled_byte_count + n * size ≤ k.max_size
      → k.max_size < 18446744073709551616
      → n * size + patience v < fuel
      → (v' : os.World) × (mapper_context_process_frames pcm fuel (frames buf) n (m, (k, v) ∷ [])
          ≡ (ok (frames buf, n), (m, (counted k (n * size), v') ∷ [])))
        × (contents v' ≡ splice (contents v) (offset v) (take (n * size) buf))
        × (offset v' ≡ offset v + n * size)
  unfolding mapper_context_process_frames ops_process_frames single_demuxer_process_frames
      transfer_single
  demuxed m buf n size k v ht hg hp hf hk he hi hs h0 hq hn hb hl hm hfuel =
      let (v', e, p, o) =
        builder_process_frames pcm fuel file buf n size k v hk he hi hs h0 hq hn hb hl hm hfuel in
      (v', rw (within, ht, hg, hp, e) refl, p, o)
    where
      within : leb n m.frames_per_buffer ≡ true
      within = ground arith

  splice-end : (xs ys : List ℕ) (at : ℕ) → at ≡ length xs → splice xs at ys ≡ xs ++ ys
  splice-end xs ys at e =
      rw (take-all at xs (omega arith), drop-all (at + length ys) xs (omega arith), append-nil ys)
        refl

  -- The mapper gets the first `n` frames of the cache.
  pub give_lem :
      (before : List ℕ) (s : Transfer) (n : ℕ) (f : Filled before s)
      → Ready s f.container f.kernel
      → n ≤ s.cache.remained_count
      → (t : Transfer) × (give_to_mapper pcm fuel n s ≡ (ok n, t))
        × ((g : Filled before t) × (g.pointer ≡ unit_size t.cache * t.cache.remained_count))
        × (t.cache.remained_count ≡ s.cache.remained_count - n)
  unfolding give_to_mapper
  give_lem before s n f ready few =
      let (v', e, p, o) =
        demuxed f.mapper f.buffer n u f.container f.kernel f.type f.target f.plain
          (omega (arith, f.sized, f.cached.counted)) f.kind ready.goes_on ready.quiet f.frame_size
          f.positive f.narrow (omega (arith, f.cached, some_bytes, all_bytes))
          (omega (arith, some_bytes, all_bytes, room))
          (omega (arith, ready.room, some_bytes, all_bytes)) ready.limit
          (omega (arith, ready.enough, some_bytes, all_bytes)) in
      (
        record s {
          cache = reduced_cache s.cache n f.buffer;
          mapper = (f.mapper, (counted f.container (n * u), v') ∷ []);
        },
        ap (consumed s) (
              ap (λ b. mapper_context_process_frames pcm fuel b n s.mapper) plain_buffer
              ∙ ap (λ m. mapper_context_process_frames pcm fuel (frames f.buffer) n m) f.mapped
              ∙ e)
            ∙ ap
                (reduced (record s { mapper = (f.mapper, (counted f.container (n * u), v') ∷ []) })
                  n)
                (reduce_one s.cache n f.buffer f.pointer f.cached f.held few),
        (
          record {
            buffer = kept;
            pointer = u * k;
            mapper = f.mapper;
            container = counted f.container (n * u);
            kernel = v';
            cached = record {
              counted = omega (arith, f.cached.counted);
              few = f.cached.few;
              fits = f.cached.fits;
              buffers = (
                length-moved (u * s.cache.frames_per_cache) (u * n) (u * k) fits f.buffer room,
                tt,
              );
            };
            interleaved = f.interleaved;
            held = refl;
            mapped = refl;
            type = f.type;
            target = f.target;
            plain = f.plain;
            sized = f.sized;
            kind = f.kind;
            frame_size = f.frame_size;
            positive = f.positive;
            narrow = f.narrow;
            at_end = omega (
              arith,
              o,
              f.at_end,
              ap length (p ∙ appended),
              length-append (contents f.kernel) (take (n * u) f.buffer),
              length-take (n * u) f.buffer,
              some_bytes,
              all_bytes,
              room,
            );
            order =
                ap (λ xs. xs ++ take (u * k) kept) (p ∙ appended)
                ∙ append_assoc (contents f.kernel) _ _
                ∙ ap (λ xs. contents f.kernel ++ xs) rest
                ∙ f.order;
          },
          refl,
        ),
        refl,
      )
    where
      u : ℕ
      u = unit_size s.cache

      plain_buffer : buf_of s.cache ≡ frames f.buffer
      plain_buffer =
          ap (λ a. shaped a (map (λ b. b.0) s.cache.bufs)) f.interleaved
          ∙ ap (λ b. frames (first_of (map (λ b. b.0) b))) f.held

      k : ℕ
      k = s.cache.remained_count - n

      all_bytes : u * s.cache.remained_count ≤ u * s.cache.frames_per_cache
      all_bytes = mul_le u s.cache.remained_count s.cache.frames_per_cache f.cached.counted

      total : u * n + u * k ≡ u * s.cache.remained_count
      total = split_size u s.cache.remained_count n few

      some_bytes : n * u ≤ u * s.cache.remained_count
      some_bytes = omega (arith, total)

      fits : u * n + u * k ≤ u * s.cache.frames_per_cache
      fits = omega (arith, total, all_bytes)

      kept : List ℕ
      kept = moved (u * s.cache.frames_per_cache) (u * n) (u * k) fits f.buffer

      room : length f.buffer ≡ u * s.cache.frames_per_cache
      room = (subst (All (HasRoom (u * s.cache.frames_per_cache))) f.held f.cached.buffers).0

      appended :
          splice (contents f.kernel) (offset f.kernel) (take (n * u) f.buffer)
          ≡ contents f.kernel ++ take (n * u) f.buffer
      appended = splice-end (contents f.kernel) (take (n * u) f.buffer) (offset f.kernel) f.at_end

      rest : take (n * u) f.buffer ++ take (u * k) kept ≡ take (u * s.cache.remained_count) f.buffer
      rest =
          ap (λ xs. take (n * u) f.buffer ++ xs)
            (take-moved (u * s.cache.frames_per_cache) (u * n) (u * k) fits f.buffer room
              ∙ ap (λ x. drop (u * n) (take x f.buffer)) total)
          ∙ ap (λ xs. xs ++ drop (u * n) (take (u * s.cache.remained_count) f.buffer))
              (ap (λ x. take x f.buffer) (mul_comm n u)
                ∙ sym (
                    take-take (u * n) (u * s.cache.remained_count) f.buffer
                      (omega (arith, some_bytes))))
          ∙ take-append-drop (u * n) (take (u * s.cache.remained_count) f.buffer)
