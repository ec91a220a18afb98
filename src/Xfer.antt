-- ===== src/Xfer.antt =====
-- axfer/xfer-libasound-irq-rw.c without `nonblock`, axfer/xfer-libasound.c and axfer/subcmd-transfer.c: the
-- transfer between a PCM, a cache of frames, a mapper and its containers.
pub mod Alsa
pub mod Command
pub mod Xrun
pub mod Capture
pub mod Recording
mod Tests
use alsa_utils.Common.{
  ℕ, zero, suc, ◌+◌, Bool, true, false, not, ◌&&◌, ◌||◌, Option, none, some, List, [], ◌∷◌, ◌++◌,
  map, length, take, drop, splice, ltb, leb, ◌==◌, if◌then◌else◌,
}
use alsa_utils.Common.Words.{u32, u64, sub_u32, sub_u64}
use alsa_utils.Axfer.Pcm.{Access, rw_interleaved, Pcm}
use alsa_utils.Axfer.Os.{Os, Errno, eintr, eagain, other}
use alsa_utils.Axfer.Context.{Res, ok, err, abort, fault, stuck, State}
use alsa_utils.Axfer.FrameCache.{
  Buffer, FrameCache, frame_cache_reduce, frame_cache_increase_count, frame_cache_get_count,
}
use alsa_utils.Mapper.State.{MapperContext, FrameBuffer, frames, vector, MapperState}
use alsa_utils.Mapper.{mapper_context_process_frames}
use alsa_utils.Xfer.Alsa.{
  PcmStatus, running, prepared, other_status, Count, count, failed, ReadFrames, read_error, got,
  Device,
}

abbrev pub epipe : Errno
epipe = other 32

abbrev pub is_epipe : Errno → Bool
is_epipe (other n) = n == 32
is_epipe e = false

-- -EAGAIN and -EINTR, after which the transfer goes on.
abbrev pub goes_on : Errno → Bool
goes_on eagain = true
goes_on eintr = true
goes_on e = false

-- What was read, at the pointer of each buffer.
pub store_all : List (List ℕ) → List Buffer → List Buffer
store_all (xs ∷ xss) ((buf, ptr) ∷ bufs) = (splice buf ptr xs, ptr) ∷ store_all xss bufs
store_all xss bufs = bufs

-- `cache.buf`: the buffers from their starts; `cache.buf_ptr`: from their pointers.
abbrev pub first_of : List (List ℕ) → List ℕ
first_of [] = []
first_of (b ∷ bs) = b

abbrev pub shaped : Access → List (List ℕ) → FrameBuffer
shaped rw_interleaved bufs = frames (first_of bufs)
shaped access bufs = vector bufs

abbrev pub buf_of : FrameCache → FrameBuffer
buf_of c = shaped c.access (map (λ b. b.0) c.bufs)

abbrev pub buf_ptr_of : FrameCache → FrameBuffer
buf_ptr_of c = shaped c.access (map (λ b. drop (b.1) (b.0)) c.bufs)

-- The buffers after a mapper has stored frames behind their pointers.
pub put_behind : List (List ℕ) → List Buffer → List Buffer
put_behind (xs ∷ xss) ((buf, ptr) ∷ bufs) = (take ptr buf ++ xs, ptr) ∷ put_behind xss bufs
put_behind xss bufs = bufs

abbrev pub parts : FrameBuffer → List (List ℕ)
parts (frames b) = b ∷ []
parts (vector bs) = bs

module _ ⦃os : Os⦄ ⦃device : Device⦄ where
  open device use {
    World, status, avail, avail_min, start_threshold, period_size, read, write, prepare,
    interrupted,
  }

  -- The cache of `struct rw_closure`, the mapper with its containers, and the PCM.
  pub record Transfer : Type 0 where
    pub cache : FrameCache
    pub mapper : MapperState
    pub world : World

  abbrev pub Outcome : Type 0
  Outcome = Res ℕ × Transfer

  abbrev pub reduced : Transfer → ℕ → Option FrameCache → Outcome
  reduced s n none = (fault, s)
  reduced s n (some c) = (ok n, record s { cache = c })

  -- After the frames went to the mapper.
  abbrev pub consumed : Transfer → Res (FrameBuffer × ℕ) × MapperState → Outcome
  consumed s (ok (buf, n), m) = reduced (record s { mapper = m }) n (frame_cache_reduce s.cache n)
  consumed s (err e, m) = (err e, record s { mapper = m })
  consumed s (abort, m) = (abort, record s { mapper = m })
  consumed s (fault, m) = (fault, record s { mapper = m })
  consumed s (stuck, m) = (stuck, record s { mapper = m })

  abbrev pub least : ℕ → ℕ → ℕ
  least frame_count avail_count = if ltb frame_count avail_count then frame_count else avail_count

  abbrev pub after_pcm_write : Transfer → Count × World → Outcome
  after_pcm_write s (failed e, w) = (err e, record s { world = w })
  after_pcm_write s (count n, w) =
      reduced (record s { world = w }) (u32 n) (frame_cache_reduce s.cache (u32 n))

  pub give_to_pcm : ℕ → Transfer → Outcome
  give_to_pcm n s = after_pcm_write s (write s.cache.access (parts (buf_of s.cache)) n s.world)

  abbrev pub after_mapper_read : Transfer → Res (FrameBuffer × ℕ) × MapperState → Outcome
  after_mapper_read s (ok (buf, n), m) =
      let c =
        frame_cache_increase_count (record s.cache { bufs = put_behind (parts buf) s.cache.bufs })
          n in
      give_to_pcm (frame_cache_get_count c) (record s { cache = c; mapper = m })
  after_mapper_read s (err e, m) = (err e, record s { mapper = m })
  after_mapper_read s (abort, m) = (abort, record s { mapper = m })
  after_mapper_read s (fault, m) = (fault, record s { mapper = m })
  after_mapper_read s (stuck, m) = (stuck, record s { mapper = m })

  -- A number that alsa-lib answers, or its error.
  abbrev pub with_count : Transfer → Count × World → (ℕ → Transfer → Outcome) → Outcome
  with_count s (failed e, w) next = (err e, record s { world = w })
  with_count s (count n, w) next = next n (record s { world = w })

  abbrev pub is_running : PcmStatus → Bool
  is_running running = true
  is_running st = false

  -- What a call returns, with `*frame_count` behind it, which is 0 after an error.
  abbrev pub Returned : Type 0
  Returned = Res (Unit {0}) × ℕ × Transfer

  abbrev pub returned : Outcome → Returned
  returned (ok n, s) = (ok tt, n, s)
  returned (err e, s) = (err e, 0, s)
  returned (abort, s) = (abort, 0, s)
  returned (fault, s) = (fault, 0, s)
  returned (stuck, s) = (stuck, 0, s)

  abbrev pub recovered : ℕ → Transfer → Option Errno × World → Returned
  recovered n s (none, w) = (ok tt, n, record s { world = w })
  recovered n s (some e, w) = (err e, n, record s { world = w })

  abbrev pub after_transfer : Bool → Returned → Returned
  after_transfer finish_at_xrun (err e, n, s) =
      if is_epipe e && not finish_at_xrun then (recovered n s (prepare s.world)) else (err e, n, s)
  after_transfer finish_at_xrun (r, n, s) = (r, n, s)

  module _ (pcm : Pcm) (fuel : ℕ) where
    -- A mapper that takes frames does not change the buffer.
    pub give_to_mapper : ℕ → Transfer → Outcome
    give_to_mapper avail_count s =
        consumed s (mapper_context_process_frames pcm fuel (buf_of s.cache) avail_count s.mapper)

    abbrev pub after_pcm_read : Transfer → ReadFrames × World → Outcome
    after_pcm_read s (read_error e, w) = (err e, record s { world = w })
    after_pcm_read s (got n xss, w) =
        let c =
          frame_cache_increase_count (record s.cache { bufs = store_all xss s.cache.bufs }) n in
        give_to_mapper (frame_cache_get_count c) (record s { cache = c; world = w })

    -- The answer has the number of frames for `*frame_count`.
    pub read_frames : ℕ → ℕ → Transfer → Outcome
    read_frames frame_count avail_count s =
        let n = least frame_count avail_count in
        let cached = frame_cache_get_count s.cache in
        if ltb cached n
        then (after_pcm_read s (read s.cache.access (sub_u32 n cached) s.world))
        else (give_to_mapper n s)

    pub write_frames : ℕ → ℕ → Transfer → Outcome
    write_frames frame_count avail_count s =
        let n = least frame_count avail_count in
        let cached = frame_cache_get_count s.cache in
        if ltb cached n
        then (after_mapper_read s (
            mapper_context_process_frames pcm fuel (buf_ptr_of s.cache) (sub_u32 n cached)
              s.mapper))
        else (give_to_pcm n s)

    pub r_process_frames_blocking : PcmStatus → ℕ → Transfer → Outcome
    r_process_frames_blocking st frame_count s =
        if is_running st
        then (with_count s (avail s.world) (λ n t.
            if n == 0
            then (with_count t (avail_min, t.world) (λ m u. read_frames frame_count (u32 m) u))
            else (read_frames frame_count (u32 n) t)))
        else (with_count s (start_threshold, s.world) (λ n t. read_frames frame_count (u32 n) t))

    pub w_process_frames_blocking : PcmStatus → ℕ → Transfer → Outcome
    w_process_frames_blocking st frame_count s =
        if is_running st
        then (with_count s (avail s.world) (λ n t.
            if u32 n == 0
            then (with_count t (avail_min, t.world) (λ m u. write_frames frame_count (u32 m) u))
            else (write_frames frame_count (u32 n) t)))
        else (with_count s (start_threshold, s.world)
            (λ a t.
              with_count t (period_size, t.world)
                (λ b u. write_frames frame_count (u32 (if ltb b a then a else b)) u)))

    -- `closure->process_frames` of a capture and a playback.
    abbrev pub process_frames : Bool → PcmStatus → ℕ → Transfer → Outcome
    process_frames true st frame_count s = r_process_frames_blocking st frame_count s
    process_frames false st frame_count s = w_process_frames_blocking st frame_count s

    abbrev pub in_status : Bool → ℕ → Transfer → PcmStatus → Returned
    in_status is_capture frame_count s running =
        returned (process_frames is_capture running frame_count s)
    in_status is_capture frame_count s prepared =
        returned (process_frames is_capture prepared frame_count s)
    in_status is_capture frame_count s other_status = (err epipe, frame_count, s)

    pub irq_rw_process_frames : Bool → ℕ → Transfer → Returned
    irq_rw_process_frames is_capture frame_count s =
        in_status is_capture frame_count s (status s.world)

    -- `state->handle` is there.
    pub xfer_libasound_process_frames : Bool → Bool → ℕ → Transfer → Returned
    xfer_libasound_process_frames is_capture finish_at_xrun frame_count s =
        after_transfer finish_at_xrun (irq_rw_process_frames is_capture frame_count s)
