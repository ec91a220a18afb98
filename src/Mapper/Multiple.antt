-- ===== src/Mapper/Multiple.antt =====
-- axfer/mapper-multiple.c: one container for each channel.
use alsa_utils.Common.{
  ℕ, ◌+◌, ◌*◌, Bool, true, false, not, ◌&&◌, Option, none, some, List, [], ◌∷◌, map, replicate, ltb,
  ◌==◌, if◌then◌else◌,
}
use alsa_utils.Common.Words.{u32}
use alsa_utils.Axfer.Pcm.{Pcm}
use alsa_utils.Axfer.Os.{Os, einval, enomem}
use alsa_utils.Axfer.Context.{Res, ok, err, abort, fault, stuck, State}
use alsa_utils.Container.Transfer.{container_context_process_frames}
use alsa_utils.Mapper.Align.{align_to_i, align_from_i}
use alsa_utils.Mapper.State.{
  Private, multiple_state, MultipleState, MapperContext, FrameBuffer, frames, vector, MapperState,
  Step, is_interleaved, is_noninterleaved, is_demuxer,
}

abbrev pub multiple_of : Private → MultipleState
multiple_of (multiple_state st) = st
multiple_of p = record { align = false; bufs = none; cntr_count = 0 }

abbrev pub with_multiple : MapperContext → MultipleState → MapperContext
with_multiple m st = record m { private_data = multiple_state st }

-- Whether the buffers were all allocated, and those that were.
pub allocate_buffers : (ℕ → Bool) → ℕ → List ℕ → Bool × List (List ℕ)
allocate_buffers fails i [] = (true, [])
allocate_buffers fails i (size ∷ sizes) =
    let (all, bufs) = allocate_buffers fails (i + 1) sizes in
    if fails i then (false, []) else (all, replicate size 0 ∷ bufs)

module _ ⦃os : Os⦄ where
  pub same_sample_size : ℕ → List State → Bool
  same_sample_size n [] = true
  same_sample_size n ((c, w) ∷ cntrs) = n == c.bytes_per_sample && same_sample_size n cntrs

  pub one_sample_each : List State → Bool
  one_sample_each [] = true
  one_sample_each ((c, w) ∷ cntrs) = c.samples_per_frame == 1 && one_sample_each cntrs

  -- `samples_per_frame` of each container.
  unfoldable pub widths : List State → List ℕ
  widths [] = []
  widths ((c, w) ∷ cntrs) = c.samples_per_frame ∷ widths cntrs

  -- `mapper->bytes_per_sample * cntr->samples_per_frame * mapper->frames_per_buffer`
  abbrev pub buffer_sizes : MapperContext → List State → List ℕ
  buffer_sizes m cntrs =
      map (λ w. u32 (u32 (m.bytes_per_sample * w) * m.frames_per_buffer)) (widths cntrs)

  abbrev pub allocated :
      MapperContext → MultipleState → Bool × List (List ℕ) → Res (Unit {0}) × MapperContext
  allocated m st (true, bufs) = (ok tt, with_multiple m (record st { bufs = some bufs }))
  allocated m st (false, bufs) = (err enomem, with_multiple m (record st { bufs = some bufs }))

  -- The part for an access whose frames are aligned; the first call is that of calloc.
  pub multiple_allocate :
      (ℕ → Bool) → MapperContext → MultipleState → List State → Res (Unit {0}) × MapperContext
  multiple_allocate fails m st cntrs =
      if is_demuxer m.type && not (one_sample_each cntrs)
      then (err einval, with_multiple m st)
      else if fails 0
      then (err enomem, with_multiple m (record st { bufs = none }))
      else (allocated m st (allocate_buffers fails 1 (buffer_sizes m cntrs)))

  pub multiple_align :
      (ℕ → Bool) → MapperContext → MultipleState → List State → Res (Unit {0}) × MapperContext
  multiple_align fails m st cntrs =
      if is_interleaved m.access
      then (multiple_allocate fails m (record st { align = true }) cntrs)
      else if is_noninterleaved m.access
      then (ok tt, with_multiple m (record st { align = false }))
      else (err einval, with_multiple m st)

  pub multiple_pre_process : (ℕ → Bool) → Step (Unit {0})
  multiple_pre_process fails (m, cntrs) =
      if same_sample_size m.bytes_per_sample cntrs
      then (let st = record (multiple_of m.private_data) { cntr_count = m.cntr_count } in
          let (r, m') = multiple_align fails m st cntrs in (r, (m', cntrs)))
      else (err einval, (m, cntrs))

  module _ (pcm : Pcm) (fuel : ℕ) where
    -- The other containers after one, with its buffer in front.
    unfoldable pub others_after :
        List ℕ → State → Res (List (List ℕ) × ℕ) × List State → Res (List (List ℕ) × ℕ) × List State
    others_after buf s (ok (bufs, n), cntrs) = (ok (buf ∷ bufs, n), s ∷ cntrs)
    others_after buf s (err e, cntrs) = (err e, s ∷ cntrs)
    others_after buf s (abort, cntrs) = (abort, s ∷ cntrs)
    others_after buf s (fault, cntrs) = (fault, s ∷ cntrs)
    others_after buf s (stuck, cntrs) = (stuck, s ∷ cntrs)

    unfoldable pub one_after :
        (ℕ → Res (List (List ℕ) × ℕ) × List State)
        → List State
        → Res (List ℕ × ℕ) × State
        → Res (List (List ℕ) × ℕ) × List State
    one_after rest cntrs (ok (buf, n), s) = others_after buf s (rest n)
    one_after rest cntrs (err e, s) = (err e, s ∷ cntrs)
    one_after rest cntrs (abort, s) = (abort, s ∷ cntrs)
    one_after rest cntrs (fault, s) = (fault, s ∷ cntrs)
    one_after rest cntrs (stuck, s) = (stuck, s ∷ cntrs)

    -- The number of frames that a container answers is that which the next one is asked for.
    unfoldable pub process_containers :
        List (List ℕ) → ℕ → List State → Res (List (List ℕ) × ℕ) × List State
    process_containers bufs n [] = (ok (bufs, n), [])
    process_containers [] n (s ∷ cntrs) = (fault, s ∷ cntrs)
    process_containers (buf ∷ bufs) n (s ∷ cntrs) =
        one_after (λ n'. process_containers bufs n' cntrs) cntrs
          (container_context_process_frames pcm fuel buf n s)

    -- The call of `process_containers`, and what follows.
    unfoldable pub transfer_multiple :
        MapperContext
        → Res (List (List ℕ) × ℕ) × List State
        → (List (List ℕ) → ℕ → List State → Res (FrameBuffer × ℕ) × MapperContext)
        → Res (FrameBuffer × ℕ) × MapperState
    transfer_multiple m (ok (bufs, n), cntrs) next =
        let (r, m') = next bufs n cntrs in (r, (m', cntrs))
    transfer_multiple m (err e, cntrs) next = (err e, (m, cntrs))
    transfer_multiple m (abort, cntrs) next = (abort, (m, cntrs))
    transfer_multiple m (fault, cntrs) next = (fault, (m, cntrs))
    transfer_multiple m (stuck, cntrs) next = (stuck, (m, cntrs))

    abbrev pub to_frames :
        MapperContext → ℕ → Option (List ℕ) → Res (FrameBuffer × ℕ) × MapperContext
    to_frames m n none = (fault, m)
    to_frames m n (some b) = (ok (frames b, n), m)

    -- The frames that a muxer has read to its own buffers, `srcs`.
    pub multiple_after_read :
        MapperContext
        → List ℕ
        → List (List ℕ)
        → ℕ
        → List State
        → Res (FrameBuffer × ℕ) × MapperContext
    multiple_after_read m b srcs n cntrs =
        let m' = with_multiple m (record (multiple_of m.private_data) { bufs = some srcs }) in
        if ltb 0 n
        then (to_frames m' n (align_to_i b n srcs m.bytes_per_sample (widths cntrs) m.cntr_count))
        else (ok (frames b, n), m')

    -- A buffer of the other kind, and missing ones, are undefined.
    pub multiple_muxer_process_frames : FrameBuffer → ℕ → Step (FrameBuffer × ℕ)
    multiple_muxer_process_frames (vector bufs) n (m, cntrs) =
        if (multiple_of m.private_data).align
        then (fault, (m, cntrs))
        else (transfer_multiple m (process_containers bufs n cntrs)
            (λ bufs' n' cntrs'. (ok (vector bufs', n'), m)))
    multiple_muxer_process_frames (frames b) n (m, cntrs) =
        if (multiple_of m.private_data).align
        then (elim ((multiple_of m.private_data).bufs) [
          | none ↦ (fault, (m, cntrs))
          | some srcs ↦
              transfer_multiple m (process_containers srcs n cntrs) (multiple_after_read m b)
        ])
        else (fault, (m, cntrs))

    -- The frames of a demuxer, which are deinterleaved to `dsts` before they are written.
    unfoldable pub multiple_write :
        MapperContext
        → List State
        → List ℕ
        → ℕ
        → Option (List (List ℕ))
        → Res (FrameBuffer × ℕ) × MapperState
    multiple_write m cntrs b n none = (fault, (m, cntrs))
    multiple_write m cntrs b n (some dsts) =
        let m' = with_multiple m (record (multiple_of m.private_data) { bufs = some dsts }) in
        transfer_multiple m' (process_containers dsts n cntrs)
          (λ bufs' n' cntrs'. (ok (frames b, n'), m'))

    unfoldable pub multiple_demuxer_process_frames : FrameBuffer → ℕ → Step (FrameBuffer × ℕ)
    multiple_demuxer_process_frames (vector bufs) n (m, cntrs) =
        if (multiple_of m.private_data).align
        then (fault, (m, cntrs))
        else (transfer_multiple m (process_containers bufs n cntrs)
            (λ bufs' n' cntrs'. (ok (vector bufs', n'), m)))
    multiple_demuxer_process_frames (frames b) n (m, cntrs) =
        if (multiple_of m.private_data).align
        then (elim ((multiple_of m.private_data).bufs) [
          | none ↦ (fault, (m, cntrs))
          | some dsts ↦
              multiple_write m cntrs b n
                (align_from_i b n dsts m.bytes_per_sample (widths cntrs) m.cntr_count)
        ])
        else (fault, (m, cntrs))

abbrev pub multiple_post_process : MultipleState → MultipleState
multiple_post_process st = record { align = false; bufs = none; cntr_count = st.cntr_count }
