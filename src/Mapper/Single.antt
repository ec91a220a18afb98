-- ===== src/Mapper/Single.antt =====
-- axfer/mapper-single.c: one container for all channels.
use alsa_utils.Common.{
  ℕ, ◌*◌, Bool, true, false, not, ◌||◌, Option, none, some, List, [], ◌∷◌, replicate, ltb, ◌==◌,
  if◌then◌else◌,
}
use alsa_utils.Common.Words.{u32}
use alsa_utils.Axfer.Pcm.{Pcm}
use alsa_utils.Axfer.Os.{Os, einval, enomem}
use alsa_utils.Axfer.Context.{Res, ok, err, abort, fault, stuck, State}
use alsa_utils.Container.Transfer.{container_context_process_frames}
use alsa_utils.Mapper.Align.{align_to_vector, align_from_vector}
use alsa_utils.Mapper.State.{
  Private, single_state, SingleState, MapperContext, FrameBuffer, frames, vector, MapperState, Step,
  is_interleaved, is_noninterleaved,
}

abbrev pub single_of : Private → SingleState
single_of (single_state st) = st
single_of p = record { align = false; buf = none }

-- `mapper->bytes_per_sample * mapper->samples_per_frame * mapper->frames_per_buffer`
abbrev pub bytes_per_buffer : MapperContext → ℕ
bytes_per_buffer m = u32 (u32 (m.bytes_per_sample * m.samples_per_frame) * m.frames_per_buffer)

abbrev pub with_single : MapperContext → SingleState → MapperContext
with_single m st = record m { private_data = single_state st }

module _ ⦃os : Os⦄ where
  -- The part behind the check of the container: both types of mapper align the same accesses.
  pub single_align : Bool → MapperContext → Res (Unit {0}) × MapperContext
  single_align fails m =
      let st = single_of m.private_data in
      if is_noninterleaved m.access
      then (if fails
          then (err enomem, with_single m (record st { align = true; buf = none }))
          else (
            ok tt,
            with_single m
                (record st { align = true; buf = some (replicate (bytes_per_buffer m) 0) }),
          ))
      else if is_interleaved m.access
      then (ok tt, with_single m (record st { align = false }))
      else (err einval, m)

  pub single_pre_process : Bool → Step (Unit {0})
  single_pre_process fails (m, []) = (fault, (m, []))
  single_pre_process fails (m, (c, w) ∷ cntrs) =
      if not (c.bytes_per_sample == m.bytes_per_sample)
        || not (c.samples_per_frame == m.samples_per_frame)
      then (err einval, (m, (c, w) ∷ cntrs))
      else let (r, m') = single_align fails m in (r, (m', (c, w) ∷ cntrs))

  module _ (pcm : Pcm) (fuel : ℕ) where
    -- The call of `container_context_process_frames` for the first container, and what follows. After
    -- an error, the bytes that were read before it are not kept.
    unfoldable pub transfer_single :
        MapperContext
        → List State
        → Res (List ℕ × ℕ) × State
        → (List ℕ → ℕ → Res (FrameBuffer × ℕ) × MapperContext)
        → Res (FrameBuffer × ℕ) × MapperState
    transfer_single m cntrs (ok (buf, n), s) next = let (r, m') = next buf n in (r, (m', s ∷ cntrs))
    transfer_single m cntrs (err e, s) next = (err e, (m, s ∷ cntrs))
    transfer_single m cntrs (abort, s) next = (abort, (m, s ∷ cntrs))
    transfer_single m cntrs (fault, s) next = (fault, (m, s ∷ cntrs))
    transfer_single m cntrs (stuck, s) next = (stuck, (m, s ∷ cntrs))

    abbrev pub to_vector :
        MapperContext → ℕ → Option (List (List ℕ)) → Res (FrameBuffer × ℕ) × MapperContext
    to_vector m n none = (fault, m)
    to_vector m n (some bufs) = (ok (vector bufs, n), m)

    -- The frames that a muxer has read to its own buffer, `src`.
    pub single_after_read :
        MapperContext → List (List ℕ) → List ℕ → ℕ → Res (FrameBuffer × ℕ) × MapperContext
    single_after_read m bufs src n =
        let m' = with_single m (record (single_of m.private_data) { buf = some src }) in
        if ltb 0 n
        then (to_vector m' n (align_to_vector bufs n src m.bytes_per_sample m.samples_per_frame))
        else (ok (vector bufs, n), m')

    -- A buffer of the other kind, and a missing one, are undefined.
    pub single_muxer_process_frames : FrameBuffer → ℕ → Step (FrameBuffer × ℕ)
    single_muxer_process_frames buf n (m, []) = (fault, (m, []))
    single_muxer_process_frames (frames b) n (m, s ∷ cntrs) =
        if (single_of m.private_data).align
        then (fault, (m, s ∷ cntrs))
        else (transfer_single m cntrs (container_context_process_frames pcm fuel b n s)
            (λ b' n'. (ok (frames b', n'), m)))
    single_muxer_process_frames (vector bufs) n (m, s ∷ cntrs) =
        if (single_of m.private_data).align
        then (elim ((single_of m.private_data).buf) [
          | none ↦ (fault, (m, s ∷ cntrs))
          | some src ↦
              transfer_single m cntrs (container_context_process_frames pcm fuel src n s)
                (single_after_read m bufs)
        ])
        else (fault, (m, s ∷ cntrs))

    -- The frames of a demuxer, which are interleaved to `dst` before they are written.
    pub single_write :
        MapperContext
        → List State
        → State
        → List (List ℕ)
        → ℕ
        → Option (List ℕ)
        → Res (FrameBuffer × ℕ) × MapperState
    single_write m cntrs s bufs n none = (fault, (m, s ∷ cntrs))
    single_write m cntrs s bufs n (some dst) =
        let m' = with_single m (record (single_of m.private_data) { buf = some dst }) in
        transfer_single m' cntrs (container_context_process_frames pcm fuel dst n s)
          (λ b' n'. (ok (vector bufs, n'), m'))

    unfoldable pub single_demuxer_process_frames : FrameBuffer → ℕ → Step (FrameBuffer × ℕ)
    single_demuxer_process_frames buf n (m, []) = (fault, (m, []))
    single_demuxer_process_frames (frames b) n (m, s ∷ cntrs) =
        if (single_of m.private_data).align
        then (fault, (m, s ∷ cntrs))
        else (transfer_single m cntrs (container_context_process_frames pcm fuel b n s)
            (λ b' n'. (ok (frames b', n'), m)))
    single_demuxer_process_frames (vector bufs) n (m, s ∷ cntrs) =
        if (single_of m.private_data).align
        then (elim ((single_of m.private_data).buf) [
          | none ↦ (fault, (m, s ∷ cntrs))
          | some dst ↦
              single_write m cntrs s bufs n
                (align_from_vector bufs n dst m.bytes_per_sample m.samples_per_frame)
        ])
        else (fault, (m, s ∷ cntrs))

abbrev pub single_post_process : SingleState → SingleState
single_post_process st = record { align = false; buf = none }
