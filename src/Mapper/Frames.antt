-- ===== src/Mapper/Frames.antt =====
-- What the demuxers bring to the files of their containers.
use alsa_utils.Common.{
  ℕ, zero, suc, ◌+◌, ◌*◌, ◌≤◌, ◌<◌, ◌≡◌, refl, ◌∙◌, true, false, some, List, [], ◌∷◌, length, take,
  drop, arith, get_or, leb, All,
}
use alsa_utils.Axfer.Pcm.{Pcm}
use alsa_utils.Axfer.Os.{Os}
use alsa_utils.Axfer.Os.Laws.{WriteLaws, splice}
use alsa_utils.Axfer.Context.{builder, ok, State}
use alsa_utils.Container.Transfer.{container_context_process_frames}
use alsa_utils.Container.Transfer.Frames.{counted, builder_process_frames}
use alsa_utils.Mapper.{mapper_context_process_frames, ops_process_frames}
use alsa_utils.Mapper.State.{demuxer, multiple, MapperContext, frames, multiple_state}
use alsa_utils.Mapper.Multiple.{
  widths, process_containers, one_after, others_after, multiple_demuxer_process_frames,
  multiple_write, transfer_multiple,
}
use alsa_utils.Mapper.Align.{align_from_i}
use alsa_utils.Mapper.Align.Interleave.{mul_le, Deinterleaves, align_to_vector_lem}
use alsa_utils.Mapper.Align.RoundTrip.{align_i_vector}

module _ ⦃os : Os⦄ (pcm : Pcm) (fuel : ℕ) (file : WriteLaws) (n f : ℕ) where
  open file use {contents, offset, patience}

  -- A builder of `width` samples a frame that has room for `f` frames more, on a file that is not at
  -- its end, with fuel for them.
  pub record Ready (width : ℕ) (s : State) : Type 0 where
    pub is_builder : s.0.kind ≡ builder
    pub goes_on : s.0.eof ≡ false
    pub quiet : s.0.interrupted ≡ false
    pub sample_size : s.0.bytes_per_sample ≡ n
    pub channels : s.0.samples_per_frame ≡ width
    pub room : s.0.handled_byte_count + f * (n * width) ≤ s.0.max_size
    pub limit : s.0.max_size < 18446744073709551616
    pub enough : f * (n * width) + patience s.1 < fuel

  -- The frames of a buffer are in the file, and counted.
  pub record Wrote (width : ℕ) (buf : List ℕ) (s s' : State) : Type 0 where
    pub context : s'.0 ≡ counted s.0 (f * (n * width))
    pub written : contents s'.1 ≡ splice (contents s.1) (offset s.1) (take (f * (n * width)) buf)
    pub moved : offset s'.1 ≡ offset s.1 + f * (n * width)

  transfer_lem :
      (width : ℕ) (buf : List ℕ) (s : State)
      → 0 < n * width
      → n * width < 4294967296
      → f * (n * width) < 4294967296
      → f * (n * width) ≤ length buf
      → Ready width s
      → (s' : State) × (container_context_process_frames pcm fuel buf f s ≡ (ok (buf, f), s'))
        × Wrote width buf s s'
  transfer_lem width buf (c, w) hp hq hf hb r =
      let (w', e, p, o) =
        builder_process_frames pcm fuel file buf f (n * width) c w r.is_builder r.goes_on r.quiet
          (rw (r.sample_size, r.channels)) hp hq hf hb r.room r.limit r.enough in
      ((counted c (f * (n * width)), w'), e, record { context = refl; written = p; moved = o })

  -- The same for each of several containers.
  abbrev pub AllWrote : List (List ℕ) → List State → List State → Type 0
  AllWrote bufs [] cntrs' = cntrs' ≡ []
  AllWrote bufs (s ∷ cntrs) [] = ⊥
  AllWrote bufs (s ∷ cntrs) (s' ∷ cntrs') =
      Wrote 1 (get_or bufs 0 []) s s' × AllWrote (drop 1 bufs) cntrs cntrs'

  module _ (hn : 0 < n) (hf : f * (n * 1) < 4294967296) (hs : n < 4294967296) where
    process_containers_lem :
        (bufs : List (List ℕ)) (cntrs : List State)
        → length bufs ≡ length cntrs
        → ((i : ℕ) → i < length cntrs → f * (n * 1) ≤ length (get_or bufs i []))
        → All (Ready 1) cntrs
        → (cntrs' : List State) × (process_containers pcm fuel bufs f cntrs
            ≡ (ok (bufs, f), cntrs'))
          × AllWrote bufs cntrs cntrs'
    unfolding process_containers one_after others_after
    process_containers_lem [] [] l hb r = ([], refl, refl)
    process_containers_lem [] (s ∷ cntrs) l hb r = absurd (omega arith)
    process_containers_lem (buf ∷ bufs) [] l hb r = absurd (omega arith)
    process_containers_lem (buf ∷ bufs) (s ∷ cntrs) l hb (r, rs) =
        let (s', e, one) =
          transfer_lem 1 buf s (omega arith) (omega arith) hf (hb 0 (omega arith)) r in
        let (cntrs', e', others) =
          process_containers_lem bufs cntrs (omega arith) (λ i h. hb (suc i) (omega arith)) rs in
        (s' ∷ cntrs', rw (e, one_after, e'), (one, others))

  widths-Ready :
      (cntrs : List State)
      → All (Ready 1) cntrs
      → (i : ℕ) → i < length cntrs
      → get_or (widths cntrs) i 0 ≡ 1
  unfolding widths
  widths-Ready [] r i h = absurd (omega arith)
  widths-Ready (s ∷ cntrs) (r, rs) zero h = r.channels
  widths-Ready (s ∷ cntrs) (r, rs) (suc i) h = widths-Ready cntrs rs i (omega arith)

  -- A demuxer for several containers, whose frames are aligned to buffers.
  abbrev pub aligning_demuxer : MapperContext → ℕ → List (List ℕ) → MapperContext
  aligning_demuxer m count bufs = record m {
    type = demuxer;
    target = multiple;
    private_data = multiple_state (record { align = true; bufs = some bufs; cntr_count = count });
    cntr_count = count;
    bytes_per_sample = n;
  }

  -- The steps of the demuxer, given what they answer.
  multiple_demuxer_steps :
      (m : MapperContext) (b : List ℕ) (dsts dsts' : List (List ℕ)) (cntrs cntrs' : List State)
      → f ≤ m.frames_per_buffer
      → align_from_i b f dsts n (widths cntrs) (length cntrs) ≡ some dsts'
      → process_containers pcm fuel dsts' f cntrs ≡ (ok (dsts', f), cntrs')
      → mapper_context_process_frames pcm fuel
          (frames b)
          f
          (aligning_demuxer m (length cntrs) dsts, cntrs)
        ≡ (ok (frames b, f), (aligning_demuxer m (length cntrs) dsts', cntrs'))
  unfolding mapper_context_process_frames ops_process_frames multiple_demuxer_process_frames
      multiple_write transfer_multiple
  multiple_demuxer_steps m b dsts dsts' cntrs cntrs' hf e e' = rw (below, e, e')
    where
      below : leb f m.frames_per_buffer ≡ true
      below = ground arith

  -- A demuxer with a container of one channel for each channel of interleaved frames, and with
  -- buffers that hold them: if each container has room and fuel, no position of a sample passes 32
  -- bits, and no call is interrupted, then each file gets the samples of its channel, all
  -- containers count them, and the frames are all reported.
  pub multiple_demuxer_lem :
      (m : MapperContext) (b : List ℕ) (dsts : List (List ℕ)) (cntrs : List State)
      → f ≤ m.frames_per_buffer
      → 0 < n
      → 0 < length cntrs
      → n * (length cntrs * f) < 4294967296
      → n < 4294967296
      → length dsts ≡ length cntrs
      → ((i : ℕ) → i < length cntrs → n * f ≤ length (get_or dsts i []))
      → n * (length cntrs * f) ≤ length b
      → All (Ready 1) cntrs
      → (dsts' : List (List ℕ)) × (cntrs' : List State) × (mapper_context_process_frames pcm fuel
            (frames b)
            f
            (aligning_demuxer m (length cntrs) dsts, cntrs)
          ≡ (ok (frames b, f), (aligning_demuxer m (length cntrs) dsts', cntrs')))
        × Deinterleaves n (length cntrs) f b dsts dsts'
        × AllWrote dsts' cntrs cntrs'
  multiple_demuxer_lem m b dsts cntrs hf pos some_ fits small ld hd hb r =
      let (dsts', e, to) =
        align_to_vector_lem n (length cntrs) f fits pos b dsts (omega arith) hd hb in
      let e₁ =
        (align_i_vector n f (widths cntrs) (length cntrs) (widths-Ready cntrs r) b dsts).0 ∙ e in
      let one : n * f ≤ n * (length cntrs * f) =
        omega
          (arith, mul_le n f (length cntrs * f) (omega (arith, mul_le f 1 (length cntrs) some_))) in
      let (cntrs', e₂, wrote) =
        process_containers_lem pos (omega arith) small dsts' cntrs (omega (arith, to.same_count))
          (λ i h. omega (arith, to.same_length i h, hd i h)) r in
      (dsts', cntrs', multiple_demuxer_steps m b dsts dsts' cntrs cntrs' hf e₁ e₂, to, wrote)
