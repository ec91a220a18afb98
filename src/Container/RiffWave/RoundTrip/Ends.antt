-- ===== src/Container/RiffWave/RoundTrip/Ends.antt =====
-- The parser at both ends of what the builder wrote: the header of the chunk, and that of the data.
use alsa_utils.Common.{
  ℕ, ◌+◌, ◌-◌, ◌≤◌, ◌<◌, ◌≡◌, refl, ◌∙◌, ap, false, true, Bool, List, [], ◌++◌, length, take, drop,
  replicate, some, leb, arith,
}
use alsa_utils.Axfer.Pcm.{Pcm}
use alsa_utils.Axfer.Os.{Os}
use alsa_utils.Axfer.Os.Laws.{ReadLaws}
use alsa_utils.Axfer.Context.{Context, WaveParser, ok}
use alsa_utils.Container.Io.{container_recursive_read}
use alsa_utils.Container.Io.Read.{read_block}
use alsa_utils.Container.RiffWave.{riff_form_wave, field32}
use alsa_utils.Container.RiffWave.Build.{build_wave_data_subchunk, build_riff_chunk_header}
use alsa_utils.Container.RiffWave.Parse.{
  data_frames, chunk_order, subchunk_type, wave_parser_of, overlay, overlay_at, parse_riff_chunk,
  parse_riff_chunk_data, parse_riff_chunk_header, set_order, parse_wave_data_subchunk,
  handle_subchunk, parse_known_subchunk, parse_subchunk_data, parse_subchunk,
}
use alsa_utils.Container.RiffWave.RoundTrip.Subchunks.{with_state, le32_fixed, be32_fixed}
use alsa_utils.Container.RiffWave.RoundTrip.Rounds.{
  parse_subchunk-reads, parse_known_subchunk-reads,
}

leb_zero : (n : ℕ) → leb 0 n ≡ true
leb_zero n = ground arith

-- The header of the data at the start of a buffer.
data_field :
    (be : Bool) (count : ℕ) (buf : List ℕ)
    → count < 4294967296
    → field32 be (overlay (build_wave_data_subchunk count be) buf) 4 ≡ count
unfolding build_wave_data_subchunk
data_field true count buf h = be32_fixed count h
data_field false count buf h = le32_fixed count h

data_kept :
    (be : Bool) (count : ℕ) (buf : List ℕ)
    → overlay_at 8 [] (overlay (build_wave_data_subchunk count be) buf)
      ≡ overlay (build_wave_data_subchunk count be) buf
unfolding build_wave_data_subchunk
data_kept true count buf = refl
data_kept false count buf = refl

data_type :
    (be : Bool) (count : ℕ) (buf : List ℕ)
    → subchunk_type (take 4 (overlay (build_wave_data_subchunk count be) buf)) ≡ data_frames
unfolding build_wave_data_subchunk
data_type true count buf = refl
data_type false count buf = refl

length-data : (be : Bool) (count : ℕ) → length (build_wave_data_subchunk count be) ≡ 8
unfolding build_wave_data_subchunk
length-data true count = refl
length-data false count = refl

module _ ⦃os : Os⦄ (pcm : Pcm) (fuel : ℕ) where
  handle_subchunk-data :
      (rest : ℕ) (buf : List ℕ) (st : WaveParser) (c : Context) (w : os.World)
      → handle_subchunk pcm fuel data_frames rest buf (with_state c st, w)
        ≡ (ok (true, buf), (with_state c (record st { byte_count = field32 st.be buf 4 }), w))
  unfolding handle_subchunk parse_wave_data_subchunk
  handle_subchunk-data rest buf st c w = refl

  parse_subchunk_data-data :
      (size : ℕ) (buf : List ℕ) (c : Context) (w : os.World)
      → parse_subchunk_data pcm fuel data_frames size buf (c, w)
        ≡ parse_known_subchunk pcm fuel data_frames 0 size buf (c, w)
  unfolding parse_subchunk_data
  parse_subchunk_data-data size buf c w = refl

module _ ⦃os : Os⦄ (pcm : Pcm) (fuel : ℕ) (file : ReadLaws) where
  open file use {pending, patience}

  pub parse_subchunk-data :
      (count : ℕ) (buf : List ℕ) (st : WaveParser) (c : Context) (w : os.World) (rest : List ℕ)
      → count < 4294967296
      → c.interrupted ≡ false
      → c.eof ≡ false
      → pending w ≡ build_wave_data_subchunk count st.be ++ rest
      → 16 + patience w < fuel
      → (buf' : List ℕ) × (w' : os.World) × (parse_subchunk pcm fuel buf (with_state c st, w)
          ≡ (ok (true, buf'), (with_state c (record st { byte_count = count }), w')))
        × (pending w' ≡ rest)
        × (patience w' ≤ patience w)
  parse_subchunk-data count buf st c w rest hc hi he hp hf =
      let D = build_wave_data_subchunk count st.be in
      let c' = with_state c st in
      let buf' = overlay D buf in
      let b₁ = read_block file fuel 8 D rest c' w hi hp (length-data st.be count) (omega arith) in
      let b₂ =
        read_block file fuel 0 [] rest c' b₁.after hi b₁.left refl (omega (arith, b₁.calmer)) in
      (
        buf',
        b₂.after,
        parse_subchunk-reads pcm fuel c' w b₁.after he D buf b₁.result
            ∙ rw (data_type st.be count buf) (
                parse_subchunk_data-data pcm fuel (field32 st.be buf' 4) buf' c' b₁.after
                ∙ parse_known_subchunk-reads pcm fuel c' b₁.after b₂.after he data_frames 0
                    (field32 st.be buf' 4) [] buf' (leb_zero (field32 st.be buf' 4)) b₂.result
                ∙ ap
                    (λ b.
                      handle_subchunk pcm fuel data_frames (field32 st.be buf' 4 - 0) b
                        (c', b₂.after))
                    (data_kept st.be count buf)
                ∙ handle_subchunk-data pcm fuel _ buf' st c b₂.after
                ∙ ap
                    (λ n.
                      (ok (true, buf'), (with_state c (record st { byte_count = n }), b₂.after)))
                    (data_field st.be count buf hc)),
        b₂.left,
        omega (arith, b₁.calmer, b₂.calmer),
      )

-- The header of the chunk, once its first four bytes are known as the magic.
module _ ⦃os : Os⦄ (pcm : Pcm) (fuel : ℕ) (c : Context) (w w' : os.World) (he : c.eof ≡ false) where
  parse_riff_chunk-reads :
      (size : List ℕ)
      → container_recursive_read fuel 4 (c, w) ≡ (ok size, (c, w'))
      → parse_riff_chunk pcm fuel (c, w)
        ≡ parse_riff_chunk_data pcm fuel
            (overlay_at 4 size (take 4 c.magic ++ replicate 4 0))
            (c, w')
  unfolding parse_riff_chunk
  parse_riff_chunk-reads size e = rw e (simp he)

  parse_riff_chunk_data-reads :
      (be : Bool) (buf : List ℕ)
      → chunk_order (take 4 buf) ≡ some be
      → container_recursive_read fuel 4
          (with_state c (record (wave_parser_of c.private_data) { be = be }), w)
        ≡ (
          ok riff_form_wave,
          (with_state c (record (wave_parser_of c.private_data) { be = be }), w'),
        )
      → parse_riff_chunk_data pcm fuel buf (c, w)
        ≡ (ok tt, (with_state c (record (wave_parser_of c.private_data) { be = be }), w'))
  unfolding parse_riff_chunk_data parse_riff_chunk_header set_order
  parse_riff_chunk_data-reads be buf o e = rw (o, e) (simp he)

chunk_order-build :
    (be : Bool) (n : ℕ) (magic : List ℕ)
    → magic ≡ take 4 (build_riff_chunk_header n be)
    → chunk_order (
        take 4
          (overlay_at 4 (drop 4 (build_riff_chunk_header n be)) (take 4 magic ++ replicate 4 0)))
      ≡ some be
unfolding build_riff_chunk_header
chunk_order-build true n magic h = rw h refl
chunk_order-build false n magic h = rw h refl

length-chunk_size : (be : Bool) (n : ℕ) → length (drop 4 (build_riff_chunk_header n be)) ≡ 4
unfolding build_riff_chunk_header
length-chunk_size true n = refl
length-chunk_size false n = refl

module _ ⦃os : Os⦄ (pcm : Pcm) (fuel : ℕ) (file : ReadLaws) where
  open file use {pending, patience}

  pub parse_riff_chunk-build :
      (n : ℕ) (be : Bool) (c : Context) (w : os.World) (rest : List ℕ)
      → c.interrupted ≡ false
      → c.eof ≡ false
      → c.magic ≡ take 4 (build_riff_chunk_header n be)
      → pending w ≡ drop 4 (build_riff_chunk_header n be) ++ (riff_form_wave ++ rest)
      → 16 + patience w < fuel
      → (w' : os.World) × (parse_riff_chunk pcm fuel (c, w)
          ≡ (ok tt, (with_state c (record (wave_parser_of c.private_data) { be = be }), w')))
        × (pending w' ≡ rest)
        × (patience w' ≤ patience w)
  parse_riff_chunk-build n be c w rest hi he hm hp hf =
      let size = drop 4 (build_riff_chunk_header n be) in
      let c' = with_state c (record (wave_parser_of c.private_data) { be = be }) in
      let b₁ =
        read_block file fuel 4 size (riff_form_wave ++ rest) c w hi hp (length-chunk_size be n)
          (omega arith) in
      let b₂ =
        read_block file fuel 4 riff_form_wave rest c' b₁.after hi b₁.left refl
          (omega (arith, b₁.calmer)) in
      (
        b₂.after,
        parse_riff_chunk-reads pcm fuel c w b₁.after he size b₁.result
            ∙ parse_riff_chunk_data-reads pcm fuel c b₁.after b₂.after he be
                (overlay_at 4 size (take 4 c.magic ++ replicate 4 0))
                (chunk_order-build be n c.magic hm) b₂.result,
        b₂.left,
        omega (arith, b₁.calmer, b₂.calmer),
      )
