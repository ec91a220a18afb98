-- ===== src/Container/RiffWave/Build/Layout.antt =====
-- What the builder of RIFF/WAVE files leaves in the file.
use alsa_utils.Common.{
  ℕ, ◌+◌, ◌≤◌, ◌<◌, ◌≡◌, refl, ◌∙◌, false, true, Bool, List, ◌++◌, length, drop, arith,
  length-append,
}
use alsa_utils.Axfer.Pcm.{Pcm}
use alsa_utils.Axfer.Os.{Os}
use alsa_utils.Axfer.Os.Laws.{WriteLaws}
use alsa_utils.Axfer.Context.{Context, WaveBuilder, ok}
use alsa_utils.Container.Io.Write.{
  WriteAll, WriteAll-append, container_recursive_write_lem, container_seek_offset_lem,
}
use alsa_utils.Container.RiffWave.{riff_form_wave, field32}
use alsa_utils.Container.RiffWave.Build.{
  wave_builder_of, build_riff_chunk_header, build_wave_format_subchunk, build_wave_data_subchunk,
  total_byte_count, write_riff_chunk_for_wave, wave_builder_post_process,
}

-- All that stands in front of the frames.
abbrev pub wave_header : WaveBuilder → ℕ → ℕ → List ℕ
wave_header st max_size count =
    build_riff_chunk_header (total_byte_count max_size count) st.be
    ++ (riff_form_wave ++ (build_wave_format_subchunk st ++ build_wave_data_subchunk count st.be))

length-build_riff_chunk_header : (n : ℕ) (be : Bool) → length (build_riff_chunk_header n be) ≡ 8
unfolding build_riff_chunk_header
length-build_riff_chunk_header n true = refl
length-build_riff_chunk_header n false = refl

length-build_wave_format_subchunk : (st : WaveBuilder) → length (build_wave_format_subchunk st) ≡ 24
unfolding build_wave_format_subchunk
length-build_wave_format_subchunk st = by_order st.be refl
  where
    by_order : (b : Bool) → st.be ≡ b → length (build_wave_format_subchunk st) ≡ 24
    by_order true e = simp e
    by_order false e = simp e

length-build_wave_data_subchunk : (n : ℕ) (be : Bool) → length (build_wave_data_subchunk n be) ≡ 8
unfolding build_wave_data_subchunk
length-build_wave_data_subchunk n true = refl
length-build_wave_data_subchunk n false = refl

pub length-wave_header :
    (st : WaveBuilder) (max_size count : ℕ) → length (wave_header st max_size count) ≡ 44
length-wave_header st max_size count = rw (
  length-append, length-build_riff_chunk_header, length-append, length-append,
  length-build_wave_format_subchunk, length-build_wave_data_subchunk,
)

chunk_size-field :
    (n : ℕ) (be : Bool) (rest : List ℕ)
    → 36 + n < 4294967296
    → field32 be (build_riff_chunk_header n be ++ rest) 4 ≡ 36 + n
unfolding build_riff_chunk_header
chunk_size-field n true rest h = omega arith
chunk_size-field n false rest h = omega arith

total_byte_count-fits :
    (max_size count : ℕ)
    → 36 + count ≤ max_size
    → max_size + 36 < 4294967296
    → total_byte_count max_size count ≡ 36 + count
unfolding total_byte_count
total_byte_count-fits max_size count h m = ground arith

-- For a number of bytes that fits, the size that the chunk is given is 36 more than what follows on
-- the field in the file: the headers are counted twice.
pub riff_size-counts_twice :
    (st : WaveBuilder) (max_size count : ℕ)
    → 36 + count ≤ max_size
    → max_size + 36 < 4294967296
    → field32 st.be (wave_header st max_size count) 4 + 8
      ≡ length (wave_header st max_size count) + count + 36
riff_size-counts_twice st max_size count h m =
    rw (length-wave_header, total_byte_count-fits max_size count h m)
      (omega (
        arith,
        chunk_size-field (36 + count) st.be (
            riff_form_wave
            ++ (build_wave_format_subchunk st ++ build_wave_data_subchunk count st.be)),
      ))

module _ ⦃os : Os⦄ (pcm : Pcm) (fuel : ℕ) (file : WriteLaws) where
  open file use {contents, offset, patience}

  pub write_riff_chunk_lem :
      (count : ℕ) (c : Context) (w : os.World)
      → c.interrupted ≡ false
      → 44 + patience w < fuel
      → WriteAll file
          (wave_header (wave_builder_of c.private_data) c.max_size count)
          c
          w
          (write_riff_chunk_for_wave pcm fuel count (c, w))
  unfolding write_riff_chunk_for_wave
  write_riff_chunk_lem count c w hi hf =
      let st = wave_builder_of c.private_data in
      let p₁ = build_riff_chunk_header (total_byte_count c.max_size count) st.be in
      let p₃ = build_wave_format_subchunk st in
      let p₄ = build_wave_data_subchunk count st.be in
      let a₁ =
        container_recursive_write_lem file fuel p₁ c w hi (
          omega
            (arith, length-build_riff_chunk_header (total_byte_count c.max_size count) st.be)) in
      let a₂ =
        container_recursive_write_lem file fuel riff_form_wave c a₁.after hi
          (omega (arith, a₁.calmer)) in
      let a₃ =
        container_recursive_write_lem file fuel p₃ c a₂.after hi
          (omega (arith, a₁.calmer, a₂.calmer, length-build_wave_format_subchunk st)) in
      let a₄ = container_recursive_write_lem file fuel p₄ c a₃.after hi (
        omega
          (arith, a₁.calmer, a₂.calmer, a₃.calmer, length-build_wave_data_subchunk count st.be)) in
      rw (a₁.result, a₂.result, a₃.result)
        (WriteAll-append file p₁ _ c w a₁ (
          WriteAll-append file riff_form_wave _ c a₁.after a₂
            (WriteAll-append file p₃ p₄ c a₂.after a₃ a₄)))

  -- `wave_builder_post_process` rewrites the 44 bytes of the headers, for the number of bytes that
  -- were handled, and leaves everything behind them.
  pub wave_builder_post_process_lem :
      (count : ℕ) (c : Context) (w : os.World)
      → c.interrupted ≡ false
      → 44 + patience w < fuel
      → (w' : os.World) × (wave_builder_post_process pcm fuel count (c, w) ≡ (ok tt, (c, w')))
        × (contents w'
            ≡ wave_header (wave_builder_of c.private_data) c.max_size count ++ drop 44 (contents w))
  unfolding wave_builder_post_process
  wave_builder_post_process_lem count c w hi hf =
      let (w₁, e₁, p₁, o₁, q₁) = container_seek_offset_lem file 0 c w (omega arith) in
      let all = write_riff_chunk_lem count c w₁ hi (omega arith) in
      (all.after, rw (e₁, all.result), all.written ∙ rw (p₁, o₁, length-wave_header))
