-- ===== src/Container/RiffWave/RoundTrip.antt =====
-- A RIFF/WAVE file that the builder writes is read back by the parser.
pub mod Subchunks
pub mod Rounds
pub mod Ends
pub mod Formats
pub mod Written
use alsa_utils.Common.{
  ℕ, zero, suc, ◌+◌, ◌-◌, ◌*◌, ◌/◌, ◌%◌, ◌≤◌, ◌<◌, ◌≡◌, refl, ◌∙◌, ap, false, true, not, Bool,
  Option, some, List, [], ◌∷◌, ◌++◌, length, take, drop, replicate, ◌==◌, arith, All, append_assoc,
  append-nil, sym, take-append_add, drop-append_add,
}
use native.Mathlib.Nat.{mul-div_cancel}
use alsa_utils.Common.Words.{u32}
use mathlib.Core.List.{Memᴰ}
use alsa_utils.Axfer.Pcm.{Format, unknown, Pcm, pos, int_eq}
use alsa_utils.Axfer.Os.{Os}
use alsa_utils.Axfer.Os.Laws.{ReadLaws}
use alsa_utils.Axfer.Context.{
  Context, Params, WaveBuilder, WaveParser, wave_parser, Res, ok, State, bind_result,
}
use alsa_utils.Container.RiffWave.{riff_form_wave, FormatMap, format_maps}
use alsa_utils.Container.RiffWave.Build.{
  format_of, total_byte_count, build_riff_chunk_header, build_wave_format_subchunk,
  build_wave_data_subchunk,
}
use alsa_utils.Container.RiffWave.Build.Layout.{wave_header}
use alsa_utils.Container.RiffWave.Parse.{
  wave_parser_of, find_format, wave_accept, parse_riff_chunk, parse_subchunk, wave_subchunk_loop,
  wave_subchunk_next, parse_wave_subchunk, parse_riff_wave_format, wave_parser_pre_process,
}
use alsa_utils.Container.RiffWave.RoundTrip.Subchunks.{
  Values, Fits, byte_rate, frame_size, built, read_back, with_state,
}
use alsa_utils.Container.RiffWave.RoundTrip.Rounds.{parse_subchunk-fmt}
use alsa_utils.Container.RiffWave.RoundTrip.Ends.{parse_subchunk-data, parse_riff_chunk-build}
use alsa_utils.Container.RiffWave.RoundTrip.Formats.{
  bits, sample_size, byte_order, Documented, values_of, order_of, bits-lt, find_format-described,
  format_of-listed,
}

-- Two rounds are enough for a loop whose second round is the last.
module _ ⦃os : Os⦄ (pcm : Pcm) (fuel : ℕ) where
  wave_subchunk_loop-two :
      (rounds : ℕ) (buf buf₁ buf₂ : List ℕ) (s s₁ s₂ : State)
      → 1 < rounds
      → parse_subchunk pcm fuel buf s ≡ (ok (false, buf₁), s₁)
      → parse_subchunk pcm fuel buf₁ s₁ ≡ (ok (true, buf₂), s₂)
      → wave_subchunk_loop pcm fuel rounds buf s ≡ (ok tt, s₂)
  unfolding wave_subchunk_loop wave_subchunk_next
  wave_subchunk_loop-two zero buf buf₁ buf₂ s s₁ s₂ h e₁ e₂ = absurd (omega arith)
  wave_subchunk_loop-two (suc zero) buf buf₁ buf₂ s s₁ s₂ h e₁ e₂ = absurd (omega arith)
  wave_subchunk_loop-two (suc (suc rounds)) buf buf₁ buf₂ s s₁ s₂ h e₁ e₂ = rw (e₁, e₂)

module _ ⦃os : Os⦄ (pcm : Pcm) (fuel : ℕ) (file : ReadLaws) where
  open file use {pending, patience}

  parse_riff_wave_format-build :
      (be : Bool) (v : Values) (n count : ℕ) (frames : List ℕ) (c : Context) (w : os.World)
      → Fits v
      → count < 4294967296
      → c.interrupted ≡ false
      → c.eof ≡ false
      → c.magic ≡ take 4 (build_riff_chunk_header n be)
      → pending w
        ≡ drop 4 (build_riff_chunk_header n be)
          ++ (riff_form_wave
              ++ (build_wave_format_subchunk (built be v)
                  ++ (build_wave_data_subchunk count be ++ frames)))
      → 16 + patience w < fuel
      → (w' : os.World) × (parse_riff_wave_format pcm fuel (c, w)
          ≡ (ok tt, (with_state c (read_back be v count), w')))
        × (pending w' ≡ frames)
  unfolding parse_riff_wave_format parse_wave_subchunk
  parse_riff_wave_format-build be v n count frames c w f hc hi he hm hp hf =
      let st = wave_parser_of c.private_data in
      let (w₁, e₁, p₁, q₁) = parse_riff_chunk-build pcm fuel file n be c w _ hi he hm hp hf in
      let (w₂, e₂, p₂, q₂) =
        parse_subchunk-fmt pcm fuel file be v st c w₁ (build_wave_data_subchunk count be ++ frames)
          f hi he p₁ (omega arith) in
      let (buf, w₃, e₃, p₃, q₃) =
        parse_subchunk-data pcm fuel file count (build_wave_format_subchunk (built be v))
          (read_back be v st.byte_count) c w₂ frames hc hi he p₂ (omega arith) in
      (
        w₃,
        ap (λ r. bind_result r (λ _. wave_subchunk_loop pcm fuel fuel (replicate 24 0))) e₁
            ∙ wave_subchunk_loop-two pcm fuel fuel (replicate 24 0) _ buf _ _ _ (omega arith) e₂ e₃,
        p₃,
      )

format_of-lt : (f : Format) (k : ℕ) → format_of f format_maps ≡ some k → k < 65536
unfolding format_of
format_of-lt unknown k h = ground arith
format_of-lt _ k h = ground arith

phys_width_lem :
    (s n r : ℕ)
    → 0 < n
    → 0 < r
    → 8 * (s * n * r) < 4294967296
    → u32 (8 * (s * n * r)) / n / r ≡ 8 * s
phys_width_lem s n r hn hr h =
    ap (λ x. x / n / r) fits
    ∙ ap (λ x. x / r) (mul-div_cancel (8 * s * r) hn)
    ∙ mul-div_cancel (8 * s) hr
  where
    fits : u32 (8 * (s * n * r)) ≡ 8 * s * r * n
    fits = omega arith

module _ ⦃os : Os⦄ (pcm : Pcm) (fuel : ℕ) where
  -- The part behind the header.
  wave_parser-reads :
      (p q : Params) (k : ℕ) (c : Context) (w w' : os.World)
      → All (λ m. Documented pcm (m.1)) format_maps
      → format_of p.format format_maps ≡ some k
      → 0 < p.samples_per_frame
      → 0 < p.frames_per_second
      → 8 * byte_rate (values_of p k) < 4294967296
      → parse_riff_wave_format pcm fuel (c, w)
        ≡ (ok tt, (with_state c (read_back (order_of p) (values_of p k) p.byte_count), w'))
      → wave_parser_pre_process pcm fuel q (c, w)
        ≡ (ok p, (with_state c (read_back (order_of p) (values_of p k) p.byte_count), w'))
  unfolding wave_parser_pre_process wave_accept
  wave_parser-reads p q k c w w' doc hk hn hr hb e =
      rw (e, nonzero p.samples_per_frame hn, nonzero p.frames_per_second hr)
        (rw (
          phys_width_lem (sample_size p.format) p.samples_per_frame p.frames_per_second hn hr hb,
          find_format-described pcm p.format k (read_back (order_of p) (values_of p k) p.byte_count)
              doc hk,
        ))
    where
      nonzero : (n : ℕ) → 0 < n → (n == 0) ≡ false
      nonzero n h = ground arith

take-chunk :
    (n : ℕ) (be : Bool) (rest : List ℕ)
    → take 4 (build_riff_chunk_header n be ++ rest) ≡ take 4 (build_riff_chunk_header n be)
unfolding build_riff_chunk_header
take-chunk n true rest = refl
take-chunk n false rest = refl

drop-chunk :
    (n : ℕ) (be : Bool) (rest : List ℕ)
    → drop 4 (build_riff_chunk_header n be ++ rest) ≡ drop 4 (build_riff_chunk_header n be) ++ rest
unfolding build_riff_chunk_header
drop-chunk n true rest = refl
drop-chunk n false rest = refl

header-parts :
    (st : WaveBuilder) (max_size count : ℕ) (frames : List ℕ)
    → wave_header st max_size count ++ frames
      ≡ build_riff_chunk_header (total_byte_count max_size count) st.be
        ++ (riff_form_wave
            ++ (build_wave_format_subchunk st ++ (build_wave_data_subchunk count st.be ++ frames)))
header-parts st max_size count frames = rw (append_assoc, append_assoc, append_assoc)

-- The four bytes that the container has read, and what the file has yet.
split-magic :
    (magic rest whole : List ℕ)
    → length magic ≡ 4
    → magic ++ rest ≡ whole
    → (magic ≡ take 4 whole) × (rest ≡ drop 4 whole)
split-magic magic rest whole l e = (
  sym (append-nil magic) ∙ sym (take-append_add magic rest 4 0 (omega arith)) ∙ ap (take 4) e,
  sym (drop-append_add magic rest 4 0 (omega arith)) ∙ ap (drop 4) e,
)

module _ ⦃os : Os⦄ (pcm : Pcm) (fuel : ℕ) (file : ReadLaws) where
  open file use {pending, patience}

  -- A file whose first bytes, of which the container has read four already, are what the builder
  -- writes for parameters with a format and a code of `format_maps`: if there are channels and a rate,
  -- the channels and the bytes of a frame fit 16 bits, the rate, the number of bytes, and eight times
  -- the bytes of a second fit 32 bits, alsa-lib answers as documented for the formats of the table,
  -- and without an interrupt and with enough fuel, the parser returns the same parameters, and leaves
  -- the file at the frames.
  pub wave_parser-build :
      (p q : Params) (k max_size : ℕ) (frames : List ℕ) (c : Context) (w : os.World)
      → All (λ m. Documented pcm (m.1)) format_maps
      → Memᴰ (k, p.format) format_maps
      → 0 < p.samples_per_frame
      → 0 < p.frames_per_second
      → p.samples_per_frame < 65536
      → p.frames_per_second < 4294967296
      → frame_size (values_of p k) < 65536
      → 8 * byte_rate (values_of p k) < 4294967296
      → p.byte_count < 4294967296
      → c.interrupted ≡ false
      → c.eof ≡ false
      → length c.magic ≡ 4
      → c.magic ++ pending w
        ≡ wave_header (built (order_of p) (values_of p k)) max_size p.byte_count ++ frames
      → 16 + patience w < fuel
      → (w' : os.World) × (wave_parser_pre_process pcm fuel q (c, w)
          ≡ (ok p, (with_state c (read_back (order_of p) (values_of p k) p.byte_count), w')))
        × (pending w' ≡ frames)
  wave_parser-build p q k max_size frames c w doc listed hn hr hn' hr' hs hb hc hi he hm hp hf =
      let hk = format_of-listed k p.format listed in
      let v = values_of p k in
      let n = total_byte_count max_size p.byte_count in
      let (m, r) =
        split-magic c.magic (pending w) _ hm
          (hp ∙ header-parts (built (order_of p) v) max_size p.byte_count frames) in
      let (w', e, left) =
        parse_riff_wave_format-build pcm fuel file (order_of p) v n p.byte_count frames c w
          (record {
            format_fits = format_of-lt p.format k hk;
            bits_fit = bits-lt p.format;
            channels_fit = hn';
            rate_fits = hr';
            frame_fits = hs;
            bytes_fit = omega arith;
          })
          hc hi he (m ∙ take-chunk n (order_of p) _) (r ∙ drop-chunk n (order_of p) _) hf in
      (w', wave_parser-reads pcm fuel p q k c w w' doc hk hn hr hb e, left)
