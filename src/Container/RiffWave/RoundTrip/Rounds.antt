-- ===== src/Container/RiffWave/RoundTrip/Rounds.antt =====
-- The rounds of the parser on a file that the builder wrote: the chunk, its format, its data.
use alsa_utils.Common.{
  ℕ, ◌+◌, ◌-◌, ◌≤◌, ◌<◌, ◌≡◌, refl, ◌∙◌, false, true, Bool, List, ◌++◌, take, drop, replicate, leb,
  arith,
}
use alsa_utils.Axfer.Pcm.{Pcm}
use alsa_utils.Axfer.Os.{Os}
use alsa_utils.Axfer.Os.Laws.{ReadLaws}
use alsa_utils.Axfer.Context.{Context, WaveParser, ok}
use alsa_utils.Container.Io.{container_recursive_read}
use alsa_utils.Container.Io.Read.{read_block}
use alsa_utils.Container.RiffWave.{field32}
use alsa_utils.Container.RiffWave.Build.{build_wave_format_subchunk}
use alsa_utils.Container.RiffWave.Parse.{
  SubchunkType, fmt, subchunk_type, wave_parser_of, overlay, overlay_at, handle_subchunk,
  parse_known_subchunk, parse_subchunk_data, parse_subchunk,
}
use alsa_utils.Container.RiffWave.RoundTrip.Subchunks.{
  Values, Fits, built, read_back, with_state, parse_wave_fmt_subchunk_lem, skip_data_nothing,
}

-- Each step, given what its read does.
module _ ⦃os : Os⦄ (pcm : Pcm) (fuel : ℕ) (c : Context) (w w' : os.World) (he : c.eof ≡ false) where
  pub parse_subchunk-reads :
      (header buf : List ℕ)
      → container_recursive_read fuel 8 (c, w) ≡ (ok header, (c, w'))
      → parse_subchunk pcm fuel buf (c, w)
        ≡ parse_subchunk_data pcm fuel
            (subchunk_type (take 4 (overlay header buf)))
            (field32 (wave_parser_of c.private_data).be (overlay header buf) 4)
            (overlay header buf)
            (c, w')
  unfolding parse_subchunk
  parse_subchunk-reads header buf e = rw e (simp he)

  pub parse_known_subchunk-reads :
      (kind : SubchunkType) (required_size size : ℕ) (body buf : List ℕ)
      → leb required_size size ≡ true
      → container_recursive_read fuel required_size (c, w) ≡ (ok body, (c, w'))
      → parse_known_subchunk pcm fuel kind required_size size buf (c, w)
        ≡ handle_subchunk pcm fuel kind (size - required_size) (overlay_at 8 body buf) (c, w')
  unfolding parse_known_subchunk
  parse_known_subchunk-reads kind required_size size body buf l e = rw (l, e) (simp he)

module _ ⦃os : Os⦄ (pcm : Pcm) (fuel : ℕ) where
  handle_subchunk-fmt :
      (be : Bool) (v : Values) (st : WaveParser) (c : Context) (w : os.World)
      → Fits v
      → 0 < fuel
      → handle_subchunk pcm fuel fmt 0
          (build_wave_format_subchunk (built be v))
          (with_state c (record st { be = be }), w)
        ≡ (
          ok (false, build_wave_format_subchunk (built be v)),
          (with_state c (read_back be v st.byte_count), w),
        )
  unfolding handle_subchunk
  handle_subchunk-fmt be v st c w f h =
      rw (parse_wave_fmt_subchunk_lem pcm fuel be v st c w f)
        (skip_data_nothing pcm fuel fuel (build_wave_format_subchunk (built be v)) _ h)

module _ ⦃os : Os⦄ (pcm : Pcm) (fuel : ℕ) (file : ReadLaws) where
  open file use {pending, patience}

  pub parse_subchunk-fmt :
      (be : Bool) (v : Values) (st : WaveParser) (c : Context) (w : os.World) (rest : List ℕ)
      → Fits v
      → c.interrupted ≡ false
      → c.eof ≡ false
      → pending w ≡ build_wave_format_subchunk (built be v) ++ rest
      → 16 + patience w < fuel
      → (w' : os.World) × (parse_subchunk pcm fuel
            (replicate 24 0)
            (with_state c (record st { be = be }), w)
          ≡ (
            ok (false, build_wave_format_subchunk (built be v)),
            (with_state c (read_back be v st.byte_count), w'),
          ))
        × (pending w' ≡ rest)
        × (patience w' ≤ patience w)
  unfolding parse_subchunk_data build_wave_format_subchunk
  parse_subchunk-fmt true v st c w rest f hi he hp hf =
      let F = build_wave_format_subchunk (built true v) in
      let c' = with_state c (record st { be = true }) in
      let b₁ = read_block file fuel 8 (take 8 F) (drop 8 F ++ rest) c' w hi hp refl (omega arith) in
      let b₂ =
        read_block file fuel 16 (drop 8 F) rest c' b₁.after hi b₁.left refl
          (omega (arith, b₁.calmer)) in
      (
        b₂.after,
        parse_subchunk-reads pcm fuel c' w b₁.after he (take 8 F) (replicate 24 0) b₁.result
            ∙ parse_known_subchunk-reads pcm fuel c' b₁.after b₂.after he fmt 16 16 (drop 8 F)
                (overlay (take 8 F) (replicate 24 0)) refl b₂.result
            ∙ handle_subchunk-fmt pcm fuel true v st c b₂.after f (omega arith),
        b₂.left,
        omega (arith, b₁.calmer, b₂.calmer),
      )
  parse_subchunk-fmt false v st c w rest f hi he hp hf =
      let F = build_wave_format_subchunk (built false v) in
      let c' = with_state c (record st { be = false }) in
      let b₁ = read_block file fuel 8 (take 8 F) (drop 8 F ++ rest) c' w hi hp refl (omega arith) in
      let b₂ =
        read_block file fuel 16 (drop 8 F) rest c' b₁.after hi b₁.left refl
          (omega (arith, b₁.calmer)) in
      (
        b₂.after,
        parse_subchunk-reads pcm fuel c' w b₁.after he (take 8 F) (replicate 24 0) b₁.result
            ∙ parse_known_subchunk-reads pcm fuel c' b₁.after b₂.after he fmt 16 16 (drop 8 F)
                (overlay (take 8 F) (replicate 24 0)) refl b₂.result
            ∙ handle_subchunk-fmt pcm fuel false v st c b₂.after f (omega arith),
        b₂.left,
        omega (arith, b₁.calmer, b₂.calmer),
      )
