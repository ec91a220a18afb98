-- ===== src/Container/Au/Build.antt =====
-- What the builder of Sun audio files leaves in the file.
use alsa_utils.Common.{
  ℕ, ◌+◌, ◌<◌, ◌≡◌, refl, sym, ap₂, ◌∙◌, Bool-cases, All-Memᴰ, if◌then◌else◌, [], ◌∷◌, false, some,
  List, ◌++◌, length, drop, ◌⊎◌, inl, inr, Option-cases, arith,
}
use mathlib.Core.Path.{subst}
use mathlib.Core.List.{Memᴰ}
use mathlib.Core.List.Memᴰ.{head, tail}
use alsa_utils.Axfer.Pcm.{Format, Pcm, format_eq, int_div8}
use alsa_utils.Axfer.Formats.{format_eq_lem}
use alsa_utils.Axfer.Os.{Os, einval}
use alsa_utils.Axfer.Os.Laws.{WriteLaws, splice}
use alsa_utils.Axfer.Context.{Params, Context, AuBuilder, au_builder, ok, err}
use alsa_utils.Container.Io.Write.{
  WriteAll, container_recursive_write_lem, container_seek_offset_lem,
}
use alsa_utils.Container.Au.{
  FormatMap, format_maps, code_of_format, build_container_header, au_builder_of,
  write_container_header, au_builder_start, au_builder_pre_process, au_builder_post_process,
}

-- The header that a context stands for.
abbrev pub header_of : Context → ℕ → List ℕ
header_of c count =
    let st = au_builder_of c.private_data in build_container_header st st.frames_per_second count

pub length-build_container_header :
    (st : AuBuilder) (fps count : ℕ) → length (build_container_header st fps count) ≡ 24
unfolding build_container_header
length-build_container_header st fps count = refl

-- The state that `au_builder_pre_process` sets up.
abbrev pub builder_context : Pcm → Params → ℕ → Context → Context
builder_context pcm params code c = record c {
  private_data = au_builder (record {
    code_id = code;
    bytes_per_sample = int_div8 (pcm.physical_width params.format);
    frames_per_second = params.frames_per_second;
    samples_per_frame = params.samples_per_frame;
  });
}

-- The search finds each entry of the table, and nothing else.
code_of_format-listed :
    (code : ℕ) (f : Format) → Memᴰ (code, f) format_maps → code_of_format f format_maps ≡ some code
unfolding code_of_format
code_of_format-listed code f h =
    All-Memᴰ (λ m. code_of_format (m.1) format_maps ≡ some (m.0)) format_maps
      (refl, (refl, (refl, (refl, (refl, (refl, (refl, tt))))))) h

listed-code_of_format :
    (code : ℕ) (f : Format) (maps : List FormatMap)
    → code_of_format f maps ≡ some code
    → Memᴰ (code, f) maps
unfolding code_of_format
listed-code_of_format code f [] e = absurd (cc e)
listed-code_of_format code f ((k, g) ∷ maps) e = elim (Bool-cases (format_eq g f)) [
  | inl h ↦ head (
      ap₂ (λ a b. (a, b))
        (cc (subst (λ b. (if b then some k else code_of_format f maps) ≡ some code) h e))
        (sym (format_eq_lem g f h)))
  | inr h ↦ tail (
      listed-code_of_format code f maps
        (subst (λ b. (if b then some k else code_of_format f maps) ≡ some code) h e))
]

module _ ⦃os : Os⦄ (pcm : Pcm) (fuel : ℕ) (file : WriteLaws) where
  open file use {contents, offset, patience}

  write_container_header_lem :
      (count : ℕ) (c : Context) (w : os.World)
      → c.interrupted ≡ false
      → 24 + patience w < fuel
      → WriteAll file (header_of c count) c w (write_container_header pcm fuel count (c, w))
  unfolding write_container_header
  write_container_header_lem count c w hi hf =
      container_recursive_write_lem file fuel (header_of c count) c w hi (
        omega (
          arith,
          length-build_container_header (au_builder_of c.private_data)
              (au_builder_of c.private_data).frames_per_second count,
        ))

  -- Without an interrupt and with enough fuel: if `format_maps` lists the format with a code,
  -- `au_builder_pre_process` keeps the code and the parameters in the private state and writes the
  -- header for them at the offset; if it lists the format with no code, it returns -EINVAL and changes
  -- nothing.
  pub au_builder_pre_process_lem :
      (params : Params) (c : Context) (w : os.World)
      → c.interrupted ≡ false
      → 24 + patience w < fuel
      → (((code : ℕ) → ¬ Memᴰ (code, params.format) format_maps)
          × (au_builder_pre_process pcm fuel params (c, w) ≡ (err einval, (c, w))))
        ⊎ ((code : ℕ) × (w' : os.World) × Memᴰ (code, params.format) format_maps
            × (au_builder_pre_process pcm fuel params (c, w)
                ≡ (ok params, (builder_context pcm params code c, w')))
            × (contents w'
                ≡ splice
                    (contents w)
                    (offset w)
                    (header_of (builder_context pcm params code c) params.byte_count)))
  unfolding au_builder_pre_process au_builder_start
  au_builder_pre_process_lem params c w hi hf =
      elim (Option-cases (code_of_format params.format format_maps)) [
        | inl e ↦
            inl (
              λ code h. cc (e, code_of_format-listed code params.format h),
              rw (e, au_builder_start),
            )
        | inr (code, e) ↦
            let all =
              write_container_header_lem params.byte_count (builder_context pcm params code c) w hi
                hf in
            inr (
              code,
              all.after,
              listed-code_of_format code params.format format_maps e,
              rw (e, au_builder_start) (rw all.result),
              all.written,
            )
      ]

  -- `au_builder_post_process` rewrites the header, for the number of bytes that were handled, and
  -- leaves everything behind it.
  pub au_builder_post_process_lem :
      (count : ℕ) (c : Context) (w : os.World)
      → c.interrupted ≡ false
      → 24 + patience w < fuel
      → (w' : os.World) × (au_builder_post_process pcm fuel count (c, w) ≡ (ok tt, (c, w')))
        × (contents w' ≡ header_of c count ++ drop 24 (contents w))
  unfolding au_builder_post_process
  au_builder_post_process_lem count c w hi hf =
      let (w₁, e₁, p₁, o₁, q₁) = container_seek_offset_lem file 0 c w (omega arith) in
      let all = write_container_header_lem count c w₁ hi (omega arith) in
      (all.after, rw (e₁, all.result), all.written ∙ rw (p₁, o₁, length-build_container_header))
