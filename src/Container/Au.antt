-- ===== src/Container/Au.antt =====
-- axfer/container-au.c: the parser and the builder of Sun audio files.
-- `fuel` bounds the rounds of each read and write (`Io`).
pub mod Build
pub mod RoundTrip
use alsa_utils.Common.{
  ℕ, ◌+◌, Bool, true, false, Option, none, some, List, [], ◌∷◌, ◌++◌, length, take, drop, ◌==◌,
  if◌then◌else◌, bytes_eq,
}
use alsa_utils.Common.Words.{be32_bytes, be32_at}
use alsa_utils.Axfer.Pcm.{
  Format, s8, s16_be, s32_be, float_be, float64_be, a_law, mu_law, Pcm, format_eq, int_div8,
}
use alsa_utils.Axfer.Os.{Os, einval}
use alsa_utils.Axfer.Context.{
  Params, AuParser, AuBuilder, Private, null, au_parser, au_builder, M, pure, throw, get, put,
  require, ◌>>=◌, ◌>>◌, bind_result,
}
use alsa_utils.Container.Io.{
  container_recursive_read, container_recursive_write, container_seek_offset,
}

-- ".snd"
abbrev pub au_magic : List ℕ
au_magic = b'.' ∷ b's' ∷ b'n' ∷ b'd' ∷ []

abbrev pub FormatMap : Type 0
FormatMap = ℕ × Format

-- `format_maps`: the code of the file and the sample format.
abbrev pub format_maps : List FormatMap
format_maps =
    (0x02, s8)
    ∷ (0x03, s16_be)
    ∷ (0x05, s32_be)
    ∷ (0x06, float_be)
    ∷ (0x07, float64_be)
    ∷ (0x1b, a_law)
    ∷ (0x01, mu_law)
    ∷ []

-- The two searches of `format_maps`.
pub format_of_code : ℕ → List FormatMap → Option Format
format_of_code code [] = none
format_of_code code ((k, f) ∷ maps) = if k == code then some f else format_of_code code maps

unfoldable pub code_of_format : Format → List FormatMap → Option ℕ
code_of_format f [] = none
code_of_format f ((k, g) ∷ maps) = if format_eq g f then some k else code_of_format f maps

-- The bytes of `struct container_header`, 24 in all.
unfoldable pub build_container_header : AuBuilder → ℕ → ℕ → List ℕ
build_container_header state frames_per_second byte_count =
    au_magic
    ++ (be32_bytes 24
        ++ (be32_bytes byte_count
            ++ (be32_bytes state.code_id
                ++ (be32_bytes frames_per_second ++ be32_bytes state.samples_per_frame))))

-- `private_data`, which the initialisation fills with zeros.
pub au_builder_of : Private → AuBuilder
au_builder_of (au_builder st) = st
au_builder_of p = record {
  bytes_per_sample = 0;
  samples_per_frame = 0;
  frames_per_second = 0;
  code_id = 0;
}

module _ ⦃os : Os⦄ (pcm : Pcm) (fuel : ℕ) where
  -- The part behind the search of `format_maps` for `code`.
  pub au_accept : List ℕ → ℕ → Option Format → M Params
  au_accept header code none = throw einval
  au_accept header code (some f) = do
    c ← get
    put (record c {
      private_data = au_parser (record {
        code_id = code;
        samples_per_frame = be32_at header 20;
        bytes_per_sample = int_div8 (pcm.physical_width f);
      });
    })
    pure (record {
      format = f;
      samples_per_frame = be32_at header 20;
      frames_per_second = be32_at header 16;
      byte_count = be32_at header 8;
    })

  -- The part behind the reading of the header.
  pub au_check_header : List ℕ → M Params
  au_check_header header = do
    require (bytes_eq (take 4 header) au_magic) einval
    require (be32_at header 4 == 24) einval
    au_accept header (be32_at header 12) (format_of_code (be32_at header 12) format_maps)

  -- `junk` is what the uninitialised `header` holds on the stack: a read that is interrupted
  -- leaves the end of it.
  pub au_parser_pre_process : List ℕ → Params → M Params
  au_parser_pre_process junk params = do
    c ← get
    body ← container_recursive_read fuel 20
    c' ← get
    let header = take 4 c.magic ++ (body ++ drop (4 + length body) junk)
    if c'.eof then pure params else au_check_header header

  pub write_container_header : ℕ → M (Unit {0})
  write_container_header byte_count = do
    c ← get
    let state = au_builder_of c.private_data
    container_recursive_write fuel (build_container_header state state.frames_per_second byte_count)

  pub au_builder_start : Params → Option ℕ → M Params
  au_builder_start params none = throw einval
  au_builder_start params (some code) = do
    c ← get
    put (record c {
      private_data = au_builder (record {
        code_id = code;
        bytes_per_sample = int_div8 (pcm.physical_width params.format);
        frames_per_second = params.frames_per_second;
        samples_per_frame = params.samples_per_frame;
      });
    })
    write_container_header params.byte_count
    pure params

  pub au_builder_pre_process : Params → M Params
  au_builder_pre_process params = au_builder_start params (code_of_format params.format format_maps)

  pub au_builder_post_process : ℕ → M (Unit {0})
  au_builder_post_process handled_byte_count = do
    container_seek_offset 0
    write_container_header handled_byte_count
