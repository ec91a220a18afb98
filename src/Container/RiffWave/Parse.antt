-- ===== src/Container/RiffWave/Parse.antt =====
-- axfer/container-riff-wave.c: the parser. `fuel` bounds the rounds of each of its loops.
pub mod Ends
use alsa_utils.Common.{
  ℕ, zero, suc, ◌+◌, ◌-◌, ◌*◌, ◌/◌, Bool, true, false, not, ◌&&◌, Option, none, some, List, [], ◌∷◌,
  ◌++◌, length, take, drop, replicate, ltb, leb, ◌==◌, if◌then◌else◌, bytes_eq,
}
use alsa_utils.Common.Words.{u32}
use alsa_utils.Axfer.Pcm.{Format, Pcm, CInt, pos, int_eq}
use alsa_utils.Axfer.Os.{Os, einval}
use alsa_utils.Axfer.Context.{
  Params, Context, WaveParser, Private, wave_parser, ok, stuck, M, pure, throw, get, put, require,
  defined, ◌>>=◌, ◌>>◌, bind_result,
}
use alsa_utils.Container.Io.{container_recursive_read}
use alsa_utils.Container.RiffWave.{
  riff_chunk_id_le, riff_chunk_id_be, riff_form_wave, fmt_subchunk_id, data_subchunk_id, FormatMap,
  format_maps, field16, field32, to_int,
}

-- `private_data` as it is allocated: zeros.
abbrev pub zero_parser : WaveParser
zero_parser = record {
  be = false;
  format = 0;
  samples_per_frame = 0;
  frames_per_second = 0;
  average_bytes_per_second = 0;
  bytes_per_frame = 0;
  avail_bits_in_sample = 0;
  byte_count = 0;
}

abbrev pub wave_parser_of : Private → WaveParser
wave_parser_of (wave_parser st) = st
wave_parser_of p = zero_parser

-- Bytes that are read to the start of a buffer, or behind its first `at` bytes.
abbrev pub overlay : List ℕ → List ℕ → List ℕ
overlay bs buf = bs ++ drop (length bs) buf

abbrev pub overlay_at : ℕ → List ℕ → List ℕ → List ℕ
overlay_at at bs buf = take at buf ++ overlay bs (drop at buf)

-- `subchunk_type`
pub data SubchunkType : Type 0 where
  unknown fmt data_frames : SubchunkType

abbrev pub subchunk_type : List ℕ → SubchunkType
subchunk_type id =
    if bytes_eq id fmt_subchunk_id
    then fmt
    else if bytes_eq id data_subchunk_id
    then data_frames
    else unknown

-- The byte order that the identifier of the chunk stands for.
abbrev pub chunk_order : List ℕ → Option Bool
chunk_order id =
    if bytes_eq id riff_chunk_id_be
    then some true
    else if bytes_eq id riff_chunk_id_le
    then some false
    else none

-- The fields of `fmt_subchunk` in the order that the chunk has.
abbrev pub fmt_fields : WaveParser → List ℕ → WaveParser
fmt_fields st buf = record st {
  format = field16 st.be buf 8;
  samples_per_frame = field16 st.be buf 10;
  frames_per_second = field32 st.be buf 12;
  average_bytes_per_second = field32 st.be buf 16;
  bytes_per_frame = field16 st.be buf 20;
  avail_bits_in_sample = field16 st.be buf 22;
}

-- The search of `format_maps`. `phys_width` is an `unsigned int` that is stored in an `int`.
unfoldable pub find_format : Pcm → WaveParser → ℕ → List FormatMap → Option Format
find_format pcm st phys_width [] = none
find_format pcm st phys_width ((k, f) ∷ maps) =
    if k == st.format
      && (int_eq (to_int st.avail_bits_in_sample) (pcm.width f)
          && (int_eq (to_int phys_width) (pcm.physical_width f)
              && not (st.be && not (int_eq (pcm.big_endian f) (pos 1)))))
    then some f
    else find_format pcm st phys_width maps

module _ ⦃os : Os⦄ where
  unfoldable pub wave_subchunk_next : (List ℕ → M (Unit {0})) → Bool × List ℕ → M (Unit {0})
  wave_subchunk_next more (true, buf) = pure tt
  wave_subchunk_next more (false, buf) = more buf

module _ ⦃os : Os⦄ (pcm : Pcm) (fuel : ℕ) where
  abbrev pub get_state : M WaveParser
  get_state = do c ← get; pure (wave_parser_of c.private_data)

  abbrev pub put_state : WaveParser → M (Unit {0})
  put_state st = do c ← get; put (record c { private_data = wave_parser st })

  unfoldable pub set_order : Option Bool → M (Unit {0})
  set_order none = throw einval
  set_order (some be) = do st ← get_state; put_state (record st { be = be })

  -- The size of the chunk is read here, and nothing uses it.
  unfoldable pub parse_riff_chunk_header : List ℕ → M (Unit {0})
  parse_riff_chunk_header chunk = set_order (chunk_order (take 4 chunk))

  -- The second half of `parse_riff_chunk`, on the buffer with the header of the chunk.
  unfoldable pub parse_riff_chunk_data : List ℕ → M (Unit {0})
  parse_riff_chunk_data buf = do
    parse_riff_chunk_header buf
    form ← container_recursive_read fuel 4
    c ← get
    if c.eof then pure tt else require (bytes_eq (take 4 (overlay form buf)) riff_form_wave) einval

  unfoldable pub parse_riff_chunk : M (Unit {0})
  parse_riff_chunk = do
    c ← get
    size ← container_recursive_read fuel 4
    c' ← get
    let buf = overlay_at 4 size (take 4 c.magic ++ replicate 4 0)
    if c'.eof then pure tt else parse_riff_chunk_data buf

  unfoldable pub parse_wave_fmt_subchunk : List ℕ → M (Unit {0})
  parse_wave_fmt_subchunk buf = do
    st ← get_state
    put_state (fmt_fields st buf)
    st' ← get_state
    require (st'.average_bytes_per_second == u32 (st'.bytes_per_frame * st'.frames_per_second))
        einval

  unfoldable pub parse_wave_data_subchunk : List ℕ → M (Unit {0})
  parse_wave_data_subchunk buf = do
    st ← get_state
    put_state (record st { byte_count = field32 st.be buf 4 })

  -- `while (subchunk_data_size > 0)`: the buffer is used as a bin of 24 bytes. The answer says
  -- whether the file ended, and what the buffer then holds. `more` is the rest of the loop.
  pub skip_round : (ℕ → List ℕ → M (Bool × List ℕ)) → ℕ → List ℕ → M (Bool × List ℕ)
  skip_round more size buf = do
    let consume = if ltb 24 size then 24 else size
    bs ← container_recursive_read fuel consume
    c ← get
    if c.eof then pure (true, overlay bs buf) else more (size - consume) (overlay bs buf)

  unfoldable pub skip_data : ℕ → ℕ → List ℕ → M (Bool × List ℕ)
  skip_data zero size buf s = (stuck, s)
  skip_data (suc rounds) size buf s = elim (ltb 0 size) [
    | true ↦ skip_round (skip_data rounds) size buf s
    | false ↦ (ok (false, buf), s)
  ]

  -- A subchunk whose known part was read, with `rest` bytes more. Frame data ends the outer loop.
  unfoldable pub handle_subchunk : SubchunkType → ℕ → List ℕ → M (Bool × List ℕ)
  handle_subchunk fmt rest buf = do parse_wave_fmt_subchunk buf; skip_data fuel rest buf
  handle_subchunk data_frames rest buf = do parse_wave_data_subchunk buf; pure (true, buf)
  handle_subchunk unknown rest buf = skip_data fuel rest buf

  -- What follows on the header of a subchunk: the answer says whether the outer loop ends.
  unfoldable pub parse_known_subchunk : SubchunkType → ℕ → ℕ → List ℕ → M (Bool × List ℕ)
  parse_known_subchunk kind required_size size buf = do
    require (leb required_size size) einval
    body ← container_recursive_read fuel required_size
    c ← get
    let buf' = overlay_at 8 body buf
    if c.eof then pure (true, buf') else handle_subchunk kind (size - required_size) buf'

  unfoldable pub parse_subchunk_data : SubchunkType → ℕ → List ℕ → M (Bool × List ℕ)
  parse_subchunk_data fmt size buf = parse_known_subchunk fmt 16 size buf
  parse_subchunk_data data_frames size buf = parse_known_subchunk data_frames 0 size buf
  parse_subchunk_data unknown size buf = skip_data fuel size buf

  -- One round of `while (1)`: the answer says whether it is the last.
  unfoldable pub parse_subchunk : List ℕ → M (Bool × List ℕ)
  parse_subchunk buf = do
    header ← container_recursive_read fuel 8
    c ← get
    st ← get_state
    let buf' = overlay header buf
    if c.eof
        then pure (true, buf')
        else parse_subchunk_data (subchunk_type (take 4 buf')) (field32 st.be buf' 4) buf'

  unfoldable pub wave_subchunk_loop : ℕ → List ℕ → M (Unit {0})
  wave_subchunk_loop zero buf s = (stuck, s)
  wave_subchunk_loop (suc rounds) buf s =
      bind_result (parse_subchunk buf s) (wave_subchunk_next (wave_subchunk_loop rounds))

  unfoldable pub parse_wave_subchunk : M (Unit {0})
  parse_wave_subchunk = wave_subchunk_loop fuel (replicate 24 0)

  unfoldable pub parse_riff_wave_format : M (Unit {0})
  parse_riff_wave_format = do parse_riff_chunk; parse_wave_subchunk

  unfoldable pub wave_accept : WaveParser → Option Format → M Params
  wave_accept st none = throw einval
  wave_accept st (some f) = pure (record {
    format = f;
    samples_per_frame = st.samples_per_frame;
    frames_per_second = st.frames_per_second;
    byte_count = st.byte_count;
  })

  -- Both divisions are undefined by zero.
  unfoldable pub wave_parser_pre_process : Params → M Params
  wave_parser_pre_process params = do
    parse_riff_wave_format
    st ← get_state
    defined (not (st.samples_per_frame == 0))
    defined (not (st.frames_per_second == 0))
    let phys_width =
        u32 (8 * st.average_bytes_per_second) / st.samples_per_frame / st.frames_per_second
    wave_accept st (find_format pcm st phys_width format_maps)
