-- ===== src/Container/Session.antt =====
-- axfer/container.c: the detection of formats, and the initialisation of a container.
pub mod Detect
use alsa_utils.Common.{
  ℕ, ◌+◌, ◌-◌, ◌*◌, ◌/◌, Bool, true, false, not, ◌&&◌, ◌||◌, List, [], ◌∷◌, ◌++◌, length, take,
  drop, replicate, ltb, leb, ◌==◌, if◌then◌else◌, bytes_eq,
}
use alsa_utils.Common.Words.{u32, u64, sub_u32, sub_u64, u32_max, u64_max}
use alsa_utils.Axfer.Pcm.{Format, unknown, Pcm, int_div8, format_eq}
use alsa_utils.Axfer.Os.{Os, CallResult, value, error, Errno, einval, eio, enomem}
use alsa_utils.Axfer.Context.{
  ContainerType, parser, builder, ContainerFormat, riff_wave, au, voc, raw, Params, Private, null,
  Context, au_parser, au_builder, wave_parser, wave_builder, voc_parser, voc_builder, Res, ok, err,
  abort, fault, stuck, State, M, pure, throw, get, put, assert, require, defined, ◌>>=◌, ◌>>◌,
  bind_result,
}
use alsa_utils.Container.Io.{container_recursive_read, container_recursive_write}
use alsa_utils.Container.Au.{
  au_parser_pre_process, au_builder_pre_process, au_builder_post_process, au_builder_of,
}
use alsa_utils.Container.RiffWave.Parse.{wave_parser_pre_process, wave_parser_of}
use alsa_utils.Container.RiffWave.Build.{
  wave_builder_pre_process, wave_builder_post_process, wave_builder_of,
}
use alsa_utils.Container.Voc.Parse.{voc_parser_pre_process, voc_parser_of}
use alsa_utils.Container.Voc.Build.{
  voc_builder_pre_process, voc_builder_post_process, voc_builder_of,
}
use alsa_utils.Container.Raw.{raw_builder_pre_process, raw_parser_pre_process}

-- `max_size` of each parser and builder.
abbrev pub max_size_of : ContainerFormat → ℕ
max_size_of riff_wave = u32_max - 36
max_size_of au = u32_max
max_size_of voc = 0xffffff - 1
max_size_of raw = u64_max

-- The memory for the private state, which is filled with zeros.
abbrev pub private_of : ContainerType → ContainerFormat → Private
private_of parser riff_wave = wave_parser (wave_parser_of null)
private_of parser au =
    au_parser (record { code_id = 0; samples_per_frame = 0; bytes_per_sample = 0 })
private_of parser voc = voc_parser (voc_parser_of null)
private_of builder riff_wave = wave_builder (wave_builder_of null)
private_of builder au = au_builder (au_builder_of null)
private_of builder voc = voc_builder (voc_builder_of null)
private_of k raw = null

-- `private_size`: the sizes of the structures.
abbrev pub private_size : ContainerType → ContainerFormat → ℕ
private_size parser riff_wave = 36
private_size parser au = 12
private_size parser voc = 28
private_size builder riff_wave = 24
private_size builder au = 16
private_size builder voc = 20
private_size k raw = 0

-- The search of `parsers` for the first bytes of a file: at most 4 of each magic are compared.
abbrev pub detect_format : List ℕ → ContainerFormat
detect_format magic =
    if bytes_eq (take 3 magic) (b'R' ∷ b'I' ∷ b'F' ∷ [])
    then riff_wave
    else if bytes_eq (take 4 magic) (b'.' ∷ b's' ∷ b'n' ∷ b'd' ∷ [])
    then au
    else if bytes_eq (take 4 magic) (b'C' ∷ b'r' ∷ b'e' ∷ b'a' ∷ [])
    then voc
    else raw

-- `suffixes`
abbrev pub container_suffix_from_format : ContainerFormat → List ℕ
container_suffix_from_format riff_wave = b'.' ∷ b'w' ∷ b'a' ∷ b'v' ∷ []
container_suffix_from_format au = b'.' ∷ b'a' ∷ b'u' ∷ []
container_suffix_from_format voc = b'.' ∷ b'v' ∷ b'o' ∷ b'c' ∷ []
container_suffix_from_format raw = []

-- `strcmp(path + strlen(path) - strlen(suffix), suffix)`: `before` is the memory in front of the
-- path, which the comparison reads where the path is shorter than the suffix.
abbrev pub has_suffix : List ℕ → List ℕ → List ℕ → Bool
has_suffix before path suffix =
    bytes_eq (drop (length (before ++ path) - length suffix) (before ++ path)) suffix

pub container_format_from_path : List ℕ → List ℕ → ContainerFormat
container_format_from_path before path =
    if has_suffix before path (container_suffix_from_format riff_wave)
    then riff_wave
    else if has_suffix before path (container_suffix_from_format au)
    then au
    else if has_suffix before path (container_suffix_from_format voc)
    then voc
    else raw

-- `memset(cntr, 0, sizeof(*cntr))`, then `cntr->fd`.
abbrev pub cleared : ℕ → Context
cleared fd = record {
  kind = parser;
  fd = fd;
  magic_handled = false;
  eof = false;
  interrupted = false;
  stdio = false;
  format = riff_wave;
  max_size = 0;
  magic = replicate 4 0;
  private_data = null;
  bytes_per_sample = 0;
  samples_per_frame = 0;
  frames_per_second = 0;
  verbose = 0;
  handled_byte_count = 0;
}

abbrev pub is_null : Private → Bool
is_null null = true
is_null p = false

module _ ⦃os : Os⦄ where
  abbrev pub set_nonblock_result : Context → CallResult × os.World → Res (Unit {0}) × State
  set_nonblock_result c (error e, w) = (err e, (c, w))
  set_nonblock_result c (value n, w) = (ok tt, (c, w))

  abbrev pub set_flags : CallResult → State → Res (Unit {0}) × State
  set_flags (error e) s = (err e, s)
  set_flags (value flags) (c, w) = set_nonblock_result c (os.setfl_nonblock w flags)

  pub set_nonblock_flag : M (Unit {0})
  set_nonblock_flag s = set_flags (os.getfl s.1) s

  abbrev pub refuse_terminal : Bool → M (Unit {0})
  refuse_terminal stdio s = if stdio && os.isatty s.1 then (err eio, s) else (ok tt, s)

  -- `-EIO` for a terminal as standard stream, whose descriptor is `std`.
  pub container_start : ℕ → ℕ → M (Unit {0})
  container_start std fd = do
    c ← get
    assert (c.fd == 0)
    assert (is_null c.private_data)
    put (record (cleared fd) { stdio = fd == std })
    refuse_terminal (fd == std)

  -- The part that both initialisations begin with.
  pub container_begin : ℕ → ℕ → M (Unit {0})
  container_begin std fd s = bind_result (container_start std fd s) λ _. set_nonblock_flag

  -- The part that both end with, for a format that is known.
  pub container_finish : ContainerType → ContainerFormat → ℕ → M (Unit {0})
  container_finish kind format verbose s =
      if ltb 0 (private_size kind format) && os.malloc_fails s.1 (private_size kind format)
      then (err enomem, s)
      else (
        ok tt,
        (
          record (s.0) {
            kind = kind;
            format = format;
            private_data = private_of kind format;
            max_size = max_size_of format;
            verbose = verbose;
          },
          s.1,
        ),
      )

  module _ (fuel : ℕ) where
    pub container_parser_init : ℕ → ℕ → M (Unit {0})
    container_parser_init fd verbose = do
      container_begin 0 fd
      magic ← container_recursive_read fuel 4
      c ← get
      put (record c { magic = magic ++ drop (length magic) c.magic; magic_handled = false })
      c' ← get
      container_finish parser (detect_format c'.magic) verbose

  pub container_builder_init : ℕ → ContainerFormat → ℕ → M (Unit {0})
  container_builder_init fd format verbose = do
    container_begin 1 fd
    container_finish builder format verbose

  pub container_context_destroy : M (Unit {0})
  container_context_destroy = do c ← get; put (record c { fd = 0; private_data = null })
