-- ===== src/Container/Transfer.antt =====
-- axfer/container.c: what a container does before, for, and after the transfer of frames.
-- The formats are dispatched on as `cntr->ops` does. `junk` stands for uninitialised locals.
pub mod Frames
pub mod Limits
use alsa_utils.Common.{
  ℕ, ◌+◌, ◌-◌, ◌*◌, ◌/◌, Bool, true, false, not, ◌&&◌, ◌||◌, List, ◌++◌, length, take, drop, ltb,
  leb, ◌==◌, if◌then◌else◌,
}
use alsa_utils.Common.Words.{u32, u64, sub_u32, sub_u64}
use alsa_utils.Axfer.Pcm.{Format, unknown, Pcm, int_div8, format_eq}
use alsa_utils.Axfer.Os.{Os, einval}
use alsa_utils.Axfer.Context.{
  ContainerType, parser, builder, ContainerFormat, riff_wave, au, voc, raw, Params, Context, Res,
  ok, err, abort, fault, stuck, State, M, pure, get, put, assert, require, defined, ◌>>=◌, ◌>>◌,
  bind_result,
}
use alsa_utils.Container.Io.{container_recursive_read, container_recursive_write}
use alsa_utils.Container.Au.{au_parser_pre_process, au_builder_pre_process, au_builder_post_process}
use alsa_utils.Container.RiffWave.Parse.{wave_parser_pre_process}
use alsa_utils.Container.RiffWave.Build.{wave_builder_pre_process, wave_builder_post_process}
use alsa_utils.Container.Voc.Parse.{voc_parser_pre_process}
use alsa_utils.Container.Voc.Build.{voc_builder_pre_process, voc_builder_post_process}
use alsa_utils.Container.Raw.{raw_builder_pre_process, raw_parser_pre_process}

abbrev pub is_raw : ContainerFormat → Bool
is_raw raw = true
is_raw f = false

abbrev pub is_builder : ContainerType → Bool
is_builder builder = true
is_builder parser = false

-- Whether `cntr->ops->post_process` is set.
abbrev pub has_post_process : ContainerType → ContainerFormat → Bool
has_post_process k f = is_builder k && not (is_raw f)

-- A raw file has no header, so all parameters have to be given.
abbrev pub is_complete : ContainerFormat → Params → Bool
is_complete f p = not (
    is_raw f
    && (format_eq p.format unknown || (p.samples_per_frame == 0 || p.frames_per_second == 0)))

-- The four bytes that were read to detect the format are frames, if no format was detected.
pub takes_magic : Context → Bool
takes_magic c = is_raw c.format && (not (is_builder c.kind) && not c.magic_handled)

-- The limit on the bytes of one call.
pub limited : Context → ℕ → ℕ
limited c byte_count =
    if ltb (sub_u64 c.max_size byte_count) c.handled_byte_count
    then u32 (sub_u64 c.max_size c.handled_byte_count)
    else byte_count

module _ ⦃os : Os⦄ (pcm : Pcm) (fuel : ℕ) where
  -- `cntr->ops->pre_process`
  pub ops_pre_process : ContainerType → ContainerFormat → List ℕ → Params → M Params
  ops_pre_process parser riff_wave junk p = wave_parser_pre_process pcm fuel p
  ops_pre_process parser au junk p = au_parser_pre_process pcm fuel junk p
  ops_pre_process parser voc junk p = voc_parser_pre_process fuel junk p
  ops_pre_process parser raw junk p = raw_parser_pre_process p
  ops_pre_process builder riff_wave junk p = wave_builder_pre_process pcm fuel p
  ops_pre_process builder au junk p = au_builder_pre_process pcm fuel p
  ops_pre_process builder voc junk p = voc_builder_pre_process pcm fuel p
  ops_pre_process builder raw junk p = raw_builder_pre_process p

  -- `cntr->ops->post_process`; the formats without one do nothing.
  pub ops_post_process : ContainerType → ContainerFormat → ℕ → M (Unit {0})
  ops_post_process builder riff_wave n = wave_builder_post_process pcm fuel n
  ops_post_process builder au n = au_builder_post_process pcm fuel n
  ops_post_process builder voc n = voc_builder_post_process pcm fuel n
  ops_post_process builder raw n = pure tt
  ops_post_process parser f n = pure tt

  -- The part behind `ops->pre_process`, for a file that goes on. The answer has the number of frames.
  pub set_parameters : Params → M (Params × ℕ)
  set_parameters p = do
    c ← get
    require (is_complete c.format p) einval
    assert (pcm.in_range p.format)
    assert (ltb 0 p.samples_per_frame)
    assert (ltb 0 p.frames_per_second)
    assert (ltb 0 p.byte_count)
    let bytes_per_sample = int_div8 (pcm.physical_width p.format)
    let bytes_per_frame = u32 (bytes_per_sample * p.samples_per_frame)
    defined (ltb 0 bytes_per_frame)
    put (record c {
      bytes_per_sample = bytes_per_sample;
      samples_per_frame = p.samples_per_frame;
      frames_per_second = p.frames_per_second;
      max_size = c.max_size - c.max_size / bytes_per_frame;
    })
    pure (p, p.byte_count / bytes_per_frame)

  -- `frame_count` is what the caller's variable holds before; it stays at the end of the file.
  pub container_context_pre_process : List ℕ → Params → ℕ → M (Params × ℕ)
  container_context_pre_process junk params frame_count = do
    c ← get
    let byte_count = if is_builder c.kind then c.max_size else 0
    p ← ops_pre_process c.kind c.format junk (record params { byte_count = byte_count })
    c' ← get
    if c'.eof then pure (p, frame_count) else set_parameters p

  -- `cntr->process_bytes` on the buffer from index `at` on, for `count` bytes. The answer is the
  -- buffer afterwards. A request that reaches past its end is taken as undefined.
  pub process_bytes : ContainerType → ℕ → ℕ → List ℕ → M (List ℕ)
  process_bytes parser at count buf = do
    defined (leb (at + count) (length buf))
    bs ← container_recursive_read fuel count
    pure (take at buf ++ (bs ++ drop (at + length bs) buf))
  process_bytes builder at count buf = do
    defined (leb (at + count) (length buf))
    container_recursive_write fuel (take count (drop at buf))
    pure buf

  -- The part behind the transfer.
  pub count_bytes : ℕ → ℕ → List ℕ → M (List ℕ × ℕ)
  count_bytes target bytes_per_frame buf = do
    c ← get
    let handled = u64 (c.handled_byte_count + target)
    put (record c { handled_byte_count = handled; eof = handled == c.max_size || c.eof })
    defined (ltb 0 bytes_per_frame)
    pure (buf, target / bytes_per_frame)

  -- The magic at the front of the buffer.
  pub put_magic : List ℕ → M (List ℕ)
  put_magic buf = do
    c ← get
    defined (leb 4 (length buf))
    put (record c { magic_handled = true })
    pure (take 4 c.magic ++ drop 4 buf)

  -- The answer has the buffer and the number of frames. Where an error is returned, the number that
  -- the caller gets is 0.
  pub container_context_process_frames : List ℕ → ℕ → M (List ℕ × ℕ)
  container_context_process_frames buf frame_count = do
    c ← get
    assert (not c.eof)
    let bytes_per_frame = u32 (c.bytes_per_sample * c.samples_per_frame)
    let target = u32 (frame_count * bytes_per_frame)
    let at = if takes_magic c then 4 else 0
    let count = limited c (sub_u32 target at)
    buf' ← (if takes_magic c then put_magic buf else pure buf)
    buf'' ← process_bytes c.kind at count buf'
    count_bytes target bytes_per_frame buf''

  abbrev pub sync : ContainerType → State → State
  sync builder (c, w) = (c, os.fsync w)
  sync parser s = s

  -- `fsync` is called whether or not the format's part failed.
  abbrev pub sync_after : ContainerType → Res (Unit {0}) × State → Res (Unit {0}) × State
  sync_after kind (ok u, s) = (ok u, sync kind s)
  sync_after kind (err e, s) = (err e, sync kind s)
  sync_after kind (r, s) = (r, s)

  -- The format's part runs also after an interrupt, and not on a standard stream.
  pub post_process : M (Unit {0})
  post_process (c, w) =
      if not c.stdio && has_post_process c.kind c.format
      then (ops_post_process c.kind c.format c.handled_byte_count
          (record c { interrupted = false }, w))
      else (ok tt, (c, w))

  -- The answer is the number of frames.
  pub container_context_post_process : M ℕ
  container_context_post_process s = bind_result (sync_after (s.0.kind) (post_process s)) λ _. do
    c ← get
    pure (
        if c.bytes_per_sample == 0 || c.samples_per_frame == 0
        then 0
        else c.handled_byte_count / c.bytes_per_sample / c.samples_per_frame)
