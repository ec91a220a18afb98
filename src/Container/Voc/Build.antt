-- ===== src/Container/Voc/Build.antt =====
-- axfer/container-voc.c: the builder.
pub mod Sizes
use alsa_utils.Common.{
  ℕ, ◌+◌, ◌*◌, ◌%◌, Bool, true, false, not, ◌&&◌, ◌||◌, Option, none, some, List, [], ◌∷◌, ◌++◌,
  take, drop, ltb, ◌==◌, if◌then◌else◌,
}
use alsa_utils.Common.Words.{u32, u64, sub_u32, sub_u64, le16_bytes, le32_bytes}
use alsa_utils.Axfer.Pcm.{Format, Pcm, int_div8, format_eq}
use alsa_utils.Axfer.Os.{Os, einval}
use alsa_utils.Axfer.Context.{
  Params, VocBuilder, Private, voc_builder, M, pure, throw, get, put, defined, ◌>>=◌, ◌>>◌,
  bind_result,
}
use alsa_utils.Container.Io.{container_recursive_write, container_seek_offset}
use alsa_utils.Container.Voc.{
  voc_magic, voc_version_1_10, voc_version_1_20, block_type_terminator, block_type_v110_data,
  block_type_extended_v110_format, block_type_v120_data, FormatMap, format_maps, TimeConst,
  v110_time_consts, ex_v110_time_consts, build_block_data_size, code_of_rate, Checked,
  build_time_constant,
}

-- `private_data` as it is allocated: zeros.
abbrev pub voc_builder_of : Private → VocBuilder
voc_builder_of (voc_builder st) = st
voc_builder_of p = record {
  version = 0;
  extended = false;
  code_id = 0;
  samples_per_frame = 0;
  bytes_per_sample = 0;
}

-- `struct container_header`. `~version` is taken in 32 bits, and the sum is cut to 16.
pub header_bytes : VocBuilder → List ℕ
header_bytes st =
    voc_magic
    ++ (le16_bytes 26
        ++ (le16_bytes st.version ++ le16_bytes (u32 (0x1234 + sub_u32 4294967295 st.version))))

-- The four bytes that are reserved keep what the union held before: a part of the magic.
pub v120_block_bytes : VocBuilder → ℕ → ℕ → List ℕ
v120_block_bytes st frames_per_second byte_count =
    block_type_v120_data
    ∷ (build_block_data_size (12 + byte_count)
        ++ (le32_bytes frames_per_second
            ++ (st.bytes_per_sample * 8 % 256
                ∷ st.samples_per_frame % 256
                ∷ (le16_bytes st.code_id ++ take 4 (drop 12 voc_magic)))))

pub extended_v110_block_bytes : VocBuilder → ℕ → List ℕ
extended_v110_block_bytes st time_const =
    block_type_extended_v110_format
    ∷ (build_block_data_size 4
        ++ (le16_bytes time_const
            ++ (st.code_id % 256 ∷ (if st.samples_per_frame == 1 then 0 else 1) ∷ [])))

pub v110_block_bytes : VocBuilder → ℕ → ℕ → List ℕ
v110_block_bytes st time_const byte_count =
    block_type_v110_data
    ∷ (build_block_data_size (2 + byte_count) ++ (time_const % 256 ∷ st.code_id % 256 ∷ []))

pub map_of_format : Format → List FormatMap → Option FormatMap
map_of_format f [] = none
map_of_format f (m ∷ maps) = if format_eq m.format f then some m else map_of_format f maps

-- Whether a rate stands in a table.
abbrev pub has_rate : ℕ → List TimeConst → Bool
has_rate rate t = elim (code_of_rate rate t) [ none ↦ false | some k ↦ true ]

-- `Decide container version`: the version, and whether the extended block is written.
unfoldable pub decide_version : ℕ → ℕ → ℕ → ℕ × Bool
decide_version minimal_version samples_per_frame frames_per_second =
    if ltb 2 samples_per_frame || not (minimal_version == voc_version_1_10)
    then (if ltb 2 samples_per_frame then voc_version_1_20 else minimal_version, false)
    else if samples_per_frame == 2
    then (if has_rate frames_per_second ex_v110_time_consts
        then (voc_version_1_10, true)
        else (voc_version_1_20, false))
    else (if has_rate frames_per_second v110_time_consts
        then (voc_version_1_10, false)
        else (voc_version_1_20, false))

-- Where the size of the data block stands in the file, and what it counts besides the frames.
abbrev pub size_offset : VocBuilder → ℕ
size_offset st = if st.version == voc_version_1_10 && st.extended then 35 else 27

abbrev pub size_extra : VocBuilder → ℕ
size_extra st = if st.version == voc_version_1_10 then 2 else 12

abbrev pub data_size : ℕ → ℕ → ℕ → ℕ
data_size max_size extra byte_count =
    if ltb (sub_u64 max_size extra) byte_count then max_size else u64 (byte_count + extra)

module _ ⦃os : Os⦄ (pcm : Pcm) (fuel : ℕ) where
  abbrev pub get_state : M VocBuilder
  get_state = do c ← get; pure (voc_builder_of c.private_data)

  abbrev pub time_constant : Checked → M ℕ
  time_constant none = do defined false; pure 0
  time_constant (some none) = throw einval
  time_constant (some (some k)) = pure k

  pub write_container_header : M (Unit {0})
  write_container_header = do st ← get_state; container_recursive_write fuel (header_bytes st)

  pub write_v120_format_block : ℕ → ℕ → M (Unit {0})
  write_v120_format_block frames_per_second byte_count = do
    st ← get_state
    container_recursive_write fuel (v120_block_bytes st frames_per_second byte_count)

  pub write_extended_v110_format_block : ℕ → M (Unit {0})
  write_extended_v110_format_block frames_per_second = do
    st ← get_state
    code ← time_constant (build_time_constant frames_per_second st.samples_per_frame true)
    container_recursive_write fuel (extended_v110_block_bytes st code)

  pub write_v110_format_block : ℕ → ℕ → M (Unit {0})
  write_v110_format_block frames_per_second byte_count = do
    st ← get_state
    code ← time_constant (build_time_constant frames_per_second 1 false)
    container_recursive_write fuel (v110_block_bytes st code byte_count)

  pub write_v110_blocks : Bool → ℕ → ℕ → M (Unit {0})
  write_v110_blocks false frames_per_second byte_count =
      write_v110_format_block frames_per_second byte_count
  write_v110_blocks true frames_per_second byte_count = do
    write_extended_v110_format_block frames_per_second
    write_v110_format_block frames_per_second byte_count

  pub write_data_blocks : ℕ → ℕ → M (Unit {0})
  write_data_blocks frames_per_second byte_count = do
    st ← get_state
    write_container_header
    if st.version == voc_version_1_20
        then write_v120_format_block frames_per_second byte_count
        else write_v110_blocks st.extended frames_per_second byte_count

  pub voc_builder_start : Params → Option FormatMap → M Params
  voc_builder_start params none = throw einval
  voc_builder_start params (some m) = do
    c ← get
    let (version, extended) =
        decide_version m.minimal_version params.samples_per_frame params.frames_per_second
    put (record c {
      private_data = voc_builder (record {
        version = version;
        extended = extended;
        code_id = m.code_id;
        samples_per_frame = params.samples_per_frame;
        bytes_per_sample = int_div8 (pcm.physical_width params.format);
      });
    })
    write_data_blocks params.frames_per_second params.byte_count
    pure params

  pub voc_builder_pre_process : Params → M Params
  voc_builder_pre_process params =
      voc_builder_start params (map_of_format params.format format_maps)

  pub write_block_terminator : M (Unit {0})
  write_block_terminator = container_recursive_write fuel (block_type_terminator ∷ [])

  pub write_data_size : ℕ → M (Unit {0})
  write_data_size byte_count = do
    c ← get
    let st = voc_builder_of c.private_data
    container_seek_offset (size_offset st)
    container_recursive_write fuel
        (build_block_data_size (data_size c.max_size (size_extra st) byte_count))

  pub voc_builder_post_process : ℕ → M (Unit {0})
  voc_builder_post_process handled_byte_count = do
    write_block_terminator
    write_data_size handled_byte_count
