-- ===== src/Container/Voc/Parse.antt =====
-- axfer/container-voc.c: the parser. `fuel` bounds the rounds of each of its loops.
pub mod Blocks
use alsa_utils.Common.{
  ℕ, zero, suc, ◌+◌, ◌-◌, ◌/◌, Bool, true, false, not, ◌&&◌, ◌||◌, Option, none, some, List, [],
  ◌∷◌, ◌++◌, length, take, drop, replicate, leb, ◌==◌, if◌then◌else◌, bytes_eq,
}
use alsa_utils.Common.Words.{u32, sub_u32, byte_at, le16_at, le32_at}
use alsa_utils.Axfer.Pcm.{Format}
use alsa_utils.Axfer.Os.{Os, einval, eio, enomem}
use alsa_utils.Axfer.Context.{
  Params, VocParser, Private, voc_parser, ok, stuck, State, Res, M, pure, throw, get, put, require,
  defined, ◌>>=◌, ◌>>◌, bind_result,
}
use alsa_utils.Container.Io.{container_recursive_read}
use alsa_utils.Container.Voc.{
  voc_magic, voc_version_1_10, voc_version_1_20, block_type_terminator, block_type_v110_data,
  block_type_continuous_data, block_type_extended_v110_format, block_type_v120_data, FormatMap,
  format_maps, parse_block_data_size, Checked, parse_time_constant, check_code_id,
}

-- `private_data` as it is allocated: zeros.
abbrev pub zero_parser : VocParser
zero_parser = record {
  version = 0;
  extended = false;
  frames_per_second = 0;
  samples_per_frame = 0;
  bytes_per_sample = 0;
  code_id = 0;
  byte_count = 0;
}

abbrev pub voc_parser_of : Private → VocParser
voc_parser_of (voc_parser st) = st
voc_parser_of p = zero_parser

-- `0x1234 + ~version`, in an `int`, for a 16-bit version. It is never negative for the versions
-- that exist, and the comparison with a 16-bit field fails where it is.
abbrev pub complement_matches : ℕ → ℕ → Bool
complement_matches version version_compr = version_compr + version + 1 == 0x1234

-- The conditions of `parse_container_header`.
abbrev pub header_is_valid : List ℕ → Bool
header_is_valid header =
    bytes_eq (take 20 header) voc_magic
    && (le16_at header 20 == 26
        && (complement_matches (le16_at header 22) (le16_at header 24)
            && (le16_at header 22 == voc_version_1_10 || le16_at header 22 == voc_version_1_20)))

-- The fields of a v1.20 data block.
abbrev pub v120_fields : VocParser → List ℕ → VocParser
v120_fields st block = record st {
  frames_per_second = le32_at block 4;
  bytes_per_sample = byte_at block 8 / 8;
  samples_per_frame = byte_at block 9;
  code_id = le16_at block 10;
  byte_count = sub_u32 (parse_block_data_size block 1) 12;
}

-- The size that `allocate_for_block_cache` takes a block to have, by its type.
pub block_size : List ℕ → ℕ
block_size header =
    let type = byte_at header 0 in
    if type == block_type_v110_data
    then 6
    else if type == block_type_continuous_data
    then 4
    else if type == block_type_extended_v110_format
    then 8
    else if type == block_type_v120_data
    then 16
    else parse_block_data_size header 1

-- What `cache_data_block` leaves: the header of the block, and the block if there is one.
pub record Cached : Type 0 where
  pub header : List ℕ
  pub block : Option (List ℕ)

abbrev pub no_block : List ℕ → Cached
no_block header = record { header = header; block = none }

pub format_of_code : ℕ → List FormatMap → Option Format
format_of_code code [] = none
format_of_code code (m ∷ maps) =
    if m.code_id == code then some m.format else format_of_code code maps

module _ ⦃os : Os⦄ (fuel : ℕ) where
  abbrev pub get_state : M VocParser
  get_state = do c ← get; pure (voc_parser_of c.private_data)

  abbrev pub put_state : VocParser → M (Unit {0})
  put_state st = do c ← get; put (record c { private_data = voc_parser st })

  pub parse_container_header : List ℕ → M (Unit {0})
  parse_container_header header = do
    require (header_is_valid header) eio
    st ← get_state
    put_state (record st { version = le16_at header 22 })

  pub parse_v120_format_block : List ℕ → M (Unit {0})
  parse_v120_format_block block = do
    st ← get_state
    put_state (v120_fields st block)
    require (check_code_id (le16_at block 10) voc_version_1_20) eio

  -- The outcome of `parse_time_constant`, with `-EINVAL` and the division by zero.
  abbrev pub time_constant : Checked → M ℕ
  time_constant none = do defined false; pure 0
  time_constant (some none) = throw einval
  time_constant (some (some r)) = pure r

  -- `ch_mode`
  abbrev pub channels : ℕ → M ℕ
  channels mode = if mode == 0 then pure 1 else if mode == 1 then pure 2 else throw eio

  pub parse_extended_v110_format : List ℕ → M (Unit {0})
  parse_extended_v110_format block = do
    st ← get_state
    put_state (record st { code_id = byte_at block 6 })
    require (check_code_id (byte_at block 6) voc_version_1_10) eio
    n ← channels (byte_at block 7)
    st' ← get_state
    put_state (record st' { samples_per_frame = n })
    rate ← time_constant (parse_time_constant (le16_at block 4) n true)
    st'' ← get_state
    put_state (record st'' { frames_per_second = rate; extended = true })

  -- The part of `parse_v110_data` that an extended block makes void.
  pub parse_v110_format : Bool → List ℕ → M (Unit {0})
  parse_v110_format true block = pure tt
  parse_v110_format false block = do
    st ← get_state
    put_state (record st { code_id = byte_at block 5 })
    require (check_code_id (byte_at block 5) voc_version_1_10) eio
    rate ← time_constant (parse_time_constant (byte_at block 4) 1 false)
    st' ← get_state
    put_state (record st' { frames_per_second = rate; samples_per_frame = 1 })

  pub parse_v110_data : List ℕ → M (Unit {0})
  parse_v110_data block = do
    st ← get_state
    parse_v110_format st.extended block
    st' ← get_state
    put_state (record st' {
      bytes_per_sample = 1;
      byte_count = sub_u32 (parse_block_data_size block 1) 2;
    })

  pub detect_container_version : M (Unit {0})
  detect_container_version = do
    c ← get
    body ← container_recursive_read fuel 22
    c' ← get
    if c'.eof
        then pure tt
        else parse_container_header
            (take 4 c.magic ++ (body ++ drop (length body) (replicate 22 0)))

  -- The header has four bytes, which are copied to a block of `size` bytes; then the rest of the
  -- block is read. Below four bytes the copy is out of bounds.
  pub allocate_for_block_cache : List ℕ → M Cached
  allocate_for_block_cache header s =
      let size = block_size header in
      bind_result ((if os.malloc_fails s.1 size then throw enomem else pure tt) s) λ _. do
        defined (leb 4 size)
        body ← container_recursive_read fuel (size - 4)
        c ← get
        pure (record {
          header = header;
          block =
              if c.eof
              then none
              else some (header ++ (body ++ drop (length body) (replicate (size - 4) 0)));
        })

  -- The part that reads the size of a block, behind its type.
  pub cache_typed_block : List ℕ → M Cached
  cache_typed_block header = do
    size ← container_recursive_read fuel 3
    c ← get
    let header' = take 1 header ++ (size ++ drop (1 + length size) header)
    if c.eof then pure (no_block header') else allocate_for_block_cache header'

  pub check_block_type : List ℕ → M Cached
  check_block_type header = do
    require (leb (byte_at header 0) block_type_v120_data) eio
    if byte_at header 0 == block_type_terminator
        then pure (no_block header)
        else cache_typed_block header

  -- `header` is what the caller's variable holds before.
  pub cache_data_block : List ℕ → M Cached
  cache_data_block header = do
    type ← container_recursive_read fuel 1
    c ← get
    let header' = type ++ drop (length type) header
    if c.eof then pure (no_block header') else check_block_type header'

  -- The parser for the type of a cached block; the answer says whether to skip the block.
  pub parse_block : ℕ → List ℕ → M Bool
  parse_block type block =
      if type == block_type_extended_v110_format
      then (do parse_extended_v110_format block; pure false)
      else if type == block_type_v120_data
      then (do parse_v120_format_block block; pure false)
      else if type == block_type_v110_data
      then (do parse_v110_data block; pure false)
      else pure true

  pub handle_block : Cached → M Bool
  handle_block cached = elim (cached.block) [
    | none ↦ pure false
    | some block ↦ parse_block (byte_at cached.header 0) block
  ]

  -- One round from the label `again` on: the header, and whether to go back to the label.
  pub detect_round : List ℕ → M (List ℕ × Bool)
  detect_round header = do
    cached ← cache_data_block header
    skip ← handle_block cached
    pure (cached.header, skip || byte_at cached.header 0 == block_type_extended_v110_format)

  pub detect_next : (List ℕ → M (Unit {0})) → List ℕ × Bool → M (Unit {0})
  detect_next again (header, true) = again header
  detect_next again (header, false) = pure tt

  pub detect_loop : ℕ → List ℕ → M (Unit {0})
  detect_loop zero header s = (stuck, s)
  detect_loop (suc rounds) header s =
      bind_result (detect_round header s) (detect_next (detect_loop rounds))

  -- `junk` is what the uninitialised `header` holds on the stack.
  pub detect_format_block : List ℕ → M (Unit {0})
  detect_format_block junk = detect_loop fuel junk

  pub voc_accept : VocParser → Option Format → M Params
  voc_accept st none = throw einval
  voc_accept st (some f) = pure (record {
    format = f;
    samples_per_frame = st.samples_per_frame;
    frames_per_second = st.frames_per_second;
    byte_count = st.byte_count;
  })

  pub voc_parser_pre_process : List ℕ → Params → M Params
  voc_parser_pre_process junk params = do
    detect_container_version
    detect_format_block junk
    st ← get_state
    voc_accept st (format_of_code st.code_id format_maps)
