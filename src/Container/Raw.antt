-- ===== src/Container/Raw.antt =====
-- axfer/container-raw.c: raw frames, with no header.
use alsa_utils.Common.{◌==◌, if◌then◌else◌}
use alsa_utils.Common.Words.{u64, u64_max}
use alsa_utils.Axfer.Os.{Os, CallResult, value, error, other}
use alsa_utils.Axfer.Context.{Params, M, pure, throw}

module _ ⦃os : Os⦄ where
  pub raw_builder_pre_process : Params → M Params
  raw_builder_pre_process params = pure (record params { byte_count = u64_max })

  -- A size of 0 stands for "unknown". The error of fstat(2) is handed over as it is: -1.
  pub raw_size : Params → CallResult → M Params
  raw_size params (error e) = throw (other 1)
  raw_size params (value size) =
      pure (record params { byte_count = if u64 size == 0 then u64_max else u64 size })

  pub raw_parser_pre_process : Params → M Params
  raw_parser_pre_process params s =
      if s.0.stdio
      then (pure (record params { byte_count = u64_max }) s)
      else (raw_size params (os.fstat_size s.1) s)
