-- ===== src/Axfer/Context.antt =====
-- axfer/container.h: the state of a container, and the monad that its functions run in.
use alsa_utils.Common.{ℕ, Bool, true, false, List}
use alsa_utils.Axfer.Pcm.{Format}
use alsa_utils.Axfer.Os.{Os, Errno}

-- `enum container_type`
pub data ContainerType : Type 0 where
  parser builder : ContainerType

-- `enum container_format`
pub data ContainerFormat : Type 0 where
  riff_wave au voc raw : ContainerFormat

-- What a `pre_process` takes and returns through pointers.
pub record Params : Type 0 where
  pub format : Format
  pub samples_per_frame : ℕ
  pub frames_per_second : ℕ
  pub byte_count : ℕ

-- `struct parser_state` of container-au.c
pub record AuParser : Type 0 where
  pub code_id : ℕ
  pub samples_per_frame : ℕ
  pub bytes_per_sample : ℕ

-- `struct builder_state` of container-au.c
pub record AuBuilder : Type 0 where
  pub bytes_per_sample : ℕ
  pub samples_per_frame : ℕ
  pub frames_per_second : ℕ
  pub code_id : ℕ

-- `struct parser_state` of container-riff-wave.c, where `bytes_per_sample` is never used.
pub record WaveParser : Type 0 where
  pub be : Bool
  pub format : ℕ
  pub samples_per_frame : ℕ
  pub frames_per_second : ℕ
  pub average_bytes_per_second : ℕ
  pub bytes_per_frame : ℕ
  pub avail_bits_in_sample : ℕ
  pub byte_count : ℕ

-- `struct builder_state` of container-riff-wave.c
pub record WaveBuilder : Type 0 where
  pub be : Bool
  pub format : ℕ
  pub avail_bits_in_sample : ℕ
  pub bytes_per_sample : ℕ
  pub samples_per_frame : ℕ
  pub frames_per_second : ℕ

-- `struct parser_state` of container-voc.c
pub record VocParser : Type 0 where
  pub version : ℕ
  pub extended : Bool
  pub frames_per_second : ℕ
  pub samples_per_frame : ℕ
  pub bytes_per_sample : ℕ
  pub code_id : ℕ
  pub byte_count : ℕ

-- `struct builder_state` of container-voc.c
pub record VocBuilder : Type 0 where
  pub version : ℕ
  pub extended : Bool
  pub code_id : ℕ
  pub samples_per_frame : ℕ
  pub bytes_per_sample : ℕ

-- What `private_data` points to.
pub data Private : Type 0 where
  null : Private
  au_parser : AuParser → Private
  au_builder : AuBuilder → Private
  wave_parser : WaveParser → Private
  wave_builder : WaveBuilder → Private
  voc_parser : VocParser → Private
  voc_builder : VocBuilder → Private

-- `struct container_context`. `process_bytes` and `ops` are determined by `kind` and `format`.
pub record Context : Type 0 where
  pub kind : ContainerType
  pub fd : ℕ
  pub magic_handled : Bool
  pub eof : Bool
  pub interrupted : Bool
  pub stdio : Bool
  pub format : ContainerFormat
  pub max_size : ℕ
  pub magic : List ℕ
  pub private_data : Private
  pub bytes_per_sample : ℕ
  pub samples_per_frame : ℕ
  pub frames_per_second : ℕ
  pub verbose : ℕ
  pub handled_byte_count : ℕ

-- How a call ends: it returns, it returns `-errno`, an assertion fails, the C behaviour is
-- undefined, or (no C behaviour) the fuel of a loop is used up.
pub data Res {ℓ} (A : Type ℓ) : Type ℓ where
  ok : A → Res A
  err : Errno → Res A
  abort : Res A
  fault : Res A
  stuck : Res A

module _ ⦃os : Os⦄ where
  abbrev pub State : Type 0
  State = Context × os.World

  abbrev pub M : Type 0 → Type 0
  M A = State → Res A × State

  abbrev pub pure : {A : Type 0} → A → M A
  pure a s = (ok a, s)

  abbrev pub throw : {A : Type 0} → Errno → M A
  throw e s = (err e, s)

  abbrev pub bind_result : {A B : Type 0} → Res A × State → (A → M B) → Res B × State
  bind_result (ok a, s) f = f a s
  bind_result (err e, s) f = (err e, s)
  bind_result (abort, s) f = (abort, s)
  bind_result (fault, s) f = (fault, s)
  bind_result (stuck, s) f = (stuck, s)

  infixl 5 ◌>>=◌ ◌>>◌
  abbrev pub ◌>>=◌ : {A B : Type 0} → M A → (A → M B) → M B
  ◌>>=◌ m f s = bind_result (m s) f

  abbrev pub ◌>>◌ : {B : Type 0} → M (Unit {0}) → M B → M B
  m >> k = m >>= λ _. k

  abbrev pub get : M Context
  get s = (ok s.0, s)

  abbrev pub put : Context → M (Unit {0})
  put c s = (ok tt, (c, s.1))

  -- `assert(b)`
  abbrev pub assert : Bool → M (Unit {0})
  assert true s = (ok tt, s)
  assert false s = (abort, s)

  -- `if (!b) return -e;`
  abbrev pub require : Bool → Errno → M (Unit {0})
  require true e s = (ok tt, s)
  require false e s = (err e, s)

  -- A condition without which the C code has undefined behaviour.
  abbrev pub defined : Bool → M (Unit {0})
  defined true s = (ok tt, s)
  defined false s = (fault, s)
