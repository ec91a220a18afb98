-- ===== src/Loop/State.antt =====
-- alsaloop/alsaloop.h: the parts of `struct loopback_handle` and `struct loopback` that the transfer of
-- frames works on, and what it uses of alsa-lib.
use alsa_utils.Common.{ℕ, Bool, Option, List}
use alsa_utils.Common.Words.{sub_u64}

-- `play` and `capt`.
pub data Side : Type 0 where
  play capt : Side

-- A `snd_pcm_sframes_t`: frames, or `-e`.
pub data Sframes : Type 0 where
  frames error : ℕ → Sframes

-- The value of it as a `snd_pcm_uframes_t`.
abbrev pub uframes : Sframes → ℕ
uframes (frames n) = n
uframes (error e) = sub_u64 0 e

-- What snd_pcm_readi puts in the buffer, or `-e`.
pub data ReadFrames : Type 0 where
  got : List ℕ → ReadFrames
  failed : ℕ → ReadFrames

-- alsa-lib, with the state of both PCMs. `none` is success of a call, `some e` is `-e`. A frame is the
-- number that its bytes are.
pub record Device : Type 1 where
  pub World : Type 0
  pub avail_update : Side → World → Sframes × World
  pub readi : World → ℕ → ReadFrames × World
  pub writei : World → List ℕ → Sframes × World
  pub prepare : Side → World → Option ℕ × World
  pub resume : Side → World → Option ℕ × World
  pub is_draining : World → Bool
  -- For the playback PCM: snd_pcm_sw_params_current and snd_pcm_sw_params_set_avail_min, with what
  -- snd_pcm_sw_params_get_avail_min tells then; and snd_pcm_sw_params.
  pub set_avail_min : ℕ → World → Sframes × World
  pub sw_params : World → Option ℕ × World

-- `struct loopback_handle`, with the bit fields as Booleans.
pub record Handle : Type 0 where
  pub buf_pos : ℕ
  pub buf_count : ℕ
  pub buf_size : ℕ
  pub buf_over : ℕ
  pub max : ℕ
  pub counter : ℕ
  pub stall : ℕ
  pub avail_min : ℕ
  pub period_size : ℕ
  pub buffer_size : ℕ
  pub xrun_pending : Bool

-- `struct loopback`. Where both handles share a buffer, it is `capt_buf` and `play_buf` is not used.
pub record Loopback : Type 0 where
  pub capt : Handle
  pub play : Handle
  pub capt_buf : List ℕ
  pub play_buf : List ℕ
  pub shared : Bool
  pub reinit : Bool
  pub stop_pending : Bool
  pub stop_count : ℕ

abbrev pub buf_avail : Handle → ℕ
buf_avail h = sub_u64 h.buf_size h.buf_count

abbrev pub epipe : ℕ
epipe = 32

abbrev pub estrpipe : ℕ
estrpipe = 86

abbrev pub eagain : ℕ
eagain = 11

-- The return value of readit and writeit; `stuck` is the end of the fuel.
pub data Answer : Type 0 where
  answer : Sframes → Answer
  stuck : Answer
