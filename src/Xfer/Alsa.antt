-- ===== src/Xfer/Alsa.antt =====
-- What the transfer calls of alsa-lib, as functions on the state of the PCM.
use alsa_utils.Common.{ℕ, Bool, Option, List}
use alsa_utils.Axfer.Pcm.{Access}
use alsa_utils.Axfer.Os.{Errno}

-- snd_pcm_state, as far as the code tells states apart.
pub data PcmStatus : Type 0 where
  running prepared other_status : PcmStatus

pub data Count : Type 0 where
  count : ℕ → Count
  failed : Errno → Count

-- snd_pcm_readi and snd_pcm_readn: frames, with their bytes for each buffer.
pub data ReadFrames : Type 0 where
  got : ℕ → List (List ℕ) → ReadFrames
  read_error : Errno → ReadFrames

pub record Device : Type 1 where
  pub World : Type 0
  pub status : World → PcmStatus
  pub avail : World → Count × World
  -- What the parameters of the PCM hold.
  pub avail_min : Count
  pub start_threshold : Count
  pub period_size : Count
  pub read : Access → ℕ → World → ReadFrames × World
  -- snd_pcm_writei and snd_pcm_writen for a number of frames of the buffers.
  pub write : Access → List (List ℕ) → ℕ → World → Count × World
  -- Success, or the error.
  pub prepare : World → Option Errno × World
  -- Whether a signal handler has set `interrupted` of the command.
  pub interrupted : World → Bool
