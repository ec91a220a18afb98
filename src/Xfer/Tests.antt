-- ===== src/Xfer/Tests.antt =====
-- The theorems on the transfer at concrete inputs: one channel, samples of two bytes.
use alsa_utils.Common.{
  ℕ, ◌*◌, ◌≡◌, refl, Bool, true, false, none, List, [], ◌∷◌, ◌++◌, replicate, length-replicate,
  arith,
}
use alsa_utils.Axfer.Pcm.{rw_interleaved}
use alsa_utils.Axfer.Context.{Context, builder, ok}
use alsa_utils.Axfer.FrameCache.{FrameCache}
use alsa_utils.Container.Tests.Machine.{file, file_os, file_writes, test_pcm}
use alsa_utils.Container.Session.{cleared}
use alsa_utils.Mapper.State.{MapperContext, demuxer, single, single_state, zero_mapper}
use alsa_utils.Xfer.{Transfer, read_frames}
use alsa_utils.Xfer.Alsa.{PcmStatus, running, other_status, count, ReadFrames, got, Device}
use alsa_utils.Xfer.Capture.{Filled}
use alsa_utils.Xfer.Recording.{Fetched, Kept, read_frames_lem}
use alsa_utils.Xfer.Command.{any_eof, process_from}
use alsa_utils.Xfer.Xrun.{process_from-xrun}

-- A PCM that gives silence, whether it is in an overrun, and what was read.
data Microphone : Type 0 where
  microphone : Bool → List ℕ → Microphone

abbrev recorded : Microphone → List ℕ
recorded (microphone overrun bytes) = bytes

abbrev status_of : Microphone → PcmStatus
status_of (microphone true bytes) = other_status
status_of (microphone false bytes) = running

abbrev listen : ℕ → Microphone → ReadFrames × Microphone
listen n (microphone overrun bytes) =
    (got n (replicate (2 * n) 7 ∷ []), microphone overrun (bytes ++ replicate (2 * n) 7))

abbrev recover : Microphone → Microphone
recover (microphone overrun bytes) = microphone false bytes

instance abbrev microphone_device : Device
microphone_device = record {
  World = Microphone;
  status = status_of;
  avail = λ m. (count 2, m);
  avail_min = count 1;
  start_threshold = count 1;
  period_size = count 2;
  read = λ access n m. listen n m;
  write = λ access bufs n m. (count n, m);
  prepare = λ m. (none, recover m);
  interrupted = λ m. false;
}

abbrev mono : Context
mono = record (cleared 3) {
  kind = builder;
  max_size = 100;
  bytes_per_sample = 2;
  samples_per_frame = 1;
}

-- One frame is in the cache of three.
abbrev one_cached : FrameCache
one_cached = record {
  access = rw_interleaved;
  remained_count = 1;
  bytes_per_sample = 2;
  samples_per_frame = 1;
  frames_per_cache = 3;
  bufs = (1 ∷ 2 ∷ 0 ∷ 0 ∷ 0 ∷ 0 ∷ [], 2) ∷ [];
}

abbrev plain_demuxer : MapperContext
plain_demuxer = record zero_mapper {
  type = demuxer;
  target = single;
  private_data = single_state (record { align = false; buf = none });
  cntr_count = 1;
  bytes_per_sample = 2;
  samples_per_frame = 1;
  frames_per_buffer = 3;
}

abbrev recording : Bool → Transfer
recording overrun = record {
  cache = one_cached;
  mapper = (plain_demuxer, (mono, file 1 (9 ∷ 9 ∷ []) []) ∷ []);
  world = microphone overrun (1 ∷ 2 ∷ []);
}

abbrev filled : Filled test_pcm 9 file_writes recorded (9 ∷ 9 ∷ []) (recording false)
filled = record {
  buffer = 1 ∷ 2 ∷ 0 ∷ 0 ∷ 0 ∷ 0 ∷ [];
  pointer = 2;
  mapper = plain_demuxer;
  container = mono;
  kernel = file 1 (9 ∷ 9 ∷ []) [];
  cached = record {
    counted = omega arith;
    few = omega arith;
    fits = omega arith;
    buffers = (refl, tt);
  };
  interleaved = refl;
  held = refl;
  mapped = refl;
  type = refl;
  target = refl;
  plain = refl;
  sized = refl;
  kind = refl;
  frame_size = refl;
  positive = omega arith;
  narrow = omega arith;
  at_end = refl;
  order = refl;
}

read_frames_example :
    Kept test_pcm 9 file_writes recorded
      (9 ∷ 9 ∷ [])
      5
      (read_frames test_pcm 9 5 2 (recording false))
read_frames_example =
    read_frames_lem test_pcm 9 file_writes recorded (9 ∷ 9 ∷ []) 5 2 (recording false)
      (filled, refl)
      (record {
        goes_on = refl;
        quiet = refl;
        room = omega arith;
        limit = omega arith;
        enough = omega arith;
      })
      (omega arith) heard
  where
    heard : (n : ℕ) (m : Microphone) → Fetched test_pcm 9 file_writes recorded 2 n m (listen n m)
    heard n (microphone overrun bytes) = (omega arith, length-replicate (2 * n) 7, refl)

not_ended : any_eof (recording true).mapper.1 ≡ false
unfolding any_eof
not_ended = refl

process_from-xrun_example :
    process_from test_pcm 9 1 true false false 1000 (ok tt) 10 (recording true)
    ≡ (ok tt, 1000, record (recording true) { world = microphone false (1 ∷ 2 ∷ []) })
process_from-xrun_example =
    process_from-xrun test_pcm 9 0 true false 1000 10 (ok tt) (recording true)
      (microphone false (1 ∷ 2 ∷ [])) refl refl refl not_ended (omega arith) (omega arith)
      (omega arith)
