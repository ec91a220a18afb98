-- ===== src/Xfer/Xrun.antt =====
-- What the loop of the command counts after an overrun or underrun.
use alsa_utils.Common.{
  ℕ, suc, ◌+◌, ◌-◌, ◌≤◌, ◌<◌, ◌≡◌, refl, Bool, true, false, Bool-cases, inl, inr, none, leb, ◌&&◌,
  not, arith,
}
use alsa_utils.Common.Words.{u32, u64, sub_u64}
use alsa_utils.Axfer.Pcm.{Pcm}
use alsa_utils.Axfer.Os.{Os}
use alsa_utils.Axfer.Context.{Res, ok}
use alsa_utils.Xfer.{Transfer, irq_rw_process_frames, xfer_libasound_process_frames}
use alsa_utils.Xfer.Command.{any_eof, finished, after_call, process_from}
use alsa_utils.Xfer.Alsa.{Device, other_status}

module _ ⦃os : Os⦄ ⦃device : Device⦄ (pcm : Pcm) (fuel : ℕ) where
  open device use {World, status, prepare, interrupted}

  -- The call recovers the PCM, and leaves the number of frames that were wanted.
  recovers :
      (is_capture : Bool) (n : ℕ) (s : Transfer) (w : World)
      → status s.world ≡ other_status
      → prepare s.world ≡ (none, w)
      → xfer_libasound_process_frames pcm fuel is_capture false n s
        ≡ (ok tt, n, record s { world = w })
  unfolding xfer_libasound_process_frames irq_rw_process_frames
  recovers is_capture n s w hs hp = rw (hs, hp) refl

  finished-ok : (quiet : Bool) (n : ℕ) (s : Transfer) → finished quiet (ok tt) n s ≡ (ok tt, n, s)
  finished-ok quiet n s = elim (Bool-cases (interrupted s.world && not quiet)) [
    | inl e ↦ rw e refl
    | inr e ↦ rw e refl
  ]

  -- When the PCM is found in an overrun or underrun and is recovered, no container is at its end, and
  -- the missing frames fit 32 bits, the loop ends without an error and answers that all expected
  -- frames were transferred, though the mapper and the containers stay as they are.
  pub process_from-xrun :
      (rounds : ℕ) (is_capture quiet : Bool) (expected actual : ℕ) (r : Res (Unit {0}))
      (s : Transfer) (w : World)
      → status s.world ≡ other_status
      → prepare s.world ≡ (none, w)
      → interrupted s.world ≡ false
      → any_eof s.mapper.1 ≡ false
      → actual ≤ expected
      → expected < 18446744073709551616
      → expected - actual < 4294967296
      → process_from pcm fuel (suc rounds) is_capture false quiet expected r actual s
        ≡ (ok tt, expected, record s { world = w })
  unfolding process_from after_call
  process_from-xrun rounds is_capture quiet expected actual r s w hs hp hi he hle hlt h32 =
      rw (hi, recovers is_capture (u32 (sub_u64 expected actual)) s w hs hp, he, total, reached)
        (finished-ok quiet expected (record s { world = w }))
    where
      total : u64 (actual + u32 (sub_u64 expected actual)) ≡ expected
      total = omega arith

      reached : leb expected expected ≡ true
      reached = ground arith
