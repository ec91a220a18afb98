-- ===== src/Xfer/Command.antt =====
-- axfer/subcmd-transfer.c: context_process_frames.
use alsa_utils.Common.{
  ℕ, zero, suc, ◌+◌, Bool, false, not, ◌&&◌, ◌||◌, List, [], ◌∷◌, leb, if◌then◌else◌,
}
use alsa_utils.Common.Words.{u32, u64, sub_u64}
use alsa_utils.Axfer.Pcm.{Pcm}
use alsa_utils.Axfer.Os.{Os}
use alsa_utils.Axfer.Context.{Res, ok, err, stuck, State}
use alsa_utils.Xfer.Alsa.{Device}
use alsa_utils.Xfer.{Transfer, Returned, goes_on, xfer_libasound_process_frames}

module _ ⦃os : Os⦄ where
  unfoldable pub any_eof : List State → Bool
  any_eof [] = false
  any_eof (s ∷ cntrs) = s.0.eof || any_eof cntrs

module _ ⦃os : Os⦄ ⦃device : Device⦄ where
  open device use {interrupted}

  -- The end of the loop: a signal is no error, unless the command is quiet. The answer has
  -- `*actual_frame_count`.
  abbrev pub finished : Bool → Res (Unit {0}) → ℕ → Transfer → Returned
  finished quiet r actual s =
      if interrupted s.world && not quiet then (ok tt, actual, s) else (r, actual, s)

  -- After a call; `again` is another round, with the answer and the count.
  unfoldable pub after_call :
      Bool → ℕ → ℕ → (Res (Unit {0}) → ℕ → Transfer → Returned) → Returned → Returned
  after_call quiet expected actual again (ok _, n, s) =
      let total = u64 (actual + n) in
      let more = again (ok tt) total s in
      if any_eof s.mapper.1
      then finished quiet (ok tt) actual s
      else if leb expected total
      then finished quiet (ok tt) total s
      else more
  after_call quiet expected actual again (err e, n, s) =
      let more = again (err e) actual s in
      if goes_on e then more else finished quiet (err e) actual s
  after_call quiet expected actual again (r, n, s) = (r, actual, s)

  module _ (pcm : Pcm) (fuel : ℕ) where
    unfoldable pub process_from :
        ℕ → Bool → Bool → Bool → ℕ → Res (Unit {0}) → ℕ → Transfer → Returned
    process_from zero is_capture finish_at_xrun quiet expected r actual s = (stuck, actual, s)
    process_from (suc rounds) is_capture finish_at_xrun quiet expected r actual s =
        let frame_count = u32 (sub_u64 expected actual) in
        let next =
          after_call quiet expected actual
            (λ r' actual' t.
              process_from rounds is_capture finish_at_xrun quiet expected r' actual' t)
            (xfer_libasound_process_frames pcm fuel is_capture finish_at_xrun frame_count s) in
        if interrupted s.world then finished quiet r actual s else next

    -- With the fuel of a round for each call.
    abbrev pub context_process_frames : ℕ → Bool → Bool → Bool → ℕ → Transfer → Returned
    context_process_frames rounds is_capture finish_at_xrun quiet expected s =
        process_from rounds is_capture finish_at_xrun quiet expected (ok tt) 0 s
