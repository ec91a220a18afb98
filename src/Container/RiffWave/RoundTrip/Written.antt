-- ===== src/Container/RiffWave/RoundTrip/Written.antt =====
-- What the builder of RIFF/WAVE files writes before the first frame.
use alsa_utils.Common.{ℕ, ◌+◌, ◌*◌, ◌<◌, ◌≡◌, refl, false}
use mathlib.Core.List.{Memᴰ}
use alsa_utils.Axfer.Pcm.{Format, unknown, Pcm, pos, int_div8}
use alsa_utils.Axfer.Os.{Os}
use alsa_utils.Axfer.Os.Laws.{WriteLaws, splice}
use alsa_utils.Axfer.Context.{Context, Params, wave_builder, ok}
use alsa_utils.Container.RiffWave.{format_maps}
use alsa_utils.Container.RiffWave.Build.{from_int, wave_builder_start, wave_builder_pre_process}
use alsa_utils.Container.RiffWave.Build.Layout.{wave_header, write_riff_chunk_lem}
use alsa_utils.Container.RiffWave.RoundTrip.Subchunks.{built}
use alsa_utils.Container.RiffWave.RoundTrip.Formats.{
  format_of-listed, bits, sample_size, Documented, values_of, order_of,
}

from_int-bits : (f : Format) → from_int (pos (bits f)) ≡ bits f
from_int-bits unknown = refl
from_int-bits _ = refl

int_div8-size : (f : Format) → int_div8 (pos (8 * sample_size f)) ≡ sample_size f
int_div8-size unknown = refl
int_div8-size _ = refl

module _ ⦃os : Os⦄ (pcm : Pcm) (fuel : ℕ) (file : WriteLaws) where
  open file use {contents, offset, patience}

  -- For a format that the table lists with a code, of which alsa-lib answers as documented, and
  -- without an interrupt and with enough fuel: `wave_builder_pre_process` keeps the code of the format
  -- and the parameters in the private state, and writes the headers for them at the offset of the file.
  pub wave_builder_pre_process_lem :
      (p : Params) (k : ℕ) (c : Context) (w : os.World)
      → Documented pcm p.format
      → Memᴰ (k, p.format) format_maps
      → c.interrupted ≡ false
      → 44 + patience w < fuel
      → let st = built (order_of p) (values_of p k) in
        (w' : os.World) × (wave_builder_pre_process pcm fuel p (c, w)
          ≡ (ok p, (record c { private_data = wave_builder st }, w')))
        × (contents w' ≡ splice (contents w) (offset w) (wave_header st c.max_size p.byte_count))
  unfolding wave_builder_pre_process wave_builder_start
  wave_builder_pre_process_lem p k c w (dw, dp, db) listed hi hf =
      let st = built (order_of p) (values_of p k) in
      let all =
        write_riff_chunk_lem pcm fuel file p.byte_count
          (record c { private_data = wave_builder st }) w hi hf in
      (
        all.after,
        rw (format_of-listed k p.format listed, wave_builder_start)
            (rw (dw, dp, db, from_int-bits p.format, int_div8-size p.format) (rw all.result)),
        all.written,
      )
