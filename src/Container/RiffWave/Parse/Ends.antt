-- ===== src/Container/RiffWave/Parse/Ends.antt =====
-- RIFF/WAVE files that end early, and a parser that is interrupted.
use alsa_utils.Common.{
  ℕ, zero, suc, ◌+◌, ◌<◌, ◌≤◌, ◌≡◌, refl, Bool, true, false, List, length, take, replicate, ltb,
  arith, lt→ltb,
}
use alsa_utils.Axfer.Pcm.{Pcm}
use alsa_utils.Axfer.Os.{Os}
use alsa_utils.Axfer.Os.Laws.{ReadLaws}
use alsa_utils.Axfer.Context.{Context, Params, ok, fault}
use alsa_utils.Container.Io.Read.{container_recursive_read_lem, at_eof}
use alsa_utils.Container.RiffWave.Parse.{
  wave_parser_of, zero_parser, overlay, parse_riff_chunk, parse_subchunk, wave_subchunk_loop,
  wave_subchunk_next, parse_wave_subchunk, parse_riff_wave_format, wave_parser_pre_process,
}

module _ ⦃os : Os⦄ (pcm : Pcm) (fuel : ℕ) (file : ReadLaws) where
  open file use {pending, patience}

  -- A context that is at the end of its file, and whose parser has found nothing.
  abbrev AtEnd : Context → Type 0
  AtEnd c = (c.eof ≡ true) × (wave_parser_of c.private_data ≡ zero_parser)

  at_eof-AtEnd : (c : Context) (b : Bool) → AtEnd c → AtEnd (at_eof c b)
  at_eof-AtEnd c true h = (refl, h.1)
  at_eof-AtEnd c false h = h

  -- Another read at the end leaves it so.
  parse_subchunk-AtEnd :
      (buf : List ℕ) (c : Context) (w : os.World)
      → c.interrupted ≡ false
      → AtEnd c
      → 8 + patience w < fuel
      → (buf' : List ℕ) × (c' : Context) × (w' : os.World) × (parse_subchunk pcm fuel buf (c, w)
          ≡ (ok (true, buf'), (c', w')))
        × AtEnd c'
  unfolding parse_subchunk
  parse_subchunk-AtEnd buf c w hi he hf =
      let all = container_recursive_read_lem file fuel 8 c w hi hf in
      let short = ltb (length (pending w)) 8 in
      let end = at_eof-AtEnd c short he in
      (overlay (take 8 (pending w)) buf, at_eof c short, all.after, rw all.result (simp end.0), end)

  subchunk_loop-AtEnd :
      (rounds : ℕ) (buf : List ℕ) (c : Context) (w : os.World)
      → 0 < rounds
      → c.interrupted ≡ false
      → AtEnd c
      → 8 + patience w < fuel
      → (c' : Context) × (w' : os.World) × (wave_subchunk_loop pcm fuel rounds buf (c, w)
          ≡ (ok tt, (c', w')))
        × AtEnd c'
  unfolding wave_subchunk_loop wave_subchunk_next
  subchunk_loop-AtEnd zero buf c w hr hi he hf = absurd (omega arith)
  subchunk_loop-AtEnd (suc rounds) buf c w hr hi he hf =
      let (buf', c', w', e, end) = parse_subchunk-AtEnd buf c w hi he hf in (c', w', rw e, end)

  parse_riff_chunk-AtEnd :
      (c : Context) (w : os.World)
      → c.interrupted ≡ false
      → wave_parser_of c.private_data ≡ zero_parser
      → length (pending w) < 4
      → 4 + patience w < fuel
      → (c' : Context) × (w' : os.World) × (parse_riff_chunk pcm fuel (c, w) ≡ (ok tt, (c', w')))
        × AtEnd c'
        × (c'.interrupted ≡ false)
        × (patience w' ≤ patience w)
  unfolding parse_riff_chunk
  parse_riff_chunk-AtEnd c w hi hz hp hf =
      let all = container_recursive_read_lem file fuel 4 c w hi hf in
      (
        record c { eof = true },
        all.after,
        rw (all.result, lt→ltb (length (pending w)) 4 hp),
        (refl, hz),
        hi,
        all.calmer,
      )

  -- A file that ends inside the header of its chunk, before the four bytes of the size, makes the
  -- parser divide by zero, if its state is still zero, without an interrupt and with enough fuel.
  pub wave_parser_truncated :
      (params : Params) (c : Context) (w : os.World)
      → c.interrupted ≡ false
      → wave_parser_of c.private_data ≡ zero_parser
      → length (pending w) < 4
      → 8 + patience w < fuel
      → (wave_parser_pre_process pcm fuel params (c, w)).0 ≡ fault
  unfolding wave_parser_pre_process parse_riff_wave_format parse_wave_subchunk
  wave_parser_truncated params c w hi hz hp hf =
      let (c₁, w₁, e₁, z₁, i₁, q₁) = parse_riff_chunk-AtEnd c w hi hz hp (omega arith) in
      let (c₂, w₂, e₂, z₂) =
        subchunk_loop-AtEnd fuel (replicate 24 0) c₁ w₁ (omega arith) i₁ z₁ (omega arith) in
      rw (e₁, e₂) (simp (z₂.1))
