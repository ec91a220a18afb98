-- ===== src/Midi/Files.antt =====
-- A file of several tracks that arecordmidi writes, as aplaymidi loads it.
use alsa_utils.Common.{ℕ, ◌+◌, ◌<◌, ◌≡◌, true, List}
use alsa_utils.Midi.Play.{Event}
use alsa_utils.Midi.Record.{SmfTrack, Recorded}
use alsa_utils.Midi.RoundTrip.{ticks_after, heard_all, InOrder, whole_track}

-- Events with their ticks, and how long behind them the track ends.
abbrev pub Song : Type 0
Song = List (ℕ × Recorded) × ℕ

abbrev pub track_of_song : Song → SmfTrack
track_of_song (es, v) = whole_track es v

abbrev pub heard_of_song : Song → List Event × ℕ
heard_of_song (es, v) = (heard_all 0 es, ticks_after 0 es + v)

-- A song whose track is used, and small enough for a chunk.
pub record Recordable (fuel : ℕ) (song : Song) : Type 0 where
  pub in_order : InOrder 0 song.0
  pub near : song.1 < 268435456
  pub ticks : ticks_after 0 song.0 + song.1 < 2147483648
  pub is_used : (track_of_song song).used ≡ true
  pub small : (track_of_song song).size < 268435456
  pub fits : (track_of_song song).size < fuel
