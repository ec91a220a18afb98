-- ===== src/Midi/Tests.antt =====
-- The theorems on MIDI files at concrete inputs.
use alsa_utils.Common.{
  ℕ, ◌+◌, ◌%◌, ◌<◌, ◌≡◌, ◌≢◌, refl, false, none, some, List, [], ◌∷◌, ◌++◌, length, arith,
}
use alsa_utils.Midi.Heard.{heard_of}
use alsa_utils.Midi.Output.{PutOut, fill_all, fill_all-heard_of}
use alsa_utils.Midi.Stream.{input, read_var}
use alsa_utils.Midi.Play.{Event, Data, track, stuck, read_track}
use alsa_utils.Midi.Play.Ends.{read_track-ends}
use alsa_utils.Midi.Record.{
  Recorded, empty_track, var_value, add_byte, write_bufs, record_data, record_sysex, delta_time,
  command, finish_track, add_bytes,
}
use alsa_utils.Midi.Record.Bytes.{joined, contents, WellFormed, add_byte_lem}
use alsa_utils.Midi.Vlq.{var_value-read_var, var_value-too_long}
use alsa_utils.Midi.Files.{Song}
use alsa_utils.Midi.Merge.{after_end, play_events, Merges, Sorted, play_events-Merges}
use alsa_utils.Midi.RoundTrip.{record_all, heard_all, InOrder, whole_track, read_track-record}

-- A note and its end, a controller of 14 bits, and a system exclusive event.
abbrev song : List (ℕ × Recorded)
song =
    (10, Recorded.noteon 3 60 100)
    ∷ (200, Recorded.noteoff 3 60 64)
    ∷ (200, Recorded.control14 3 7 1000)
    ∷ (300, Recorded.sysex (240 ∷ 126 ∷ 247 ∷ []))
    ∷ (301, Recorded.noteon 3 62 90)
    ∷ []

song-InOrder : InOrder 0 song
song-InOrder = (
  record { after = omega arith; near = omega arith; small = omega arith },
  tt,
  (
    record { after = omega arith; near = omega arith; small = omega arith },
    tt,
    (
      record { after = omega arith; near = omega arith; small = omega arith },
      tt,
      (
        record { after = omega arith; near = omega arith; small = omega arith },
        (omega arith, (omega arith, (omega arith, (omega arith, tt)))),
        (record { after = omega arith; near = omega arith; small = omega arith }, tt, tt),
      ),
    ),
  ),
)

song_size : (whole_track song 5).size < 100
unfolding record_all record_data record_sysex finish_track delta_time command var_value add_byte
    add_bytes
song_size = omega arith

read_track-record_example :
    read_track 1 false
      (20 + (whole_track song 5).size)
      100
      (input (write_bufs (whole_track song 5).bufs (whole_track song 5) ++ (1 ∷ [])) 20)
    ≡ track (heard_all 0 song) (301 + 5) (input (1 ∷ []) (20 + (whole_track song 5).size))
read_track-record_example =
    read_track-record 1 false song 5 100 (1 ∷ []) 20 song-InOrder (omega arith) (omega arith)
      song_size

read_track-ends_example : read_track 1 false 4 9 (input (0 ∷ 144 ∷ []) 0) ≢ stuck
read_track-ends_example = read_track-ends 1 false 4 9 (input (0 ∷ 144 ∷ []) 0) (omega arith)

var_value-read_var_example :
    (bytes : List ℕ) × (contents (var_value empty_track 100000) ≡ contents empty_track ++ bytes)
    × (read_var (input (bytes ++ (7 ∷ [])) 3) ≡ (some 100000, input (7 ∷ []) (3 + length bytes)))
var_value-read_var_example = var_value-read_var 100000 empty_track (7 ∷ []) 3 (omega arith)

var_value-too_long_example :
    (bytes : List ℕ) × (contents (var_value empty_track 300000000) ≡ contents empty_track ++ bytes)
    × ((read_var (input (bytes ++ (7 ∷ [])) 3)).0 ≡ none)
var_value-too_long_example =
    var_value-too_long 300000000 empty_track (7 ∷ []) 3 (omega arith) (omega arith)

empty_well : WellFormed empty_track
unfolding joined
empty_well = record { cur_size = refl; in_buffer = omega arith; full = tt; all = refl }

add_byte_example :
    (write_bufs (add_byte empty_track 300).bufs (add_byte empty_track 300)
      ≡ write_bufs empty_track.bufs empty_track ++ (300 % 256 ∷ []))
    × WellFormed (add_byte empty_track 300)
add_byte_example = add_byte_lem empty_track 300 empty_well

-- Two tracks: the song, and one note.
abbrev songs : List Song
songs = (song, 5) ∷ ((0, Recorded.pgmchange 1 9) ∷ [], 0) ∷ []

-- Two tracks, with events at one tick.
abbrev at : ℕ → Event
at tick = record { port = 0; tick = tick; data_ = Data.sysex [] }

abbrev two_tracks : List (List Event)
two_tracks = (at 0 ∷ at 4 ∷ []) ∷ (at 1 ∷ at 4 ∷ []) ∷ []

play_events_example :
    (events : List Event) × (play_events 5
        (after_end ((at 0 ∷ at 4 ∷ [], 4) ∷ (at 1 ∷ at 4 ∷ [], 9) ∷ []))
        two_tracks
      ≡ some events)
    × Merges two_tracks events
    × Sorted events
unfolding after_end
play_events_example =
    play_events-Merges 5 (after_end ((at 0 ∷ at 4 ∷ [], 4) ∷ (at 1 ∷ at 4 ∷ [], 9) ∷ [])) two_tracks
      (omega arith) (((omega arith, tt), (tt, tt)), (((omega arith, tt), (tt, tt)), tt))
      ((omega arith, (omega arith, tt)), ((omega arith, (omega arith, tt)), tt))

-- A bend of -8192, the lowest one.
abbrev lowest_bend : Recorded
lowest_bend = Recorded.pitchbend 3 4294959104

fill_all-heard_of_example : PutOut lowest_bend (fill_all (heard_of lowest_bend))
fill_all-heard_of_example = fill_all-heard_of lowest_bend (omega arith, omega arith, omega arith)
