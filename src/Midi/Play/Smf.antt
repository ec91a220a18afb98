-- ===== src/Midi/Play/Smf.antt =====
-- seq/aplaymidi/aplaymidi.c: whole files.
use alsa_utils.Common.{
  ℕ, zero, suc, ◌+◌, ◌-◌, ◌*◌, ◌/◌, ◌%◌, Bool, not, ◌&&◌, ◌||◌, Option, none, some, List, [], ◌∷◌,
  ltb, leb, ◌==◌, if◌then◌else◌,
}
use alsa_utils.Midi.Stream.{Input, read_32_le, read_id, read_int, skip, is_negative}
use alsa_utils.Midi.Play.{Event, Ended, track, bad, undefined, stuck, read_track}

-- `MAKE_ID`
abbrev pub make_id : ℕ → ℕ → ℕ → ℕ → ℕ
make_id a b c d = a + 256 * b + 65536 * c + 16777216 * d

-- The tempo and the ticks that the queue is given for a time division.
unfoldable pub queue_tempo : ℕ → Option (ℕ × ℕ)
queue_tempo time_division =
    let ticks = time_division % 256 in
    let frames = 128 - time_division / 256 % 128 in
    if ltb (time_division % 65536) 32768
    then some (500000, time_division)
    else if frames == 24
    then some (500000, 12 * ticks)
    else if frames == 25
    then some (400000, 10 * ticks)
    else if frames == 29
    then some (100000000, 2997 * ticks)
    else if frames == 30
    then some (500000, 15 * ticks)
    else none

-- Where a search for a chunk ends: its length, and the file behind it; the end of the file, or a
-- length that is not allowed; or an `int` that overflows.
pub data Search : Type 0 where
  found : ℕ → Input → Search
  missing overflow endless : Search

unfoldable pub find_track : ℕ → Input → Search
find_track zero i = endless
find_track (suc fuel) i =
    let (id, i) = read_id i in
    let (len, i) = read_int 4 0 i in
    let others = find_track fuel (skip len i) in
    if i.eof
    then missing
    else if leb 268435456 len
    then missing
    else if id == make_id 77 84 114 107
    then found len i
    else others

-- What is loaded: of each track its events and its end; or 0 is returned, and nothing is played.
pub data Smf : Type 0 where
  loaded : List (List Event × ℕ) → Smf
  refused overflows endless : Smf

abbrev pub with_track : List Event × ℕ → Smf → Smf
with_track t (loaded ts) = loaded (t ∷ ts)
with_track t s = s

unfoldable pub after_track : (Input → Smf) → Ended → Smf
after_track others (track events end_tick i) = with_track (events, end_tick) (others i)
after_track others (bad events i) = refused
after_track others undefined = overflows
after_track others stuck = Smf.endless

module _ (port_count : ℕ) (smpte_timing : Bool) (fuel : ℕ) where
  unfoldable pub after_search : (Input → Smf) → Search → Smf
  after_search others (found len i) =
      after_track others (read_track port_count smpte_timing (i.file_offset + len) fuel i)
  after_search others missing = refused
  after_search others overflow = overflows
  after_search others Search.endless = Smf.endless

  unfoldable pub read_tracks : ℕ → Input → Smf
  read_tracks zero i = loaded []
  read_tracks (suc num_tracks) i =
      after_search (λ i'. read_tracks num_tracks i') (find_track fuel i)

-- Behind "MThd". An argument tells whether alsa-lib sets a tempo.
unfoldable pub read_smf : (ℕ × ℕ → Bool) → ℕ → ℕ → Input → Smf
read_smf set_queue_tempo port_count fuel i =
    let (header_len, i) = read_int 4 0 i in
    let (type, i) = read_int 2 0 i in
    let (num_tracks, i) = read_int 2 0 i in
    let (time_division, i) = read_int 2 0 i in
    if is_negative header_len || ltb header_len 6
    then refused
    else if not (type == 0) && not (type == 1)
    then refused
    else if is_negative num_tracks || (ltb num_tracks 1 || ltb 1000 num_tracks)
    then refused
    else if is_negative time_division
    then refused
    else elim (queue_tempo time_division) [
      | none ↦ refused
      | some tempo ↦
          if set_queue_tempo tempo
          then (read_tracks port_count (leb 32768 time_division) fuel num_tracks i)
          else refused
    ]

-- The search of read_riff for the chunk of data.
pub find_data : ℕ → Input → Search
find_data zero i = Search.endless
find_data (suc fuel) i =
    let (id, i) = read_id i in
    let (len, i) = read_32_le i in
    let others = find_data fuel (skip ((len + 1) / 2 * 2) i) in
    if i.eof
    then missing
    else if id == make_id 100 97 116 97
    then found len i
    else if is_negative len
    then missing
    else if len == 2147483647
    then overflow
    else others

pub read_data : (ℕ × ℕ → Bool) → ℕ → ℕ → Search → Smf
read_data set_queue_tempo port_count fuel (found len i) =
    let (id, i) = read_id i in
    if id == make_id 77 84 104 100 then (read_smf set_queue_tempo port_count fuel i) else refused
read_data set_queue_tempo port_count fuel missing = refused
read_data set_queue_tempo port_count fuel overflow = overflows
read_data set_queue_tempo port_count fuel Search.endless = Smf.endless

-- Behind "RIFF".
pub read_riff : (ℕ × ℕ → Bool) → ℕ → ℕ → Input → Smf
read_riff set_queue_tempo port_count fuel i =
    let (id, i) = read_id (skip 4 i) in
    if id == make_id 82 77 73 68
    then (read_data set_queue_tempo port_count fuel (find_data fuel i))
    else refused
