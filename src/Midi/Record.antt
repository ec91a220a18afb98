-- ===== src/Midi/Record.antt =====
-- seq/aplaymidi/arecordmidi.c: the tracks that events are recorded to, and the file they become.
pub mod Bytes
pub mod Steps
use alsa_utils.Common.{
  ℕ, zero, suc, ◌+◌, ◌-◌, ◌*◌, ◌/◌, ◌%◌, Bool, true, false, not, ◌&&◌, Option, none, some, List, [],
  ◌∷◌, ◌++◌, length, take, ltb, leb, ◌==◌, if◌then◌else◌,
}
use alsa_utils.Common.Words.{u32, sub_u32, be32_bytes}

abbrev pub buffer_size : ℕ
buffer_size = 4088

-- `struct smf_track`. `bufs` are the buffers in front of `cur_buf`, of which `cur_buf` here is the part
-- that is written.
pub record SmfTrack : Type 0 where
  pub size : ℕ
  pub cur_buf_size : ℕ
  pub bufs : List (List ℕ)
  pub cur_buf : List ℕ
  pub last_tick : ℕ
  pub last_command : ℕ
  pub used : Bool

-- A track as init_tracks leaves it.
abbrev pub empty_track : SmfTrack
empty_track = record {
  size = 0;
  cur_buf_size = 0;
  bufs = [];
  cur_buf = [];
  last_tick = 0;
  last_command = 0;
  used = false;
}

abbrev pub next_buf : SmfTrack → SmfTrack
next_buf t = record t { bufs = t.bufs ++ (t.cur_buf ∷ []); cur_buf = []; cur_buf_size = 0 }

abbrev pub put_byte : SmfTrack → ℕ → SmfTrack
put_byte t byte = record t {
  cur_buf = t.cur_buf ++ (byte ∷ []);
  cur_buf_size = t.cur_buf_size + 1;
  size = t.size + 1;
}

unfoldable pub add_byte : SmfTrack → ℕ → SmfTrack
add_byte t byte = put_byte (if leb buffer_size t.cur_buf_size then (next_buf t) else t) (byte % 256)

-- `v >= limit` for the `int` that a word represents.
abbrev pub at_least : ℕ → ℕ → Bool
at_least v limit = ltb v 2147483648 && leb limit v

abbrev pub add_if : Bool → SmfTrack → ℕ → SmfTrack
add_if b t byte = if b then (add_byte t byte) else t

unfoldable pub var_value : SmfTrack → ℕ → SmfTrack
var_value t v =
    let t = add_if (at_least v 268435456) t (128 + v / 268435456 % 4) in
    let t = add_if (at_least v 2097152) t (128 + v / 2097152 % 128) in
    let t = add_if (at_least v 16384) t (128 + v / 16384 % 128) in
    let t = add_if (at_least v 128) t (128 + v / 128 % 128) in add_byte t (v % 128)

-- A negative difference counts as 0.
abbrev pub diff_of : ℕ → ℕ → ℕ
diff_of tick last_tick =
    if leb 2147483648 (sub_u32 tick last_tick) then 0 else sub_u32 tick last_tick

unfoldable pub delta_time : SmfTrack → ℕ → SmfTrack
delta_time t tick = record (var_value t (diff_of tick t.last_tick)) { last_tick = tick }

unfoldable pub command : SmfTrack → ℕ → SmfTrack
command t cmd = record (if cmd == t.last_command then t else (add_byte t cmd)) {
  last_command = if ltb cmd 240 then cmd else 0;
}

-- `type` and `data` of `snd_seq_event_t`, as far as `record_event` looks at them. A `value` and a
-- `param` are the words of their numbers.
pub data Recorded : Type 0 where
  noteon noteoff keypress : ℕ → ℕ → ℕ → Recorded
  controller : ℕ → ℕ → ℕ → Recorded
  pgmchange chanpress pitchbend : ℕ → ℕ → Recorded
  control14 nonregparam regparam : ℕ → ℕ → ℕ → Recorded
  sysex : List ℕ → Recorded
  other : Recorded

-- Two data bytes, and the two of the running status after a delta time.
abbrev pub add_two : SmfTrack → ℕ → ℕ → SmfTrack
add_two t a b = add_byte (add_byte t a) b

abbrev pub again_two : SmfTrack → ℕ → ℕ → ℕ → SmfTrack
again_two t tick a b = add_two (delta_time t tick) a b

-- The four controllers of a parameter number: `lsb` and `msb` number it.
abbrev pub add_parameter : SmfTrack → ℕ → ℕ → ℕ → ℕ → ℕ → SmfTrack
add_parameter t tick lsb msb param value =
    let t = add_two t lsb (param % 128) in
    let t = again_two t tick msb (param / 128 % 128) in
    let t = again_two t tick 6 (value / 128 % 128) in again_two t tick 38 (value % 128)

unfoldable pub add_bytes : SmfTrack → List ℕ → SmfTrack
add_bytes t [] = t
add_bytes t (b ∷ bs) = add_bytes (add_byte t b) bs

unfoldable pub record_sysex : SmfTrack → ℕ → List ℕ → SmfTrack
record_sysex t tick [] = t
record_sysex t tick (b ∷ bs) =
    let t = delta_time t tick in
    if b == 240
    then (add_bytes (var_value (command t 240) (length bs)) bs)
    else (add_bytes (var_value (command t 247) (length (b ∷ bs))) (b ∷ bs))

-- `MIDI_CMD_x | (channel & 0xf)`, of a command that delta time comes before.
abbrev pub begin : SmfTrack → ℕ → ℕ → ℕ → SmfTrack
begin t tick cmd channel = command (delta_time t tick) (cmd + channel % 16)

abbrev pub mark_used : SmfTrack → SmfTrack
mark_used t = record t { used = true }

-- The `switch` of record_event; the commands and controllers have their numbers of the MIDI standard.
unfoldable pub record_data : SmfTrack → ℕ → Recorded → SmfTrack
record_data t tick (noteon channel note velocity) =
    mark_used (add_two (begin t tick 144 channel) (note % 128) (velocity % 128))
record_data t tick (noteoff channel note velocity) =
    mark_used (add_two (begin t tick 128 channel) (note % 128) (velocity % 128))
record_data t tick (keypress channel note velocity) =
    mark_used (add_two (begin t tick 160 channel) (note % 128) (velocity % 128))
record_data t tick (controller channel param value) =
    mark_used (add_two (begin t tick 176 channel) (param % 128) (value % 128))
record_data t tick (pgmchange channel value) =
    mark_used (add_byte (begin t tick 192 channel) (value % 128))
record_data t tick (chanpress channel value) =
    mark_used (add_byte (begin t tick 208 channel) (value % 128))
record_data t tick (pitchbend channel value) =
    mark_used
      (add_two (begin t tick 224 channel) ((value + 8192) % 128) ((value + 8192) / 128 % 128))
record_data t tick (control14 channel param value) =
    let t = add_two (begin t tick 176 channel) (param % 128) (value / 128 % 128) in
    mark_used
      (if ltb (param % 128) 32 then (again_two t tick (param % 128 + 32) (value % 128)) else t)
record_data t tick (nonregparam channel param value) =
    mark_used (add_parameter (begin t tick 176 channel) tick 98 99 param value)
record_data t tick (regparam channel param value) =
    mark_used (add_parameter (begin t tick 176 channel) tick 100 101 param value)
record_data t tick (sysex bytes) = mark_used (record_sysex t tick bytes)
record_data t tick other = t

-- snd_seq_ev_is_channel_type: the events of notes and of controls.
abbrev pub channel_of : Recorded → Option ℕ
channel_of (noteon channel note velocity) = some channel
channel_of (noteoff channel note velocity) = some channel
channel_of (keypress channel note velocity) = some channel
channel_of (controller channel param value) = some channel
channel_of (pgmchange channel value) = some channel
channel_of (chanpress channel value) = some channel
channel_of (pitchbend channel value) = some channel
channel_of (control14 channel param value) = some channel
channel_of (nonregparam channel param value) = some channel
channel_of (regparam channel param value) = some channel
channel_of (sysex bytes) = none
channel_of other = none

-- `timed`: the event is of the queue, with a tick.
pub record SeqEvent : Type 0 where
  pub timed : Bool
  pub dest_port : ℕ
  pub tick : ℕ
  pub recorded : Recorded

abbrev pub within_port : Option ℕ → ℕ
within_port none = 0
within_port (some channel) = 1 + channel % 16

abbrev pub track_of : Bool → SeqEvent → ℕ
track_of channel_split ev =
    if channel_split then ev.dest_port * 17 + within_port (channel_of ev.recorded) else ev.dest_port

-- `tracks[i]` becomes what the function makes of it; none is beyond `num_tracks`.
pub update_track : List SmfTrack → ℕ → (SmfTrack → SmfTrack) → List SmfTrack
update_track [] i f = []
update_track (t ∷ ts) zero f = f t ∷ ts
update_track (t ∷ ts) (suc i) f = t ∷ update_track ts i f

-- Events to the port of the metronome do not change the tracks.
pub record_event : ℕ → Bool → List SmfTrack → SeqEvent → List SmfTrack
record_event port_count channel_split tracks ev =
    if not ev.timed
    then tracks
    else if ev.dest_port == port_count
    then tracks
    else update_track tracks (track_of channel_split ev) (λ t. record_data t ev.tick ev.recorded)

-- The end of a track, `v` ticks behind its last event.
unfoldable pub finish_track : SmfTrack → ℕ → SmfTrack
finish_track t v = var_value (add_byte (add_byte (var_value t v) 255) 47) 0

pub finish_others : List SmfTrack → List SmfTrack
finish_others [] = []
finish_others (t ∷ ts) = finish_track t 0 ∷ finish_others ts

-- The first track gets the length of the recording; there is one.
pub finish_tracks : ℕ → List SmfTrack → List SmfTrack
finish_tracks tick [] = []
finish_tracks tick (t ∷ ts) = finish_track t (sub_u32 tick t.last_tick) ∷ finish_others ts

pub record_port_numbers_from : Bool → ℕ → List SmfTrack → List SmfTrack
record_port_numbers_from channel_split i [] = []
record_port_numbers_from channel_split i (t ∷ ts) =
    add_byte (var_value (add_two (var_value t 0) 255 33) 1) (if channel_split then i / 17 else i)
    ∷ record_port_numbers_from channel_split (i + 1) ts

abbrev pub record_port_numbers : Bool → List SmfTrack → List SmfTrack
record_port_numbers channel_split tracks = record_port_numbers_from channel_split 0 tracks

unfoldable pub used_tracks : List SmfTrack → ℕ
used_tracks [] = 0
used_tracks (t ∷ ts) = (if t.used then 1 else 0) + used_tracks ts

-- The loop over the buffers of a track: full ones in front of `cur_buf`.
pub write_bufs : List (List ℕ) → SmfTrack → List ℕ
write_bufs [] t = take t.cur_buf_size t.cur_buf
write_bufs (buf ∷ bufs) t = take buffer_size buf ++ write_bufs bufs t

unfoldable pub write_track : SmfTrack → List ℕ
write_track t = (77 ∷ 84 ∷ 114 ∷ 107 ∷ []) ++ (be32_bytes t.size ++ write_bufs t.bufs t)

unfoldable pub write_tracks : List SmfTrack → List ℕ
write_tracks [] = []
write_tracks (t ∷ ts) = (if t.used then write_track t else []) ++ write_tracks ts

-- What write_file puts in the file; `frames` is at most 255 and `ticks` below 2 ^ 15.
unfoldable pub write_file : Bool → ℕ → ℕ → List SmfTrack → List ℕ
write_file smpte_timing frames ticks tracks =
    let used = used_tracks tracks in
    let high = if smpte_timing then 256 - frames else ticks / 256 in
    (77 ∷ 84 ∷ 104 ∷ 100 ∷ 0 ∷ 0 ∷ 0 ∷ 6 ∷ [])
    ++ ((0
          ∷ (if ltb 1 used then 1 else 0)
          ∷ used / 256 % 256
          ∷ used % 256
          ∷ high % 256
          ∷ ticks % 256
          ∷ [])
        ++ write_tracks tracks)
