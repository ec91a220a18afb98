-- ===== src/Midi/Play.antt =====
-- seq/aplaymidi/aplaymidi.c: the events of a track, read from the file.
pub mod Rounds
pub mod Ends
pub mod Smf
use alsa_utils.Common.{
  ℕ, zero, suc, ◌+◌, ◌-◌, ◌*◌, ◌/◌, ◌%◌, Bool, true, false, not, ◌&&◌, Option, none, some, List, [],
  ◌∷◌, ◌++◌, ltb, leb, ◌==◌, if◌then◌else◌,
}
use alsa_utils.Axfer.Pcm.{CInt, pos, negsuc}
use alsa_utils.Midi.Stream.{Input, read_byte, unread_byte, low7, low8, read_var, skip}

-- The types of event that `cmd_type` maps commands to.
pub data Command : Type 0 where
  noteoff noteon keypress controller pgmchange chanpress pitchbend : Command

-- `type` and `data` of `struct event`. A command with one parameter leaves `d[2]` unset.
pub data Data : Type 0 where
  params : Command → ℕ → ℕ → ℕ → Data
  param : Command → ℕ → ℕ → Data
  tempo : CInt → Data
  sysex : List ℕ → Data

pub record Event : Type 0 where
  pub port : ℕ
  pub tick : ℕ
  pub data_ : Data

-- The locals of `read_track`, and the list of the track's events.
pub record Reading : Type 0 where
  pub input_ : Input
  pub tick : ℕ
  pub last_cmd : ℕ
  pub port : ℕ
  pub events : List Event

-- After one round of the loop: the next, `break` or `_error`, the end of the track, and an `int` that
-- overflows.
pub data Round : Type 0 where
  next : Reading → Round
  invalid : Reading → Round
  end_of_track : Reading → Round
  overflow : Round

-- Which commands have two parameters, and which one: cmd >> 4.
abbrev pub with_two_params : ℕ → Option Command
with_two_params cmd =
    if cmd / 16 == 8
    then some noteoff
    else if cmd / 16 == 9
    then some noteon
    else if cmd / 16 == 10
    then some keypress
    else if cmd / 16 == 11
    then some controller
    else if cmd / 16 == 14
    then some pitchbend
    else none

abbrev pub with_one_param : ℕ → Option Command
with_one_param cmd =
    if cmd / 16 == 12 then some pgmchange else if cmd / 16 == 13 then some chanpress else none

abbrev pub new_event : Reading → Input → Data → Reading
new_event r i d = record r {
  input_ = i;
  events = r.events ++ (record { port = r.port; tick = r.tick; data_ = d } ∷ []);
}

abbrev pub at_input : Reading → Input → Reading
at_input r i = record r { input_ = i }

pub read_two_params : Command → ℕ → Reading → Round
read_two_params type cmd r =
    let (c, i) = read_byte r.input_ in
    let (c', i') = read_byte i in next (new_event r i' (params type (cmd % 16) (low7 c) (low7 c')))

pub read_one_param : Command → ℕ → Reading → Round
read_one_param type cmd r =
    let (c, i) = read_byte r.input_ in next (new_event r i (param type (cmd % 16) (low7 c)))

-- The loop that fills `event->sysex`.
pub read_sysex : ℕ → Input → List ℕ × Input
read_sysex zero i = ([], i)
read_sysex (suc len) i =
    let (c, i') = read_byte i in let (bytes, i'') = read_sysex len i' in (low8 c ∷ bytes, i'')

-- 0xf0 and 0xf7, behind the length.
unfoldable pub read_exclusive : ℕ → Reading → Option ℕ × Input → Round
read_exclusive cmd r (none, i) = invalid (at_input r i)
read_exclusive cmd r (some len, i) =
    let (bytes, i') = read_sysex len i in
    next (new_event r i' (sysex (if cmd == 240 then 240 ∷ bytes else bytes)))

-- `read_byte() % port_count` as an `unsigned char`.
abbrev pub port_of : ℕ → Option ℕ → ℕ
port_of port_count none = if port_count == 1 then 0 else 255
port_of port_count (some b) = b % port_count

-- The three bytes of a tempo; each read behind the end gives -1.
abbrev pub tempo_of : Option ℕ → Option ℕ → Option ℕ → CInt
tempo_of c c' none = negsuc 0
tempo_of c c' (some b) = pos (low8 c * 65536 + low8 c' * 256 + b)

pub read_port : ℕ → ℕ → Reading → Round
read_port port_count len r =
    if len == 0
    then (invalid r)
    else let (c, i) = read_byte r.input_ in
      next (record r { input_ = skip (len - 1) i; port = port_of port_count c })

pub read_tempo : Bool → ℕ → Reading → Round
read_tempo smpte_timing len r =
    if ltb len 3
    then (invalid r)
    else if smpte_timing
    then (next (at_input r (skip len r.input_)))
    else let (c, i) = read_byte r.input_ in
      let (c', i) = read_byte i in
      let (c'', i) = read_byte i in
      next (new_event r (skip (len - 3) i) (tempo (tempo_of c c' c'')))

-- How `read_track` ends: it returns 1, with `end_tick`, or 0; `stuck` is the end of the fuel.
pub data Ended : Type 0 where
  track : List Event → ℕ → Input → Ended
  bad : List Event → Input → Ended
  undefined stuck : Ended

unfoldable pub after_round : (Reading → Ended) → Round → Ended
after_round again (next r) = again r
after_round again (invalid r) = bad r.events r.input_
after_round again (end_of_track r) = track r.events r.tick r.input_
after_round again overflow = undefined

module _ (port_count : ℕ) (smpte_timing : Bool) (track_end : ℕ) where
  -- 0xff, behind its type and length.
  unfoldable pub read_meta : Option ℕ → Reading → Option ℕ × Input → Round
  read_meta c r (none, i) = invalid (at_input r i)
  read_meta none r (some len, i) = next (at_input r (skip len i))
  read_meta (some c) r (some len, i) =
      if c == 33
      then (read_port port_count len (at_input r i))
      else if c == 47
      then (end_of_track (at_input r (skip (track_end - i.file_offset) i)))
      else if c == 81
      then (read_tempo smpte_timing len (at_input r i))
      else (next (at_input r (skip len i)))

  unfoldable pub read_system : ℕ → Reading → Round
  read_system cmd r =
      if cmd == 240
      then (read_exclusive cmd r (read_var r.input_))
      else if cmd == 247
      then (read_exclusive cmd r (read_var r.input_))
      else if cmd == 255
      then (let (c, i) = read_byte r.input_ in read_meta c r (read_var i))
      else (invalid r)

  -- The outer `switch`.
  unfoldable pub read_command : ℕ → Reading → Round
  read_command cmd r = elim (with_two_params cmd) [
    | some type ↦ read_two_params type cmd r
    | none ↦ elim (with_one_param cmd) [
      | some type ↦ read_one_param type cmd r
      | none ↦ if cmd / 16 == 15 then (read_system cmd r) else (invalid r)
    ]
  ]

  -- A command, or the byte that takes the last one again.
  pub read_status : Reading → Option ℕ × Input → Round
  read_status r (none, i) = invalid (at_input r i)
  read_status r (some c, i) =
      if c / 128 % 2 == 1
      then (read_command c
          (record r { input_ = i; last_cmd = if ltb c 240 then c else r.last_cmd }))
      else if r.last_cmd == 0
      then (invalid (at_input r (unread_byte c i)))
      else (read_command r.last_cmd (at_input r (unread_byte c i)))

  pub after_delta : Reading → Option ℕ × Input → Round
  after_delta r (none, i) = invalid (at_input r i)
  after_delta r (some delta_ticks, i) =
      if leb 2147483648 (r.tick + delta_ticks)
      then overflow
      else (read_status (record r { tick = r.tick + delta_ticks }) (read_byte i))

  -- One round of the loop.
  unfoldable pub read_event : Reading → Round
  read_event r = after_delta r (read_var r.input_)

  unfoldable pub read_events : ℕ → Reading → Ended
  read_events zero r = stuck
  read_events (suc fuel) r =
      if ltb r.input_.file_offset track_end
      then (after_round (λ r'. read_events fuel r') (read_event r))
      else (bad r.events r.input_)

  -- `track` is empty.
  abbrev pub read_track : ℕ → Input → Ended
  read_track fuel i =
      read_events fuel (record { input_ = i; tick = 0; last_cmd = 0; port = 0; events = [] })
