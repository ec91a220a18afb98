-- ===== src/Amidi.antt =====
-- amidi/amidi.c: hexadecimal bytes on the command line and in the dump, and messages sent one by one.
mod Laws
mod Tests
use alsa_utils.Common.{
  ℕ, zero, suc, ◌+◌, ◌-◌, ◌*◌, ◌/◌, ◌%◌, Bool, true, false, not, ◌&&◌, ◌||◌, Option, none, some,
  List, [], ◌∷◌, ◌++◌, length, ltb, leb, ◌==◌, if◌then◌else◌,
}

-- A character is its code.
abbrev pub between : ℕ → ℕ → ℕ → Bool
between low high c = leb low c && leb c high

pub hex_value : ℕ → Option ℕ
hex_value c =
    if between b'0' b'9' c
    then some (c - b'0')
    else if between b'A' b'F' c
    then some (c - b'A' + 10)
    else if between b'a' b'f' c
    then some (c - b'a' + 10)
    else none

-- The white space of the C locale.
pub isspace : ℕ → Bool
isspace c = c == 32 || between 9 13 c

abbrev pub put : ℕ → Option (List ℕ) → Option (List ℕ)
put b none = none
put b (some bs) = some (b ∷ bs)

abbrev pub put_value : Option ℕ → Option (List ℕ) → Option (List ℕ)
put_value none bs = bs
put_value (some value) bs = put value bs

-- The loop of parse_data, with the first digit of a byte where it has been read. A character that is
-- no digit leaves nothing to send.
pub parse_from : List ℕ → Option ℕ → Option (List ℕ)
parse_from [] value = put_value value (some [])
parse_from (c ∷ cs) value =
    let fresh = parse_from cs none in
    if isspace c then put_value value fresh else elim (hex_value c) [
      | none ↦ none
      | some digit ↦ elim value [
        | none ↦ parse_from cs (some digit)
        | some v ↦ put (v * 16 + digit) fresh
      ]
    ]

abbrev pub parse_data : List ℕ → Option (List ℕ)
parse_data send_hex = parse_from send_hex none

-- Several texts are joined by a blank.
pub add_send_hex_data : Option (List ℕ) → List ℕ → List ℕ
add_send_hex_data none str = str
add_send_hex_data (some send_hex) str = send_hex ++ (32 ∷ str)

-- The states of print_byte.
pub data PrintState : Type 0 where
  unknown one_param one_param_continue two_param_1 two_param_2 two_param_1_continue in_sysex :
      PrintState

abbrev pub is_sysex : PrintState → Bool
is_sysex in_sysex = true
is_sysex s = false

-- Whether a byte begins a line, or one of running status, and the next state.
pub data Layout : Type 0 where
  layout : Bool → Bool → PrintState → Layout

pub lay_data : PrintState → Layout
lay_data one_param = layout false false one_param_continue
lay_data one_param_continue = layout false true one_param_continue
lay_data two_param_1 = layout false false two_param_2
lay_data two_param_2 = layout false false two_param_1_continue
lay_data two_param_1_continue = layout false true two_param_2
lay_data unknown = layout true false unknown
lay_data in_sysex = layout false false in_sysex

pub lay_system : ℕ → PrintState → Layout
lay_system byte state =
    if byte == 240
    then layout true false in_sysex
    else if byte == 241 || byte == 243
    then layout true false one_param
    else if byte == 242
    then layout true false two_param_1
    else if byte == 247
    then layout (not (is_sysex state)) false unknown
    else layout true false unknown

pub lay_byte : ℕ → PrintState → Layout
lay_byte byte state =
    if leb 248 byte
    then layout true false state
    else if leb 240 byte
    then lay_system byte state
    else if leb 128 byte
    then (if between 192 223 byte
        then layout true false one_param
        else layout true false two_param_1)
    else lay_data state

-- A digit of "%02X".
pub hex_digit : ℕ → ℕ
hex_digit d = if ltb d 10 then b'0' + d else b'A' + (d - 10)

abbrev pub hex_byte : ℕ → List ℕ
hex_byte byte = hex_digit (byte / 16 % 16) ∷ hex_digit (byte % 16) ∷ []

-- `time` is the text of the timestamp, if it is wanted.
pub laid_out : List ℕ → ℕ → Layout → List ℕ × PrintState
laid_out time byte (layout newline running_status state) = (
  (if running_status then 10 ∷ 32 ∷ 32 ∷ [] else [])
      ++ ((if newline then 10 else 32) ∷ ((if newline then time else []) ++ hex_byte byte)),
  state,
)

abbrev pub print_byte : List ℕ → ℕ → PrintState → List ℕ × PrintState
print_byte time byte state = laid_out time byte (lay_byte byte state)

-- What print_byte has put out for several bytes.
pub print_bytes : List ℕ → List ℕ → PrintState → List ℕ
print_bytes time [] state = []
print_bytes time (byte ∷ bytes) state =
    let (text, state') = print_byte time byte state in text ++ print_bytes time bytes state'

-- What is kept of the bytes that were read.
pub keep_bytes : Bool → Bool → List ℕ → List ℕ
keep_bytes ignore_clock ignore_active_sensing [] = []
keep_bytes ignore_clock ignore_active_sensing (b ∷ bs) =
    let rest = keep_bytes ignore_clock ignore_active_sensing bs in
    if (not (b == 248) && not (b == 254))
      || (b == 248 && not ignore_clock)
      || (b == 254 && not ignore_active_sensing)
    then b ∷ rest
    else rest

-- Up to the first 0xf7 and with it, or all; and the bytes behind.
pub end_of_sysex : List ℕ → List ℕ × List ℕ
end_of_sysex [] = ([], [])
end_of_sysex (b ∷ bs) =
    let (message, rest) = end_of_sysex bs in if b == 247 then (b ∷ [], bs) else (b ∷ message, rest)

-- The answer of snd_rawmidi_write: bytes that it has taken, which may be fewer than it was given, or
-- `-e`.
pub data WriteResult : Type 0 where
  taken : ℕ → WriteResult
  failed : ℕ → WriteResult

-- The messages that are passed to snd_rawmidi_write, and the error of the last call, if it fails; each
-- call has a number, and its answer is `write`'s. How many bytes a call has taken is not looked at.
-- With the fuel of a round for each byte.
pub send_from : (ℕ → List ℕ → WriteResult) → ℕ → ℕ → List ℕ → List (List ℕ) × Option ℕ
send_from write call zero data_ = ([], none)
send_from write call (suc fuel) [] = ([], none)
send_from write call (suc fuel) (b ∷ bs) =
    let (message, rest) = end_of_sysex (b ∷ bs) in
    let (others, result) = send_from write (call + 1) fuel rest in
    elim (write call message) [
      | taken n ↦ (message ∷ others, result)
      | failed e ↦ (message ∷ [], some e)
    ]

abbrev pub send_midi_interleaved : (ℕ → List ℕ → WriteResult) → List ℕ → List (List ℕ) × Option ℕ
send_midi_interleaved write send_data = send_from write 0 (length send_data) send_data
