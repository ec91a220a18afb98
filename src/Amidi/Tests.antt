-- ===== src/Amidi/Tests.antt =====
-- The theorems on amidi at concrete inputs.
use alsa_utils.Common.{ℕ, ◌≤◌, ◌≡◌, refl, some, List, [], ◌∷◌, length, arith, ◌==◌, if◌then◌else◌}
use alsa_utils.Amidi.{
  parse_from, parse_data, unknown, isspace, hex_value, print_bytes, WriteResult, taken, failed,
  send_midi_interleaved,
}
use alsa_utils.Amidi.Laws.{
  Sent, parse_data-print_bytes, length-parse_data, send_midi_interleaved_lem,
}

-- A note with running status, and an exclusive message.
abbrev note_and_exclusive : List ℕ
note_and_exclusive = 144 ∷ 60 ∷ 64 ∷ 62 ∷ 0 ∷ 240 ∷ 126 ∷ 247 ∷ []

parse_data-print_bytes_example :
    parse_data (print_bytes [] note_and_exclusive unknown) ≡ some note_and_exclusive
parse_data-print_bytes_example = parse_data-print_bytes note_and_exclusive unknown (
  omega arith,
  (
    omega arith,
    (omega arith, (omega arith, (omega arith, (omega arith, (omega arith, (omega arith, tt)))))),
  ),
)

-- "9 0 3c 4"
abbrev three_bytes_text : List ℕ
three_bytes_text = b'9' ∷ 32 ∷ b'0' ∷ 32 ∷ b'3' ∷ b'c' ∷ 32 ∷ b'4' ∷ []

three_bytes : parse_data three_bytes_text ≡ some (9 ∷ 0 ∷ 60 ∷ 4 ∷ [])
unfolding parse_from isspace hex_value
three_bytes = refl

length-parse_data_example : 4 ≤ length three_bytes_text
length-parse_data_example = length-parse_data three_bytes_text (9 ∷ 0 ∷ 60 ∷ 4 ∷ []) three_bytes

-- The second call fails.
abbrev second_fails : ℕ → List ℕ → WriteResult
second_fails call message = if call == 1 then failed 5 else taken (length message)

send_midi_interleaved_example :
    Sent second_fails 0 note_and_exclusive (send_midi_interleaved second_fails note_and_exclusive)
send_midi_interleaved_example = send_midi_interleaved_lem second_fails note_and_exclusive
