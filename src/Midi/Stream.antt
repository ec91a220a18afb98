-- ===== src/Midi/Stream.antt =====
-- seq/aplaymidi/aplaymidi.c: the reads of numbers from the file.
use alsa_utils.Common.{
  ℕ, zero, suc, ◌+◌, ◌-◌, ◌*◌, ◌/◌, ◌%◌, Bool, true, false, Option, none, some, List, [], ◌∷◌, leb,
  ◌==◌, if◌then◌else◌,
}
use alsa_utils.Common.Words.{u32, u32_max}

-- `file` as getc reads it, its flag that feof tells, and `file_offset`. Bytes are below 256.
pub record Input : Type 0 where
  pub bytes : List ℕ
  pub file_offset : ℕ
  pub eof : Bool

-- An input that is not at its end.
abbrev pub input : List ℕ → ℕ → Input
input bytes file_offset = record { bytes = bytes; file_offset = file_offset; eof = false }

-- What getc answers: `none` is `EOF`, which is -1.
abbrev pub getc : List ℕ → ℕ → Bool → Option ℕ × Input
getc [] file_offset eof = (none, record { bytes = []; file_offset = file_offset; eof = true })
getc (b ∷ bs) file_offset eof =
    (some b, record { bytes = bs; file_offset = file_offset; eof = eof })

abbrev pub read_byte : Input → Option ℕ × Input
read_byte i = getc i.bytes (i.file_offset + 1) i.eof

-- `ungetc(c, file); file_offset--`, behind a read.
abbrev pub unread_byte : ℕ → Input → Input
unread_byte c i = input (c ∷ i.bytes) (i.file_offset - 1)

-- `c & 0x7f`, `c & 0x80` and `c` as an `unsigned char`.
abbrev pub low7 : Option ℕ → ℕ
low7 none = 127
low7 (some c) = c % 128

abbrev pub bit7 : Option ℕ → Bool
bit7 none = true
bit7 (some c) = c / 128 % 2 == 1

abbrev pub low8 : Option ℕ → ℕ
low8 none = 255
low8 (some c) = c % 256

-- An `int` is the 32-bit word that represents it.
abbrev pub is_negative : ℕ → Bool
is_negative w = leb 2147483648 w

abbrev pub unless_eof : ℕ → Input → ℕ
unless_eof value i = if i.eof then u32_max else value

unfoldable pub read_32_le : Input → ℕ × Input
read_32_le i =
    let (c, i) = read_byte i in
    let (c₁, i) = read_byte i in
    let (c₂, i) = read_byte i in
    let (c₃, i) = read_byte i in
    (unless_eof (low8 c + 256 * low8 c₁ + 65536 * low8 c₂ + 16777216 * low8 c₃) i, i)

abbrev pub read_id : Input → ℕ × Input
read_id = read_32_le

-- The loop of `read_int`, with the bytes that are left.
unfoldable pub read_int : ℕ → ℕ → Input → ℕ × Input
read_int zero value i = (value, i)
read_int (suc bytes) value i =
    let (c, i') = read_byte i in
    elim c [ none ↦ (u32_max, i') | some b ↦ read_int bytes (u32 (value * 256 + b)) i' ]

-- A variable-length number from a byte on, of which `more` may follow: `none` is -1.
unfoldable pub read_var_from : ℕ → ℕ → Input → Option ℕ × Input
read_var_from zero value i =
    let (c, i') = read_byte i in
    (if bit7 c then none else if i'.eof then none else some (value * 128 + low7 c), i')
read_var_from (suc more) value i =
    let (c, i') = read_byte i in
    let rest = read_var_from more (value * 128 + low7 c) i' in
    if bit7 c then rest else (if i'.eof then none else some (value * 128 + low7 c), i')

abbrev pub read_var : Input → Option ℕ × Input
read_var i = read_var_from 3 0 i

unfoldable pub skip : ℕ → Input → Input
skip zero i = i
skip (suc bytes) i = skip bytes ((read_byte i).1)
