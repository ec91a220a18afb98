-- ===== src/Common/Words.antt =====
-- Unsigned C integers, and fixed-width fields in byte order (`htobe32`, `le16toh` and the like).
use Prim.Native.Nat.{ℕ, ◌+◌, ◌-◌, ◌*◌, ◌/◌, ◌%◌}
use mathlib.Core.List.{List, [], ◌∷◌}
use alsa_utils.Common.Lists.{get_or}

-- Conversion to `unsigned int`/`uint32_t`, `uint16_t`, `uint64_t`.
abbrev pub u32 : ℕ → ℕ
u32 x = x % 4294967296

abbrev pub u16 : ℕ → ℕ
u16 x = x % 65536

abbrev pub u64 : ℕ → ℕ
u64 x = x % 18446744073709551616

-- `a - b` in each width.
abbrev pub sub_u32 : ℕ → ℕ → ℕ
sub_u32 a b = (a + 4294967296 - b) % 4294967296

abbrev pub sub_u64 : ℕ → ℕ → ℕ
sub_u64 a b = (a + 18446744073709551616 - b) % 18446744073709551616

abbrev pub u32_max : ℕ
u32_max = 4294967295

abbrev pub u64_max : ℕ
u64_max = 18446744073709551615

-- A 16- or 32-bit field as it lies in memory after `htole` and `htobe`.
abbrev pub le16_bytes : ℕ → List ℕ
le16_bytes x = x % 256 ∷ x / 256 % 256 ∷ []

abbrev pub be16_bytes : ℕ → List ℕ
be16_bytes x = x / 256 % 256 ∷ x % 256 ∷ []

abbrev pub le32_bytes : ℕ → List ℕ
le32_bytes x = x % 256 ∷ x / 256 % 256 ∷ x / 65536 % 256 ∷ x / 16777216 % 256 ∷ []

abbrev pub be32_bytes : ℕ → List ℕ
be32_bytes x = x / 16777216 % 256 ∷ x / 65536 % 256 ∷ x / 256 % 256 ∷ x % 256 ∷ []

-- The field at an offset of a structure, read by `letoh` and `betoh`.
abbrev pub byte_at : List ℕ → ℕ → ℕ
byte_at bs i = get_or bs i 0

abbrev pub le16_at : List ℕ → ℕ → ℕ
le16_at bs i = byte_at bs i + 256 * byte_at bs (i + 1)

abbrev pub be16_at : List ℕ → ℕ → ℕ
be16_at bs i = 256 * byte_at bs i + byte_at bs (i + 1)

abbrev pub le32_at : List ℕ → ℕ → ℕ
le32_at bs i =
    byte_at bs i
    + 256 * byte_at bs (i + 1)
    + 65536 * byte_at bs (i + 2)
    + 16777216 * byte_at bs (i + 3)

abbrev pub be32_at : List ℕ → ℕ → ℕ
be32_at bs i =
    16777216 * byte_at bs i
    + 65536 * byte_at bs (i + 1)
    + 256 * byte_at bs (i + 2)
    + byte_at bs (i + 3)
