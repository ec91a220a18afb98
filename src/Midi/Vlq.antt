-- ===== src/Midi/Vlq.antt =====
-- Variable-length numbers of the recorder, as the player reads them.
use alsa_utils.Common.{
  ℕ, zero, suc, ◌+◌, ◌*◌, ◌/◌, ◌%◌, ◌≤◌, ◌<◌, ◌≡◌, inl, inr, true, false, Bool-cases, Option, none,
  some, List, [], ◌∷◌, ◌++◌, length, arith, leb, ltb, ◌==◌,
}
use native.Mathlib.Decide.{dec_lt}
use alsa_utils.Midi.Stream.{Input, input, read_var, read_var_from}
use alsa_utils.Midi.Record.{SmfTrack, at_least, var_value}
use alsa_utils.Midi.Record.Steps.{vlq, Puts-var}
use alsa_utils.Midi.Record.Bytes.{contents}

bit7_more : (x : ℕ) → ((128 + x % 128) / 128 % 2 == 1) ≡ true
bit7_more x = ground arith

bit7_last : (x : ℕ) → (x % 128 / 128 % 2 == 1) ≡ false
bit7_last x = ground arith

low7_more : (x : ℕ) → (128 + x % 128) % 128 ≡ x % 128
low7_more x = omega arith

low7_last : (x : ℕ) → x % 128 % 128 ≡ x % 128
low7_last x = omega arith

pub read_var_more :
    (more value x : ℕ) (bs : List ℕ) (o : ℕ)
    → read_var_from (suc more) value (input ((128 + x % 128) ∷ bs) o)
      ≡ read_var_from more (value * 128 + x % 128) (input bs (o + 1))
unfolding read_var_from
read_var_more more value x bs o = rw (bit7_more x, low7_more x)

pub read_var_last :
    (more value x : ℕ) (bs : List ℕ) (o : ℕ)
    → read_var_from more value (input (x % 128 ∷ bs) o)
      ≡ (some (value * 128 + x % 128), input bs (o + 1))
unfolding read_var_from
read_var_last zero value x bs o = rw (bit7_last x, low7_last x)
read_var_last (suc more) value x bs o = rw (bit7_last x, low7_last x)

at_least_yes : (v limit : ℕ) → v < 2147483648 → limit ≤ v → at_least v limit ≡ true
at_least_yes v limit h l = rw (small, above)
  where
    small : ltb v 2147483648 ≡ true
    small = ground arith

    above : leb limit v ≡ true
    above = ground arith

at_least_no : (v limit : ℕ) → v < limit → at_least v limit ≡ false
at_least_no v limit h = elim (Bool-cases (ltb v 2147483648)) [
  | inl e ↦ rw (e, below)
  | inr e ↦ rw e
]
  where
    below : leb limit v ≡ false
    below = ground arith

module _ (v : ℕ) where
  vlq_one : v < 128 → vlq v ≡ v % 128 ∷ []
  unfolding vlq
  vlq_one h = rw (
    at_least_no v 268435456 (omega arith),
    at_least_no v 2097152 (omega arith),
    at_least_no v 16384 (omega arith),
    at_least_no v 128 (omega arith),
  )

  vlq_two : 128 ≤ v → v < 16384 → vlq v ≡ (128 + v / 128 % 128) ∷ v % 128 ∷ []
  unfolding vlq
  vlq_two l h = rw (
    at_least_no v 268435456 (omega arith),
    at_least_no v 2097152 (omega arith),
    at_least_no v 16384 (omega arith),
    at_least_yes v 128 (omega arith) l,
  )

  vlq_three :
      16384 ≤ v
      → v < 2097152
      → vlq v ≡ (128 + v / 16384 % 128) ∷ (128 + v / 128 % 128) ∷ v % 128 ∷ []
  unfolding vlq
  vlq_three l h = rw (
    at_least_no v 268435456 (omega arith),
    at_least_no v 2097152 (omega arith),
    at_least_yes v 16384 (omega arith) l,
    at_least_yes v 128 (omega arith) (omega arith),
  )

  vlq_four :
      2097152 ≤ v
      → v < 268435456
      → vlq v
        ≡ (128 + v / 2097152 % 128) ∷ (128 + v / 16384 % 128) ∷ (128 + v / 128 % 128) ∷ v % 128 ∷ []
  unfolding vlq
  vlq_four l h = rw (
    at_least_no v 268435456 (omega arith),
    at_least_yes v 2097152 (omega arith) l,
    at_least_yes v 16384 (omega arith) (omega arith),
    at_least_yes v 128 (omega arith) (omega arith),
  )

  vlq_five :
      268435456 ≤ v
      → v < 2147483648
      → vlq v
        ≡ (128 + v / 268435456 % 4)
          ∷ (128 + v / 2097152 % 128)
          ∷ (128 + v / 16384 % 128)
          ∷ (128 + v / 128 % 128)
          ∷ v % 128
          ∷ []
  unfolding vlq
  vlq_five l h = rw (
    at_least_yes v 268435456 h l,
    at_least_yes v 2097152 h (omega arith),
    at_least_yes v 16384 h (omega arith),
    at_least_yes v 128 h (omega arith),
  )

  module _ (rest : List ℕ) (o : ℕ) where
    abbrev read_as : ℕ → ℕ → Option ℕ × Input
    read_as v' o' = (some v', input rest o')

    same : {v' o' v'' o'' : ℕ} → v' ≡ v'' → o' ≡ o'' → read_as v' o' ≡ read_as v'' o''
    same p q = λ k. read_as (p k) (q k)

    -- A number of up to 28 bits, as var_value puts it, is read back by read_var, which takes its bytes.
    pub read_var-vlq :
        v < 268435456
        → read_var (input (vlq v ++ rest) o) ≡ (some v, input rest (o + length (vlq v)))
    read_var-vlq h = elim (dec_lt v 128) [
      | yes a ↦ rw (vlq_one a, read_var_last 3 0 v rest o) (same (omega arith) (omega arith))
      | no a ↦ elim (dec_lt v 16384) [
        | yes b ↦
            rw
              (
                vlq_two (omega arith) b,
                read_var_more 2 0 (v / 128) (v % 128 ∷ rest) o,
                read_var_last 2 (0 * 128 + v / 128 % 128) v rest (o + 1),
              )
              (same (omega arith) (omega arith))
        | no b ↦ elim (dec_lt v 2097152) [
          | yes c ↦
              rw
                (
                  vlq_three (omega arith) c,
                  read_var_more 2 0 (v / 16384) ((128 + v / 128 % 128) ∷ v % 128 ∷ rest) o,
                  read_var_more 1 (0 * 128 + v / 16384 % 128) (v / 128) (v % 128 ∷ rest) (o + 1),
                  read_var_last 1 ((0 * 128 + v / 16384 % 128) * 128 + v / 128 % 128) v rest
                      (o + 1 + 1),
                )
                (same (omega arith) (omega arith))
          | no c ↦
              rw
                (
                  vlq_four (omega arith) h,
                  read_var_more 2 0 (v / 2097152)
                      ((128 + v / 16384 % 128) ∷ (128 + v / 128 % 128) ∷ v % 128 ∷ rest) o,
                  read_var_more 1 (0 * 128 + v / 2097152 % 128) (v / 16384)
                      ((128 + v / 128 % 128) ∷ v % 128 ∷ rest) (o + 1),
                  read_var_more 0 ((0 * 128 + v / 2097152 % 128) * 128 + v / 16384 % 128) (v / 128)
                      (v % 128 ∷ rest) (o + 1 + 1),
                  read_var_last 0
                      (((0 * 128 + v / 2097152 % 128) * 128 + v / 16384 % 128) * 128
                        + v / 128 % 128)
                      v rest (o + 1 + 1 + 1),
                )
                (same (omega arith) (omega arith))
        ]
      ]
    ]

    read_var_refused :
        (o value x : ℕ) (bs : List ℕ)
        → (read_var_from 0 value (input ((128 + x % 128) ∷ bs) o)).0 ≡ none
    unfolding read_var_from
    read_var_refused o value x bs = rw (bit7_more x)

    vlq_refused : 268435456 ≤ v → v < 2147483648 → (read_var (input (vlq v ++ rest) o)).0 ≡ none
    vlq_refused l h =
        rw
          (
            vlq_five l h,
            top,
            read_var_more 2 0 (v / 268435456 % 4)
                ((128 + v / 2097152 % 128)
                  ∷ (128 + v / 16384 % 128)
                  ∷ (128 + v / 128 % 128)
                  ∷ v % 128
                  ∷ rest)
                o,
            read_var_more 1 (0 * 128 + v / 268435456 % 4 % 128) (v / 2097152)
                ((128 + v / 16384 % 128) ∷ (128 + v / 128 % 128) ∷ v % 128 ∷ rest) (o + 1),
            read_var_more 0 ((0 * 128 + v / 268435456 % 4 % 128) * 128 + v / 2097152 % 128)
                (v / 16384) ((128 + v / 128 % 128) ∷ v % 128 ∷ rest) (o + 1 + 1),
          )
          (read_var_refused (o + 1 + 1 + 1) _ (v / 128) (v % 128 ∷ rest))
      where
        top : 128 + v / 268435456 % 4 ≡ 128 + v / 268435456 % 4 % 128
        top = omega arith

  -- For a number below 2 ^ 28, var_value appends bytes to a track that read_var reads as the
  -- number, taking all of them.
  pub var_value-read_var :
      (t : SmfTrack) (rest : List ℕ) (o : ℕ)
      → v < 268435456
      → (bytes : List ℕ) × (contents (var_value t v) ≡ contents t ++ bytes)
        × (read_var (input (bytes ++ rest) o) ≡ (some v, input rest (o + length bytes)))
  var_value-read_var t rest o h = (vlq v, (Puts-var t v).added, read_var-vlq rest o h)

  -- For a number from 2 ^ 28 to 2 ^ 31, var_value appends bytes to a track that read_var refuses.
  pub var_value-too_long :
      (t : SmfTrack) (rest : List ℕ) (o : ℕ)
      → 268435456 ≤ v
      → v < 2147483648
      → (bytes : List ℕ) × (contents (var_value t v) ≡ contents t ++ bytes)
        × ((read_var (input (bytes ++ rest) o)).0 ≡ none)
  var_value-too_long t rest o l h = (vlq v, (Puts-var t v).added, vlq_refused rest o l h)
