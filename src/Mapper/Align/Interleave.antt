-- ===== src/Mapper/Align/Interleave.antt =====
-- The functions of the mappers on frames: deinterleaving, interleaving, and both in a row.
use alsa_utils.Common.{
  ℕ, ◌+◌, ◌-◌, ◌*◌, ◌≤◌, ◌<◌, ◌≡◌, ◌∙◌, ap, ◌⊎◌, inl, inr, some, List, [], length, arith, get_or,
}
use native.Mathlib.Decide.{dec_lt}
use native.Mathlib.Nat.{zero-add}
use alsa_utils.Common.Words.{u32}
use alsa_utils.Mapper.Align.{interleaved_pos, frame_pos, align_to_vector, align_from_vector}
use alsa_utils.Mapper.Align.Bytes.{byte, scatter_lem}
use alsa_utils.Mapper.Align.Gather.{gather_lem}

pub mul_le : (u a b : ℕ) → a ≤ b → u * a ≤ u * b
mul_le u a b h = omega (arith, ap (λ t. u * t) split)
  where
    split : b ≡ a + (b - a)
    split = omega arith

-- `n` bytes a sample, `s` samples a frame, `f` frames.
module _ (n s f : ℕ) (fits : n * (s * f) < 4294967296) (pos : 0 < n) where
  -- A sample stands inside the buffer: its position does not wrap around.
  sample_lt : (i j : ℕ) → i < s → j < f → s * j + i + 1 ≤ s * f
  sample_lt i j hi hj = omega (arith, mul_le s (j + 1) f (omega arith))

  sample_fits : (i j : ℕ) → i < s → j < f → n * (s * j + i) + n ≤ n * (s * f)
  sample_fits i j hi hj = omega (arith, mul_le n (s * j + i + 1) (s * f) (sample_lt i j hi hj))

  pub interleaved_pos_lem : (i j : ℕ) → i < s → j < f → interleaved_pos n s i j ≡ n * (s * j + i)
  interleaved_pos_lem i j hi hj = ap (λ x. u32 (n * x)) small ∙ omega (arith, sample_fits i j hi hj)
    where
      one : s * j + i ≤ n * (s * j + i)
      one = omega (arith, mul_le (s * j + i) 1 n pos)

      small : u32 (s * j + i) ≡ s * j + i
      small = omega (arith, one, sample_fits i j hi hj)

  frame_fits : (j : ℕ) → 0 < s → j < f → n * j + n ≤ n * f
  frame_fits j hs hj = omega (arith, mul_le n (j + 1) f (omega arith))

  all_le : 0 < s → n * f ≤ n * (s * f)
  all_le hs = mul_le n f (s * f) (omega (arith, mul_le f 1 s hs))

  pub frame_pos_lem : (j : ℕ) → 0 < s → j < f → frame_pos n j ≡ n * j
  frame_pos_lem j hs hj = omega (arith, frame_fits j hs hj, all_le hs)

  -- The samples of one channel stand in the order of the frames, and those of two channels apart.
  in_order :
      (i k l : ℕ) → i < s → k < l → l < f → interleaved_pos n s i k + n ≤ interleaved_pos n s i l
  in_order i k l hi h hl =
      rw (interleaved_pos_lem i k hi (omega arith), interleaved_pos_lem i l hi hl)
        (omega (
          arith,
          mul_le n (s * k + i + 1) (s * l + i) (omega (arith, mul_le s (k + 1) l (omega arith))),
        ))

  frames_in_order : (k l : ℕ) → 0 < s → k < l → l < f → frame_pos n k + n ≤ frame_pos n l
  frames_in_order k l hs h hl =
      rw (frame_pos_lem k hs (omega arith), frame_pos_lem l hs hl)
        (omega (arith, mul_le n (k + 1) l (omega arith)))

  apart :
      (m k j l : ℕ)
      → m < k
      → k < s
      → j < f
      → l < f
      → (interleaved_pos n s k l + n ≤ interleaved_pos n s m j)
        ⊎ (interleaved_pos n s m j + n ≤ interleaved_pos n s k l)
  apart m k j l h hk hj hl =
      rw (interleaved_pos_lem k l hk hl, interleaved_pos_lem m j (omega arith) hj)
        (elim (dec_lt l j) [
          | yes a ↦ inl (
              omega (
                arith,
                mul_le n (s * l + k + 1) (s * j + m)
                    (omega (arith, mul_le s (l + 1) j (omega arith))),
              ))
          | no a ↦ inr (
              omega (
                arith,
                mul_le n (s * j + m + 1) (s * l + k) (omega (arith, mul_le s j l (omega arith))),
              ))
        ])

-- `n` bytes a sample, `s` samples a frame, `f` frames: which sample of one side is which of the other.
module _ (n s f : ℕ) where
  -- What each channel's buffer holds.
  pub record Deinterleaves (src : List ℕ) (dsts after : List (List ℕ)) : Type 0 where
    pub same_count : length after ≡ length dsts
    pub same_length : (i : ℕ) → i < s → length (get_or after i []) ≡ length (get_or dsts i [])
    pub samples :
        (i j t : ℕ)
        → i < s
        → j < f
        → t < n
        → byte (get_or after i []) (n * j + t) ≡ byte src (n * (s * j + i) + t)

  pub record Interleaves (srcs : List (List ℕ)) (dst after : List ℕ) : Type 0 where
    pub same_length : length after ≡ length dst
    pub samples :
        (i j t : ℕ)
        → i < s
        → j < f
        → t < n
        → byte after (n * (s * j + i) + t) ≡ byte (get_or srcs i []) (n * j + t)

module _ (n s f : ℕ) (fits : n * (s * f) < 4294967296) (pos : 0 < n) where
  -- `align_to_vector` puts the sample of channel `i` in frame `j` to place `j` of buffer `i`, if each
  -- buffer has room for all frames, and the positions fit 32 bits.
  pub align_to_vector_lem :
      (src : List ℕ) (dsts : List (List ℕ))
      → s ≤ length dsts
      → ((i : ℕ) → i < s → n * f ≤ length (get_or dsts i []))
      → n * (s * f) ≤ length src
      → (after : List (List ℕ)) × (align_to_vector dsts f src n s ≡ some after)
        × Deinterleaves n s f src dsts after
  unfolding align_to_vector
  align_to_vector_lem src dsts hc hd hs =
      let (after, e, len, each) =
        scatter_lem n (λ i. frame_pos n) (interleaved_pos n s) f src s 0 dsts hc
          (λ i j a b. (room i j a b, rest i j a b))
          (λ i k l a h b. frames_in_order n s f fits pos k l (omega arith) h b) in
      (
        after,
        e,
        record {
          same_count = len;
          same_length = λ i a. (each i a).same_length;
          samples = λ i j t a b h.
              rw
                (
                  zero-add,
                  frame_pos_lem n s f fits pos j (omega arith) b,
                  interleaved_pos_lem n s f fits pos i j a b,
                )
                at ((each i a).inside j t (omega arith) (omega arith) h);
        },
      )
    where
      room : (i j : ℕ) → i < s → j < f → frame_pos n j + n ≤ length (get_or dsts i [])
      room i j a b =
          rw (frame_pos_lem n s f fits pos j (omega arith) b)
            (omega (arith, hd i a, frame_fits n s f fits pos j (omega arith) b))

      rest : (i j : ℕ) → i < s → j < f → interleaved_pos n s (0 + i) j + n ≤ length src
      rest i j a b =
          rw (zero-add, interleaved_pos_lem n s f fits pos i j a b)
            (omega (arith, sample_fits n s f fits pos i j a b))

  -- `align_from_vector` puts them back: the sample in place `j` of buffer `i` becomes that of channel
  -- `i` in frame `j`.
  pub align_from_vector_lem :
      (dst : List ℕ) (srcs : List (List ℕ))
      → s ≤ length srcs
      → ((i : ℕ) → i < s → n * f ≤ length (get_or srcs i []))
      → n * (s * f) ≤ length dst
      → (after : List ℕ) × (align_from_vector srcs f dst n s ≡ some after)
        × Interleaves n s f srcs dst after
  unfolding align_from_vector
  align_from_vector_lem dst srcs hc hs hd =
      let (after, e, all) =
        gather_lem n (interleaved_pos n s) (λ i. frame_pos n) f s 0 dst srcs hc
          (λ i j a b. (room i j a b, rest i j a b))
          (λ i k l a h b. rw zero-add (in_order n s f fits pos i k l a h b))
          (λ m k j l h a b c. rw (zero-add, zero-add) (apart n s f fits pos m k j l h a b c)) in
      (
        after,
        e,
        record {
          same_length = all.same_length;
          samples = λ i j t a b h.
              rw
                (
                  zero-add,
                  frame_pos_lem n s f fits pos j (omega arith) b,
                  interleaved_pos_lem n s f fits pos i j a b,
                )
                at (all.inside i j t a b h);
        },
      )
    where
      rest : (i j : ℕ) → i < s → j < f → frame_pos n j + n ≤ length (get_or srcs i [])
      rest i j a b =
          rw (frame_pos_lem n s f fits pos j (omega arith) b)
            (omega (arith, hs i a, frame_fits n s f fits pos j (omega arith) b))

      room : (i j : ℕ) → i < s → j < f → interleaved_pos n s (0 + i) j + n ≤ length dst
      room i j a b =
          rw (zero-add, interleaved_pos_lem n s f fits pos i j a b)
            (omega (arith, sample_fits n s f fits pos i j a b))
