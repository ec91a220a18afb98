-- ===== src/Mapper/Align/RoundTrip.antt =====
-- Interleaving and deinterleaving in a row, and the two mappers against each other.
use alsa_utils.Common.{
  ℕ, zero, suc, ◌+◌, ◌*◌, ◌/◌, ◌%◌, ◌<◌, ◌≡◌, refl, ◌∙◌, ap, some, List, [], ◌∷◌, length, arith,
  get_or, get_or-ext,
}
use native.Mathlib.Nat.{div-add-mod, mod-lt, div-lt_iff_lt-mul, mul_comm}
use alsa_utils.Common.Words.{u32}
use alsa_utils.Mapper.Align.{
  or_none, copy_frames, scatter, gather, frame_pos, wide_frame_pos, align_to_vector,
  align_from_vector, align_to_i, align_from_i,
}
use alsa_utils.Mapper.Align.Bytes.{byte}
use alsa_utils.Mapper.Align.Interleave.{align_to_vector_lem, align_from_vector_lem}

-- A buffer is given by the bytes of its samples.
samples-ext :
    (n f : ℕ) (xs ys : List ℕ)
    → 0 < n
    → length xs ≡ n * f
    → length ys ≡ n * f
    → ((j t : ℕ) → j < f → t < n → byte xs (n * j + t) ≡ byte ys (n * j + t))
    → xs ≡ ys
samples-ext n f xs ys pos lx ly h = get_or-ext 0 xs ys (omega arith) (λ x l.
    rw (div-add-mod x n) at (
      h (x / n) (x % n) ((div-lt_iff_lt-mul pos).1 (omega (arith, lx, mul_comm n f)))
        (mod-lt x pos)))

module _ (n s f : ℕ) (fits : n * (s * f) < 4294967296) (pos : 0 < n) where
  -- Buffers of one period for each channel, interleaved to a buffer of one period and deinterleaved
  -- to other buffers of this size, come back.
  pub align_to_vector-align_from_vector :
      (srcs dsts : List (List ℕ)) (dst : List ℕ)
      → length srcs ≡ s
      → length dsts ≡ s
      → ((i : ℕ) → i < s → length (get_or srcs i []) ≡ n * f)
      → ((i : ℕ) → i < s → length (get_or dsts i []) ≡ n * f)
      → length dst ≡ n * (s * f)
      → (mid : List ℕ) × (align_from_vector srcs f dst n s ≡ some mid)
        × (align_to_vector dsts f mid n s ≡ some srcs)
  align_to_vector-align_from_vector srcs dsts dst cs cd ls ld l =
      let (mid, e, to) =
        align_from_vector_lem n s f fits pos dst srcs (omega arith) (λ i a. omega (arith, ls i a))
          (omega arith) in
      let (after, e', from) =
        align_to_vector_lem n s f fits pos mid dsts (omega arith) (λ i a. omega (arith, ld i a))
          (omega (arith, to.same_length)) in
      let same : after ≡ srcs = get_or-ext [] after srcs (omega (arith, from.same_count)) (λ i a.
        let b : i < s = omega (arith, from.same_count) in
        samples-ext n f (get_or after i []) (get_or srcs i []) pos (from.same_length i b ∙ ld i b)
          (ls i b) (λ j t p q. from.samples i j t b p q ∙ to.samples i j t b p q)) in
      (mid, e, e' ∙ ap some same)

-- The loops depend on nothing but the positions of the channels that they visit.
scatter-positions :
    (n : ℕ) (dst_pos dst_pos' src_pos : ℕ → ℕ → ℕ) (f count i : ℕ) (dsts : List (List ℕ))
    (src : List ℕ)
    → ((m : ℕ) → m < i + count → dst_pos m ≡ dst_pos' m)
    → scatter n dst_pos src_pos f count i dsts src ≡ scatter n dst_pos' src_pos f count i dsts src
unfolding scatter
scatter-positions n p q src_pos f zero i dsts src h = refl
scatter-positions n p q src_pos f (suc count) i [] src h = refl
scatter-positions n p q src_pos f (suc count) i (dst ∷ dsts) src h = rw (
  h i (omega arith),
  scatter-positions n p q src_pos f count (i + 1) dsts src (λ m l. h m (omega arith)),
)

gather-positions :
    (n : ℕ) (dst_pos src_pos src_pos' : ℕ → ℕ → ℕ) (f count i : ℕ) (dst : List ℕ)
    (srcs : List (List ℕ))
    → ((m : ℕ) → m < i + count → src_pos m ≡ src_pos' m)
    → gather n dst_pos src_pos f count i dst srcs ≡ gather n dst_pos src_pos' f count i dst srcs
unfolding gather
gather-positions n dst_pos p q f zero i dst srcs h = refl
gather-positions n dst_pos p q f (suc count) i dst [] h = refl
gather-positions n dst_pos p q f (suc count) i dst (src ∷ srcs) h = rw (h i (omega arith)) (
    ap (or_none (copy_frames n (dst_pos i) (q i) f 0 dst src)) (λ k dst'.
      gather-positions n dst_pos p q f count (i + 1) dst' srcs (λ m l. h m (omega arith)) k))

mono_pos :
    (n : ℕ) (widths : List ℕ) (i : ℕ)
    → get_or widths i 0 ≡ 1
    → wide_frame_pos n widths i ≡ frame_pos n
mono_pos n widths i h = λ k j. u32 (one k * j)
  where
    times : n * 1 ≡ n
    times = omega arith

    one : n * get_or widths i 0 ≡ n
    one = ap (λ w. n * w) h ∙ times

module _ (n f : ℕ) (widths : List ℕ) (count : ℕ)
    (mono : (i : ℕ) → i < count → get_or widths i 0 ≡ 1) where
  -- With containers of one sample a frame, the two functions for several containers do what those for
  -- one container with as many channels do.
  pub align_i_vector :
      (frames : List ℕ) (bufs : List (List ℕ))
      → (align_from_i frames f bufs n widths count ≡ align_to_vector bufs f frames n count)
        × (align_to_i frames f bufs n widths count ≡ align_from_vector bufs f frames n count)
  unfolding align_from_i align_to_i align_to_vector align_from_vector
  align_i_vector frames bufs = (
    scatter-positions n (wide_frame_pos n widths) (λ i. frame_pos n) _ f count 0 bufs frames
        (λ m l. mono_pos n widths m (mono m (omega arith))),
    gather-positions n _ (wide_frame_pos n widths) (λ i. frame_pos n) f count 0 frames bufs
        (λ m l. mono_pos n widths m (mono m (omega arith))),
  )
