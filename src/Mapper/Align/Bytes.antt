-- ===== src/Mapper/Align/Bytes.antt =====
-- Which byte goes where: the loops of the mappers, byte by byte.
use native.Mathlib.Decide.{ℕ_discrete}
use alsa_utils.Common.{
  ℕ, zero, suc, ◌+◌, ◌≤◌, ◌<◌, ◌≡◌, refl, ◌∙◌, ap, ◌⊎◌, inl, inr, true, Option, some, List, [], ◌∷◌,
  length, take, drop, leb, arith, get_or, splice, length-splice, splice-inside, splice-outside,
  get_or-take, get_or-drop, length-take, length-drop,
}
use alsa_utils.Mapper.Align.{copy_sample, copy_frames, scatter}

abbrev pub byte : List ℕ → ℕ → ℕ
byte buf x = get_or buf x 0

-- What one copy does.
module _ (n : ℕ) (dst : List ℕ) (p : ℕ) (src : List ℕ) (q : ℕ) (hd : p + n ≤ length dst)
    (hs : q + n ≤ length src) where
  abbrev pub copied : List ℕ
  copied = splice dst p (take n (drop q src))

  length-part : length (take n (drop q src)) ≡ n
  length-part = omega (arith, length-take n (drop q src), length-drop q src)

  copy_sample_lem : copy_sample n dst p src q ≡ some copied
  copy_sample_lem = rw (fits_dst, fits_src)
    where
      fits_dst : leb (p + n) (length dst) ≡ true
      fits_dst = ground arith

      fits_src : leb (q + n) (length src) ≡ true
      fits_src = ground arith

  length-copied : length copied ≡ length dst
  length-copied = length-splice dst p (take n (drop q src)) (omega (arith, length-part))

  copied-inside : (t : ℕ) → t < n → byte copied (p + t) ≡ byte src (q + t)
  copied-inside t h =
      splice-inside dst p (take n (drop q src)) t (omega arith) (omega (arith, length-part))
      ∙ get_or-take 0 n (drop q src) t h
      ∙ get_or-drop 0 q src t (q + t) refl

  copied-outside : (x : ℕ) → (x < p) ⊎ (p + n ≤ x) → byte copied x ≡ byte dst x
  copied-outside x (inl h) =
      splice-outside dst p (take n (drop q src)) x (omega (arith, length-part)) (inl h)
  copied-outside x (inr h) =
      splice-outside dst p (take n (drop q src)) x (omega (arith, length-part))
        (inr (omega (arith, length-part)))

-- An index that none of the copies of frames `j` to `j + rounds` touches.
abbrev pub Outside : ℕ → (ℕ → ℕ) → ℕ → ℕ → ℕ → Type 0
Outside n dst_pos rounds j x =
    (k : ℕ) → j ≤ k → k < j + rounds → (x < dst_pos k) ⊎ (dst_pos k + n ≤ x)

-- What the inner loop makes of `dst`: all copies are in it, and nothing else has changed.
pub record Copies (n : ℕ) (dst_pos src_pos : ℕ → ℕ) (src : List ℕ) (rounds j : ℕ)
    (dst after : List ℕ) : Type 0 where
  pub same_length : length after ≡ length dst
  pub inside :
      (k t : ℕ)
      → j ≤ k
      → k < j + rounds
      → t < n
      → byte after (dst_pos k + t) ≡ byte src (src_pos k + t)
  pub outside : (x : ℕ) → Outside n dst_pos rounds j x → byte after x ≡ byte dst x

-- The inner loop, if all its copies are in bounds and no two of them overlap.
module _ (n : ℕ) (dst_pos src_pos : ℕ → ℕ) (src : List ℕ) where
  abbrev pub Copied : ℕ → ℕ → List ℕ → Option (List ℕ) → Type 0
  Copied rounds j dst out =
      (after : List ℕ) × (out ≡ some after) × Copies n dst_pos src_pos src rounds j dst after

  -- One copy, and then the rest of the loop.
  Copied-more :
      (rounds j : ℕ) (dst : List ℕ) (hd : dst_pos j + n ≤ length dst)
      (hs : src_pos j + n ≤ length src) {out : Option (List ℕ)}
      → ((l : ℕ) → j < l → l < j + suc rounds → dst_pos j + n ≤ dst_pos l)
      → Copied rounds (j + 1) (copied n dst (dst_pos j) src (src_pos j) hd hs) out
      → Copied (suc rounds) j dst out
  Copied-more rounds j dst hd hs apart (after, result, rest) = (
    after,
    result,
    record {
      same_length = rest.same_length ∙ length-copied n dst (dst_pos j) src (src_pos j) hd hs;
      inside = λ k t a b h. elim (ℕ_discrete j k) [
        | yes e ↦ rw (← e) (
            rest.outside (dst_pos j + t)
              (λ l p q. inl (omega (arith, apart l (omega arith) (omega arith))))
            ∙ copied-inside n dst (dst_pos j) src (src_pos j) hd hs t h)
        | no ne ↦ rest.inside k t (grind arith) (omega arith) h
      ];
      outside = λ x o.
          rest.outside x (λ k a b. o k (omega arith) (omega arith))
          ∙ copied-outside n dst (dst_pos j) src (src_pos j) hd hs x
              (o j (omega arith) (omega arith));
    },
  )

  pub copy_frames_lem :
      (rounds j : ℕ) (dst : List ℕ)
      → ((k : ℕ)
          → j ≤ k
          → k < j + rounds
          → (dst_pos k + n ≤ length dst) × (src_pos k + n ≤ length src))
      → ((k l : ℕ) → k < l → l < j + rounds → dst_pos k + n ≤ dst_pos l)
      → Copied rounds j dst (copy_frames n dst_pos src_pos rounds j dst src)
  unfolding copy_frames
  copy_frames_lem zero j dst bounds apart = (
    dst,
    refl,
    record {
      same_length = refl;
      inside = λ k t a b h. absurd (omega arith);
      outside = λ x o. refl;
    },
  )
  copy_frames_lem (suc rounds) j dst bounds apart =
      let (hd, hs) = bounds j (omega arith) (omega arith) in
      let dst' = copied n dst (dst_pos j) src (src_pos j) hd hs in
      let len = length-copied n dst (dst_pos j) src (src_pos j) hd hs in
      rw (copy_sample_lem n dst (dst_pos j) src (src_pos j) hd hs) (
        Copied-more rounds j dst hd hs (λ l a b. apart j l a b)
          (copy_frames_lem rounds (j + 1) dst'
            (λ k a b.
              let (p, q) = bounds k (omega arith) (omega arith) in (omega (arith, p, len), q))
            (λ k l a b. apart k l a (omega arith))))

-- The outer loop to a buffer for each channel.
module _ (n : ℕ) (dst_pos src_pos : ℕ → ℕ → ℕ) (frame_count : ℕ) (src : List ℕ) where
  pub scatter_lem :
      (count i : ℕ) (dsts : List (List ℕ))
      → count ≤ length dsts
      → ((m j : ℕ)
          → m < count
          → j < frame_count
          → (dst_pos (i + m) j + n ≤ length (get_or dsts m []))
            × (src_pos (i + m) j + n ≤ length src))
      → ((m k l : ℕ)
          → m < count
          → k < l
          → l < frame_count
          → dst_pos (i + m) k + n ≤ dst_pos (i + m) l)
      → (after : List (List ℕ)) × (scatter n dst_pos src_pos frame_count count i dsts src
          ≡ some after)
        × (length after ≡ length dsts)
        × ((m : ℕ)
            → m < count
            → Copies n
                (dst_pos (i + m))
                (src_pos (i + m))
                src
                frame_count
                0
                (get_or dsts m [])
                (get_or after m []))
  unfolding scatter
  scatter_lem zero i dsts h bounds apart = (dsts, refl, refl, λ m l. absurd (omega arith))
  scatter_lem (suc count) i [] h bounds apart = absurd (omega arith)
  scatter_lem (suc count) i (dst ∷ dsts) h bounds apart =
      let (dst', e, c) =
        copy_frames_lem n (dst_pos i) (src_pos i) src frame_count 0 dst
          (λ k a b. rw i_zero at (bounds 0 k (omega arith) (omega arith)))
          (λ k l a b. rw i_zero at (apart 0 k l (omega arith) a (omega arith))) in
      let (dsts', e', len, each) =
        scatter_lem count (i + 1) dsts (omega arith)
          (λ m j a b. rw (i_suc m) at (bounds (suc m) j (omega arith) b))
          (λ m k l a b d. rw (i_suc m) at (apart (suc m) k l (omega arith) b d)) in
      (dst' ∷ dsts', rw (e, e'), ap suc len, λ m l. by_channel dst' dsts' c each m l)
    where
      i_zero : i + 0 ≡ i
      i_zero = omega arith

      i_suc : (m : ℕ) → i + suc m ≡ i + 1 + m
      i_suc m = omega arith

      by_channel :
          (dst' : List ℕ) (dsts' : List (List ℕ))
          → Copies n (dst_pos i) (src_pos i) src frame_count 0 dst dst'
          → ((m : ℕ)
              → m < count
              → Copies n
                  (dst_pos (i + 1 + m))
                  (src_pos (i + 1 + m))
                  src
                  frame_count
                  0
                  (get_or dsts m [])
                  (get_or dsts' m []))
          → (m : ℕ) → m < suc count
          → Copies n
              (dst_pos (i + m))
              (src_pos (i + m))
              src
              frame_count
              0
              (get_or (dst ∷ dsts) m [])
              (get_or (dst' ∷ dsts') m [])
      by_channel dst' dsts' c each zero l = rw i_zero c
      by_channel dst' dsts' c each (suc m) l = rw (i_suc m) (each m (omega arith))
