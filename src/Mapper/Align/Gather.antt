-- ===== src/Mapper/Align/Gather.antt =====
-- The outer loop from a buffer for each channel to one buffer, byte by byte.
use alsa_utils.Common.{
  ℕ, zero, suc, ◌+◌, ◌≤◌, ◌<◌, ◌≡◌, refl, ◌∙◌, ◌⊎◌, inl, inr, some, List, [], ◌∷◌, length, arith,
  get_or,
}
use alsa_utils.Mapper.Align.{gather}
use alsa_utils.Mapper.Align.Bytes.{byte, Outside, Copies, copy_frames_lem}

module _ (n : ℕ) (dst_pos src_pos : ℕ → ℕ → ℕ) (frame_count : ℕ) where
  pub record Gathers (count i : ℕ) (dst : List ℕ) (srcs : List (List ℕ)) (after : List ℕ)
      : Type 0 where
    pub same_length : length after ≡ length dst
    pub inside :
        (m j t : ℕ)
        → m < count
        → j < frame_count
        → t < n
        → byte after (dst_pos (i + m) j + t) ≡ byte (get_or srcs m []) (src_pos (i + m) j + t)
    pub outside :
        (x : ℕ)
        → ((m : ℕ) → m < count → Outside n (dst_pos (i + m)) frame_count 0 x)
        → byte after x ≡ byte dst x

  i_zero : (i : ℕ) → i + 0 ≡ i
  i_zero i = omega arith

  i_suc : (i m : ℕ) → i + suc m ≡ i + 1 + m
  i_suc i m = omega arith

  -- No sample of one channel overlaps one of another.
  abbrev pub Apart : ℕ → ℕ → Type 0
  Apart count i =
      (m k j l : ℕ)
      → m < k
      → k < count
      → j < frame_count
      → l < frame_count
      → (dst_pos (i + k) l + n ≤ dst_pos (i + m) j) ⊎ (dst_pos (i + m) j + n ≤ dst_pos (i + k) l)

  Gathers-more :
      (count i : ℕ) (dst dst' src : List ℕ) (srcs : List (List ℕ)) (after : List ℕ)
      → Apart (suc count) i
      → Copies n (dst_pos i) (src_pos i) src frame_count 0 dst dst'
      → Gathers count (i + 1) dst' srcs after
      → Gathers (suc count) i dst (src ∷ srcs) after
  Gathers-more count i dst dst' src srcs after apart c rest = record {
    same_length = rest.same_length ∙ c.same_length;
    inside = λ m j t a b h. inside_lem m j t a b h;
    outside = λ x o.
        rest.outside x (λ m l. rw (i_suc i m) at (o (suc m) (omega arith)))
        ∙ c.outside x (rw (i_zero i) at (o 0 (omega arith)));
  }
    where
      inside_lem :
          (m j t : ℕ)
          → m < suc count
          → j < frame_count
          → t < n
          → byte after (dst_pos (i + m) j + t)
            ≡ byte (get_or (src ∷ srcs) m []) (src_pos (i + m) j + t)
      inside_lem zero j t a b h = rw (i_zero i) (
          rest.outside (dst_pos i j + t) (λ m l k p q.
            elim (rw (i_zero i, i_suc i m) at
              (apart 0 (suc m) j k (omega arith) (omega arith) b (omega arith))) [
                | inl x ↦ inr (omega arith)
                | inr x ↦ inl (omega arith)
              ])
          ∙ c.inside j t (omega arith) (omega arith) h)
      inside_lem (suc m) j t a b h = rw (i_suc i m) (rest.inside m j t (omega arith) b h)

  pub gather_lem :
      (count i : ℕ) (dst : List ℕ) (srcs : List (List ℕ))
      → count ≤ length srcs
      → ((m j : ℕ)
          → m < count
          → j < frame_count
          → (dst_pos (i + m) j + n ≤ length dst)
            × (src_pos (i + m) j + n ≤ length (get_or srcs m [])))
      → ((m k l : ℕ)
          → m < count
          → k < l
          → l < frame_count
          → dst_pos (i + m) k + n ≤ dst_pos (i + m) l)
      → Apart count i
      → (after : List ℕ) × (gather n dst_pos src_pos frame_count count i dst srcs ≡ some after)
        × Gathers count i dst srcs after
  unfolding gather
  gather_lem zero i dst srcs h bounds inner apart = (
    dst,
    refl,
    record {
      same_length = refl;
      inside = λ m j t a b h. absurd (omega arith);
      outside = λ x o. refl;
    },
  )
  gather_lem (suc count) i dst [] h bounds inner apart = absurd (omega arith)
  gather_lem (suc count) i dst (src ∷ srcs) h bounds inner apart =
      let (dst', e, c) =
        copy_frames_lem n (dst_pos i) (src_pos i) src frame_count 0 dst
          (λ k a b. rw (i_zero i) at (bounds 0 k (omega arith) (omega arith)))
          (λ k l a b. rw (i_zero i) at (inner 0 k l (omega arith) a (omega arith))) in
      let (after, e', rest) =
        gather_lem count (i + 1) dst' srcs (omega arith)
          (λ m j a b.
            let (p, q) = rw (i_suc i m) at (bounds (suc m) j (omega arith) b) in
            (omega (arith, p, c.same_length), q))
          (λ m k l a b d. rw (i_suc i m) at (inner (suc m) k l (omega arith) b d))
          (λ m k j l a b p q.
            rw (i_suc i m, i_suc i k) at
              (apart (suc m) (suc k) j l (omega arith) (omega arith) p q)) in
      (after, rw (e, e'), Gathers-more count i dst dst' src srcs after apart c rest)
