-- ===== src/Loop/Window.antt =====
-- The frames of a ring buffer from a position on, and what copies into the buffer do to them.
use alsa_utils.Common.{
  ℕ, zero, suc, ◌+◌, ◌-◌, ◌%◌, ◌≤◌, ◌<◌, ◌≡◌, refl, sym, ◌∙◌, ap, ◌⊎◌, inl, inr, List, [], ◌∷◌,
  ◌++◌, length, get_or, take, drop, splice, length-take, length-drop, get_or-take, get_or-drop,
  get_or-ext, splice-inside, splice-outside, arith,
}
use native.Mathlib.Nat.{mod-eq_of_lt, mod-add-mod, mod-eq-sub-mod}

-- A remainder below twice the divisor.
pub mod_twice : (x s : ℕ) → x < s + s → ((x < s) × (x % s ≡ x)) ⊎ ((s ≤ x) × (x % s ≡ x - s))
mod_twice x s h = elim (below x s) [
  | inl l ↦ inl (l, mod-eq_of_lt l)
  | inr g ↦ inr (g, mod-eq-sub-mod g ∙ mod-eq_of_lt (omega arith))
]
  where
    below : (x s : ℕ) → (x < s) ⊎ (s ≤ x)
    below x zero = inr (omega arith)
    below zero (suc s) = inl (omega arith)
    below (suc x) (suc s) = elim (below x s) [
      | inl h ↦ inl (omega arith)
      | inr h ↦ inr (omega arith)
    ]

module _ (size : ℕ) where
  -- `n` frames of a buffer of `size` frames.
  abbrev pub window : List ℕ → ℕ → ℕ → List ℕ
  window buf pos zero = []
  window buf pos (suc n) = get_or buf (pos % size) 0 ∷ window buf (pos + 1) n

  pub length-window : (buf : List ℕ) (pos n : ℕ) → length (window buf pos n) ≡ n
  length-window buf pos zero = refl
  length-window buf pos (suc n) = ap suc (length-window buf (pos + 1) n)

  get_or-window :
      (buf : List ℕ) (pos n i : ℕ)
      → i < n
      → get_or (window buf pos n) i 0 ≡ get_or buf ((pos + i) % size) 0
  get_or-window buf pos zero i h = absurd (omega arith)
  get_or-window buf pos (suc n) zero h = ap (λ x. get_or buf (x % size) 0) (omega arith)
  get_or-window buf pos (suc n) (suc i) h =
      get_or-window buf (pos + 1) n i (omega arith)
      ∙ ap (λ x. get_or buf (x % size) 0) (omega arith)

  pub window-add :
      (buf : List ℕ) (pos n k : ℕ)
      → window buf pos (n + k) ≡ window buf pos n ++ window buf (pos + n) k
  window-add buf pos zero k = cc (shift k, same pos)
    where
      shift : (k : ℕ) → 0 + k ≡ k
      shift k = omega arith

      same : (p : ℕ) → p + 0 ≡ p
      same p = omega arith
  window-add buf pos (suc n) k = cc (window-add buf (pos + 1) n k, shift n k, place pos n)
    where
      shift : (n k : ℕ) → suc n + k ≡ suc (n + k)
      shift n k = omega arith

      place : (p n : ℕ) → p + 1 + n ≡ p + suc n
      place p n = omega arith

  -- Only the remainder of the position matters.
  pub window-mod :
      (buf : List ℕ) (p q n : ℕ) → p % size ≡ q % size → window buf p n ≡ window buf q n
  window-mod buf p q zero h = refl
  window-mod buf p q (suc n) h = cc (h, window-mod buf (p + 1) (q + 1) n next)
    where
      next : (p + 1) % size ≡ (q + 1) % size
      next = sym (mod-add-mod p size 1) ∙ ap (λ x. (x + 1) % size) h ∙ mod-add-mod q size 1

  module _ (buf : List ℕ) (whole : length buf ≡ size) (pos : ℕ) (inside : pos < size) where
    -- Frames copied behind the window leave it as it is.
    pub window-splice :
        (n : ℕ) (xs : List ℕ)
        → n + length xs ≤ size
        → (pos + n) % size + length xs ≤ size
        → window (splice buf ((pos + n) % size) xs) pos n ≡ window buf pos n
    window-splice n xs room fits =
        get_or-ext 0 _ _ (length-window _ pos n ∙ sym (length-window buf pos n)) (λ i h.
          let k = cut i h in
          get_or-window _ pos n i k
          ∙ splice-outside buf ((pos + n) % size) xs ((pos + i) % size) (omega arith) (apart i k)
          ∙ sym (get_or-window buf pos n i k))
      where
        cut : (i : ℕ) → i < length (window (splice buf ((pos + n) % size) xs) pos n) → i < n
        cut i h = omega (arith, length-window (splice buf ((pos + n) % size) xs) pos n)

        apart :
            (i : ℕ)
            → i < n
            → ((pos + i) % size < (pos + n) % size)
              ⊎ ((pos + n) % size + length xs ≤ (pos + i) % size)
        apart i h = elim (mod_twice (pos + i) size (omega arith)) [
          | inl (a, ea) ↦ elim (mod_twice (pos + n) size (omega arith)) [
            | inl (b, eb) ↦ inl (omega arith)
            | inr (b, eb) ↦ inr (omega arith)
          ]
          | inr (a, ea) ↦ elim (mod_twice (pos + n) size (omega arith)) [
            | inl (b, eb) ↦ absurd (omega arith)
            | inr (b, eb) ↦ inl (omega arith)
          ]
        ]

    -- They are the frames that follow it.
    pub window-splice_behind :
        (n : ℕ) (xs : List ℕ)
        → n + length xs ≤ size
        → (pos + n) % size + length xs ≤ size
        → window (splice buf ((pos + n) % size) xs) (pos + n) (length xs) ≡ xs
    window-splice_behind n xs room fits =
        get_or-ext 0 _ _ (length-window _ (pos + n) (length xs)) (λ i h.
          let k = cut i h in
          get_or-window _ (pos + n) (length xs) i k
          ∙ ap (λ x. get_or (splice buf ((pos + n) % size) xs) x 0) (place i k)
          ∙ splice-inside buf ((pos + n) % size) xs i (omega arith) k)
      where
        cut :
            (i : ℕ)
            → i < length (window (splice buf ((pos + n) % size) xs) (pos + n) (length xs))
            → i < length xs
        cut i h =
            omega (arith, length-window (splice buf ((pos + n) % size) xs) (pos + n) (length xs))

        place : (i : ℕ) → i < length xs → (pos + n + i) % size ≡ (pos + n) % size + i
        place i h = sym (mod-add-mod (pos + n) size i) ∙ mod-eq_of_lt (omega arith)

    -- The part up to the end of the buffer lies there in one piece.
    pub window-take-drop : (n : ℕ) → pos + n ≤ size → take n (drop pos buf) ≡ window buf pos n
    window-take-drop n h =
        get_or-ext 0 _ _
          (omega
            (arith, length-take n (drop pos buf), length-drop pos buf, length-window buf pos n))
          (λ i k.
            get_or-take 0 n (drop pos buf) i (cut i k)
            ∙ get_or-drop 0 pos buf i (pos + i) refl
            ∙ ap (λ x. get_or buf x 0) (sym (mod-eq_of_lt (omega (arith, cut i k))))
            ∙ sym (get_or-window buf pos n i (cut i k)))
      where
        cut : (i : ℕ) → i < length (take n (drop pos buf)) → i < n
        cut i k = omega (arith, length-take n (drop pos buf))
