-- ===== src/Common/Splice.antt =====
-- Overwriting a part of a list, and what each index then holds.
use Prim.Native.Nat.{ℕ, zero, suc, ◌+◌, ◌-◌, ◌≤◌, ◌<◌}
use mathlib.Core.Path.{◌≡◌, refl, ap, ◌∙◌}
use mathlib.Core.Logic.{◌⊎◌, inl, inr}
use mathlib.Core.List.{List, [], ◌∷◌, ◌++◌}
use native.Mathlib.Omega.{arith}
use alsa_utils.Common.Lists.{length, get_or, take, drop, length-append, length-take, length-drop}

-- Overwriting from an offset on, which extends a list at its end.
abbrev pub splice : List ℕ → ℕ → List ℕ → List ℕ
splice old at new = take at old ++ (new ++ drop (at + length new) old)

module _ {ℓ} {A : Type ℓ} (d : A) where
  pub get_or-append_left :
      (xs ys : List A) (i : ℕ) → i < length xs → get_or (xs ++ ys) i d ≡ get_or xs i d
  get_or-append_left [] ys i h = absurd (omega arith)
  get_or-append_left (x ∷ xs) ys zero h = refl
  get_or-append_left (x ∷ xs) ys (suc i) h = get_or-append_left xs ys i (omega arith)

  pub get_or-append_right :
      (xs ys : List A) (i k : ℕ) → i ≡ length xs + k → get_or (xs ++ ys) i d ≡ get_or ys k d
  get_or-append_right [] ys i k h = ap (λ n. get_or ys n d) (omega arith)
  get_or-append_right (x ∷ xs) ys zero k h = absurd (omega arith)
  get_or-append_right (x ∷ xs) ys (suc i) k h = get_or-append_right xs ys i k (omega arith)

  pub get_or-take : (n : ℕ) (xs : List A) (i : ℕ) → i < n → get_or (take n xs) i d ≡ get_or xs i d
  get_or-take zero xs i h = absurd (omega arith)
  get_or-take (suc n) [] i h = refl
  get_or-take (suc n) (x ∷ xs) zero h = refl
  get_or-take (suc n) (x ∷ xs) (suc i) h = get_or-take n xs i (omega arith)

  pub get_or-drop :
      (n : ℕ) (xs : List A) (i k : ℕ) → k ≡ n + i → get_or (drop n xs) i d ≡ get_or xs k d
  get_or-drop zero xs i k h = ap (λ n. get_or xs n d) (omega arith)
  get_or-drop (suc n) [] i k h = refl
  get_or-drop (suc n) (x ∷ xs) i zero h = absurd (omega arith)
  get_or-drop (suc n) (x ∷ xs) i (suc k) h = get_or-drop n xs i k (omega arith)

  -- Lists of one length that agree at each index are the same.
  pub get_or-ext :
      (xs ys : List A)
      → length xs ≡ length ys
      → ((i : ℕ) → i < length xs → get_or xs i d ≡ get_or ys i d)
      → xs ≡ ys
  get_or-ext [] [] l h = refl
  get_or-ext [] (y ∷ ys) l h = absurd (omega arith)
  get_or-ext (x ∷ xs) [] l h = absurd (omega arith)
  get_or-ext (x ∷ xs) (y ∷ ys) l h =
      cc (h 0 (omega arith), get_or-ext xs ys (omega arith) (λ i k. h (suc i) (omega arith)))

pub length-splice :
    (old : List ℕ) (at : ℕ) (new : List ℕ)
    → at + length new ≤ length old
    → length (splice old at new) ≡ length old
length-splice old at new h = omega (
  arith,
  length-append (take at old) (new ++ drop (at + length new) old),
  length-append new (drop (at + length new) old),
  length-take at old,
  length-drop (at + length new) old,
)

-- An index inside the part that was overwritten, and one outside.
pub splice-inside :
    (old : List ℕ) (at : ℕ) (new : List ℕ) (i : ℕ)
    → at ≤ length old
    → i < length new
    → get_or (splice old at new) (at + i) 0 ≡ get_or new i 0
splice-inside old at new i h k =
    get_or-append_right 0 (take at old) _ (at + i) i (omega (arith, length-take at old))
    ∙ get_or-append_left 0 new _ i k

pub splice-outside :
    (old : List ℕ) (at : ℕ) (new : List ℕ) (x : ℕ)
    → at + length new ≤ length old
    → (x < at) ⊎ (at + length new ≤ x)
    → get_or (splice old at new) x 0 ≡ get_or old x 0
splice-outside old at new x h (inl l) =
    get_or-append_left 0 (take at old) _ x (omega (arith, length-take at old))
    ∙ get_or-take 0 at old x l
splice-outside old at new x h (inr r) =
    get_or-append_right 0 (take at old) _ x (x - at) (omega (arith, length-take at old))
    ∙ get_or-append_right 0 new _ (x - at) (x - at - length new) (omega arith)
    ∙ get_or-drop 0 (at + length new) old (x - at - length new) x (omega arith)
