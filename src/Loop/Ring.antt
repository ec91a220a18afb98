-- ===== src/Loop/Ring.antt =====
-- What holds of the shared buffer of alsaloop while frames are moved, on its positions and counts.
use alsa_utils.Common.{
  ℕ, ◌+◌, ◌-◌, ◌%◌, ◌≤◌, ◌<◌, ◌≡◌, sym, ◌∙◌, ap, List, ◌++◌, append_assoc, length, take, drop,
  splice, length-splice, arith,
}
use native.Mathlib.Nat.{mod-lt, mod-mod, mod-add-mod}
use mathlib.Core.Path.{subst}
use alsa_utils.Loop.Window.{
  window, window-add, window-mod, window-splice, window-splice_behind, window-take-drop,
}

-- The playback handle is at `pp` with `pc` frames, the capture handle at `cp` with `cn` frames. The
-- capture handle counts `m` frames more; `k` of them are behind those that the playback handle has.
-- What was written, followed by the frames of the buffer, is `before`, followed by what was read.
pub record Ring (size : ℕ) (before : List ℕ) (m k pp pc cp cn : ℕ) (buf given taken : List ℕ)
    : Type 0 where
  pub positive : 0 < size
  pub bounded : size < 9223372036854775808
  pub whole : length buf ≡ size
  pub inside : pp < size
  pub counts : cn ≡ pc + m
  pub room : cn ≤ size
  pub part : k ≤ m
  pub behind : cp ≡ (pp + pc + k) % size
  pub order : given ++ window size buf pp (pc + k) ≡ before ++ taken

module _ {size : ℕ} {before : List ℕ} {m k pp pc cp cn : ℕ} {buf given taken : List ℕ} where
  Ring-at : Ring size before m k pp pc cp cn buf given taken → (pp + (pc + k)) % size ≡ cp
  Ring-at r = ap (λ x. x % size) (place pp pc k) ∙ sym r.behind
    where
      place : (a b c : ℕ) → a + (b + c) ≡ a + b + c
      place a b c = omega arith

  -- Frames that were read go behind the others.
  pub Ring-read :
      (xs : List ℕ)
      → k ≡ m
      → cn + length xs ≤ size
      → cp + length xs ≤ size
      → Ring size before m k pp pc cp cn buf given taken
      → Ring size before
          (m + length xs)
          (k + length xs)
          pp
          pc
          ((cp + length xs) % size)
          (cn + length xs)
          (splice buf cp xs)
          given
          (taken ++ xs)
  Ring-read xs same room fits r = record {
    positive = r.positive;
    bounded = r.bounded;
    whole = length-splice buf cp xs (omega (arith, r)) ∙ r.whole;
    inside = r.inside;
    counts = omega (arith, r);
    room = room;
    part = omega (arith, r);
    behind = moved;
    order =
        ap (λ ys. given ++ ys) frames
        ∙ sym (append_assoc given _ _)
        ∙ ap (λ ys. ys ++ xs) r.order
        ∙ append_assoc before taken xs;
  }
    where
      n : ℕ
      n = pc + k

      at : (pp + n) % size ≡ cp
      at = Ring-at r

      moved : (cp + length xs) % size ≡ (pp + pc + (k + length xs)) % size
      moved =
          ap (λ x. (x + length xs) % size) r.behind
          ∙ mod-add-mod (pp + pc + k) size (length xs)
          ∙ ap (λ x. x % size) (omega arith)

      kept : window size (splice buf cp xs) pp n ≡ window size buf pp n
      kept =
          subst (λ c. window size (splice buf c xs) pp n ≡ window size buf pp n) at
            (window-splice size buf r.whole pp r.inside n xs (omega (arith, r)) (omega (arith, at)))

      added : window size (splice buf cp xs) (pp + n) (length xs) ≡ xs
      added =
          subst (λ c. window size (splice buf c xs) (pp + n) (length xs) ≡ xs) at
            (window-splice_behind size buf r.whole pp r.inside n xs (omega (arith, r))
              (omega (arith, at)))

      frames : window size (splice buf cp xs) pp (pc + (k + length xs)) ≡ window size buf pp n ++ xs
      frames =
          ap (window size (splice buf cp xs) pp) (omega arith)
          ∙ window-add size (splice buf cp xs) pp n (length xs)
          ∙ cc (kept, added)

  -- Frames that were written are the first ones.
  pub Ring-write :
      (n : ℕ)
      → k ≡ 0
      → n ≤ pc
      → pp + n ≤ size
      → Ring size before m k pp pc cp cn buf given taken
      → Ring size before
          (m + n)
          k
          ((pp + n) % size)
          (pc - n)
          cp
          cn
          buf
          (given ++ take n (drop pp buf))
          taken
  Ring-write n none most fits r = record {
    positive = r.positive;
    bounded = r.bounded;
    whole = r.whole;
    inside = mod-lt (pp + n) r.positive;
    counts = omega (arith, r);
    room = r.room;
    part = omega (arith, r);
    behind =
        r.behind
        ∙ ap (λ x. x % size) place
        ∙ sym (mod-add-mod (pp + n) size (pc - n + k))
        ∙ ap (λ x. x % size) (omega arith);
    order = append_assoc given _ _ ∙ ap (λ ys. given ++ ys) frames ∙ r.order;
  }
    where
      place : pp + pc + k ≡ pp + n + (pc - n + k)
      place = omega arith

      frames :
          take n (drop pp buf) ++ window size buf ((pp + n) % size) (pc - n + k)
          ≡ window size buf pp (pc + k)
      frames =
          ap (λ ys. ys ++ window size buf ((pp + n) % size) (pc - n + k))
            (window-take-drop size buf r.whole pp r.inside n fits)
          ∙ ap (λ ys. window size buf pp n ++ ys)
              (window-mod size buf ((pp + n) % size) (pp + n) (pc - n + k) (mod-mod (pp + n) size))
          ∙ sym (window-add size buf pp n (pc - n + k))
          ∙ ap (window size buf pp) (omega arith)

pub Ring-add :
    {size : ℕ} {before : List ℕ} {n pp pc cp cn : ℕ} {buf given taken : List ℕ}
    → Ring size before n n pp pc cp cn buf given taken
    → Ring size before 0 0 pp (pc + n) cp cn buf given taken
Ring-add {size} {before} {n} {pp} {pc} {cp} {cn} {buf} {given} {taken} r = record {
  positive = r.positive;
  bounded = r.bounded;
  whole = r.whole;
  inside = r.inside;
  counts = omega (arith, r);
  room = r.room;
  part = omega arith;
  behind = r.behind ∙ ap (λ x. x % size) (omega arith);
  order = ap (λ x. given ++ window size buf pp x) (omega arith) ∙ r.order;
}

pub Ring-remove :
    {size : ℕ} {before : List ℕ} {n pp pc cp cn : ℕ} {buf given taken : List ℕ}
    → Ring size before n 0 pp pc cp cn buf given taken
    → Ring size before 0 0 pp pc cp pc buf given taken
Ring-remove r = record {
  positive = r.positive;
  bounded = r.bounded;
  whole = r.whole;
  inside = r.inside;
  counts = omega arith;
  room = omega (arith, r);
  part = omega arith;
  behind = r.behind;
  order = r.order;
}
