-- ===== src/Container/Io/Write.antt =====
-- `container_recursive_write` on a file: it ends, and overwrites the file from its offset on.
use alsa_utils.Common.{
  ℕ, zero, suc, ◌+◌, ◌≤◌, ◌<◌, ◌≡◌, refl, sym, ◌∙◌, ap, ap₂, Bool, false, List, [], ◌∷◌, ◌++◌,
  length, take, drop, arith, length-append, length-take, length-drop, take-append_add,
  drop-append_add, drop-drop, take-append-drop, append-nil, append_assoc, lt→ltb, ==_iff,
}
use alsa_utils.Axfer.Os.{Os, CallResult, error, eagain}
use alsa_utils.Axfer.Os.Laws.{WriteLaws, WriteStep, stored, again, splice}
use alsa_utils.Axfer.Context.{Context, Res, ok, State}
use alsa_utils.Container.Io.{
  write_loop, write_round, container_recursive_write, container_seek_offset, seek_result,
}

-- Two writes in a row are one.
pub splice-splice :
    (old : List ℕ) (at : ℕ) (xs ys : List ℕ)
    → at ≤ length old
    → splice (splice old at xs) (at + length xs) ys ≡ splice old at (xs ++ ys)
splice-splice old at xs ys h = rw (
  take-append_add (take at old) (xs ++ rest) (at + length xs) (length xs) (omega (arith, size)),
  take-append_add xs rest (length xs) 0 (omega arith),
  append-nil,
  drop-append_add (take at old) (xs ++ rest) (at + length xs + length ys) (length xs + length ys)
      (omega (arith, size)),
  drop-append_add xs rest (length xs + length ys) (length ys) refl,
  drop-drop (length ys) (at + length xs) (at + length (xs ++ ys)) old
      (omega (arith, length-append xs ys)),
  append_assoc,
  append_assoc,
)
  where
    rest : List ℕ
    rest = drop (at + length xs) old

    size : length (take at old) ≡ at
    size = omega (arith, length-take at old)

-- The rounds of the loop as equations.
module _ ⦃os : Os⦄ (c : Context) (w : os.World) where
  write_loop_goes_on :
      (fuel b : ℕ) (bs : List ℕ)
      → c.interrupted ≡ false
      → write_loop (suc fuel) (b ∷ bs) (c, w)
        ≡ write_round (write_loop fuel) (b ∷ bs) c (os.write w (b ∷ bs))
  unfolding write_loop
  write_loop_goes_on fuel b bs hi =
      rw (lt→ltb 0 (suc (length bs)) (omega arith), write_loop) (simp (hi, write_loop))

  write_loop_stops : (fuel : ℕ) → write_loop (suc fuel) [] (c, w) ≡ (ok tt, (c, w))
  unfolding write_loop
  write_loop_stops fuel = refl

  write_round_again :
      (more : List ℕ → State → Res (Unit {0}) × State) (src : List ℕ)
      → c.interrupted ≡ false
      → write_round more src c (error eagain, false, w) ≡ more src (c, w)
  unfolding write_round
  write_round_again more src hi = simp (hi, write_round)

module _ ⦃os : Os⦄ (file : WriteLaws) where
  open file use {contents, offset, patience, write_lem, offset_lem, lseek_lem}

  -- How the loop ends that has `src` left to write.
  pub record WriteAll (src : List ℕ) (c : Context) (w : os.World) (out : Res (Unit {0}) × State)
      : Type 0 where
    pub after : os.World
    pub result : out ≡ (ok tt, (c, after))
    pub written : contents after ≡ splice (contents w) (offset w) src
    pub moved : offset after ≡ offset w + length src
    pub calmer : patience after ≤ patience w

  splice-nil : (old : List ℕ) (at : ℕ) → splice old at [] ≡ old
  splice-nil old at = ap (λ n. take at old ++ drop n old) (omega arith) ∙ take-append-drop at old

  WriteAll-done : (c : Context) (w : os.World) → WriteAll [] c w (ok tt, (c, w))
  WriteAll-done c w = record {
    after = w;
    result = refl;
    written = sym (splice-nil (contents w) (offset w));
    moved = omega arith;
    calmer = omega arith;
  }

  -- A first part is stored, and the rest of the loop ends well.
  WriteAll-more :
      (src : List ℕ) (k : ℕ) (c : Context) (w w' : os.World) {out : Res (Unit {0}) × State}
      → k ≤ length src
      → contents w' ≡ splice (contents w) (offset w) (take k src)
      → offset w' ≡ offset w + k
      → patience w' ≤ patience w
      → WriteAll (drop k src) c w' out
      → WriteAll src c w out
  WriteAll-more src k c w w' h p o q all = record {
    after = all.after;
    result = all.result;
    written =
        all.written
        ∙ ap₂ (λ old at. splice old at (drop k src)) p (omega (arith, length-take k src))
        ∙ splice-splice (contents w) (offset w) (take k src) (drop k src) (offset_lem w)
        ∙ ap (splice (contents w) (offset w)) (take-append-drop k src);
    moved = omega (arith, all.moved, length-drop k src);
    calmer = omega (arith, all.calmer);
  }

  module _ (fuel : ℕ) (src : List ℕ) (c : Context) (w : os.World) (hi : c.interrupted ≡ false) where
    -- One round, given what the rest of the loop does.
    WriteAll-round :
        (r : CallResult × Bool × os.World)
        → WriteStep contents patience offset w src r
        → ((src' : List ℕ) (w' : os.World)
            → length src' + patience w' < length src + patience w
            → WriteAll src' c w' (write_loop fuel src' (c, w')))
        → WriteAll src c w (write_round (write_loop fuel) src c r)
    unfolding write_round
    WriteAll-round r (stored k w' e hk h p o q) ih =
        rw e (
          WriteAll-more src k c w w' h p o q
            (ih (drop k src) w' (omega (arith, length-drop k src))))
    WriteAll-round r (again w' e p o q) ih =
        rw (e, write_round_again c w' (write_loop fuel) src hi)
          (WriteAll-more src 0 c w w' (omega arith) (p ∙ sym (splice-nil (contents w) (offset w)))
            (omega arith) (omega arith) (ih src w' (omega arith)))

  WriteAll-loop :
      (fuel : ℕ) (src : List ℕ) (c : Context) (w : os.World)
      → c.interrupted ≡ false
      → length src + patience w < fuel
      → WriteAll src c w (write_loop fuel src (c, w))
  WriteAll-loop zero src c w hi hf = absurd (omega arith)
  WriteAll-loop (suc fuel) [] c w hi hf = rw write_loop_stops (WriteAll-done c w)
  WriteAll-loop (suc fuel) (b ∷ bs) c w hi hf = rw (write_loop_goes_on c w fuel b bs hi) (
      WriteAll-round fuel (b ∷ bs) c w hi _ (write_lem w (b ∷ bs) (omega arith))
        (λ src' w' l. WriteAll-loop fuel src' c w' hi (omega arith)))

  -- With fuel for the bytes and for every `EAGAIN`, and no interrupt, the write ends well: the
  -- file is overwritten by all of `src` from the offset on, and the offset is behind them.
  pub container_recursive_write_lem :
      (fuel : ℕ) (src : List ℕ) (c : Context) (w : os.World)
      → c.interrupted ≡ false
      → length src + patience w < fuel
      → WriteAll src c w (container_recursive_write fuel src (c, w))
  unfolding container_recursive_write
  container_recursive_write_lem fuel src c w hi hf = WriteAll-loop fuel src c w hi hf

  -- Two writes in a row, and what becomes of the file.
  pub WriteAll-append :
      (xs ys : List ℕ) (c : Context) (w : os.World) {out out' : Res (Unit {0}) × State}
      → (first : WriteAll xs c w out) → WriteAll ys c first.after out'
      → WriteAll (xs ++ ys) c w out'
  WriteAll-append xs ys c w first next = record {
    after = next.after;
    result = next.result;
    written =
        next.written
        ∙ ap₂ (λ old at. splice old at ys) first.written first.moved
        ∙ splice-splice (contents w) (offset w) xs ys (offset_lem w);
    moved = omega (arith, first.moved, next.moved, length-append xs ys);
    calmer = omega (arith, first.calmer, next.calmer);
  }

  -- Seeking to an offset inside the file succeeds and changes nothing else.
  pub container_seek_offset_lem :
      (n : ℕ) (c : Context) (w : os.World)
      → n ≤ length (contents w)
      → (w' : os.World) × (container_seek_offset n (c, w) ≡ (ok tt, (c, w')))
        × (contents w' ≡ contents w)
        × (offset w' ≡ n)
        × (patience w' ≤ patience w)
  unfolding container_seek_offset
  container_seek_offset_lem n c w h =
      let (w', e, p, o, q) = lseek_lem w n h in
      (w', rw (e, seek_result, (==_iff n n).1 refl) refl, p, o, q)
