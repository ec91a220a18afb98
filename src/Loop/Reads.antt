-- ===== src/Loop/Reads.antt =====
-- What readit does to the shared buffer of alsaloop.
use alsa_utils.Common.{
  ℕ, zero, suc, ◌+◌, ◌-◌, ◌≤◌, ◌<◌, ◌≡◌, refl, sym, ◌∙◌, false, Bool-cases, inl, inr, List, [], ◌∷◌,
  ◌++◌, append-nil, length, arith, ltb, ◌&&◌, ◌==◌,
}
use alsa_utils.Common.Words.{u64}
use mathlib.Core.Path.{subst}
use native.Mathlib.Nat.{mod-lt}
use alsa_utils.Loop.State.{
  capt, Sframes, frames, error, ReadFrames, got, failed, Device, Loopback, buf_avail, Answer,
  answer, stuck,
}
use alsa_utils.Loop.Io.{
  State, at_once, take_in, read_xrun, readit_round, readit_loop, read_avail, read_started, readit,
}
use alsa_utils.Loop.Ring.{Ring-read}
use alsa_utils.Loop.Laws
use alsa_utils.Loop.Laws.{
  DeviceLaws, Same, Avail, Read, Inv-Same, xrun-Recovered, at_once_lem, suc-==-zero, ltb-zero-suc,
}

module _ ⦃device : Device⦄ (laws : DeviceLaws) (size : ℕ) (before : List ℕ) where
  open device use {World, avail_update, readi, writei}
  open laws use {taken, played, avail_update_lem, readi_lem, writei_lem}

  abbrev Inv : ℕ → ℕ → State → Type 0
  Inv = Laws.Inv laws size before

  abbrev Recovered : ℕ → ℕ → Answer × State → Type 0
  Recovered = Laws.Recovered laws size before

  abbrev Took : Answer × State → Type 0
  Took = Laws.Took laws size before

  take_in-Inv :
      (xs : List ℕ) (res : ℕ) (l : Loopback) (w w' : World)
      → l.capt.buf_count + length xs ≤ size
      → l.capt.buf_pos + length xs ≤ size
      → taken w' ≡ taken w ++ xs
      → played w' ≡ played w
      → Inv res res (l, w)
      → Inv (res + length xs) (res + length xs) (take_in xs res l, w')
  unfolding take_in
  take_in-Inv xs res l w w' room fits t p (s, ep, ec, r) =
      rw (t, p, ec, no_wrap room, no_wrap fits) (s, ep, refl, Ring-read xs refl room fits r)
    where
      no_wrap : {x : ℕ} → x ≤ size → u64 x ≡ x
      no_wrap h = omega (arith, r)

  Took-read_xrun : (res : ℕ) (a : Answer × State) → Recovered res res a → Took (read_xrun res a)
  Took-read_xrun zero (answer (frames n), s) (e, h) = rw e h
  Took-read_xrun (suc res) (answer (frames n), s) (e, h) = rw (ltb-zero-suc res) h
  Took-read_xrun res (answer (error e), s) h = absurd h
  Took-read_xrun res (stuck, s) h = absurd h

  Took-Recovered : (a : Answer × State) → Recovered 0 0 a → Took a
  Took-Recovered (answer (frames n), s) (e, h) = rw e h
  Took-Recovered (answer (error e), s) h = absurd h
  Took-Recovered (stuck, s) h = absurd h

  readit_round_lem :
      (fuel res avail : ℕ) (again : ℕ → State → Answer × State) (l : Loopback) (w : World)
      (r : ReadFrames × World)
      → Inv res res (l, w)
      → Read taken played w (at_once l.capt (buf_avail l.capt) avail) r
      → ((n : ℕ) (s : State) → 0 < n → n ≤ avail → Inv (res + n) (res + n) s → Took (again n s))
      → Took (readit_round fuel res again l r)
  unfolding readit_round
  readit_round_lem fuel res avail again l w (failed e, w') h (k, same) next = rw k (
      Took-read_xrun res _ (
        xrun-Recovered laws size before capt res res l w'
          (Inv-Same laws size before res res l w w' same h)))
  readit_round_lem fuel res avail again l w (got [], w') h (n, t, p) next =
      Inv-Same laws size before res res l w w' (t ∙ append-nil (taken w), p) h
  readit_round_lem fuel res avail again l w (got (x ∷ xs), w') (s, ep, ec, r) (n, t, p) next =
      let (few, fits, most) =
        at_once_lem l.capt size (buf_avail l.capt) avail ec r.bounded (omega (arith, r, ec))
          inside in
      rw (suc-==-zero (length xs)) (
        next (length (x ∷ xs)) (take_in (x ∷ xs) res l, w') (omega arith) (omega (arith, n, most))
          (take_in-Inv (x ∷ xs) res l w w' (omega (arith, r, ec, n, few)) (omega (arith, n, fits)) t
            p (s, ep, ec, r)))
    where
      inside : l.capt.buf_pos < size
      inside = subst (λ c. c < size) (sym r.behind) (mod-lt _ r.positive)

  readit_loop_lem :
      (fuel avail res : ℕ) (l : Loopback) (w : World)
      → avail ≤ fuel
      → Inv res res (l, w)
      → Took (readit_loop fuel avail res (l, w))
  unfolding readit_loop
  readit_loop_lem fuel zero res l w f h = h
  readit_loop_lem zero (suc avail) res l w f h = absurd (omega arith)
  readit_loop_lem (suc fuel) (suc avail) res l w f h =
      readit_round_lem fuel res (suc avail) _ l w
        (readi w (at_once l.capt (buf_avail l.capt) (suc avail))) h (readi_lem w _)
        (λ n s a b k. readit_loop_lem fuel (suc avail - n) (res + n) s.0 s.1 (omega arith) k)

  read_avail_lem :
      (fuel n : ℕ) (l : Loopback) (w : World)
      → size ≤ fuel
      → Inv 0 0 (l, w)
      → Took (read_avail fuel (frames n) (l, w))
  unfolding read_avail
  read_avail_lem fuel n l w f (s, ep, ec, r) = elim (Bool-cases (ltb (buf_avail l.capt) n)) [
    | inl e ↦
        rw e (readit_loop_lem fuel (buf_avail l.capt) 0 _ w (omega (arith, r, ec)) (s, ep, ec, r))
    | inr e ↦ elim (Bool-cases (n == 0 && device.is_draining w)) [
      | inl d ↦ rw (e, d) (s, ep, ec, r)
      | inr d ↦ rw (e, d) (readit_loop_lem fuel n 0 l w (fits e) (s, ep, ec, r))
    ]
  ]
    where
      fits : ltb (buf_avail l.capt) n ≡ false → n ≤ fuel
      fits e = ground (arith, r, ec)

  -- readit takes frames from the capture PCM.
  pub readit_lem :
      (fuel : ℕ) (l : Loopback) (w : World)
      → size ≤ fuel
      → Inv 0 0 (l, w)
      → Took (readit fuel (l, w))
  unfolding readit read_started
  readit_lem fuel l w f h = after (avail_update capt w) (avail_update_lem capt w)
    where
      after : (a : Sframes × World) → Avail taken played w a → Took (read_started fuel l a)
      after (frames n, w') (b, same) =
          read_avail_lem fuel n l w' f (Inv-Same laws size before 0 0 l w w' same h)
      after (error e, w') (k, same) = rw k (
          Took-Recovered _ (
            xrun-Recovered laws size before capt 0 0 l w'
              (Inv-Same laws size before 0 0 l w w' same h)))
