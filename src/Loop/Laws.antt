-- ===== src/Loop/Laws.antt =====
-- What is asked of the PCMs, and the invariant of alsaloop's shared buffer.
use alsa_utils.Common.{
  ℕ, suc, ◌+◌, ◌≤◌, ◌<◌, ◌≡◌, refl, true, false, Option, none, some, List, ◌++◌, length, take,
  arith, ltb, ◌==◌,
}
use alsa_utils.Loop.State.{
  Side, play, capt, Sframes, frames, error, ReadFrames, got, failed, Device, Handle, Loopback,
  epipe, Answer, answer, stuck,
}
use alsa_utils.Loop.Io.{State, at_once, prepared, xrun}
use alsa_utils.Loop.Ring.{Ring}

pub suc-==-zero : (n : ℕ) → suc n == 0 ≡ false
suc-==-zero n = ground arith

pub ltb-zero-suc : (n : ℕ) → ltb 0 (suc n) ≡ true
ltb-zero-suc n = ground arith

-- What a call may move: no more than `count` and `avail`, and up to the end of the buffer.
pub at_once_lem :
    (h : Handle) (size count avail : ℕ)
    → h.buf_size ≡ size
    → size < 9223372036854775808
    → count ≤ size
    → h.buf_pos < size
    → (at_once h count avail ≤ count)
      × (h.buf_pos + at_once h count avail ≤ size)
      × (at_once h count avail ≤ avail)
unfolding at_once
at_once_lem h size count avail e b c p = ground arith

module _ ⦃device : Device⦄ where
  open device use {World, avail_update, readi, writei, prepare, set_avail_min, sw_params}

  module _ (taken played : World → List ℕ) where
    abbrev pub Same : World → World → Type 0
    Same w w' = (taken w' ≡ taken w) × (played w' ≡ played w)

    abbrev pub Avail : World → Sframes × World → Type 0
    Avail w (frames n, w') = (n < 9223372036854775808) × Same w w'
    Avail w (error e, w') = (e ≡ epipe) × Same w w'

    abbrev pub Read : World → ℕ → ReadFrames × World → Type 0
    Read w n (got xs, w') = (length xs ≤ n) × (taken w' ≡ taken w ++ xs) × (played w' ≡ played w)
    Read w n (failed e, w') = (e ≡ epipe) × Same w w'

    abbrev pub Wrote : World → List ℕ → Sframes × World → Type 0
    Wrote w xs (frames n, w') =
        (n ≤ length xs) × (taken w' ≡ taken w) × (played w' ≡ played w ++ take n xs)
    Wrote w xs (error e, w') = (e ≡ epipe) × Same w w'

    abbrev pub Prepared : World → Option ℕ × World → Type 0
    Prepared w (none, w') = Same w w'
    Prepared w (some e, w') = ⊥

  -- PCMs that are not suspended, and that can be prepared after an overrun or underrun. `taken` are
  -- the frames that were read, `played` those that were written.
  pub record DeviceLaws : Type 0 where
    pub taken : World → List ℕ
    pub played : World → List ℕ
    pub avail_update_lem : (side : Side) (w : World) → Avail taken played w (avail_update side w)
    pub readi_lem : (w : World) (n : ℕ) → Read taken played w n (readi w n)
    pub writei_lem : (w : World) (xs : List ℕ) → Wrote taken played w xs (writei w xs)
    pub prepare_lem : (side : Side) (w : World) → Prepared taken played w (prepare side w)
    pub set_avail_min_lem : (n : ℕ) (w : World) → Same taken played w (set_avail_min n w).1
    pub sw_params_lem : (w : World) → Same taken played w (sw_params w).1

  module _ (laws : DeviceLaws) (size : ℕ) (before : List ℕ) where
    open laws use {
      taken, played, avail_update_lem, readi_lem, writei_lem, prepare_lem, set_avail_min_lem,
      sw_params_lem,
    }

    abbrev pub Inv : ℕ → ℕ → State → Type 0
    Inv m k (l, w) =
        (l.shared ≡ true)
        × (l.play.buf_size ≡ size)
        × (l.capt.buf_size ≡ size)
        × Ring size before m k l.play.buf_pos l.play.buf_count l.capt.buf_pos l.capt.buf_count
            l.capt_buf (played w) (taken w)

    -- A call that has read, and one that has written, `n` frames.
    abbrev pub Took : Answer × State → Type 0
    Took (answer (frames n), s) = Inv n n s
    Took (answer (error e), s) = ⊥
    Took (stuck, s) = ⊥

    abbrev pub Gave : Answer × State → Type 0
    Gave (answer (frames n), s) = Inv n 0 s
    Gave (answer (error e), s) = ⊥
    Gave (stuck, s) = ⊥

    pub Inv-Same :
        (m k : ℕ) (l : Loopback) (w w' : World)
        → Same taken played w w'
        → Inv m k (l, w)
        → Inv m k (l, w')
    Inv-Same m k l w w' (t, p) h = rw (t, p) h

    -- A PCM that was prepared again.
    abbrev pub Recovered : ℕ → ℕ → Answer × State → Type 0
    Recovered m k (answer (frames n), s) = (n ≡ 0) × Inv m k s
    Recovered m k (answer (error e), s) = ⊥
    Recovered m k (stuck, s) = ⊥

    pub xrun-Recovered :
        (side : Side) (m k : ℕ) (l : Loopback) (w : World)
        → Inv m k (l, w)
        → Recovered m k (xrun side (l, w))
    unfolding xrun
    xrun-Recovered side m k l w h = after side (prepare side w) (prepare_lem side w)
      where
        after :
            (side : Side) (p : Option ℕ × World)
            → Prepared taken played w p
            → Recovered m k (prepared side l p)
        after side (some e, w') p = absurd p
        after play (none, w') p = (refl, Inv-Same m k l w w' p h)
        after capt (none, w') p = (refl, Inv-Same m k l w w' p h)
