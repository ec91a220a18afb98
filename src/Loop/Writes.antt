-- ===== src/Loop/Writes.antt =====
-- What writeit does to the shared buffer of alsaloop.
use alsa_utils.Common.{
  ℕ, zero, suc, ◌+◌, ◌-◌, ◌≤◌, ◌<◌, ◌≡◌, refl, ◌∙◌, ap, Bool, Bool-cases, inl, inr, List, ◌++◌,
  append-nil, take, drop, length-take, take-take, arith, ◌==◌, if◌then◌else◌,
}
use alsa_utils.Common.Words.{u64, sub_u64}
use alsa_utils.Loop.State.{play, Sframes, frames, error, Device, Loopback, Answer, answer, stuck}
use alsa_utils.Loop.Io.{
  State, buf_of, at_once, put_out, count_stop, write_xrun, to_write, written, writeit_round,
  writeit_loop, write_started, writeit,
}
use alsa_utils.Loop.Ring.{Ring-write}
use alsa_utils.Loop.Laws
use alsa_utils.Loop.Laws.{
  DeviceLaws, Same, Avail, Wrote, Inv-Same, xrun-Recovered, at_once_lem, suc-==-zero,
}

module _ ⦃device : Device⦄ (laws : DeviceLaws) (size : ℕ) (before : List ℕ) where
  open device use {World, avail_update, writei}
  open laws use {taken, played, avail_update_lem, writei_lem}

  abbrev Inv : ℕ → ℕ → State → Type 0
  Inv = Laws.Inv laws size before

  abbrev Recovered : ℕ → ℕ → Answer × State → Type 0
  Recovered = Laws.Recovered laws size before

  abbrev Gave : Answer × State → Type 0
  Gave = Laws.Gave laws size before

  Gave-write_xrun : (res : ℕ) (a : Answer × State) → Recovered res 0 a → Gave (write_xrun res a)
  Gave-write_xrun res (answer (frames n), s) (e, h) = h
  Gave-write_xrun res (answer (error e), s) h = absurd h
  Gave-write_xrun res (stuck, s) h = absurd h

  put_out-Inv :
      (n res : ℕ) (l : Loopback) (w w' : World)
      → n ≤ l.play.buf_count
      → l.play.buf_pos + n ≤ size
      → taken w' ≡ taken w
      → played w' ≡ played w ++ take n (drop l.play.buf_pos l.capt_buf)
      → Inv res 0 (l, w)
      → Inv (res + n) 0 (put_out n l, w')
  unfolding put_out
  put_out-Inv n res l w w' most fits t p (s, ep, ec, r) =
      rw (t, p, ep, no_wrap, left) (s, refl, ec, Ring-write n refl most fits r)
    where
      no_wrap : u64 (l.play.buf_pos + n) ≡ l.play.buf_pos + n
      no_wrap = omega (arith, r)

      left : sub_u64 l.play.buf_count n ≡ l.play.buf_count - n
      left = omega (arith, r)

  module _ (past_latency : ℕ → Bool) where
    count_stop-Inv :
        (n m k : ℕ) (l : Loopback) (w : World)
        → Inv m k (l, w)
        → Inv m k ((count_stop past_latency n l).1, w)
    unfolding count_stop
    count_stop-Inv n m k l w h = elim (Bool-cases l.stop_pending) [
      | inl e ↦ elim (Bool-cases (past_latency (u64 (l.stop_count + n)))) [
        | inl d ↦ rw (e, d) h
        | inr d ↦ rw (e, d) h
      ]
      | inr e ↦ rw e h
    ]

    count_stop-count :
        (n : ℕ) (l : Loopback) → (count_stop past_latency n l).1.play.buf_count ≡ l.play.buf_count
    unfolding count_stop
    count_stop-count n l = ground arith

    count-put_out :
        (n : ℕ) (l : Loopback) → (put_out n l).play.buf_count ≡ sub_u64 l.play.buf_count n
    unfolding put_out
    count-put_out n l = refl

    written_lem :
        (res n : ℕ) (again : ℕ → State → Answer × State) (l : Loopback) (w : World)
        → Inv (res + n) 0 (put_out n l, w)
        → ((s : State)
            → s.0.play.buf_count ≡ sub_u64 l.play.buf_count n
            → Inv (res + n) 0 s
            → Gave (again n s))
        → Gave (written past_latency res n again l w)
    unfolding written
    written_lem res n again l w h next =
        elim (Bool-cases (count_stop past_latency n (put_out n l)).0) [
          | inl e ↦ rw e (count_stop-Inv n (res + n) 0 (put_out n l) w h)
          | inr e ↦ rw e (
              next ((count_stop past_latency n (put_out n l)).1, w)
                (count_stop-count n (put_out n l) ∙ count-put_out n l)
                (count_stop-Inv n (res + n) 0 (put_out n l) w h))
        ]

    writeit_round_lem :
        (res avail : ℕ) (again : ℕ → State → Answer × State) (l : Loopback) (w : World)
        (r : Sframes × World)
        → Inv res 0 (l, w)
        → Wrote taken played w (to_write l avail) r
        → ((n : ℕ) (s : State)
            → s.0.play.buf_count + suc n ≡ l.play.buf_count
            → Inv (res + suc n) 0 s
            → Gave (again (suc n) s))
        → Gave (writeit_round past_latency res again l r)
    unfolding writeit_round
    writeit_round_lem res avail again l w (error e, w') h (k, same) next = rw k (
        Gave-write_xrun res _ (
          xrun-Recovered laws size before play res 0 l w'
            (Inv-Same laws size before res 0 l w w' same h)))
    writeit_round_lem res avail again l w (frames zero, w') h (n, t, p) next =
        Inv-Same laws size before res 0 l w w' (t, p ∙ append-nil (played w)) h
    writeit_round_lem res avail again l w (frames (suc n), w') (s, ep, ec, r) (few, t, p) next =
        let (most, fits, less) =
          at_once_lem l.play size l.play.buf_count avail ep r.bounded (omega (arith, r)) r.inside in
        rw (suc-==-zero n) (
          written_lem res (suc n) again l w'
            (put_out-Inv (suc n) res l w w' (omega (arith, few', most)) (omega (arith, few', fits))
              t (p ∙ ap (λ xs. played w ++ xs) data_) (s, ep, ec, r))
            (λ u q. next n u (omega (arith, r, q, few', most))))
      where
        chunk : ℕ
        chunk = at_once l.play l.play.buf_count avail

        few' : suc n ≤ chunk
        few' = omega (arith, few, length-take chunk (drop l.play.buf_pos (buf_of play l)))

        data_ : take (suc n) (to_write l avail) ≡ take (suc n) (drop l.play.buf_pos l.capt_buf)
        data_ =
            take-take (suc n) chunk _ few'
            ∙ ap (λ b. take (suc n) (drop l.play.buf_pos (if b then l.capt_buf else l.play_buf))) s

    writeit_loop_lem :
        (fuel avail res : ℕ) (l : Loopback) (w : World)
        → l.play.buf_count < fuel
        → Inv res 0 (l, w)
        → Gave (writeit_loop past_latency fuel avail res (l, w))
    unfolding writeit_loop
    writeit_loop_lem fuel zero res l w f h = h
    writeit_loop_lem zero (suc avail) res l w f h = absurd (omega arith)
    writeit_loop_lem (suc fuel) (suc avail) res l w f h =
        elim (Bool-cases (l.play.buf_count == 0)) [
          | inl e ↦ rw e h
          | inr e ↦ rw e (
              writeit_round_lem res (suc avail) _ l w (writei w (to_write l (suc avail))) h
                (writei_lem w _)
                (λ n s q k.
                  writeit_loop_lem fuel (suc avail - suc n) (res + suc n) s.0 s.1 (omega (arith, q))
                    k))
        ]

    -- writeit gives frames to the playback PCM.
    pub writeit_lem :
        (fuel : ℕ) (l : Loopback) (w : World)
        → size < fuel
        → Inv 0 0 (l, w)
        → Gave (writeit past_latency (suc fuel) (l, w))
    unfolding writeit write_started
    writeit_lem fuel l w f (s, ep, ec, r) = after (avail_update play w) (avail_update_lem play w)
      where
        after :
            (a : Sframes × World)
            → Avail taken played w a
            → Gave (write_started past_latency fuel (λ s. writeit past_latency fuel s) l a)
        after (frames n, w') (b, same) =
            writeit_loop_lem fuel n 0 l w' (omega (arith, r))
              (Inv-Same laws size before 0 0 l w w' same (s, ep, ec, r))
        after (error e, w') (k, same) = rw k (
            Gave-write_xrun 0 _ (
              xrun-Recovered laws size before play 0 0 l w'
                (Inv-Same laws size before 0 0 l w w' same (s, ep, ec, r))))
