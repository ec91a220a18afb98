-- ===== src/Loop/Keeps.antt =====
-- The transfer loop of alsaloop: what it captures is what it plays.
use alsa_utils.Common.{
  ℕ, zero, suc, ◌+◌, ◌-◌, ◌/◌, ◌<◌, ◌≡◌, refl, Bool, true, false, Bool-cases, inl, inr, Option,
  none, some, List, arith, ltb, ◌&&◌, ◌||◌, ◌==◌, if◌then◌else◌,
}
use mathlib.Core.Path.{subst}
use alsa_utils.Common.Words.{u64}
use alsa_utils.Loop.State.{Sframes, frames, error, Device, Loopback, Answer, answer, stuck}
use alsa_utils.Loop.Io.{State, readit}
use alsa_utils.Loop.Pass.{
  buf_add, buf_remove, set_stall, avail_min_set, increase_playback_avail_min, stalled, add_read,
  remove_written, after_write, after_read, transfer,
}
use alsa_utils.Loop.Ring.{Ring-add, Ring-remove}
use alsa_utils.Loop.Laws
use alsa_utils.Loop.Laws.{DeviceLaws, Same, Inv-Same, suc-==-zero, ltb-zero-suc}
use alsa_utils.Loop.Reads.{readit_lem}
use alsa_utils.Loop.Writes.{writeit_lem}

module _ ⦃device : Device⦄ (laws : DeviceLaws) (size : ℕ) (before : List ℕ) where
  open device use {World, set_avail_min, sw_params}
  open laws use {taken, played, set_avail_min_lem, sw_params_lem}

  abbrev Inv : ℕ → ℕ → State → Type 0
  Inv = Laws.Inv laws size before

  increase_playback_avail_min-Inv :
      (l : Loopback) (w : World) → Inv 0 0 (l, w) → Inv 0 0 (increase_playback_avail_min (l, w)).1
  unfolding increase_playback_avail_min
  increase_playback_avail_min-Inv l w h =
      elim (Bool-cases (ltb l.play.buffer_size (u64 (l.play.avail_min + l.play.period_size / 2)))) [
        | inl e ↦ rw e h
        | inr e ↦
            rw e (after (set_avail_min (u64 (l.play.avail_min + 4)) w) (set_avail_min_lem _ w))
      ]
    where
      after : (r : Sframes × World) → Same taken played w r.1 → Inv 0 0 (avail_min_set l r).1
      after (error e, w') same = Inv-Same laws size before 0 0 l w w' same h
      after (frames n, w') same =
          Inv-Same laws size before 0 0 l w' (sw_params w').1 (sw_params_lem w')
            (Inv-Same laws size before 0 0 l w w' same h)

  stalled-Inv : (l : Loopback) (w : World) → Inv 0 0 (l, w) → Inv 0 0 (stalled (l, w))
  stalled-Inv l w h = elim (Bool-cases (ltb 20 l.play.stall)) [
    | inl e ↦ rw e (increase_playback_avail_min-Inv (set_stall 0 l) w h)
    | inr e ↦ rw e h
  ]

  module _ (past_latency : ℕ → Bool) (add_src : Loopback → Loopback) where
    buf_add-Inv :
        (n : ℕ) (l : Loopback) (w : World) → Inv n n (l, w) → Inv 0 0 (buf_add add_src n l, w)
    unfolding buf_add
    buf_add-Inv zero l w h = h
    buf_add-Inv (suc n) l w (s, ep, ec, r) =
        rw (suc-==-zero n, s, no_wrap) (refl, ep, ec, Ring-add r)
      where
        no_wrap : u64 (l.play.buf_count + suc n) ≡ l.play.buf_count + suc n
        no_wrap = omega (arith, r)

    buf_remove-Inv :
        (n : ℕ) (l : Loopback) (w : World) → Inv n 0 (l, w) → Inv 0 0 (buf_remove n l, w)
    unfolding buf_remove
    buf_remove-Inv zero l w h = h
    buf_remove-Inv (suc n) l w (s, ep, ec, r) =
        rw (suc-==-zero n, s, left) (refl, ep, ec, Ring-remove r)
      where
        left :
            (if ltb (suc n) l.capt.buf_count then l.capt.buf_count - suc n else 0)
            ≡ l.play.buf_count
        left = ground (arith, r)

    add_read-Inv :
        (n : ℕ) (l : Loopback) (w : World) → Inv n n (l, w) → Inv 0 0 (add_read add_src n l, w)
    add_read-Inv zero l w h = buf_add-Inv zero l w h
    add_read-Inv (suc n) l w h = rw (ltb-zero-suc n) (buf_add-Inv (suc n) (set_stall 0 l) w h)

    remove_written-Inv :
        (n : ℕ) (l : Loopback) (w : World) → Inv n 0 (l, w) → Inv 0 0 (remove_written n l, w)
    remove_written-Inv zero l w h = buf_remove-Inv zero l w h
    remove_written-Inv (suc n) l w h = rw (ltb-zero-suc n) (buf_remove-Inv (suc n) l w h)

    abbrev Moved : Option State → Type 0
    Moved none = ⊥
    Moved (some s) = Inv 0 0 s

    after_write-Moved :
        (n : ℕ) (again : State → Option State) (a : Answer × State)
        → ((s : State) → Inv 0 0 s → Moved (again s))
        → Laws.Gave laws size before a
        → Moved (after_write n again a)
    unfolding after_write
    after_write-Moved n again (stuck, s) next h = absurd h
    after_write-Moved n again (answer (error e), s) next h = absurd h
    after_write-Moved n again (answer (frames k), (l, w)) next h =
        let i = remove_written-Inv k l w h in
        elim (Bool-cases ((remove_written k l).play.xrun_pending || (remove_written k l).reinit)) [
          | inl e ↦ rw e i
          | inr e ↦ elim (Bool-cases (ltb 0 n || ltb 0 k)) [
            | inl d ↦ rw (e, d) (next (remove_written k l, w) i)
            | inr d ↦ rw (e, d) i
          ]
        ]

    after_read-Moved :
        (fuel : ℕ) (idle : Bool) (again : State → Option State) (a : Answer × State)
        → size < fuel
        → ((s : State) → Inv 0 0 s → Moved (again s))
        → Laws.Took laws size before a
        → Moved (after_read past_latency add_src (suc fuel) idle again a)
    unfolding after_read
    after_read-Moved fuel idle again (stuck, s) f next h = absurd h
    after_read-Moved fuel idle again (answer (error e), s) f next h = absurd h
    after_read-Moved fuel idle again (answer (frames k), (l, w)) f next h =
        let i = add_read-Inv k l w h in
        elim (Bool-cases (idle && k == 0)) [
          | inl e ↦ rw e (stalled-Inv l w (subst (λ n. Inv n n (l, w)) (nothing e) h))
          | inr e ↦
              elim (Bool-cases
                ((add_read add_src k l).capt.xrun_pending || (add_read add_src k l).reinit)) [
                  | inl d ↦ rw (e, d) i
                  | inr d ↦
                      rw (e, d)
                        (after_write-Moved k again _ next (
                          writeit_lem laws size before past_latency fuel (add_read add_src k l) w f
                            i))
                ]
        ]
      where
        nothing : (idle && k == 0) ≡ true → k ≡ 0
        nothing e = ground arith

    transfer-Moved :
        (fuel rounds : ℕ) (idle : Bool) (s : State)
        → size < fuel
        → Inv 0 0 s
        → Moved (transfer past_latency add_src (suc fuel) rounds idle s)
    unfolding transfer
    transfer-Moved fuel zero idle s f h = h
    transfer-Moved fuel (suc rounds) idle s f h =
        after_read-Moved fuel idle _ (readit (suc fuel) s) f
          (λ t k. transfer-Moved fuel rounds false t f k)
          (readit_lem laws size before (suc fuel) s.0 s.1 (omega arith) h)

    -- With PCMs that overrun and underrun, but are not suspended and can be prepared again, the
    -- transfer loop ends, and it keeps the invariant of a buffer that both handles share: what was
    -- written to the playback PCM, followed by the frames between the positions of the two handles,
    -- is `before`, followed by what was read from the capture PCM; and both count the frames between.
    pub transfer_lem :
        (fuel rounds : ℕ) (idle : Bool) (s : State)
        → size < fuel
        → Inv 0 0 s
        → (t : State) × (transfer past_latency add_src (suc fuel) rounds idle s ≡ some t)
          × Inv 0 0 t
    transfer_lem fuel rounds idle s f h = found _ (transfer-Moved fuel rounds idle s f h)
      where
        found : (o : Option State) → Moved o → (t : State) × (o ≡ some t) × Inv 0 0 t
        found none m = absurd m
        found (some t) m = (t, refl, m)
