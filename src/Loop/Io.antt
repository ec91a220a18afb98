-- ===== src/Loop/Io.antt =====
-- alsaloop/pcmjob.c: readit, writeit, and what they call.
use alsa_utils.Common.{
  ℕ, zero, suc, ◌+◌, ◌-◌, ◌%◌, Bool, true, false, not, ◌&&◌, Option, none, some, List, length, take,
  drop, splice, ltb, ◌==◌, if◌then◌else◌,
}
use alsa_utils.Common.Words.{u64, sub_u64}
use alsa_utils.Loop.State.{
  Side, play, capt, Sframes, frames, error, uframes, ReadFrames, got, failed, Device, Handle,
  Loopback, buf_avail, epipe, estrpipe, eagain, Answer, answer, stuck,
}

-- The buffer that a handle points to.
abbrev pub buf_of : Side → Loopback → List ℕ
buf_of capt l = l.capt_buf
buf_of play l = if l.shared then l.capt_buf else l.play_buf

abbrev pub handle_of : Side → Loopback → Handle
handle_of capt l = l.capt
handle_of play l = l.play

abbrev pub pend_xrun : Side → Loopback → Loopback
pend_xrun capt l = record l { capt = record l.capt { xrun_pending = true } }
pend_xrun play l = record l { play = record l.play { xrun_pending = true } }

-- How many frames a call may move: `count`, up to the end of the buffer, at most `avail`.
unfoldable pub at_once : Handle → ℕ → ℕ → ℕ
at_once h count avail =
    let r =
      if ltb h.buf_size (u64 (count + h.buf_pos)) then sub_u64 h.buf_size h.buf_pos else count in
    if ltb avail r then avail else r

-- Frames that were read, at the position of the capture handle.
unfoldable pub take_in : List ℕ → ℕ → Loopback → Loopback
take_in xs res l =
    let n = length xs in
    let h = l.capt in
    record l {
      capt_buf = splice l.capt_buf h.buf_pos xs;
      capt = record h {
        max = if ltb h.max (res + n) then res + n else h.max;
        counter = u64 (h.counter + n);
        buf_count = u64 (h.buf_count + n);
        buf_pos = u64 (h.buf_pos + n) % h.buf_size;
      };
    }

unfoldable pub put_out : ℕ → Loopback → Loopback
put_out n l =
    let h = l.play in
    record l {
      play = record h {
        counter = u64 (h.counter + n);
        buf_count = sub_u64 h.buf_count n;
        buf_pos = u64 (h.buf_pos + n) % h.buf_size;
      };
    }

-- The frames that were moved before an error, or the error.
abbrev pub moved_or : ℕ → Answer → Answer
moved_or res a = if ltb 0 res then answer (frames res) else a

module _ ⦃device : Device⦄ where
  open device use {World, avail_update, readi, writei, prepare, resume, is_draining}

  abbrev pub State : Type 0
  State = Loopback × World

  -- 0 or the error.
  abbrev pub prepared : Side → Loopback → Option ℕ × World → Answer × State
  prepared side l (none, w) = (answer (frames 0), (pend_xrun side l, w))
  prepared side l (some e, w) = (answer (error e), (l, w))

  unfoldable pub xrun : Side → State → Answer × State
  xrun side (l, w) = prepared side l (prepare side w)

  -- With the fuel of a round for each call of snd_pcm_resume.
  pub suspend : ℕ → Side → State → Answer × State
  suspend zero side s = (stuck, s)
  suspend (suc fuel) side (l, w) =
      let (r, w') = resume side w in
      let again = suspend fuel side (l, w') in
      elim r [
        | none ↦ (answer (frames 0), (l, w'))
        | some e ↦ if e == eagain then again else xrun side (l, w')
      ]

  -- After a call of snd_pcm_readi; `again` is another round, with the number of frames that were read.
  abbrev pub read_xrun : ℕ → Answer × State → Answer × State
  read_xrun res (a, s) = (moved_or res a, s)

  abbrev pub read_suspended : ℕ → (ℕ → State → Answer × State) → Answer × State → Answer × State
  read_suspended res again (answer (frames n), s) = again 0 s
  read_suspended res again (answer (error e), s) = (moved_or res (answer (error e)), s)
  read_suspended res again (stuck, s) = (stuck, s)

  unfoldable pub readit_round :
      ℕ → ℕ → (ℕ → State → Answer × State) → Loopback → ReadFrames × World → Answer × State
  readit_round fuel res again l (got xs, w) =
      if length xs == 0
      then (answer (frames res), (l, w))
      else again (length xs) (take_in xs res l, w)
  readit_round fuel res again l (failed e, w) =
      if e == epipe
      then read_xrun res (xrun capt (l, w))
      else if e == estrpipe
      then read_suspended res again (suspend fuel capt (l, w))
      else (moved_or res (answer (error e)), (l, w))

  -- The loop of readit: `avail` frames are left, and `res` were read.
  unfoldable pub readit_loop : ℕ → ℕ → ℕ → State → Answer × State
  readit_loop fuel zero res s = (answer (frames res), s)
  readit_loop zero (suc avail) res s = (stuck, s)
  readit_loop (suc fuel) (suc avail) res (l, w) =
      readit_round fuel res (λ n s. readit_loop fuel (suc avail - n) (res + n) s) l
        (readi w (at_once l.capt (buf_avail l.capt) (suc avail)))

  unfoldable pub read_avail : ℕ → Sframes → State → Answer × State
  read_avail fuel avail (l, w) =
      let room = buf_avail l.capt in
      if ltb room (uframes avail)
      then (readit_loop fuel room 0 (
        record l {
          capt = record l.capt { buf_over = u64 (l.capt.buf_over + sub_u64 (uframes avail) room) };
        },
        w,
      ))
      else if uframes avail == 0 && is_draining w
      then (answer (frames 0), (record l { reinit = true }, w))
      else (readit_loop fuel (uframes avail) 0 (l, w))

  -- After a resume, `avail` still is `-ESTRPIPE`.
  abbrev pub read_resumed : ℕ → Answer × State → Answer × State
  read_resumed fuel (answer (frames n), s) = read_avail fuel (error estrpipe) s
  read_resumed fuel (a, s) = (a, s)

  unfoldable pub read_started : ℕ → Loopback → Sframes × World → Answer × State
  read_started fuel l (frames n, w) = read_avail fuel (frames n) (l, w)
  read_started fuel l (error e, w) =
      if e == epipe
      then xrun capt (l, w)
      else if e == estrpipe
      then read_resumed fuel (suspend fuel capt (l, w))
      else (read_avail fuel (error e) (l, w))

  unfoldable pub readit : ℕ → State → Answer × State
  readit fuel (l, w) = read_started fuel l (avail_update capt w)

  abbrev pub write_xrun : ℕ → Answer × State → Answer × State
  write_xrun res (answer (frames n), s) = (answer (frames res), s)
  write_xrun res (a, s) = (a, s)

  -- What the next call of snd_pcm_writei gets.
  abbrev pub to_write : Loopback → ℕ → List ℕ
  to_write l avail =
      take (at_once l.play l.play.buf_count avail) (drop l.play.buf_pos (buf_of play l))

  abbrev pub write_resumed : (State → Answer × State) → Answer × State → Answer × State
  write_resumed again (answer (frames n), s) = again s
  write_resumed again (a, s) = (a, s)

  module _ (past_latency : ℕ → Bool) where
    -- The count of frames towards the end of the loop, and whether the end is reached: a comparison of
    -- floating point, `past_latency`.
    unfoldable pub count_stop : ℕ → Loopback → Bool × Loopback
    count_stop n l =
        let l' = record l { stop_count = u64 (l.stop_count + n) } in
        if not l.stop_pending
        then (false, l)
        else if past_latency l'.stop_count
        then (true, record l' { stop_pending = false; reinit = true })
        else (false, l')

    -- After `n` frames were written.
    unfoldable pub written :
        ℕ → ℕ → (ℕ → State → Answer × State) → Loopback → World → Answer × State
    written res n again l w =
        let (ends, l') = count_stop n (put_out n l) in
        if ends then (answer (frames (res + n)), (l', w)) else again n (l', w)

    -- After a call of snd_pcm_writei; `again` is another round.
    unfoldable pub writeit_round :
        ℕ → (ℕ → State → Answer × State) → Loopback → Sframes × World → Answer × State
    writeit_round res again l (frames n, w) =
        if n == 0 then (answer (frames res), (l, w)) else written res n again l w
    writeit_round res again l (error e, w) =
        if e == epipe
        then write_xrun res (xrun play (l, w))
        else (moved_or res (answer (error e)), (l, w))

    unfoldable pub writeit_loop : ℕ → ℕ → ℕ → State → Answer × State
    writeit_loop fuel zero res s = (answer (frames res), s)
    writeit_loop zero (suc avail) res s = (stuck, s)
    writeit_loop (suc fuel) (suc avail) res (l, w) =
        let more =
          writeit_round res (λ n s. writeit_loop fuel (suc avail - n) (res + n) s) l
            (writei w (to_write l (suc avail))) in
        if l.play.buf_count == 0 then (answer (frames res), (l, w)) else more

    -- After snd_pcm_avail_update.
    unfoldable pub write_started :
        ℕ → (State → Answer × State) → Loopback → Sframes × World → Answer × State
    write_started fuel again l (frames n, w) = writeit_loop fuel n 0 (l, w)
    write_started fuel again l (error e, w) =
        if e == epipe
        then write_xrun 0 (xrun play (l, w))
        else if e == estrpipe
        then write_resumed again (suspend fuel play (l, w))
        else (answer (frames 0), (l, w))

    unfoldable pub writeit : ℕ → State → Answer × State
    writeit zero s = (stuck, s)
    writeit (suc fuel) (l, w) = write_started fuel (λ s. writeit fuel s) l (avail_update play w)
