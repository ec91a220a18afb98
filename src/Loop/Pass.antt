-- ===== src/Loop/Pass.antt =====
-- alsaloop/pcmjob.c: buf_add, buf_remove, remove_samples, lhandle_start, increase_playback_avail_min, and the
-- transfer loop of pcmjob_pollfds_handle.
use alsa_utils.Common.{
  ℕ, zero, suc, ◌+◌, ◌-◌, ◌/◌, ◌%◌, Bool, false, ◌&&◌, ◌||◌, Option, none, some, ltb, ◌==◌,
  if◌then◌else◌,
}
use alsa_utils.Common.Words.{u64}
use alsa_utils.Loop.State.{
  Sframes, frames, error, uframes, Device, Handle, Loopback, Answer, answer, stuck,
}
use alsa_utils.Loop.Io.{State, readit, writeit}

unfoldable pub buf_remove : ℕ → Loopback → Loopback
buf_remove count l =
    if count == 0
    then l
    else if l.shared
    then (record l {
      capt = record l.capt {
        buf_count = if ltb count l.capt.buf_count then l.capt.buf_count - count else 0;
      };
    })
    else l

-- `add_src` is buf_add_src, which is empty without libsamplerate.
unfoldable pub buf_add : (Loopback → Loopback) → ℕ → Loopback → Loopback
buf_add add_src count l =
    if count == 0
    then l
    else if l.shared
    then (record l { play = record l.play { buf_count = u64 (l.play.buf_count + count) } })
    else (add_src l)

abbrev pub least : ℕ → ℕ → ℕ
least count n = if ltb n count then n else count

-- `count` is not negative.
pub remove_samples : Bool → ℕ → Loopback → ℕ × Loopback
remove_samples capture_preferred count l =
    let both = least (least count l.play.buf_count) l.capt.buf_count in
    let of_capt = least count l.capt.buf_count in
    let of_play = least count l.play.buf_count in
    if l.shared
    then (
      both,
      record l {
        capt = record l.capt { buf_count = l.capt.buf_count - both };
        play = record l.play {
          buf_pos = u64 (l.play.buf_pos + both) % l.play.buf_size;
          buf_count = l.play.buf_count - both;
        };
      },
    )
    else if capture_preferred
    then (of_capt, record l { capt = record l.capt { buf_count = l.capt.buf_count - of_capt } })
    else (of_play, record l { play = record l.play { buf_count = l.play.buf_count - of_play } })

abbrev pub lhandle_start : Handle → Handle
lhandle_start h = record h { buf_pos = 0; buf_count = 0; counter = 0 }

abbrev pub set_stall : ℕ → Loopback → Loopback
set_stall n l = record l { play = record l.play { stall = n } }

-- What was read is there to be written.
abbrev pub add_read : (Loopback → Loopback) → ℕ → Loopback → Loopback
add_read add_src ccount l = buf_add add_src ccount (if ltb 0 ccount then set_stall 0 l else l)

abbrev pub remove_written : ℕ → Loopback → Loopback
remove_written pcount l =
    let l' = buf_remove pcount l in if ltb 0 pcount then set_stall 0 l' else l'

module _ ⦃device : Device⦄ where
  open device use {World, set_avail_min, sw_params}

  abbrev pub avail_min_set : Loopback → Sframes × World → Option ℕ × State
  avail_min_set l (frames n, w) =
      let (r, w') = sw_params w in (r, (record l { play = record l.play { avail_min = n } }, w'))
  avail_min_set l (error e, w) = (some e, (l, w))

  -- 0 or the error, as `none` or `some`.
  unfoldable pub increase_playback_avail_min : State → Option ℕ × State
  increase_playback_avail_min (l, w) =
      if ltb l.play.buffer_size (u64 (l.play.avail_min + l.play.period_size / 2))
      then (none, (l, w))
      else (avail_min_set l (set_avail_min (u64 (l.play.avail_min + 4)) w))

  abbrev pub stalled : State → State
  stalled (l, w) =
      if ltb 20 l.play.stall
      then ((increase_playback_avail_min (set_stall 0 l, w)).1)
      else (set_stall (l.play.stall + 1) l, w)

  -- A round that has read `ccount` frames, and was answered `pcount`; `again` is another round.
  unfoldable pub after_write : ℕ → (State → Option State) → Answer × State → Option State
  after_write ccount again (stuck, s) = none
  after_write ccount again (answer r, (l, w)) =
      let l' = remove_written (uframes r) l in
      let next = again (l', w) in
      if l'.play.xrun_pending || l'.reinit
      then some (l', w)
      else if ltb 0 ccount || ltb 0 (uframes r)
      then next
      else some (l', w)

  module _ (past_latency : ℕ → Bool) (add_src : Loopback → Loopback) (fuel : ℕ) where
    unfoldable pub after_read : Bool → (State → Option State) → Answer × State → Option State
    after_read idle again (stuck, s) = none
    after_read idle again (answer r, (l, w)) =
        let l' = add_read add_src (uframes r) l in
        if idle && uframes r == 0
        then some (stalled (l, w))
        else if l'.capt.xrun_pending || l'.reinit
        then some (l', w)
        else (after_write (uframes r) again (writeit past_latency fuel (l', w)))

    -- `rounds` are left; `idle` is that only the playback PCM has events, and this is the first round.
    -- `none` is the end of the fuel.
    unfoldable pub transfer : ℕ → Bool → State → Option State
    transfer zero idle s = some s
    transfer (suc rounds) idle s = after_read idle (λ t. transfer rounds false t) (readit fuel s)
