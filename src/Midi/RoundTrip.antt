-- ===== src/Midi/RoundTrip.antt =====
-- A track that is recorded, written and played.
use alsa_utils.Common.{
  ℕ, suc, ◌+◌, ◌-◌, ◌<◌, ◌≡◌, refl, sym, ◌∙◌, ap, ap₂, inl, Bool, true, List, [], ◌∷◌, ◌++◌, length,
  append_assoc, length-append, arith, ltb, map,
}
use mathlib.Core.Path.{subst}
use alsa_utils.Midi.Stream.{input, skip}
use alsa_utils.Midi.Play.{
  Event, end_of_track, track, read_events, read_event, read_track, read_command, read_system,
  read_meta, after_round,
}
use alsa_utils.Midi.Play.Rounds.{PlayState, reading, delta_lem, status_system}
use alsa_utils.Midi.Record.{
  SmfTrack, Recorded, empty_track, record_data, finish_track, var_value, add_byte, write_bufs,
}
use alsa_utils.Midi.Record.Bytes.{joined, WellFormed, write_bufs_lem, Puts}
use alsa_utils.Midi.Record.Steps.{vlq, Puts-var, Puts-one, Puts-then}
use alsa_utils.Midi.Vlq.{read_var-vlq}
use alsa_utils.Midi.Carry.{Linked, InTime, Carries, Carries-trans, event}
use alsa_utils.Midi.Heard.{heard_of, Playable, tick_after, Carries-none, event_lem}

-- Events recorded one after the other to one track.
unfoldable pub record_all : SmfTrack → List (ℕ × Recorded) → SmfTrack
record_all t [] = t
record_all t ((tick, e) ∷ es) = record_all (record_data t tick e) es

abbrev pub ticks_after : ℕ → List (ℕ × Recorded) → ℕ
ticks_after last [] = last
ticks_after last ((tick, e) ∷ es) = ticks_after (tick_after last tick e) es

abbrev pub heard_all : ℕ → List (ℕ × Recorded) → List Event
heard_all port [] = []
heard_all port ((tick, e) ∷ es) = map (event port tick) (heard_of e) ++ heard_all port es

-- Each event may be recorded when it is.
abbrev pub InOrder : ℕ → List (ℕ × Recorded) → Type 0
InOrder last [] = Unit {0}
InOrder last ((tick, e) ∷ es) = InTime last tick × Playable e × InOrder (tick_after last tick e) es

module _ (port port_count : ℕ) (smpte_timing : Bool) (track_end : ℕ) where
  all_lem :
      (t : SmfTrack) (s : PlayState) (es : List (ℕ × Recorded))
      → Linked t s
      → InOrder s.tick es
      → Carries port port_count smpte_timing track_end t
          (record_all t es)
          s
          (ticks_after s.tick es)
          (heard_all port es)
  unfolding record_all
  all_lem t s [] l h = Carries-none port port_count smpte_timing track_end t s l
  all_lem t s ((tick, e) ∷ es) l (h, p, hs) =
      let c =
        event_lem port port_count smpte_timing track_end t s tick e l
          (subst (λ x. InTime x tick) (sym l.same_tick) h) p in
      let rest =
        all_lem (record_data t tick e) c.state es c.linked
          (subst (λ x. InOrder x es) (sym c.at_tick) hs) in
      Carries-trans port port_count smpte_timing track_end t (record_data t tick e)
        (record_all (record_data t tick e) es) s (tick_after s.tick tick e)
        (ticks_after (tick_after s.tick tick e) es) (map (event port tick) (heard_of e))
        (heard_all port es) c
        (subst
          (λ x.
            Carries port port_count smpte_timing track_end (record_data t tick e)
              (record_all (record_data t tick e) es) c.state (ticks_after x es) (heard_all port es))
          c.at_tick rest)

  abbrev finish_bytes : ℕ → List ℕ
  finish_bytes v = vlq v ++ (255 ∷ 47 ∷ vlq 0)

  command_end :
      (s : PlayState) (rest : List ℕ) (o : ℕ)
      → o + 1 + length (vlq 0) ≡ track_end
      → read_command port_count smpte_timing track_end 255
          (reading port s (input (47 ∷ (vlq 0 ++ rest)) o))
        ≡ end_of_track (reading port s (input rest track_end))
  unfolding read_command read_system read_meta skip
  command_end s rest o h = rw (
    read_command,
    read_system,
    read_var-vlq 0 rest (o + 1) (omega arith),
    read_meta,
    h,
    none_left,
  )
    where
      none_left : track_end - track_end ≡ 0
      none_left = omega arith

  finish_round :
      (s : PlayState) (v fuel : ℕ) (rest : List ℕ) (o : ℕ)
      → v < 268435456
      → s.tick + v < 2147483648
      → o + length (finish_bytes v) ≡ track_end
      → read_events port_count smpte_timing track_end
          (suc fuel)
          (reading port s (input (finish_bytes v ++ rest) o))
        ≡ track s.events (s.tick + v) (input rest track_end)
  unfolding read_events after_round read_event
  finish_round s v fuel rest o hv ht he = rw (inside, round)
    where
      inside : ltb o track_end ≡ true
      inside = ground (arith, length-append (vlq v) (255 ∷ 47 ∷ vlq 0))

      split : finish_bytes v ++ rest ≡ vlq v ++ (255 ∷ 47 ∷ (vlq 0 ++ rest))
      split = append_assoc (vlq v) (255 ∷ 47 ∷ vlq 0) rest

      round :
          read_event port_count smpte_timing track_end
            (reading port s (input (finish_bytes v ++ rest) o))
          ≡ end_of_track (reading port (record s { tick = s.tick + v }) (input rest track_end))
      round =
          rw (read_event, split, read_var-vlq v (255 ∷ 47 ∷ (vlq 0 ++ rest)) o hv)
            (delta_lem port port_count smpte_timing track_end s v _ _ ht
              ∙ status_system port port_count smpte_timing track_end _ 255 (47 ∷ (vlq 0 ++ rest)) _
                  _ (omega arith) (omega arith)
              ∙ command_end (record s { tick = s.tick + v }) rest _
                  (omega (arith, he, length-append (vlq v) (255 ∷ 47 ∷ vlq 0))))

Puts-finish :
    (t : SmfTrack) (v : ℕ)
    → Puts t (finish_track t v) (vlq v ++ (255 ∷ 47 ∷ vlq 0)) t.last_tick t.last_command
unfolding finish_track
Puts-finish t v = Puts-then t t₁ _ (vlq v) (255 ∷ 47 ∷ vlq 0) (Puts-var t v) (
    Puts-then t₁ t₂ _ (255 ∷ []) (47 ∷ vlq 0) (Puts-one t₁ 255 (omega arith)) (
      Puts-then t₂ (add_byte t₂ 47) _ (47 ∷ []) (vlq 0) (Puts-one t₂ 47 (omega arith))
        (Puts-var (add_byte t₂ 47) 0)))
  where
    t₁ : SmfTrack
    t₁ = var_value t v

    t₂ : SmfTrack
    t₂ = add_byte t₁ 255

empty-WellFormed : WellFormed empty_track
unfolding joined
empty-WellFormed = record { cur_size = refl; in_buffer = omega arith; full = tt; all = refl }

start : PlayState
start = record { tick = 0; last_cmd = 0; events = [] }

abbrev pub whole_track : List (ℕ × Recorded) → ℕ → SmfTrack
whole_track es v = finish_track (record_all empty_track es) v

module _ (port_count : ℕ) (smpte_timing : Bool) (es : List (ℕ × Recorded)) (v fuel : ℕ)
    (rest : List ℕ) (o : ℕ) where
  -- Events recorded to an empty track, each in time and of a kind that can be played, and the end
  -- `v` ticks behind them, less than 2 ^ 28 and at a tick below 2 ^ 31: with fuel larger than the
  -- track, what is written of it is read back, as the events that they are for the player, at
  -- their ticks, and with the length of the track; the file is left behind it.
  pub read_track-record :
      InOrder 0 es
      → v < 268435456
      → ticks_after 0 es + v < 2147483648
      → (whole_track es v).size < fuel
      → read_track port_count smpte_timing
          (o + (whole_track es v).size)
          fuel
          (input (write_bufs (whole_track es v).bufs (whole_track es v) ++ rest) o)
        ≡ track (heard_all 0 es) (ticks_after 0 es + v) (input rest (o + (whole_track es v).size))
  unfolding start joined
  read_track-record h hv ht hf =
      let c =
        all_lem 0 port_count smpte_timing (o + (whole_track es v).size) empty_track start es linked
          h in
      let f = Puts-finish (record_all empty_track es) v in
      let w = f.kept (c.kept empty-WellFormed) in
      let bytes : write_bufs (whole_track es v).bufs (whole_track es v) ++ rest
          ≡ c.bytes ++ (fin ++ rest) =
        ap (λ xs. xs ++ rest)
          (write_bufs_lem (whole_track es v) w ∙ f.added ∙ ap (λ xs. xs ++ fin) c.added)
        ∙ append_assoc c.bytes fin rest in
      let size : (whole_track es v).size ≡ length c.bytes + length fin =
        w.all ∙ ap length (f.added ∙ ap (λ xs. xs ++ fin) c.added) ∙ length-append c.bytes fin in
      ap (λ xs. read_track port_count smpte_timing (o + (whole_track es v).size) fuel (input xs o))
        bytes
      ∙ c.runs fuel (suc (fuel - c.rounds - 1)) (fin ++ rest) o (omega (arith, c.few, size))
          (omega (arith, size))
      ∙ finish_round 0 port_count smpte_timing (o + (whole_track es v).size) c.state v
          (fuel - c.rounds - 1) rest (o + length c.bytes) hv (omega (arith, c.at_tick))
          (omega (arith, size))
      ∙ ap₂ (λ evs tick. track evs (tick + v) (input rest (o + (whole_track es v).size))) c.heard
          c.at_tick
    where
      fin : List ℕ
      fin = vlq v ++ (255 ∷ 47 ∷ vlq 0)

      linked : Linked empty_track start
      linked = record { same_tick = refl; follows = inl refl; below = omega arith }
