-- ===== src/Midi/Heard.antt =====
-- What the player makes of each kind of event that the recorder takes.
use alsa_utils.Common.{
  ℕ, ◌+◌, ◌/◌, ◌%◌, ◌≤◌, ◌<◌, ◌≡◌, refl, sym, ◌∙◌, ap₂, inl, inr, Bool, true, Bool-cases, none,
  some, List, [], ◌∷◌, ◌++◌, length, append-nil, arith, ltb, ◌==◌, ==_iff, if◌then◌else◌, All, map,
}
use mathlib.Core.Path.{subst}
use alsa_utils.Midi.Stream.{input}
use alsa_utils.Midi.Play.{
  Command, Data, params, param, Event, with_two_params, with_one_param, read_events,
}
use alsa_utils.Midi.Play.Rounds.{PlayState, reading}
use alsa_utils.Midi.Record.{
  SmfTrack, Recorded, add_byte, delta_time, command, add_two, again_two, begin, add_parameter,
  add_bytes, var_value, record_sysex, mark_used, record_data,
}
use alsa_utils.Midi.Record.Bytes.{contents, Puts-byte}
use alsa_utils.Midi.Record.Steps.{running, Puts-delta, Puts-command}
use alsa_utils.Midi.Carry.{Linked, InTime, Carries, Carries-trans, Carries-used, event}
use alsa_utils.Midi.Commands.{Carries-two, Carries-one, Carries-again}
use alsa_utils.Midi.Exclusive.{Carries-exclusive}

-- The events of a track, as the player has them: those with 14 bits become controllers, and what the
-- recorder does not know is silent.
abbrev pub heard_of : Recorded → List Data
heard_of (Recorded.noteon c note velocity) =
    params Command.noteon (c % 16) (note % 128) (velocity % 128) ∷ []
heard_of (Recorded.noteoff c note velocity) =
    params Command.noteoff (c % 16) (note % 128) (velocity % 128) ∷ []
heard_of (Recorded.keypress c note velocity) =
    params Command.keypress (c % 16) (note % 128) (velocity % 128) ∷ []
heard_of (Recorded.controller c number value) =
    params Command.controller (c % 16) (number % 128) (value % 128) ∷ []
heard_of (Recorded.pgmchange c value) = param Command.pgmchange (c % 16) (value % 128) ∷ []
heard_of (Recorded.chanpress c value) = param Command.chanpress (c % 16) (value % 128) ∷ []
heard_of (Recorded.pitchbend c value) =
    params Command.pitchbend (c % 16) ((value + 8192) % 128) ((value + 8192) / 128 % 128) ∷ []
heard_of (Recorded.control14 c number value) =
    params Command.controller (c % 16) (number % 128) (value / 128 % 128)
    ∷ (if ltb (number % 128) 32
        then params Command.controller (c % 16) (number % 128 + 32) (value % 128) ∷ []
        else [])
heard_of (Recorded.nonregparam c number value) =
    params Command.controller (c % 16) 98 (number % 128)
    ∷ params Command.controller (c % 16) 99 (number / 128 % 128)
    ∷ params Command.controller (c % 16) 6 (value / 128 % 128)
    ∷ params Command.controller (c % 16) 38 (value % 128)
    ∷ []
heard_of (Recorded.regparam c number value) =
    params Command.controller (c % 16) 100 (number % 128)
    ∷ params Command.controller (c % 16) 101 (number / 128 % 128)
    ∷ params Command.controller (c % 16) 6 (value / 128 % 128)
    ∷ params Command.controller (c % 16) 38 (value % 128)
    ∷ []
heard_of (Recorded.sysex []) = []
heard_of (Recorded.sysex (b ∷ bs)) = Data.sysex (b ∷ bs) ∷ []
heard_of Recorded.other = []

two_commanded : (t : SmfTrack) (a b : ℕ) → (add_two t a b).last_command ≡ t.last_command
two_commanded t a b = (Puts-byte (add_byte t a) b).commanded ∙ (Puts-byte t a).commanded

-- The last command after the bytes of a first controller, and of a further one.
first_commanded :
    (t : SmfTrack) (tick c a b : ℕ) → (add_two (begin t tick 176 c) a b).last_command ≡ 176 + c % 16
first_commanded t tick c a b =
    two_commanded (begin t tick 176 c) a b
    ∙ (Puts-command (delta_time t tick) (176 + c % 16) (omega arith)).commanded
    ∙ runs_on
  where
    runs_on : running (176 + c % 16) ≡ 176 + c % 16
    runs_on = rw below
      where
        below : ltb (176 + c % 16) 240 ≡ true
        below = ground arith

again_commanded :
    (t : SmfTrack) (tick a b : ℕ) → (again_two t tick a b).last_command ≡ t.last_command
again_commanded t tick a b = two_commanded (delta_time t tick) a b ∙ (Puts-delta t tick).commanded

-- What the recorder can take: the data of a system exclusive event are bytes, fewer than 2 ^ 28.
abbrev pub Playable : Recorded → Type 0
Playable (Recorded.sysex bytes) = (length bytes < 268435456) × All (λ b. b < 256) bytes
Playable e = Unit {0}

-- Whether anything is recorded.
abbrev pub tick_after : ℕ → ℕ → Recorded → ℕ
tick_after last tick (Recorded.sysex []) = last
tick_after last tick Recorded.other = last
tick_after last tick e = tick

module _ (port port_count : ℕ) (smpte_timing : Bool) (track_end : ℕ) where
  pub Carries-none :
      (t : SmfTrack) (s : PlayState)
      → Linked t s
      → Carries port port_count smpte_timing track_end t t s s.tick []
  Carries-none t s l = record {
    bytes = [];
    rounds = 0;
    state = s;
    added = sym (append-nil (contents t));
    kept = λ w. w;
    runs = λ total fuel rest o e h.
        ap₂
          (λ n o'. read_events port_count smpte_timing track_end n (reading port s (input rest o')))
          (omega arith) (omega arith);
    few = omega arith;
    heard = sym (append-nil s.events);
    at_tick = refl;
    linked = l;
  }

  module _ (t : SmfTrack) (s : PlayState) (tick : ℕ) (l : Linked t s)
      (h : InTime t.last_tick tick) where
    channel_two :
        (base c : ℕ) (type : Command) (a b : ℕ)
        → 128 ≤ base
        → base < 225
        → base % 16 ≡ 0
        → with_two_params (base + c % 16) ≡ some type
        → a < 128
        → b < 128
        → Carries port port_count smpte_timing track_end t
            (add_two (begin t tick base c) a b)
            s
            tick
            (event port tick (params type (c % 16) a b) ∷ [])
    channel_two base c type a b lo hi m e ha hb =
        subst
          (λ x.
            Carries port port_count smpte_timing track_end t (add_two (begin t tick base c) a b) s
              tick (event port tick (params type x a b) ∷ []))
          channel
          (Carries-two port port_count smpte_timing track_end t s tick l h (base + c % 16) type a b
            (omega arith) (omega arith) e ha hb)
      where
        channel : (base + c % 16) % 16 ≡ c % 16
        channel = omega arith

    channel_one :
        (base c : ℕ) (type : Command) (a : ℕ)
        → 128 ≤ base
        → base < 225
        → base % 16 ≡ 0
        → with_two_params (base + c % 16) ≡ none
        → with_one_param (base + c % 16) ≡ some type
        → a < 128
        → Carries port port_count smpte_timing track_end t
            (add_byte (begin t tick base c) a)
            s
            tick
            (event port tick (param type (c % 16) a) ∷ [])
    channel_one base c type a lo hi m e e' ha =
        subst
          (λ x.
            Carries port port_count smpte_timing track_end t (add_byte (begin t tick base c) a) s
              tick (event port tick (param type x a) ∷ []))
          channel
          (Carries-one port port_count smpte_timing track_end t s tick l h (base + c % 16) type a
            (omega arith) (omega arith) e e' ha)
      where
        channel : (base + c % 16) % 16 ≡ c % 16
        channel = omega arith

  -- A controller of channel `c` behind another.
  again_after :
      (t t' : SmfTrack) (s : PlayState) (tick c a b : ℕ) (evs : List Event)
      → tick < 2147483648
      → Carries port port_count smpte_timing track_end t t' s tick evs
      → t'.last_command ≡ 176 + c % 16
      → a < 128
      → b < 128
      → Carries port port_count smpte_timing track_end t
          (again_two t' tick a b)
          s
          tick
          (evs ++ (event port tick (params Command.controller (c % 16) a b) ∷ []))
  again_after t t' s tick c a b evs ht d e ha hb =
      Carries-trans port port_count smpte_timing track_end t t' (again_two t' tick a b) s tick tick
        evs _ d
        (subst
          (λ x.
            Carries port port_count smpte_timing track_end t' (again_two t' tick a b) d.state tick
              (event port tick (params Command.controller x a b) ∷ []))
          channel
          (Carries-again port port_count smpte_timing track_end t' d.state tick d.linked
            record {
              after = omega (arith, d.linked.same_tick, d.at_tick);
              near = omega (arith, d.linked.same_tick, d.at_tick);
              small = ht;
            }
            (176 + c % 16) Command.controller a b e (omega arith) (ground arith) ha hb))
    where
      channel : (176 + c % 16) % 16 ≡ c % 16
      channel = omega arith

  parameter-Carries :
      (t : SmfTrack) (s : PlayState) (tick c lsb msb number value : ℕ)
      → Linked t s
      → InTime t.last_tick tick
      → lsb < 128
      → msb < 128
      → Carries port port_count smpte_timing track_end t
          (mark_used (add_parameter (begin t tick 176 c) tick lsb msb number value))
          s
          tick
          (map (event port tick) (
            params Command.controller (c % 16) lsb (number % 128)
            ∷ params Command.controller (c % 16) msb (number / 128 % 128)
            ∷ params Command.controller (c % 16) 6 (value / 128 % 128)
            ∷ params Command.controller (c % 16) 38 (value % 128)
            ∷ []))
  parameter-Carries t s tick c lsb msb number value l h hl hm =
      Carries-used port port_count smpte_timing track_end t _ s tick _ (
        again_after t t₃ s tick c 38 (value % 128) _ h.small
          (again_after t t₂ s tick c 6 (value / 128 % 128) _ h.small
            (again_after t t₁ s tick c msb (number / 128 % 128) _ h.small
              (channel_two t s tick l h 176 c Command.controller lsb (number % 128) (omega arith)
                (omega arith) refl (ground arith) hl (omega arith))
              e₁ hm (omega arith))
            e₂ (omega arith) (omega arith))
          e₃ (omega arith) (omega arith))
    where
      t₁ : SmfTrack
      t₁ = add_two (begin t tick 176 c) lsb (number % 128)

      t₂ : SmfTrack
      t₂ = again_two t₁ tick msb (number / 128 % 128)

      t₃ : SmfTrack
      t₃ = again_two t₂ tick 6 (value / 128 % 128)

      e₁ : t₁.last_command ≡ 176 + c % 16
      e₁ = first_commanded t tick c lsb (number % 128)

      e₂ : t₂.last_command ≡ 176 + c % 16
      e₂ = again_commanded t₁ tick msb (number / 128 % 128) ∙ e₁

      e₃ : t₃.last_command ≡ 176 + c % 16
      e₃ = again_commanded t₂ tick 6 (value / 128 % 128) ∙ e₂

  pub event_lem :
      (t : SmfTrack) (s : PlayState) (tick : ℕ) (e : Recorded)
      → Linked t s
      → InTime t.last_tick tick
      → Playable e
      → Carries port port_count smpte_timing track_end t
          (record_data t tick e)
          s
          (tick_after s.tick tick e)
          (map (event port tick) (heard_of e))
  unfolding record_data record_sysex
  event_lem t s tick (Recorded.noteon c note velocity) l h p =
      Carries-used port port_count smpte_timing track_end t _ s tick _ (
        channel_two t s tick l h 144 c Command.noteon (note % 128) (velocity % 128) (omega arith)
          (omega arith) refl (ground arith) (omega arith) (omega arith))
  event_lem t s tick (Recorded.noteoff c note velocity) l h p =
      Carries-used port port_count smpte_timing track_end t _ s tick _ (
        channel_two t s tick l h 128 c Command.noteoff (note % 128) (velocity % 128) (omega arith)
          (omega arith) refl (ground arith) (omega arith) (omega arith))
  event_lem t s tick (Recorded.keypress c note velocity) l h p =
      Carries-used port port_count smpte_timing track_end t _ s tick _ (
        channel_two t s tick l h 160 c Command.keypress (note % 128) (velocity % 128) (omega arith)
          (omega arith) refl (ground arith) (omega arith) (omega arith))
  event_lem t s tick (Recorded.controller c number value) l h p =
      Carries-used port port_count smpte_timing track_end t _ s tick _ (
        channel_two t s tick l h 176 c Command.controller (number % 128) (value % 128) (omega arith)
          (omega arith) refl (ground arith) (omega arith) (omega arith))
  event_lem t s tick (Recorded.pgmchange c value) l h p =
      Carries-used port port_count smpte_timing track_end t _ s tick _ (
        channel_one t s tick l h 192 c Command.pgmchange (value % 128) (omega arith) (omega arith)
          refl (ground arith) (ground arith) (omega arith))
  event_lem t s tick (Recorded.chanpress c value) l h p =
      Carries-used port port_count smpte_timing track_end t _ s tick _ (
        channel_one t s tick l h 208 c Command.chanpress (value % 128) (omega arith) (omega arith)
          refl (ground arith) (ground arith) (omega arith))
  event_lem t s tick (Recorded.pitchbend c value) l h p =
      Carries-used port port_count smpte_timing track_end t _ s tick _ (
        channel_two t s tick l h 224 c Command.pitchbend ((value + 8192) % 128)
          ((value + 8192) / 128 % 128) (omega arith) (omega arith) refl (ground arith) (omega arith)
          (omega arith))
  event_lem t s tick (Recorded.control14 c number value) l h p =
      Carries-used port port_count smpte_timing track_end t
        (if ltb (number % 128) 32
          then (again_two t₁ tick (number % 128 + 32) (value % 128))
          else t₁)
        s tick _
        (elim (Bool-cases (ltb (number % 128) 32)) [
          | inl e ↦ rw e (
              again_after t t₁ s tick c (number % 128 + 32) (value % 128) _ h.small first
                (first_commanded t tick c (number % 128) (value / 128 % 128)) (ground arith)
                (omega arith))
          | inr e ↦ rw e first
        ])
    where
      t₁ : SmfTrack
      t₁ = add_two (begin t tick 176 c) (number % 128) (value / 128 % 128)

      first : Carries port port_count smpte_timing track_end t t₁ s tick (
          event port tick (params Command.controller (c % 16) (number % 128) (value / 128 % 128))
          ∷ [])
      first =
          channel_two t s tick l h 176 c Command.controller (number % 128) (value / 128 % 128)
            (omega arith) (omega arith) refl (ground arith) (omega arith) (omega arith)
  event_lem t s tick (Recorded.nonregparam c number value) l h p =
      parameter-Carries t s tick c 98 99 number value l h (omega arith) (omega arith)
  event_lem t s tick (Recorded.regparam c number value) l h p =
      parameter-Carries t s tick c 100 101 number value l h (omega arith) (omega arith)
  event_lem t s tick (Recorded.sysex []) l h p =
      Carries-used port port_count smpte_timing track_end t t s s.tick [] (Carries-none t s l)
  event_lem t s tick (Recorded.sysex (b ∷ bs)) l h (small, (hb, hbs)) =
      Carries-used port port_count smpte_timing track_end t (record_sysex t tick (b ∷ bs)) s tick _
        (elim (Bool-cases (b == 240)) [
          | inl e ↦ rw e (
              subst
                (λ x.
                  Carries port port_count smpte_timing track_end t
                    (add_bytes (var_value (command (delta_time t tick) 240) (length bs)) bs) s tick
                    (event port tick (Data.sysex (x ∷ bs)) ∷ []))
                (sym ((==_iff b 240).0 e))
                (Carries-exclusive port port_count smpte_timing track_end t s tick l h 240 bs
                  (inl refl) (omega arith) hbs))
          | inr e ↦ rw e (
              Carries-exclusive port port_count smpte_timing track_end t s tick l h 247 (b ∷ bs)
                (inr refl) small (hb, hbs))
        ])
  event_lem t s tick Recorded.other l h p = Carries-none t s l
