-- ===== src/Midi/Carry.antt =====
-- Steps of the recorder together with the rounds of the player on the bytes that they append.
use alsa_utils.Common.{
  ℕ, ◌+◌, ◌-◌, ◌%◌, ◌≤◌, ◌<◌, ◌≡◌, refl, ◌∙◌, ap, inr, Bool, false, List, [], ◌∷◌, ◌++◌, length,
  append_assoc, length-append, arith, leb,
}
use alsa_utils.Midi.Stream.{input}
use alsa_utils.Midi.Play.{Data, Event, next, read_command}
use alsa_utils.Midi.Play.Rounds.{PlayState, reading, with_event}
use alsa_utils.Midi.Record.{SmfTrack, diff_of, mark_used}
use alsa_utils.Midi.Record.Bytes.{contents, WellFormed, Puts}
use alsa_utils.Midi.Record.Steps.{vlq, status}
use alsa_utils.Midi.Turns.{Follows, Runs, Runs-trans, round_lem}

-- The player is where the recorder was.
pub record Linked (t : SmfTrack) (s : PlayState) : Type 0 where
  pub same_tick : t.last_tick ≡ s.tick
  pub follows : Follows t.last_command s.last_cmd
  pub below : t.last_command < 240

-- An event may be recorded at `tick`: not before the last, and less than 2 ^ 28 ticks behind it.
pub record InTime (last tick : ℕ) : Type 0 where
  pub after : last ≤ tick
  pub near : tick < last + 268435456
  pub small : tick < 2147483648

pub diff_of_lem : (last tick : ℕ) → InTime last tick → diff_of tick last ≡ tick - last
diff_of_lem last tick h = rw (less) (omega (arith, h.after, h.near, h.small))
  where
    less : leb 2147483648 ((tick + 4294967296 - last) % 4294967296) ≡ false
    less = ground (arith, h.after, h.near, h.small)

abbrev pub event : ℕ → ℕ → Data → Event
event port tick d = record { port = port; tick = tick; data_ = d }

module _ (port port_count : ℕ) (smpte_timing : Bool) (track_end : ℕ) where
  -- The recorder appends bytes, and the player reads events from them.
  pub record Carries (t t' : SmfTrack) (s : PlayState) (tick : ℕ) (events : List Event)
      : Type 0 where
    pub bytes : List ℕ
    pub rounds : ℕ
    pub state : PlayState
    pub added : contents t' ≡ contents t ++ bytes
    pub kept : WellFormed t → WellFormed t'
    pub runs : Runs port port_count smpte_timing track_end rounds bytes s state
    pub few : rounds ≤ length bytes
    pub heard : state.events ≡ s.events ++ events
    pub at_tick : state.tick ≡ tick
    pub linked : Linked t' state

  pub Carries-trans :
      (t t' t'' : SmfTrack) (s : PlayState) (tick tick' : ℕ) (evs evs' : List Event)
      → (c : Carries t t' s tick evs) → Carries t' t'' c.state tick' evs'
      → Carries t t'' s tick' (evs ++ evs')
  Carries-trans t t' t'' s tick tick' evs evs' c d = record {
    bytes = c.bytes ++ d.bytes;
    rounds = c.rounds + d.rounds;
    state = d.state;
    added = d.added ∙ ap (λ xs. xs ++ d.bytes) c.added ∙ append_assoc (contents t) c.bytes d.bytes;
    kept = λ w. d.kept (c.kept w);
    runs =
        Runs-trans port port_count smpte_timing track_end c.rounds d.rounds c.bytes d.bytes s
          c.state d.state c.runs d.runs;
    few = omega (arith, c.few, d.few, length-append c.bytes d.bytes);
    heard = d.heard ∙ ap (λ xs. xs ++ evs') c.heard ∙ append_assoc s.events evs evs';
    at_tick = d.at_tick;
    linked = d.linked;
  }

  pub Carries-used :
      (t t' : SmfTrack) (s : PlayState) (tick : ℕ) (evs : List Event)
      → Carries t t' s tick evs
      → Carries t (mark_used t') s tick evs
  Carries-used t t' s tick evs c = record {
    bytes = c.bytes;
    rounds = c.rounds;
    state = c.state;
    added = c.added;
    kept = λ w.
        let k = c.kept w in
        record { cur_size = k.cur_size; in_buffer = k.in_buffer; full = k.full; all = k.all };
    runs = c.runs;
    few = c.few;
    heard = c.heard;
    at_tick = c.at_tick;
    linked = record {
      same_tick = c.linked.same_tick;
      follows = c.linked.follows;
      below = c.linked.below;
    };
  }

  -- The steps that append the bytes of a command, with the round of the player.
  pub Carries-command :
      (t t' : SmfTrack) (s : PlayState) (tick cmd last a : ℕ) (bs : List ℕ) (d : Data)
      → Linked t s
      → InTime t.last_tick tick
      → Puts t t' (vlq (tick - t.last_tick) ++ (status cmd last ++ (a ∷ bs))) tick cmd
      → Follows last s.last_cmd
      → 128 ≤ cmd
      → cmd < 240
      → a < 128
      → ((rest : List ℕ) (o : ℕ) (tick' : ℕ)
          → read_command port_count smpte_timing track_end cmd (
              reading port (record s { tick = tick'; last_cmd = cmd }) (input (a ∷ (bs ++ rest)) o))
            ≡ next
                (reading port (with_event port s tick' cmd d) (input rest (o + length (a ∷ bs)))))
      → Carries t t' s tick (record { port = port; tick = tick; data_ = d } ∷ [])
  Carries-command t t' s tick cmd last a bs d l h p f lo hi ha read = record {
    bytes = vlq (tick - t.last_tick) ++ (status cmd last ++ (a ∷ bs));
    rounds = 1;
    state = with_event port s tick cmd d;
    added = p.added;
    kept = p.kept;
    runs =
        round_lem port port_count smpte_timing track_end s (with_event port s tick cmd d)
          (tick - t.last_tick) cmd last a bs (omega (arith, l.same_tick, h.after, h.small))
          (omega (arith, h.after, h.near)) f lo hi ha
          (λ rest o.
            read rest o (s.tick + (tick - t.last_tick))
            ∙ ap
                (λ x.
                  next
                    (reading port (with_event port s x cmd d) (input rest (o + length (a ∷ bs)))))
                (omega (arith, l.same_tick, h.after)));
    few = omega (
      arith,
      length-append (vlq (tick - t.last_tick)) (status cmd last ++ (a ∷ bs)),
      length-append (status cmd last) (a ∷ bs),
    );
    heard = refl;
    at_tick = refl;
    linked = record {
      same_tick = p.ticked;
      follows = inr p.commanded;
      below = omega (arith, p.commanded);
    };
  }
