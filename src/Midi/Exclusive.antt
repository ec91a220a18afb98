-- ===== src/Midi/Exclusive.antt =====
-- System exclusive events: recorded with their length, and played.
use alsa_utils.Common.{
  ℕ, ◌+◌, ◌-◌, ◌<◌, ◌≡◌, refl, sym, ◌∙◌, ap, ◌⊎◌, inl, Bool, true, false, List, [], ◌∷◌, ◌++◌,
  length, append_assoc, length-append, arith, ltb, ◌==◌, if◌then◌else◌, All,
}
use mathlib.Core.Path.{subst}
use alsa_utils.Midi.Stream.{input, read_var}
use alsa_utils.Midi.Play.{Data, sysex, next, read_event, read_exclusive}
use alsa_utils.Midi.Play.Rounds.{
  PlayState, reading, with_event, delta_lem, status_system, command_exclusive, read_sysex_lem,
}
use alsa_utils.Midi.Record.{SmfTrack, add_bytes, var_value, delta_time, command}
use alsa_utils.Midi.Record.Bytes.{Puts}
use alsa_utils.Midi.Record.Steps.{vlq, running, Puts-var, Puts-bytes, Puts-then}
use alsa_utils.Midi.Vlq.{read_var-vlq}
use alsa_utils.Midi.Turns.{run_one}
use alsa_utils.Midi.Carry.{Linked, InTime, Carries}
use alsa_utils.Midi.Commands.{Puts-begin}

-- The data of the event that the bytes behind a length become.
abbrev pub exclusive : ℕ → List ℕ → Data
exclusive cmd bs = sysex (if cmd == 240 then 240 ∷ bs else bs)

module _ (port : ℕ) where
  exclusive_lem :
      (s : PlayState) (cmd : ℕ) (bs rest : List ℕ) (o : ℕ)
      → length bs < 268435456
      → All (λ b. b < 256) bs
      → read_exclusive cmd
          (reading port s (input (vlq (length bs) ++ (bs ++ rest)) o))
          (read_var (input (vlq (length bs) ++ (bs ++ rest)) o))
        ≡ next (
            reading port
              (with_event port s s.tick s.last_cmd (exclusive cmd bs))
              (input rest (o + length (vlq (length bs)) + length bs)))
  unfolding read_exclusive
  exclusive_lem s cmd bs rest o small hb = rw (
    read_var-vlq (length bs) (bs ++ rest) o small,
    read_sysex_lem bs rest (o + length (vlq (length bs))) hb,
  )

module _ (port port_count : ℕ) (smpte_timing : Bool) (track_end : ℕ) (t : SmfTrack) (s : PlayState)
    (tick : ℕ) (l : Linked t s) (h : InTime t.last_tick tick) where
  abbrev body : ℕ → List ℕ → List ℕ
  body cmd bs = cmd ∷ (vlq (length bs) ++ bs)

  exclusive_round :
      (cmd : ℕ) (bs rest : List ℕ) (o : ℕ)
      → (cmd ≡ 240) ⊎ (cmd ≡ 247)
      → length bs < 268435456
      → All (λ b. b < 256) bs
      → read_event port_count smpte_timing track_end
          (reading port s (input ((vlq (tick - t.last_tick) ++ body cmd bs) ++ rest) o))
        ≡ next (
            reading port
              (with_event port s tick s.last_cmd (exclusive cmd bs))
              (input rest (o + length (vlq (tick - t.last_tick) ++ body cmd bs))))
  unfolding read_event
  exclusive_round cmd bs rest o which small hb =
      rw
        (
          read_event,
          split,
          read_var-vlq (tick - t.last_tick) (cmd ∷ (vlq (length bs) ++ (bs ++ rest))) o
              (omega (arith, h.after, h.near)),
        )
        (delta_lem port port_count smpte_timing track_end s (tick - t.last_tick) _ _
            (omega (arith, l.same_tick, h.after, h.small))
          ∙ status_system port port_count smpte_timing track_end _ cmd
              (vlq (length bs) ++ (bs ++ rest)) _ _ (omega arith) (omega arith)
          ∙ command_exclusive port port_count smpte_timing track_end _ cmd _ which
          ∙ ap
              (λ x.
                read_exclusive cmd
                  (reading port (record s { tick = x })
                    (input (vlq (length bs) ++ (bs ++ rest))
                      (o + length (vlq (tick - t.last_tick)) + 1)))
                  (read_var (
                    input (vlq (length bs) ++ (bs ++ rest))
                      (o + length (vlq (tick - t.last_tick)) + 1))))
              reached
          ∙ exclusive_lem port (record s { tick = tick }) cmd bs rest _ small hb
          ∙ ap
              (λ x. next (
                reading port (with_event port s tick s.last_cmd (exclusive cmd bs)) (input rest x)))
              offset)
    where
      split :
          (vlq (tick - t.last_tick) ++ body cmd bs) ++ rest
          ≡ vlq (tick - t.last_tick) ++ (cmd ∷ (vlq (length bs) ++ (bs ++ rest)))
      split =
          append_assoc (vlq (tick - t.last_tick)) (body cmd bs) rest
          ∙ ap (λ xs. vlq (tick - t.last_tick) ++ (cmd ∷ xs))
              (append_assoc (vlq (length bs)) bs rest)

      reached : s.tick + (tick - t.last_tick) ≡ tick
      reached = omega (arith, l.same_tick, h.after)

      offset :
          o + length (vlq (tick - t.last_tick)) + 1 + length (vlq (length bs)) + length bs
          ≡ o + length (vlq (tick - t.last_tick) ++ body cmd bs)
      offset = omega (
        arith,
        length-append (vlq (tick - t.last_tick)) (body cmd bs),
        length-append (vlq (length bs)) bs,
      )

  pub Carries-exclusive :
      (cmd : ℕ) (bs : List ℕ)
      → (cmd ≡ 240) ⊎ (cmd ≡ 247)
      → length bs < 268435456
      → All (λ b. b < 256) bs
      → Carries port port_count smpte_timing track_end t
          (add_bytes (var_value (command (delta_time t tick) cmd) (length bs)) bs)
          s
          tick
          (record { port = port; tick = tick; data_ = exclusive cmd bs } ∷ [])
  Carries-exclusive cmd bs which small hb = record {
    bytes = vlq (tick - t.last_tick) ++ body cmd bs;
    rounds = 1;
    state = with_event port s tick s.last_cmd (exclusive cmd bs);
    added = p.added;
    kept = p.kept;
    runs =
        run_one port port_count smpte_timing track_end _ s _
          (omega (arith, length-append (vlq (tick - t.last_tick)) (body cmd bs)))
          (λ rest o. exclusive_round cmd bs rest o which small hb);
    few = omega (arith, length-append (vlq (tick - t.last_tick)) (body cmd bs));
    heard = refl;
    at_tick = refl;
    linked = record {
      same_tick = p.ticked;
      follows = inl (p.commanded ∙ none_runs);
      below = omega (arith, p.commanded, none_runs);
    };
  }
    where
      none_runs : running cmd ≡ 0
      none_runs = rw above
        where
          above : ltb cmd 240 ≡ false
          above = ground arith

      new : (cmd == t.last_command) ≡ false
      new = ground (arith, l.below)

      pay :
          (t₀ t' : SmfTrack)
          → t' ≡ t₀
          → Puts t₀
              (add_bytes (var_value t' (length bs)) bs)
              (vlq (length bs) ++ bs)
              t₀.last_tick
              t₀.last_command
      pay t₀ t' e =
          subst
            (λ x.
              Puts t₀ (add_bytes (var_value x (length bs)) bs) (vlq (length bs) ++ bs) t₀.last_tick
                t₀.last_command)
            (sym e)
            (Puts-then t₀ (var_value t₀ (length bs)) (add_bytes (var_value t₀ (length bs)) bs)
              (vlq (length bs)) bs (Puts-var t₀ (length bs))
              (Puts-bytes (var_value t₀ (length bs)) bs hb))

      p :
          Puts t
            (add_bytes (var_value (command (delta_time t tick) cmd) (length bs)) bs)
            (vlq (tick - t.last_tick) ++ body cmd bs)
            tick
            (running cmd)
      p =
          subst
            (λ b.
              Puts t (add_bytes (var_value (command (delta_time t tick) cmd) (length bs)) bs)
                (vlq (tick - t.last_tick)
                  ++ ((if (if b then false else true) then cmd ∷ [] else [])
                      ++ (vlq (length bs) ++ bs)))
                tick (running cmd))
            new
            (Puts-begin t _ tick cmd (vlq (length bs) ++ bs) h (omega arith)
              (λ t₀ e. pay t₀ _ (sym e)))
