-- ===== src/Midi/Commands.antt =====
-- The commands of channels: recorded with a status byte or without, and played.
use alsa_utils.Common.{
  ℕ, ◌-◌, ◌%◌, ◌≤◌, ◌<◌, ◌≡◌, refl, sym, ◌∙◌, Bool, true, none, some, List, [], ◌∷◌, ◌++◌, arith,
  ltb, ◌==◌, ==_iff,
}
use mathlib.Core.Path.{subst}
use alsa_utils.Midi.Play.{Command, params, param, with_two_params, with_one_param}
use alsa_utils.Midi.Play.Rounds.{PlayState, command_two, command_one}
use alsa_utils.Midi.Record.{SmfTrack, add_byte, delta_time, command, add_two, again_two}
use alsa_utils.Midi.Record.Bytes.{Puts, Puts-trans}
use alsa_utils.Midi.Record.Steps.{
  vlq, status, running, Puts-delta, Puts-command, Puts-two, Puts-one,
}
use alsa_utils.Midi.Carry.{Linked, InTime, diff_of_lem, Carries, Carries-command}

Puts-delta_of :
    (t : SmfTrack) (tick : ℕ)
    → InTime t.last_tick tick
    → Puts t (delta_time t tick) (vlq (tick - t.last_tick)) tick t.last_command
Puts-delta_of t tick h =
    subst (λ d. Puts t (delta_time t tick) (vlq d) tick t.last_command)
      (diff_of_lem t.last_tick tick h) (Puts-delta t tick)

-- Any step behind a delta time and a command.
pub Puts-begin :
    (t t' : SmfTrack) (tick cmd : ℕ) (bs : List ℕ)
    → InTime t.last_tick tick
    → cmd < 256
    → ((t₀ : SmfTrack)
        → t₀ ≡ command (delta_time t tick) cmd
        → Puts t₀ t' bs t₀.last_tick t₀.last_command)
    → Puts t t' (vlq (tick - t.last_tick) ++ (status cmd t.last_command ++ bs)) tick (running cmd)
Puts-begin t t' tick cmd bs h hi then_ =
    Puts-trans t t₁ t' _ _ tick t.last_command tick (running cmd) p (
      Puts-trans t₁ t₂ t' _ _ t₁.last_tick (running cmd) tick (running cmd) (q p.commanded) record {
        added = r.added;
        kept = r.kept;
        ticked = r.ticked ∙ (q p.commanded).ticked ∙ p.ticked;
        commanded = r.commanded ∙ (q p.commanded).commanded;
      })
  where
    t₁ : SmfTrack
    t₁ = delta_time t tick

    t₂ : SmfTrack
    t₂ = command t₁ cmd

    p : Puts t t₁ (vlq (tick - t.last_tick)) tick t.last_command
    p = Puts-delta_of t tick h

    q : {c : ℕ} → t₁.last_command ≡ c → Puts t₁ t₂ (status cmd c) t₁.last_tick (running cmd)
    q e =
        subst (λ c. Puts t₁ t₂ (status cmd c) t₁.last_tick (running cmd)) e (Puts-command t₁ cmd hi)

    r : Puts t₂ t' bs t₂.last_tick t₂.last_command
    r = then_ t₂ refl

Puts-channel :
    (t t' : SmfTrack) (tick cmd : ℕ) (bs : List ℕ)
    → InTime t.last_tick tick
    → cmd < 240
    → ((t₀ : SmfTrack)
        → t₀ ≡ command (delta_time t tick) cmd
        → Puts t₀ t' bs t₀.last_tick t₀.last_command)
    → Puts t t' (vlq (tick - t.last_tick) ++ (status cmd t.last_command ++ bs)) tick cmd
Puts-channel t t' tick cmd bs h hi then_ =
    subst (λ c. Puts t t' (vlq (tick - t.last_tick) ++ (status cmd t.last_command ++ bs)) tick c)
      as_given (Puts-begin t t' tick cmd bs h (omega arith) then_)
  where
    as_given : running cmd ≡ cmd
    as_given = rw below
      where
        below : ltb cmd 240 ≡ true
        below = ground arith

module _ (port port_count : ℕ) (smpte_timing : Bool) (track_end : ℕ) (t : SmfTrack) (s : PlayState)
    (tick : ℕ) (l : Linked t s) (h : InTime t.last_tick tick) where
  pub Carries-two :
      (cmd : ℕ) (type : Command) (a b : ℕ)
      → 128 ≤ cmd
      → cmd < 240
      → with_two_params cmd ≡ some type
      → a < 128
      → b < 128
      → Carries port port_count smpte_timing track_end t
          (add_two (command (delta_time t tick) cmd) a b)
          s
          tick
          (record { port = port; tick = tick; data_ = params type (cmd % 16) a b } ∷ [])
  Carries-two cmd type a b lo hi e ha hb =
      Carries-command port port_count smpte_timing track_end t _ s tick cmd t.last_command a
        (b ∷ []) _ l h
        (Puts-channel t _ tick cmd (a ∷ b ∷ []) h hi (λ t₀ e'.
          subst (λ t'. Puts t₀ (add_two t' a b) (a ∷ b ∷ []) t₀.last_tick t₀.last_command) e'
            (Puts-two t₀ a b (omega arith) (omega arith))))
        l.follows lo hi ha
        (λ rest o tick'.
          command_two port port_count smpte_timing track_end
            (record s { tick = tick'; last_cmd = cmd }) cmd type a b rest o e ha hb)

  pub Carries-one :
      (cmd : ℕ) (type : Command) (a : ℕ)
      → 128 ≤ cmd
      → cmd < 240
      → with_two_params cmd ≡ none
      → with_one_param cmd ≡ some type
      → a < 128
      → Carries port port_count smpte_timing track_end t
          (add_byte (command (delta_time t tick) cmd) a)
          s
          tick
          (record { port = port; tick = tick; data_ = param type (cmd % 16) a } ∷ [])
  Carries-one cmd type a lo hi e e' ha =
      Carries-command port port_count smpte_timing track_end t _ s tick cmd t.last_command a [] _ l
        h
        (Puts-channel t _ tick cmd (a ∷ []) h hi (λ t₀ e'.
          subst (λ t'. Puts t₀ (add_byte t' a) (a ∷ []) t₀.last_tick t₀.last_command) e'
            (Puts-one t₀ a (omega arith))))
        l.follows lo hi ha
        (λ rest o tick'.
          command_one port port_count smpte_timing track_end
            (record s { tick = tick'; last_cmd = cmd }) cmd type a rest o e e' ha)

  -- The same command again, without its status byte.
  pub Carries-again :
      (cmd : ℕ) (type : Command) (a b : ℕ)
      → t.last_command ≡ cmd
      → 128 ≤ cmd
      → with_two_params cmd ≡ some type
      → a < 128
      → b < 128
      → Carries port port_count smpte_timing track_end t
          (again_two t tick a b)
          s
          tick
          (record { port = port; tick = tick; data_ = params type (cmd % 16) a b } ∷ [])
  Carries-again cmd type a b same lo e ha hb =
      Carries-command port port_count smpte_timing track_end t _ s tick cmd t.last_command a
        (b ∷ []) _ l h
        (rw silent (
          Puts-trans t (delta_time t tick) _ _ (a ∷ b ∷ []) tick t.last_command tick cmd p record {
            added = q.added;
            kept = q.kept;
            ticked = q.ticked ∙ p.ticked;
            commanded = q.commanded ∙ p.commanded ∙ same;
          }))
        l.follows lo (omega (arith, l.below)) ha
        (λ rest o tick'.
          command_two port port_count smpte_timing track_end
            (record s { tick = tick'; last_cmd = cmd }) cmd type a b rest o e ha hb)
    where
      p : Puts t (delta_time t tick) (vlq (tick - t.last_tick)) tick t.last_command
      p = Puts-delta_of t tick h

      q :
          Puts
            (delta_time t tick)
            (again_two t tick a b)
            (a ∷ b ∷ [])
            (delta_time t tick).last_tick
            (delta_time t tick).last_command
      q = Puts-two (delta_time t tick) a b (omega arith) (omega arith)

      silent : (cmd == t.last_command) ≡ true
      silent = (==_iff cmd t.last_command).1 (sym same)
