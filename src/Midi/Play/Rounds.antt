-- ===== src/Midi/Play/Rounds.antt =====
-- Rounds of read_track on the bytes of one command.
use alsa_utils.Common.{
  ℕ, suc, ◌+◌, ◌-◌, ◌/◌, ◌%◌, ◌≤◌, ◌<◌, ◌≡◌, refl, ap, ◌⊎◌, inl, inr, Bool, true, false, none, some,
  List, [], ◌∷◌, ◌++◌, length, arith, leb, ltb, ◌==◌, All,
}
use alsa_utils.Midi.Stream.{Input, input, read_byte, read_var}
use alsa_utils.Midi.Play.{
  Command, Data, params, param, Event, Reading, next, with_two_params, with_one_param,
  read_two_params, read_one_param, read_command, read_status, after_delta, read_system,
  read_exclusive, read_sysex,
}

-- The locals of read_track but for the input.
pub record PlayState : Type 0 where
  pub tick : ℕ
  pub last_cmd : ℕ
  pub events : List Event

module _ (port : ℕ) where
  abbrev pub reading : PlayState → Input → Reading
  reading s i = record {
    input_ = i;
    tick = s.tick;
    last_cmd = s.last_cmd;
    port = port;
    events = s.events;
  }

  -- `tick` ticks later, with a new last command and one more event.
  abbrev pub with_event : PlayState → ℕ → ℕ → Data → PlayState
  with_event s tick cmd d = record {
    tick = tick;
    last_cmd = cmd;
    events = s.events ++ (record { port = port; tick = tick; data_ = d } ∷ []);
  }

  module _ (port_count : ℕ) (smpte_timing : Bool) (track_end : ℕ) where
    pub delta_lem :
        (s : PlayState) (delta : ℕ) (i' i : Input)
        → s.tick + delta < 2147483648
        → after_delta port_count smpte_timing track_end (reading s i') (some delta, i)
          ≡ read_status port_count smpte_timing track_end
              (reading (record s { tick = s.tick + delta }) i')
              (read_byte i)
    unfolding after_delta
    delta_lem s delta i' i h = rw small
      where
        small : leb 2147483648 (s.tick + delta) ≡ false
        small = ground arith

    -- A status byte, and the running status.
    pub status_new :
        (s : PlayState) (cmd : ℕ) (bs : List ℕ) (o : ℕ) (i : Input)
        → 128 ≤ cmd
        → cmd < 240
        → read_status port_count smpte_timing track_end
            (reading s i)
            (read_byte (input (cmd ∷ bs) o))
          ≡ read_command port_count smpte_timing track_end cmd
              (reading (record s { last_cmd = cmd }) (input bs (o + 1)))
    unfolding read_status
    status_new s cmd bs o i l h = rw (high, small)
      where
        high : (cmd / 128 % 2 == 1) ≡ true
        high = ground arith

        small : ltb cmd 240 ≡ true
        small = ground arith

    pub status_running :
        (s : PlayState) (a : ℕ) (bs : List ℕ) (o : ℕ) (i : Input)
        → a < 128
        → 0 < s.last_cmd
        → read_status port_count smpte_timing track_end (reading s i) (read_byte (input (a ∷ bs) o))
          ≡ read_command port_count smpte_timing track_end s.last_cmd (reading s (input (a ∷ bs) o))
    unfolding read_status
    status_running s a bs o i h l =
        rw (low, set)
          (ap
            (λ n.
              read_command port_count smpte_timing track_end s.last_cmd
                (reading s (input (a ∷ bs) n)))
            back)
      where
        low : (a / 128 % 2 == 1) ≡ false
        low = ground arith

        set : (s.last_cmd == 0) ≡ false
        set = ground arith

        back : o + 1 - 1 ≡ o
        back = omega arith

    pub command_two :
        (s : PlayState) (cmd : ℕ) (type : Command) (a b : ℕ) (bs : List ℕ) (o : ℕ)
        → with_two_params cmd ≡ some type
        → a < 128
        → b < 128
        → read_command port_count smpte_timing track_end cmd (reading s (input (a ∷ b ∷ bs) o))
          ≡ next (
              reading
                (with_event s s.tick s.last_cmd (params type (cmd % 16) a b))
                (input bs (o + 2)))
    unfolding read_command read_two_params
    command_two s cmd type a b bs o e ha hb =
        rw (read_command, e, read_two_params, low_a, low_b, last)
      where
        low_a : a % 128 ≡ a
        low_a = omega arith

        low_b : b % 128 ≡ b
        low_b = omega arith

        last : o + 1 + 1 ≡ o + 2
        last = omega arith

    pub command_one :
        (s : PlayState) (cmd : ℕ) (type : Command) (a : ℕ) (bs : List ℕ) (o : ℕ)
        → with_two_params cmd ≡ none
        → with_one_param cmd ≡ some type
        → a < 128
        → read_command port_count smpte_timing track_end cmd (reading s (input (a ∷ bs) o))
          ≡ next (
              reading (with_event s s.tick s.last_cmd (param type (cmd % 16) a)) (input bs (o + 1)))
    unfolding read_command read_one_param
    command_one s cmd type a bs o e e' ha = rw (read_command, e, e', read_one_param, low_a)
      where
        low_a : a % 128 ≡ a
        low_a = omega arith

    pub status_system :
        (s : PlayState) (cmd : ℕ) (bs : List ℕ) (o : ℕ) (i : Input)
        → 240 ≤ cmd
        → cmd < 256
        → read_status port_count smpte_timing track_end
            (reading s i)
            (read_byte (input (cmd ∷ bs) o))
          ≡ read_command port_count smpte_timing track_end cmd (reading s (input bs (o + 1)))
    unfolding read_status
    status_system s cmd bs o i l h = rw (high, large)
      where
        high : (cmd / 128 % 2 == 1) ≡ true
        high = ground arith

        large : ltb cmd 240 ≡ false
        large = ground arith

    pub command_exclusive :
        (s : PlayState) (cmd : ℕ) (i : Input)
        → (cmd ≡ 240) ⊎ (cmd ≡ 247)
        → read_command port_count smpte_timing track_end cmd (reading s i)
          ≡ read_exclusive cmd (reading s i) (read_var i)
    unfolding read_command read_system
    command_exclusive s cmd i (inl e) = rw e refl
    command_exclusive s cmd i (inr e) = rw e refl

pub read_sysex_lem :
    (xs rest : List ℕ) (o : ℕ)
    → All (λ x. x < 256) xs
    → read_sysex (length xs) (input (xs ++ rest) o) ≡ (xs, input rest (o + length xs))
unfolding read_sysex
read_sysex_lem [] rest o h = ap (λ n. ([], input rest n)) (omega arith)
read_sysex_lem (x ∷ xs) rest o (h, hs) = rw (read_sysex_lem xs rest (o + 1) hs, byte, more)
  where
    byte : x % 256 ≡ x
    byte = omega arith

    more : o + 1 + length xs ≡ o + suc (length xs)
    more = omega arith
