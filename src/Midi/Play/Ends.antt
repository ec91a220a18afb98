-- ===== src/Midi/Play/Ends.antt =====
-- The loop of read_track ends: each round that goes on has moved in the file.
use alsa_utils.Common.{
  ℕ, zero, suc, ◌+◌, ◌-◌, ◌*◌, ◌/◌, ◌%◌, ◌≤◌, ◌<◌, ◌≡◌, ◌≢◌, refl, ap, inl, inr, Bool, true, false,
  Bool-cases, Option, Option-cases, none, some, List, [], ◌∷◌, arith, ltb, leb, ◌==◌,
}
use alsa_utils.Midi.Stream.{Input, getc, read_byte, unread_byte, read_var_from, bit7, low7, skip}
use alsa_utils.Midi.Play.{
  Reading, Round, next, invalid, end_of_track, overflow, with_two_params, with_one_param,
  read_two_params, read_one_param, read_sysex, read_exclusive, read_port, read_tempo, read_meta,
  read_system, read_command, read_status, after_delta, read_event, Ended, stuck, after_round,
  read_events, read_track, at_input,
}

getc_offset : (bytes : List ℕ) (o : ℕ) (eof : Bool) → (getc bytes o eof).1.file_offset ≡ o
getc_offset [] o eof = refl
getc_offset (b ∷ bs) o eof = refl

read_byte_offset : (i : Input) → (read_byte i).1.file_offset ≡ i.file_offset + 1
read_byte_offset i = getc_offset i.bytes (i.file_offset + 1) i.eof

read_var_offset :
    (more value : ℕ) (i : Input) → i.file_offset < (read_var_from more value i).1.file_offset
unfolding read_var_from
read_var_offset zero value i = omega (arith, read_byte_offset i)
read_var_offset (suc more) value i = elim (Bool-cases (bit7 (read_byte i).0)) [
  | inl e ↦ rw e (
      omega (
        arith,
        read_byte_offset i,
        read_var_offset more (value * 128 + low7 (read_byte i).0) (read_byte i).1,
      ))
  | inr e ↦ rw e (omega (arith, read_byte_offset i))
]

skip_offset : (bytes : ℕ) (i : Input) → i.file_offset ≤ (skip bytes i).file_offset
unfolding skip
skip_offset zero i = omega arith
skip_offset (suc bytes) i = omega (arith, read_byte_offset i, skip_offset bytes (read_byte i).1)

read_sysex_offset : (len : ℕ) (i : Input) → i.file_offset ≤ (read_sysex len i).1.file_offset
unfolding read_sysex
read_sysex_offset zero i = omega arith
read_sysex_offset (suc len) i =
    omega (arith, read_byte_offset i, read_sysex_offset len (read_byte i).1)

-- A round that goes on is at an offset or behind it.
abbrev Reaches : ℕ → Round → Type 0
Reaches k (next r) = k ≤ r.input_.file_offset
Reaches k r = Unit {0}

module _ (k : ℕ) where
  exclusive-Reaches :
      (cmd : ℕ) (r : Reading) (o : Option ℕ) (i : Input)
      → k ≤ i.file_offset
      → Reaches k (read_exclusive cmd r (o, i))
  unfolding read_exclusive
  exclusive-Reaches cmd r none i h = tt
  exclusive-Reaches cmd r (some len) i h = omega (arith, read_sysex_offset len i)

  port-Reaches :
      (port_count len : ℕ) (r : Reading)
      → k ≤ r.input_.file_offset
      → Reaches k (read_port port_count len r)
  unfolding read_port
  port-Reaches port_count len r h = elim (Bool-cases (len == 0)) [
    | inl e ↦ rw e tt
    | inr e ↦
        rw e
          (omega (arith, read_byte_offset r.input_, skip_offset (len - 1) (read_byte r.input_).1))
  ]

  tempo-Reaches :
      (smpte_timing : Bool) (len : ℕ) (r : Reading)
      → k ≤ r.input_.file_offset
      → Reaches k (read_tempo smpte_timing len r)
  unfolding read_tempo
  tempo-Reaches smpte_timing len r h = elim (Bool-cases (ltb len 3)) [
    | inl e ↦ rw e tt
    | inr e ↦ elim (Bool-cases smpte_timing) [
      | inl e' ↦ rw (e, e') (omega (arith, skip_offset len r.input_))
      | inr e' ↦
          rw (e, e')
            (omega (
              arith,
              read_byte_offset r.input_,
              read_byte_offset (read_byte r.input_).1,
              read_byte_offset (read_byte (read_byte r.input_).1).1,
              skip_offset (len - 3) (read_byte (read_byte (read_byte r.input_).1).1).1,
            ))
    ]
  ]

  module _ (port_count : ℕ) (smpte_timing : Bool) (track_end : ℕ) where
    meta-Reaches :
        (c : Option ℕ) (r : Reading) (o : Option ℕ) (i : Input)
        → k ≤ i.file_offset
        → Reaches k (read_meta port_count smpte_timing track_end c r (o, i))
    unfolding read_meta
    meta-Reaches c r none i h = tt
    meta-Reaches none r (some len) i h = omega (arith, skip_offset len i)
    meta-Reaches (some c) r (some len) i h = elim (Bool-cases (c == 33)) [
      | inl e ↦ rw e (port-Reaches port_count len (at_input r i) h)
      | inr e ↦ elim (Bool-cases (c == 47)) [
        | inl e' ↦ rw (e, e') tt
        | inr e' ↦ elim (Bool-cases (c == 81)) [
          | inl d ↦ rw (e, e', d) (tempo-Reaches smpte_timing len (at_input r i) h)
          | inr d ↦ rw (e, e', d) (omega (arith, skip_offset len i))
        ]
      ]
    ]

    system-Reaches :
        (cmd : ℕ) (r : Reading)
        → k ≤ r.input_.file_offset
        → Reaches k (read_system port_count smpte_timing track_end cmd r)
    unfolding read_system
    system-Reaches cmd r h = elim (Bool-cases (cmd == 240)) [
      | inl e ↦ rw e (exclusive-Reaches cmd r _ _ (omega (arith, read_var_offset 3 0 r.input_)))
      | inr e ↦ elim (Bool-cases (cmd == 247)) [
        | inl e' ↦
            rw (e, e') (exclusive-Reaches cmd r _ _ (omega (arith, read_var_offset 3 0 r.input_)))
        | inr e' ↦ elim (Bool-cases (cmd == 255)) [
          | inl d ↦
              rw (e, e', d)
                (meta-Reaches _ r _ _ (
                  omega
                    (arith, read_byte_offset r.input_, read_var_offset 3 0 (read_byte r.input_).1)))
          | inr d ↦ rw (e, e', d) tt
        ]
      ]
    ]

    command-Reaches :
        (cmd : ℕ) (r : Reading)
        → k ≤ r.input_.file_offset
        → Reaches k (read_command port_count smpte_timing track_end cmd r)
    unfolding read_command read_two_params read_one_param
    command-Reaches cmd r h = elim (Option-cases (with_two_params cmd)) [
      | inr (type, e) ↦
          rw (read_command, e, read_two_params)
            (omega (arith, read_byte_offset r.input_, read_byte_offset (read_byte r.input_).1))
      | inl e ↦ elim (Option-cases (with_one_param cmd)) [
        | inr (type, e') ↦
            rw (read_command, e, e', read_one_param) (omega (arith, read_byte_offset r.input_))
        | inl e' ↦ elim (Bool-cases (cmd / 16 == 15)) [
          | inl d ↦ rw (read_command, e, e', d) (system-Reaches cmd r h)
          | inr d ↦ rw (read_command, e, e', d) tt
        ]
      ]
    ]

    -- A byte that is put back is one that was read.
    status-Reaches :
        (r : Reading) (c : Option ℕ) (i : Input)
        → k < i.file_offset
        → Reaches k (read_status port_count smpte_timing track_end r (c, i))
    unfolding read_status
    status-Reaches r none i h = tt
    status-Reaches r (some c) i h = elim (Bool-cases (c / 128 % 2 == 1)) [
      | inl e ↦ rw e (command-Reaches c _ (omega arith))
      | inr e ↦ elim (Bool-cases (r.last_cmd == 0)) [
        | inl d ↦ rw (e, d) tt
        | inr d ↦
            rw (e, d) (command-Reaches r.last_cmd (at_input r (unread_byte c i)) (omega arith))
      ]
    ]

    delta-Reaches :
        (r : Reading) (o : Option ℕ) (i : Input)
        → k ≤ i.file_offset
        → Reaches k (after_delta port_count smpte_timing track_end r (o, i))
    unfolding after_delta
    delta-Reaches r none i h = tt
    delta-Reaches r (some delta_ticks) i h =
        elim (Bool-cases (leb 2147483648 (r.tick + delta_ticks))) [
          | inl e ↦ rw e tt
          | inr e ↦ rw e (status-Reaches _ _ _ (omega (arith, read_byte_offset i)))
        ]

abbrev is_stuck : Ended → Bool
is_stuck stuck = true
is_stuck e = false

module _ (port_count : ℕ) (smpte_timing : Bool) (track_end : ℕ) where
  event-Reaches :
      (r : Reading)
      → Reaches (r.input_.file_offset + 1) (read_event port_count smpte_timing track_end r)
  unfolding read_event
  event-Reaches r =
      delta-Reaches (r.input_.file_offset + 1) port_count smpte_timing track_end r _ _
        (omega (arith, read_var_offset 3 0 r.input_))

  after_round-ends :
      (k : ℕ) (again : Reading → Ended) (round : Round)
      → Reaches k round
      → ((r : Reading) → k ≤ r.input_.file_offset → is_stuck (again r) ≡ false)
      → is_stuck (after_round again round) ≡ false
  unfolding after_round
  after_round-ends k again (next r) h a = a r h
  after_round-ends k again (invalid r) h a = refl
  after_round-ends k again (end_of_track r) h a = refl
  after_round-ends k again overflow h a = refl

  read_events-ends :
      (fuel : ℕ) (r : Reading)
      → track_end - r.input_.file_offset < fuel
      → is_stuck (read_events port_count smpte_timing track_end fuel r) ≡ false
  unfolding read_events
  read_events-ends zero r h = absurd (omega arith)
  read_events-ends (suc fuel) r h = elim (Bool-cases (ltb r.input_.file_offset track_end)) [
    | inl e ↦ rw e (
        after_round-ends (r.input_.file_offset + 1) _ _ (event-Reaches r)
          (λ r' l. read_events-ends fuel r' (ground arith)))
    | inr e ↦ rw e refl
  ]

  -- Whatever the file holds, read_track ends: one round more than the bytes of the track is enough.
  pub read_track-ends :
      (fuel : ℕ) (i : Input)
      → track_end - i.file_offset < fuel
      → read_track port_count smpte_timing track_end fuel i ≢ stuck
  read_track-ends fuel i h e = cc (
    ap is_stuck e,
    read_events-ends fuel (record { input_ = i; tick = 0; last_cmd = 0; port = 0; events = [] }) h,
  )
