-- ===== src/Midi/Output.antt =====
-- seq/aplaymidi/aplaymidi.c: the sequencer events that the player puts out for the events of a track.
use alsa_utils.Common.{
  ℕ, zero, suc, ◌+◌, ◌*◌, ◌/◌, ◌%◌, ◌≤◌, ◌<◌, ◌≡◌, refl, sym, ap, Bool-cases, inl, inr, List, [],
  ◌∷◌, ◌++◌, append-nil, length, take, drop, take-append-drop, length-take, length-drop, ltb, arith,
  if◌then◌else◌,
}
use mathlib.Core.Path.{subst}
use native.Mathlib.Nat.{mod-eq_of_lt}
use alsa_utils.Common.Words.{u32, sub_u32}
use alsa_utils.Midi.Play.{Command, Data, params, param}
use alsa_utils.Midi.Record.{Recorded}
use alsa_utils.Midi.Heard.{heard_of}

-- MIDI_BYTES_PER_SEC: 31250 / (1 + 8 + 2)
abbrev pub midi_bytes_per_sec : ℕ
midi_bytes_per_sec = 2840

-- The pieces of a system exclusive event, with the fuel of a round for each byte: those that
-- handle_big_sysex puts out, and the last one, which it leaves to its caller.
pub sysex_pieces : ℕ → List ℕ → List Recorded
sysex_pieces zero bytes = Recorded.sysex bytes ∷ []
sysex_pieces (suc fuel) bytes =
    let others = sysex_pieces fuel (drop midi_bytes_per_sec bytes) in
    if ltb midi_bytes_per_sec (length bytes)
    then Recorded.sysex (take midi_bytes_per_sec bytes) ∷ others
    else Recorded.sysex bytes ∷ []

abbrev pub handle_big_sysex : List ℕ → List Recorded
handle_big_sysex bytes = sysex_pieces (length bytes) bytes

-- The events that are put out for an event, but for a tempo, which play_midi itself puts out. The
-- parameters have seven bits, so `|` adds them. read_track makes no other event.
pub fill_legacy_event : Data → List Recorded
fill_legacy_event (params Command.noteon c a b) = Recorded.noteon c a b ∷ []
fill_legacy_event (params Command.noteoff c a b) = Recorded.noteoff c a b ∷ []
fill_legacy_event (params Command.keypress c a b) = Recorded.keypress c a b ∷ []
fill_legacy_event (params Command.controller c a b) = Recorded.controller c a b ∷ []
fill_legacy_event (params Command.pitchbend c a b) =
    Recorded.pitchbend c (sub_u32 (a + b * 128) 8192) ∷ []
fill_legacy_event (param Command.pgmchange c a) = Recorded.pgmchange c a ∷ []
fill_legacy_event (param Command.chanpress c a) = Recorded.chanpress c a ∷ []
fill_legacy_event (Data.sysex bytes) = handle_big_sysex bytes
fill_legacy_event d = []

pub fill_all : List Data → List Recorded
fill_all [] = []
fill_all (d ∷ ds) = fill_legacy_event d ++ fill_all ds

-- The values that MIDI has: a channel, two parameters of seven bits, and a bend as a 32-bit `int`.
abbrev Channelled : ℕ → ℕ → ℕ → Type 0
Channelled c a b = (c < 16) × (a < 128) × (b < 128)

abbrev pub InRange : Recorded → Type 0
InRange (Recorded.noteon c a b) = Channelled c a b
InRange (Recorded.noteoff c a b) = Channelled c a b
InRange (Recorded.keypress c a b) = Channelled c a b
InRange (Recorded.controller c a b) = Channelled c a b
InRange (Recorded.pgmchange c a) = Channelled c a 0
InRange (Recorded.chanpress c a) = Channelled c a 0
InRange (Recorded.pitchbend c value) =
    (c < 16) × (value < 4294967296) × (u32 (value + 8192) < 16384)
InRange (Recorded.sysex bytes) = Unit {0}
InRange e = ⊥

-- Pieces of at most as many bytes as are sent in a second, which make up all of them.
abbrev pub Pieces : List Recorded → List ℕ → Type 0
Pieces [] bytes = bytes ≡ []
Pieces (Recorded.sysex piece ∷ es) bytes =
    (length piece ≤ midi_bytes_per_sec)
    × ((rest : List ℕ) × (piece ++ rest ≡ bytes) × Pieces es rest)
Pieces (e ∷ es) bytes = ⊥

-- What is put out for an event: the same one, or the pieces of it.
abbrev pub PutOut : Recorded → List Recorded → Type 0
PutOut (Recorded.sysex bytes) es = Pieces es bytes
PutOut e es = es ≡ e ∷ []

sysex_pieces-Pieces :
    (fuel : ℕ) (bytes : List ℕ) → length bytes ≤ fuel → Pieces (sysex_pieces fuel bytes) bytes
unfolding sysex_pieces
sysex_pieces-Pieces zero bytes h = (omega arith, ([], append-nil bytes, refl))
sysex_pieces-Pieces (suc fuel) bytes h = elim (Bool-cases (ltb midi_bytes_per_sec (length bytes))) [
  | inl e ↦ rw e (
    omega (arith, length-take midi_bytes_per_sec bytes),
    (
      drop midi_bytes_per_sec bytes,
      take-append-drop midi_bytes_per_sec bytes,
      sysex_pieces-Pieces fuel (drop midi_bytes_per_sec bytes)
          (omega (arith, length-drop midi_bytes_per_sec bytes)),
    ),
  )
  | inr e ↦ rw e (ground arith, ([], append-nil bytes, refl))
]

kept :
    (make : ℕ → ℕ → ℕ → Recorded) (c a b : ℕ)
    → c < 16
    → a < 128
    → b < 128
    → make (c % 16) (a % 128) (b % 128) ≡ make c a b
kept make c a b hc ha hb = rw (mod-eq_of_lt hc, mod-eq_of_lt ha, mod-eq_of_lt hb) refl

-- What the player puts out for an event that was recorded is that event: notes, controllers, programs,
-- pressures and bends in the ranges of MIDI; a system exclusive event in pieces of at most 2840 bytes.
pub fill_all-heard_of : (e : Recorded) → InRange e → PutOut e (fill_all (heard_of e))
unfolding fill_all fill_legacy_event
fill_all-heard_of (Recorded.noteon c a b) (hc, ha, hb) =
    ap (λ f. f ∷ []) (kept Recorded.noteon c a b hc ha hb)
fill_all-heard_of (Recorded.noteoff c a b) (hc, ha, hb) =
    ap (λ f. f ∷ []) (kept Recorded.noteoff c a b hc ha hb)
fill_all-heard_of (Recorded.keypress c a b) (hc, ha, hb) =
    ap (λ f. f ∷ []) (kept Recorded.keypress c a b hc ha hb)
fill_all-heard_of (Recorded.controller c a b) (hc, ha, hb) =
    ap (λ f. f ∷ []) (kept Recorded.controller c a b hc ha hb)
fill_all-heard_of (Recorded.pgmchange c a) (hc, ha, hb) = rw (mod-eq_of_lt hc, mod-eq_of_lt ha) refl
fill_all-heard_of (Recorded.chanpress c a) (hc, ha, hb) = rw (mod-eq_of_lt hc, mod-eq_of_lt ha) refl
fill_all-heard_of (Recorded.pitchbend c v) (hc, hv, hr) = rw (mod-eq_of_lt hc, bend) refl
  where
    bend : sub_u32 ((v + 8192) % 128 + (v + 8192) / 128 % 128 * 128) 8192 ≡ v
    bend = omega arith
fill_all-heard_of (Recorded.sysex []) h = refl
fill_all-heard_of (Recorded.sysex (b ∷ bs)) h =
    subst (λ es. Pieces es (b ∷ bs)) (sym (append-nil (handle_big_sysex (b ∷ bs))))
      (sysex_pieces-Pieces (length (b ∷ bs)) (b ∷ bs) (omega arith))
fill_all-heard_of (Recorded.control14 c a b) h = absurd h
fill_all-heard_of (Recorded.nonregparam c a b) h = absurd h
fill_all-heard_of (Recorded.regparam c a b) h = absurd h
fill_all-heard_of Recorded.other h = absurd h
