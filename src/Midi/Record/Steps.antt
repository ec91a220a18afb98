-- ===== src/Midi/Record/Steps.antt =====
-- The bytes of variable-length numbers, delta times, commands and the data of system exclusive events.
use alsa_utils.Common.{
  ℕ, ◌+◌, ◌/◌, ◌%◌, ◌<◌, ◌≡◌, refl, sym, ◌∙◌, inl, inr, Bool, true, false, Bool-cases, List, [],
  ◌∷◌, ◌++◌, append-nil, arith, All, ltb, ◌==◌, if◌then◌else◌,
}
use mathlib.Core.Path.{subst}
use alsa_utils.Midi.Record.{
  SmfTrack, add_byte, add_if, at_least, var_value, diff_of, delta_time, command, add_two, add_bytes,
}
use alsa_utils.Midi.Record.Bytes.{contents, Puts, Puts-trans, Puts-byte}

abbrev pub byte_if : Bool → ℕ → List ℕ
byte_if b x = if b then x ∷ [] else []

-- A variable-length number: groups of seven bits, the most significant first.
unfoldable pub vlq : ℕ → List ℕ
vlq v =
    byte_if (at_least v 268435456) (128 + v / 268435456 % 4)
    ++ (byte_if (at_least v 2097152) (128 + v / 2097152 % 128)
        ++ (byte_if (at_least v 16384) (128 + v / 16384 % 128)
            ++ (byte_if (at_least v 128) (128 + v / 128 % 128) ++ (v % 128 ∷ []))))

pub Puts-one :
    (t : SmfTrack) (x : ℕ) → x < 256 → Puts t (add_byte t x) (x ∷ []) t.last_tick t.last_command
Puts-one t x h =
    subst (λ y. Puts t (add_byte t x) (y ∷ []) t.last_tick t.last_command) small (Puts-byte t x)
  where
    small : x % 256 ≡ x
    small = omega arith

Puts-none : (t : SmfTrack) → Puts t t [] t.last_tick t.last_command
Puts-none t = record {
  added = sym (append-nil (contents t));
  kept = λ w. w;
  ticked = refl;
  commanded = refl;
}

Puts-if :
    (b : Bool) (t : SmfTrack) (x : ℕ)
    → x < 256
    → Puts t (add_if b t x) (byte_if b x) t.last_tick t.last_command
Puts-if true t x h = Puts-one t x h
Puts-if false t x h = Puts-none t

-- A step that keeps the last tick and the last command.
pub Puts-then :
    (t t' t'' : SmfTrack) (bs bs' : List ℕ)
    → Puts t t' bs t.last_tick t.last_command
    → Puts t' t'' bs' t'.last_tick t'.last_command
    → Puts t t'' (bs ++ bs') t.last_tick t.last_command
Puts-then t t' t'' bs bs' p q =
    Puts-trans t t' t'' bs bs' t.last_tick t.last_command t.last_tick t.last_command p record {
      added = q.added;
      kept = q.kept;
      ticked = q.ticked ∙ p.ticked;
      commanded = q.commanded ∙ p.commanded;
    }

pub Puts-var : (t : SmfTrack) (v : ℕ) → Puts t (var_value t v) (vlq v) t.last_tick t.last_command
unfolding var_value vlq
Puts-var t v = Puts-then t t₁ _ _ _ (Puts-if _ t _ (omega arith)) (
    Puts-then t₁ t₂ _ _ _ (Puts-if _ t₁ _ (omega arith)) (
      Puts-then t₂ t₃ _ _ _ (Puts-if _ t₂ _ (omega arith)) (
        Puts-then t₃ t₄ _ _ _ (Puts-if _ t₃ _ (omega arith))
          (Puts-one t₄ (v % 128) (omega arith)))))
  where
    t₁ : SmfTrack
    t₁ = add_if (at_least v 268435456) t (128 + v / 268435456 % 4)

    t₂ : SmfTrack
    t₂ = add_if (at_least v 2097152) t₁ (128 + v / 2097152 % 128)

    t₃ : SmfTrack
    t₃ = add_if (at_least v 16384) t₂ (128 + v / 16384 % 128)

    t₄ : SmfTrack
    t₄ = add_if (at_least v 128) t₃ (128 + v / 128 % 128)

pub Puts-delta :
    (t : SmfTrack) (tick : ℕ)
    → Puts t (delta_time t tick) (vlq (diff_of tick t.last_tick)) tick t.last_command
unfolding delta_time
Puts-delta t tick =
    let p = Puts-var t (diff_of tick t.last_tick) in
    record {
      added = p.added;
      kept = λ w.
          let k = p.kept w in
          record { cur_size = k.cur_size; in_buffer = k.in_buffer; full = k.full; all = k.all };
      ticked = refl;
      commanded = p.commanded;
    }

-- The status byte, unless it is that of the last command.
abbrev pub status : ℕ → ℕ → List ℕ
status cmd last = byte_if (if cmd == last then false else true) cmd

abbrev pub running : ℕ → ℕ
running cmd = if ltb cmd 240 then cmd else 0

pub Puts-command :
    (t : SmfTrack) (cmd : ℕ)
    → cmd < 256
    → Puts t (command t cmd) (status cmd t.last_command) t.last_tick (running cmd)
unfolding command
Puts-command t cmd h = elim (Bool-cases (cmd == t.last_command)) [
  | inl e ↦ rw e (with_command t t [] (Puts-none t))
  | inr e ↦ rw e (with_command t (add_byte t cmd) (cmd ∷ []) (Puts-one t cmd h))
]
  where
    with_command :
        (t t' : SmfTrack) (bs : List ℕ)
        → Puts t t' bs t.last_tick t.last_command
        → Puts t (record t' { last_command = running cmd }) bs t.last_tick (running cmd)
    with_command t t' bs p = record {
      added = p.added;
      kept = λ w.
          let k = p.kept w in
          record { cur_size = k.cur_size; in_buffer = k.in_buffer; full = k.full; all = k.all };
      ticked = p.ticked;
      commanded = refl;
    }

pub Puts-two :
    (t : SmfTrack) (a b : ℕ)
    → a < 256
    → b < 256
    → Puts t (add_two t a b) (a ∷ b ∷ []) t.last_tick t.last_command
Puts-two t a b ha hb =
    Puts-then t (add_byte t a) (add_two t a b) (a ∷ []) (b ∷ []) (Puts-one t a ha)
      (Puts-one (add_byte t a) b hb)

pub Puts-bytes :
    (t : SmfTrack) (bs : List ℕ)
    → All (λ b. b < 256) bs
    → Puts t (add_bytes t bs) bs t.last_tick t.last_command
unfolding add_bytes
Puts-bytes t [] h = Puts-none t
Puts-bytes t (b ∷ bs) (h, hs) =
    Puts-then t (add_byte t b) (add_bytes (add_byte t b) bs) (b ∷ []) bs (Puts-one t b h)
      (Puts-bytes (add_byte t b) bs hs)
