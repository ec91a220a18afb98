-- ===== src/Amidi/Laws.antt =====
-- The dump is text that the command line takes; messages are sent whole and in their order.
use alsa_utils.Common.{
  ℕ, zero, suc, ◌+◌, ◌*◌, ◌/◌, ◌%◌, ◌≤◌, ◌<◌, ◌≡◌, ◌≢◌, refl, sym, ◌∙◌, ap, inl, inr, ◌⊎◌, true,
  false, Bool-cases, Option, none, some, List, [], ◌∷◌, ◌++◌, length, append_assoc, append-nil,
  length-append, arith, All, ◌==◌, ==_iff,
}
use mathlib.Core.Path.{subst}
use alsa_utils.Amidi.{
  hex_value, isspace, put, put_value, parse_from, parse_data, PrintState, Layout, layout, lay_byte,
  hex_digit, hex_byte, laid_out, print_byte, print_bytes, end_of_sysex, send_from,
  send_midi_interleaved, WriteResult, taken, failed,
}

hex_digit_lem : (d : ℕ) → d < 16 → hex_value (hex_digit d) ≡ some d
unfolding hex_value hex_digit
hex_digit_lem d h = ground arith

not_space : (d : ℕ) → d < 16 → isspace (hex_digit d) ≡ false
unfolding isspace hex_digit
not_space d h = ground arith

parse_blank :
    (c : ℕ) (cs : List ℕ) → isspace c ≡ true → parse_from (c ∷ cs) none ≡ parse_from cs none
unfolding parse_from
parse_blank c cs h = rw h

parse_byte :
    (a b : ℕ) (cs : List ℕ)
    → a < 16
    → b < 16
    → parse_from (hex_digit a ∷ hex_digit b ∷ cs) none ≡ put (a * 16 + b) (parse_from cs none)
unfolding parse_from
parse_byte a b cs ha hb =
    rw (not_space a ha, hex_digit_lem a ha, not_space b hb, hex_digit_lem b hb)

parse_hex_byte :
    (byte : ℕ) (cs : List ℕ)
    → byte < 256
    → parse_from (hex_byte byte ++ cs) none ≡ put byte (parse_from cs none)
parse_hex_byte byte cs h =
    parse_byte (byte / 16 % 16) (byte % 16) cs (omega arith) (omega arith)
    ∙ ap (λ b. put b (parse_from cs none)) whole
  where
    whole : byte / 16 % 16 * 16 + byte % 16 ≡ byte
    whole = omega arith

-- Blanks stand in front of a byte, in each layout.
parse_laid_out :
    (byte : ℕ) (l : Layout) (cs : List ℕ)
    → byte < 256
    → parse_from ((laid_out [] byte l).0 ++ cs) none ≡ put byte (parse_from cs none)
unfolding laid_out isspace
parse_laid_out byte (layout true true s) cs h =
    parse_blank 10 _ refl
    ∙ parse_blank 32 _ refl
    ∙ parse_blank 32 _ refl
    ∙ parse_blank 10 _ refl
    ∙ parse_hex_byte byte cs h
parse_laid_out byte (layout false true s) cs h =
    parse_blank 10 _ refl
    ∙ parse_blank 32 _ refl
    ∙ parse_blank 32 _ refl
    ∙ parse_blank 32 _ refl
    ∙ parse_hex_byte byte cs h
parse_laid_out byte (layout true false s) cs h = parse_blank 10 _ refl ∙ parse_hex_byte byte cs h
parse_laid_out byte (layout false false s) cs h = parse_blank 32 _ refl ∙ parse_hex_byte byte cs h

-- What print_byte puts out for bytes, in whatever state it is and without timestamps, parse_data reads
-- as these bytes.
pub parse_data-print_bytes :
    (bytes : List ℕ) (state : PrintState)
    → All (λ b. b < 256) bytes
    → parse_data (print_bytes [] bytes state) ≡ some bytes
unfolding print_bytes parse_from
parse_data-print_bytes [] state h = refl
parse_data-print_bytes (byte ∷ bytes) state (h, hs) = rw (
  parse_laid_out byte (lay_byte byte state) (print_bytes [] bytes (print_byte [] byte state).1) h,
  parse_data-print_bytes bytes (print_byte [] byte state).1 hs,
)

abbrev pending : Option ℕ → ℕ
pending none = 0
pending (some v) = 1

-- A bound on the bytes, if there are any.
abbrev Fits : ℕ → Option (List ℕ) → Type 0
Fits n none = Unit {0}
Fits n (some bs) = length bs ≤ n

Fits-more : (n m : ℕ) (o : Option (List ℕ)) → n ≤ m → Fits n o → Fits m o
Fits-more n m none h f = tt
Fits-more n m (some bs) h f = omega arith

Fits-put : (n b : ℕ) (o : Option (List ℕ)) → Fits n o → Fits (suc n) (put b o)
Fits-put n b none f = tt
Fits-put n b (some bs) f = omega arith

Fits-put_value :
    (n : ℕ) (v : Option ℕ) (o : Option (List ℕ)) → Fits n o → Fits (n + pending v) (put_value v o)
Fits-put_value n none o f = Fits-more n (n + 0) o (omega arith) f
Fits-put_value n (some v) o f = Fits-more (suc n) (n + 1) (put v o) (omega arith) (Fits-put n v o f)

parse_from-Fits : (cs : List ℕ) (v : Option ℕ) → Fits (length cs + pending v) (parse_from cs v)
unfolding parse_from
parse_from-Fits [] v = Fits-put_value 0 v (some []) (omega arith)
parse_from-Fits (c ∷ cs) v = elim (Bool-cases (isspace c)) [
  | inl e ↦ rw e (
      Fits-more _ _ _ (omega arith)
        (Fits-put_value (length cs + 0) v (parse_from cs none) (parse_from-Fits cs none)))
  | inr e ↦ rw e (digit (λ u. parse_from-Fits cs u) (hex_value c) v)
]
  where
    digit :
        ((u : Option ℕ) → Fits (length cs + pending u) (parse_from cs u))
        → (h v : Option ℕ)
        → Fits (suc (length cs) + pending v) (elim h [
          | none ↦ none
          | some d ↦ elim v [
            | none ↦ parse_from cs (some d)
            | some u ↦ put (u * 16 + d) (parse_from cs none)
          ]
        ])
    digit rest none v = tt
    digit rest (some d) none = Fits-more _ _ (parse_from cs (some d)) (omega arith) (rest (some d))
    digit rest (some d) (some u) =
        Fits-more _ _ _ (omega arith)
          (Fits-put (length cs + 0) (u * 16 + d) (parse_from cs none) (rest none))

-- parse_data makes no more bytes than the text has characters, for which it allocates memory.
pub length-parse_data :
    (send_hex bytes : List ℕ) → parse_data send_hex ≡ some bytes → length bytes ≤ length send_hex
length-parse_data send_hex bytes e =
    omega (arith, subst (Fits (length send_hex + 0)) e (parse_from-Fits send_hex none))

-- A message with its end, and one without.
abbrev pub Ended : List ℕ → Type 0
Ended [] = ⊥
Ended (b ∷ []) = b ≡ 247
Ended (b ∷ c ∷ bs) = (b ≢ 247) × Ended (c ∷ bs)

abbrev pub Unended : List ℕ → Type 0
Unended bs = All (λ b. b ≢ 247) bs

Cut : List ℕ → List ℕ × List ℕ → Type 0
Cut bs (message, rest) = (message ++ rest ≡ bs) × (Ended message ⊎ (Unended message × (rest ≡ [])))

Cut-more :
    (b : ℕ) (bs : List ℕ) (c : List ℕ × List ℕ) → b ≢ 247 → Cut bs c → Cut (b ∷ bs) (b ∷ c.0, c.1)
unfolding Cut
Cut-more b bs ([], rest) n (e, inl m) = absurd m
Cut-more b bs (c ∷ message, rest) n (e, inl m) = (ap (λ xs. b ∷ xs) e, inl (n, m))
Cut-more b bs (message, rest) n (e, inr (m, r)) = (ap (λ xs. b ∷ xs) e, inr ((n, m), r))

end_of_sysex_lem : (bs : List ℕ) → Cut bs (end_of_sysex bs)
unfolding end_of_sysex Cut
end_of_sysex_lem [] = (refl, inr (tt, refl))
end_of_sysex_lem (b ∷ bs) = elim (Bool-cases (b == 247)) [
  | inl e ↦ rw e (refl, inl ((==_iff b 247).0 e))
  | inr e ↦ rw e (Cut-more b bs (end_of_sysex bs) (λ p. ground arith) (end_of_sysex_lem bs))
]

-- Messages with their ends, but for the last, which may have none.
abbrev pub Messages : List (List ℕ) → Type 0
Messages [] = Unit {0}
Messages (m ∷ []) = Ended m ⊎ Unended m
Messages (m ∷ n ∷ ms) = Ended m × Messages (n ∷ ms)

abbrev pub all_of : List (List ℕ) → List ℕ
all_of [] = []
all_of (m ∷ ms) = m ++ all_of ms

Messages-cons : (m : List ℕ) (ms : List (List ℕ)) → Ended m → Messages ms → Messages (m ∷ ms)
Messages-cons m [] h k = inl h
Messages-cons m (n ∷ ms) h k = (h, k)

-- Whether a call has taken bytes, all of them, or failed.
abbrev pub Takes : WriteResult → Type 0
Takes (taken n) = Unit {0}
Takes (failed e) = ⊥

-- All calls, from a number on, take bytes.
abbrev pub AllTake : (ℕ → List ℕ → WriteResult) → ℕ → List (List ℕ) → Type 0
AllTake write call [] = Unit {0}
AllTake write call (m ∷ ms) = Takes (write call m) × AllTake write (call + 1) ms

-- The last call fails, and those before take bytes.
abbrev pub LastFails : (ℕ → List ℕ → WriteResult) → ℕ → List (List ℕ) → ℕ → Type 0
LastFails write call [] e = ⊥
LastFails write call (m ∷ []) e = write call m ≡ failed e
LastFails write call (m ∷ n ∷ ms) e = Takes (write call m) × LastFails write (call + 1) (n ∷ ms) e

-- How the calls end: all of the data was passed and no call has failed, or some is left.
abbrev pub Result : (ℕ → List ℕ → WriteResult) → ℕ → List ℕ → List (List ℕ) → Option ℕ → Type 0
Result write call bs ms none = AllTake write call ms × (all_of ms ≡ bs)
Result write call bs ms (some e) =
    LastFails write call ms e × ((rest : List ℕ) × (all_of ms ++ rest ≡ bs))

abbrev pub Sent : (ℕ → List ℕ → WriteResult) → ℕ → List ℕ → List (List ℕ) × Option ℕ → Type 0
Sent write call bs (ms, result) = Messages ms × Result write call bs ms result

shorter : (m rest bs : List ℕ) (b : ℕ) → m ++ rest ≡ b ∷ bs → Ended m → length rest ≤ length bs
shorter [] rest bs b e h = absurd h
shorter (c ∷ m) rest bs b e h = omega (arith, ap length e, length-append m rest)

send_from-nil :
    (write : ℕ → List ℕ → WriteResult) (call fuel : ℕ) → send_from write call fuel [] ≡ ([], none)
unfolding send_from
send_from-nil write call zero = refl
send_from-nil write call (suc fuel) = refl

module _ (write : ℕ → List ℕ → WriteResult) (call : ℕ) where
  LastFails-cons :
      (m : List ℕ) (ms : List (List ℕ)) (e : ℕ)
      → Takes (write call m)
      → LastFails write (call + 1) ms e
      → LastFails write call (m ∷ ms) e
  LastFails-cons m [] e h k = absurd k
  LastFails-cons m (n ∷ ms) e h k = (h, k)

  Sent-more :
      (m rest bs : List ℕ) (o : List (List ℕ) × Option ℕ)
      → m ++ rest ≡ bs
      → Ended m
      → Takes (write call m)
      → Sent write (call + 1) rest o
      → Sent write call bs (m ∷ o.0, o.1)
  Sent-more m rest bs (ms, none) e h t (k, (takes, d)) =
      (Messages-cons m ms h k, ((t, takes), ap (λ xs. m ++ xs) d ∙ e))
  Sent-more m rest bs (ms, some x) e h t (k, (fails, (left, d))) = (
    Messages-cons m ms h k,
    (
      LastFails-cons m ms x t fails,
      (left, append_assoc m (all_of ms) left ∙ ap (λ xs. m ++ xs) d ∙ e),
    ),
  )

  Sent-last :
      (m bs : List ℕ) (o : List (List ℕ) × Option ℕ)
      → m ≡ bs
      → Unended m
      → Takes (write call m)
      → o ≡ ([], none)
      → Sent write call bs (m ∷ o.0, o.1)
  Sent-last m bs o e h t p =
      subst (λ q. Sent write call bs (m ∷ q.0, q.1)) (sym p) (inr h, ((t, tt), append-nil m ∙ e))

  -- One call, with the message that it is given and what the others do.
  Sent-call :
      (m rest bs : List ℕ) (o : List (List ℕ) × Option ℕ) (r : WriteResult)
      → write call m ≡ r
      → m ++ rest ≡ bs
      → Ended m ⊎ (Unended m × (rest ≡ []))
      → (Ended m → Sent write (call + 1) rest o)
      → (rest ≡ [] → o ≡ ([], none))
      → Sent write call bs (elim r [ taken n ↦ (m ∷ o.0, o.1) | failed e ↦ (m ∷ [], some e) ])
  Sent-call m rest bs o (taken n) w e (inl h) more stop =
      Sent-more m rest bs o e h (subst Takes (sym w) tt) (more h)
  Sent-call m rest bs o (taken n) w e (inr (h, z)) more stop =
      Sent-last m bs o (sym (append-nil m) ∙ ap (λ xs. m ++ xs) (sym z) ∙ e) h
        (subst Takes (sym w) tt) (stop z)
  Sent-call m rest bs o (failed x) w e (inl h) more stop = (inl h, (w, (rest, rw append-nil e)))
  Sent-call m rest bs o (failed x) w e (inr (h, z)) more stop =
      (inr h, (w, (rest, rw append-nil e)))

send_from_lem :
    (write : ℕ → List ℕ → WriteResult) (call fuel : ℕ) (bs : List ℕ)
    → length bs ≤ fuel
    → Sent write call bs (send_from write call fuel bs)
unfolding send_from Cut
send_from_lem write call fuel [] h = rw send_from-nil (tt, (tt, refl))
send_from_lem write call zero (b ∷ bs) h = absurd (omega arith)
send_from_lem write call (suc fuel) (b ∷ bs) h =
    let (e, kind) = end_of_sysex_lem (b ∷ bs) in
    let m = (end_of_sysex (b ∷ bs)).0 in
    let rest = (end_of_sysex (b ∷ bs)).1 in
    Sent-call write call m rest (b ∷ bs) (send_from write (call + 1) fuel rest) (write call m) refl
      e kind
      (λ k. send_from_lem write (call + 1) fuel rest (omega (arith, shorter m rest bs b e k)))
      (λ z. ap (send_from write (call + 1) fuel) z ∙ send_from-nil write (call + 1) fuel)

-- send_midi_interleaved passes the data to snd_rawmidi_write in its order, one message in each call: if
-- it returns no error, all calls have taken bytes, and all of the data was passed; if it returns an
-- error, it is that of the last call, which alone has failed, and the data up to its message was passed.
pub send_midi_interleaved_lem :
    (write : ℕ → List ℕ → WriteResult) (send_data : List ℕ)
    → Sent write 0 send_data (send_midi_interleaved write send_data)
send_midi_interleaved_lem write send_data =
    send_from_lem write 0 (length send_data) send_data (omega arith)
