-- ===== src/Midi/Turns.antt =====
-- What the rounds of read_track do with the bytes that the steps of the recorder append.
use alsa_utils.Common.{
  ℕ, suc, ◌+◌, ◌≤◌, ◌<◌, ◌≡◌, refl, sym, ◌∙◌, ap, ◌⊎◌, inl, inr, Bool, true, Bool-cases, List, ◌∷◌,
  ◌++◌, length, append_assoc, length-append, arith, ltb, ◌==◌, ==_iff,
}
use alsa_utils.Midi.Stream.{Input, input, read_byte}
use alsa_utils.Midi.Play.{next, read_command, read_status, read_event, read_events, after_round}
use alsa_utils.Midi.Play.Rounds.{PlayState, reading, delta_lem, status_new, status_running}
use alsa_utils.Midi.Record.Steps.{vlq, status}
use alsa_utils.Midi.Vlq.{read_var-vlq}

-- The last command of the recorder is none, or that of the player.
abbrev pub Follows : ℕ → ℕ → Type 0
Follows last last_cmd = (last ≡ 0) ⊎ (last ≡ last_cmd)

module _ (port port_count : ℕ) (smpte_timing : Bool) (track_end : ℕ) where
  pub status_lem :
      (s : PlayState) (cmd last a : ℕ) (bs : List ℕ) (o : ℕ) (i : Input)
      → Follows last s.last_cmd
      → 128 ≤ cmd
      → cmd < 240
      → a < 128
      → read_status port_count smpte_timing track_end
          (reading port s i)
          (read_byte (input (status cmd last ++ (a ∷ bs)) o))
        ≡ read_command port_count smpte_timing track_end cmd (
            reading port
              (record s { last_cmd = cmd })
              (input (a ∷ bs) (o + length (status cmd last))))
  status_lem s cmd last a bs o i f l h ha = elim (Bool-cases (cmd == last)) [
    | inl e ↦ rw e (
        status_running port port_count smpte_timing track_end s a bs o i ha
          (omega (arith, same e f))
        ∙ ap
            (λ c.
              read_command port_count smpte_timing track_end c
                (reading port (record s { last_cmd = c }) (input (a ∷ bs) o)))
            (same e f)
        ∙ ap
            (λ x.
              read_command port_count smpte_timing track_end cmd
                (reading port (record s { last_cmd = cmd }) (input (a ∷ bs) x)))
            none_more)
    | inr e ↦ rw e (status_new port port_count smpte_timing track_end s cmd (a ∷ bs) o i l h)
  ]
    where
      none_more : o ≡ o + 0
      none_more = omega arith

      same : (cmd == last) ≡ true → Follows last s.last_cmd → s.last_cmd ≡ cmd
      same e (inl z) = absurd (omega (arith, (==_iff cmd last).0 e))
      same e (inr p) = sym ((==_iff cmd last).0 e ∙ p)

  -- Some rounds take some bytes, and lead from one state to another.
  abbrev pub Runs : ℕ → List ℕ → PlayState → PlayState → Type 0
  Runs rounds bytes s s' =
      (total fuel : ℕ) (rest : List ℕ) (o : ℕ)
      → total ≡ rounds + fuel
      → o + length bytes ≤ track_end
      → read_events port_count smpte_timing track_end total
          (reading port s (input (bytes ++ rest) o))
        ≡ read_events port_count smpte_timing track_end fuel
            (reading port s' (input rest (o + length bytes)))

  pub Runs-trans :
      (n n' : ℕ) (bs bs' : List ℕ) (s s' s'' : PlayState)
      → Runs n bs s s'
      → Runs n' bs' s' s''
      → Runs (n + n') (bs ++ bs') s s''
  Runs-trans n n' bs bs' s s' s'' r r' total fuel rest o t h =
      ap (λ xs. read_events port_count smpte_timing track_end total (reading port s (input xs o)))
        (append_assoc bs bs' rest)
      ∙ r total (n' + fuel) (bs' ++ rest) o (omega arith) (omega (arith, length-append bs bs'))
      ∙ r' (n' + fuel) fuel rest (o + length bs) refl (omega (arith, length-append bs bs'))
      ∙ ap
          (λ x.
            read_events port_count smpte_timing track_end fuel (reading port s'' (input rest x)))
          (omega (arith, length-append bs bs'))

  -- One round.
  pub run_one :
      (bs : List ℕ) (s s' : PlayState)
      → 0 < length bs
      → ((rest : List ℕ) (o : ℕ)
          → read_event port_count smpte_timing track_end (reading port s (input (bs ++ rest) o))
            ≡ next (reading port s' (input rest (o + length bs))))
      → Runs 1 bs s s'
  unfolding read_events after_round
  run_one bs s s' pos step total fuel rest o t h = rw (one, inside, step rest o)
    where
      one : total ≡ suc fuel
      one = omega arith

      inside : ltb o track_end ≡ true
      inside = ground arith

  -- A delta time and a command of the recorder: `a` is the first data byte of `bs`.
  pub round_lem :
      (s s' : PlayState) (delta cmd last a : ℕ) (bs : List ℕ)
      → s.tick + delta < 2147483648
      → delta < 268435456
      → Follows last s.last_cmd
      → 128 ≤ cmd
      → cmd < 240
      → a < 128
      → ((rest : List ℕ) (o : ℕ)
          → read_command port_count smpte_timing track_end cmd (
              reading port
                (record s { tick = s.tick + delta; last_cmd = cmd })
                (input (a ∷ (bs ++ rest)) o))
            ≡ next (reading port s' (input rest (o + length (a ∷ bs)))))
      → Runs 1 (vlq delta ++ (status cmd last ++ (a ∷ bs))) s s'
  unfolding read_event
  round_lem s s' delta cmd last a bs ht hd f l h ha command =
      run_one _ s s'
        (omega (
          arith,
          length-append (vlq delta) (status cmd last ++ (a ∷ bs)),
          length-append (status cmd last) (a ∷ bs),
        ))
        (λ rest o.
          rw
            (
              read_event,
              split rest,
              read_var-vlq delta (status cmd last ++ (a ∷ (bs ++ rest))) o hd,
            )
            (delta_lem port port_count smpte_timing track_end s delta _ _ ht
              ∙ status_lem (record s { tick = s.tick + delta }) cmd last a (bs ++ rest) _ _ f l h ha
              ∙ command rest _
              ∙ ap (λ x. next (reading port s' (input rest x)))
                  (omega (
                    arith,
                    length-append (vlq delta) (status cmd last ++ (a ∷ bs)),
                    length-append (status cmd last) (a ∷ bs),
                  ))))
    where
      split :
          (rest : List ℕ)
          → (vlq delta ++ (status cmd last ++ (a ∷ bs))) ++ rest
            ≡ vlq delta ++ (status cmd last ++ (a ∷ (bs ++ rest)))
      split rest =
          append_assoc (vlq delta) (status cmd last ++ (a ∷ bs)) rest
          ∙ ap (λ xs. vlq delta ++ xs) (append_assoc (status cmd last) (a ∷ bs) rest)
