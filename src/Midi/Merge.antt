-- ===== src/Midi/Merge.antt =====
-- seq/aplaymidi/aplaymidi.c: the order in which play_midi takes the events of the tracks.
use alsa_utils.Common.{
  ℕ, zero, suc, ◌+◌, ◌≤◌, ◌<◌, ◌≡◌, refl, inl, inr, Bool-cases, Option, Option-cases, none, some,
  List, [], ◌∷◌, length, ltb, if◌then◌else◌, arith, All,
}
use mathlib.Core.Path.{subst}
use alsa_utils.Midi.Play.{Event}

-- A track is the events from `current_event` on. `max_tick + 1`, as end ticks are not negative.
unfoldable pub after_end : List (List Event × ℕ) → ℕ
after_end [] = 0
after_end ((events, end_tick) ∷ tracks) =
    let others = after_end tracks in if ltb end_tick others then others else end_tick + 1

abbrev pub keep :
    List Event → Option (Event × List (List Event)) → Option (Event × List (List Event))
keep t none = none
keep t (some (e, ts)) = some (e, t ∷ ts)

-- An event of the tracks behind comes first only if it is earlier.
abbrev pub earlier :
    Event
    → List Event
    → List (List Event)
    → Option (Event × List (List Event))
    → Option (Event × List (List Event))
earlier e es ts none = some (e, es ∷ ts)
earlier e es ts (some (e', ts')) = some (e', (e ∷ es) ∷ ts')

-- The search for the next event, with the tracks after `current_event` of its track has moved on.
pub next_event : ℕ → List (List Event) → Option (Event × List (List Event))
next_event min_tick [] = none
next_event min_tick ([] ∷ ts) = keep [] (next_event min_tick ts)
next_event min_tick ((e ∷ es) ∷ ts) =
    let sooner = next_event e.tick ts in
    let others = next_event min_tick ts in
    if ltb e.tick min_tick then (earlier e es ts sooner) else (keep (e ∷ es) others)

-- The loop, and the events that it puts out; `none` is the end of the fuel.
abbrev pub then_play :
    (List (List Event) → Option (List Event))
    → Option (Event × List (List Event))
    → Option (List Event)
then_play again none = some []
then_play again (some (e, ts)) = elim (again ts) [ none ↦ none | some es ↦ some (e ∷ es) ]

pub play_events : ℕ → ℕ → List (List Event) → Option (List Event)
play_events zero limit ts = none
play_events (suc fuel) limit ts =
    then_play (λ ts'. play_events fuel limit ts') (next_event limit ts)

-- One event is taken from the front of one track.
pub data Takes : List (List Event) → Event → List (List Event) → Type 0 where
  here : (e : Event) (es : List Event) (ts : List (List Event)) → Takes ((e ∷ es) ∷ ts) e (es ∷ ts)
  there :
      (t : List Event) (ts ts' : List (List Event)) (e : Event)
      → Takes ts e ts'
      → Takes (t ∷ ts) e (t ∷ ts')

-- The events of all tracks, each track in its order.
pub data Merges : List (List Event) → List Event → Type 0 where
  done : (ts : List (List Event)) → All (λ t. t ≡ []) ts → Merges ts []
  takes :
      (ts ts' : List (List Event)) (e : Event) (es : List Event)
      → Takes ts e ts'
      → Merges ts' es
      → Merges ts (e ∷ es)

abbrev pub From : ℕ → List Event → Type 0
From lo es = All (λ e. lo ≤ e.tick) es

abbrev pub Sorted : List Event → Type 0
Sorted [] = Unit {0}
Sorted (e ∷ es) = From e.tick es × Sorted es

-- No event comes at `limit` or later.
abbrev pub Below : ℕ → List Event → Type 0
Below limit es = All (λ e. e.tick < limit) es

-- The heads of the tracks are at `tick` or later.
abbrev Late : ℕ → List Event → Type 0
Late tick [] = Unit {0}
Late tick (e ∷ es) = tick ≤ e.tick

abbrev Chosen : ℕ → List (List Event) → Option (Event × List (List Event)) → Type 0
Chosen limit ts none = All (Late limit) ts
Chosen limit ts (some (e, ts')) = Takes ts e ts' × (e.tick < limit) × All (Late e.tick) ts

Late-le : (a b : ℕ) (ts : List (List Event)) → a ≤ b → All (Late b) ts → All (Late a) ts
Late-le a b [] h l = tt
Late-le a b ([] ∷ ts) h (l, ls) = (tt, Late-le a b ts h ls)
Late-le a b ((e ∷ es) ∷ ts) h (l, ls) = (omega arith, Late-le a b ts h ls)

Chosen-keep :
    (limit : ℕ) (t : List Event) (ts : List (List Event)) (o : Option (Event × List (List Event)))
    → Late limit t
    → ((tick : ℕ) → tick ≤ limit → Late tick t)
    → Chosen limit ts o
    → Chosen limit (t ∷ ts) (keep t o)
Chosen-keep limit t ts none l w c = (l, c)
Chosen-keep limit t ts (some (e, ts')) l w (k, h, c) =
    (there t ts ts' e k, h, (w e.tick (omega arith), c))

Chosen-earlier :
    (limit : ℕ) (e : Event) (es : List Event) (ts : List (List Event))
    (o : Option (Event × List (List Event)))
    → e.tick < limit
    → Chosen e.tick ts o
    → Chosen limit ((e ∷ es) ∷ ts) (earlier e es ts o)
Chosen-earlier limit e es ts none h c = (here e es ts, h, (omega arith, c))
Chosen-earlier limit e es ts (some (e', ts')) h (k, l, c) =
    (there (e ∷ es) ts ts' e' k, omega arith, (omega arith, c))

next_event_lem : (limit : ℕ) (ts : List (List Event)) → Chosen limit ts (next_event limit ts)
unfolding next_event
next_event_lem limit [] = tt
next_event_lem limit ([] ∷ ts) =
    Chosen-keep limit [] ts _ tt (λ tick h. tt) (next_event_lem limit ts)
next_event_lem limit ((e ∷ es) ∷ ts) = elim (Bool-cases (ltb e.tick limit)) [
  | inl b ↦ rw b (
      Chosen-earlier limit e es ts (next_event e.tick ts) (ground arith) (next_event_lem e.tick ts))
  | inr b ↦ rw b (
      Chosen-keep limit (e ∷ es) ts (next_event limit ts) (ground arith) (λ tick h. ground arith)
        (next_event_lem limit ts))
]

abbrev pub total : List (List Event) → ℕ
total [] = 0
total (t ∷ ts) = length t + total ts

total_lem : (ts ts' : List (List Event)) (e : Event) → Takes ts e ts' → total ts ≡ suc (total ts')
total_lem _ _ _ (here e es ts) = omega arith
total_lem _ _ _ (there t ts ts' e k) = omega (arith, total_lem ts ts' e k)

Late-From : (tick : ℕ) (t : List Event) → Sorted t → Late tick t → From tick t
Late-From tick [] s l = tt
Late-From tick (e ∷ es) (f, s) l = (l, from_le es f)
  where
    from_le : (xs : List Event) → From e.tick xs → From tick xs
    from_le [] f = tt
    from_le (x ∷ xs) (h, f) = (omega arith, from_le xs f)

All-Late-From :
    (tick : ℕ) (ts : List (List Event)) → All Sorted ts → All (Late tick) ts → All (From tick) ts
All-Late-From tick [] s l = tt
All-Late-From tick (t ∷ ts) (s, ss) (l, ls) = (Late-From tick t s l, All-Late-From tick ts ss ls)

Takes-Sorted :
    (ts ts' : List (List Event)) (e : Event) → Takes ts e ts' → All Sorted ts → All Sorted ts'
Takes-Sorted _ _ _ (here e es ts) ((f, s), ss) = (s, ss)
Takes-Sorted _ _ _ (there t ts ts' e k) (s, ss) = (s, Takes-Sorted ts ts' e k ss)

Takes-Below :
    (limit : ℕ) (ts ts' : List (List Event)) (e : Event)
    → Takes ts e ts'
    → All (Below limit) ts
    → All (Below limit) ts'
Takes-Below limit _ _ _ (here e es ts) ((h, b), bs) = (b, bs)
Takes-Below limit _ _ _ (there t ts ts' e k) (b, bs) = (b, Takes-Below limit ts ts' e k bs)

Takes-From :
    (lo : ℕ) (ts ts' : List (List Event)) (e : Event)
    → Takes ts e ts'
    → All (From lo) ts
    → (lo ≤ e.tick) × All (From lo) ts'
Takes-From lo _ _ _ (here e es ts) ((h, f), fs) = (h, (f, fs))
Takes-From lo _ _ _ (there t ts ts' e k) (f, fs) =
    let (h, g) = Takes-From lo ts ts' e k fs in (h, (f, g))

none_left :
    (limit : ℕ) (ts : List (List Event))
    → All (Below limit) ts
    → All (Late limit) ts
    → All (λ t. t ≡ []) ts
none_left limit [] b l = tt
none_left limit ([] ∷ ts) (b, bs) (l, ls) = (refl, none_left limit ts bs ls)
none_left limit ((e ∷ es) ∷ ts) ((h, b), bs) (l, ls) = absurd (omega arith)

-- What is put out, whatever is put out before.
record Plays (limit fuel : ℕ) (ts : List (List Event)) : Type 0 where
  events : List Event
  played : play_events fuel limit ts ≡ some events
  merged : Merges ts events
  sorted : Sorted events
  from : (lo : ℕ) → All (From lo) ts → From lo events

play_events_lem :
    (fuel limit : ℕ) (ts : List (List Event))
    → total ts < fuel
    → All Sorted ts
    → All (Below limit) ts
    → Plays limit fuel ts
unfolding play_events
play_events_lem zero limit ts h s b = absurd (omega arith)
play_events_lem (suc fuel) limit ts h s b = elim (Option-cases (next_event limit ts)) [
  | inl n ↦ record {
    events = [];
    played = rw (play_events, n) refl;
    merged =
        done ts (none_left limit ts b (subst (λ o. Chosen limit ts o) n (next_event_lem limit ts)));
    sorted = tt;
    from = λ lo f. tt;
  }
  | inr ((e, ts'), n) ↦
      let (k, l, late) = subst (λ o. Chosen limit ts o) n (next_event_lem limit ts) in
      let p =
        play_events_lem fuel limit ts' (omega (arith, total_lem ts ts' e k))
          (Takes-Sorted ts ts' e k s) (Takes-Below limit ts ts' e k b) in
      record {
        events = e ∷ p.events;
        played = rw (play_events, n, p.played) refl;
        merged = takes ts ts' e p.events k p.merged;
        sorted = (
          p.from e.tick (Takes-From e.tick ts ts' e k (All-Late-From e.tick ts s late)).1,
          p.sorted,
        );
        from = λ lo f. ((Takes-From lo ts ts' e k f).0, p.from lo (Takes-From lo ts ts' e k f).1);
      }
]

-- The loop of play_midi, given a round for each event and one more: if each track is in the order
-- of its ticks, and no event comes at the limit or after it, the loop ends, and puts out the
-- events of all tracks, each track in its order, in the order of their ticks.
pub play_events-Merges :
    (fuel limit : ℕ) (ts : List (List Event))
    → total ts < fuel
    → All Sorted ts
    → All (Below limit) ts
    → (events : List Event) × (play_events fuel limit ts ≡ some events)
      × Merges ts events
      × Sorted events
play_events-Merges fuel limit ts h s b =
    let p = play_events_lem fuel limit ts h s b in (p.events, p.played, p.merged, p.sorted)
