-- ===== src/Midi/Record/Bytes.antt =====
-- What the steps of the recorder append to a track, whatever buffers it is in.
use alsa_utils.Common.{
  ℕ, ◌%◌, ◌≤◌, ◌<◌, ◌≡◌, refl, sym, ◌∙◌, ap, ap₂, inl, inr, Bool-cases, List, [], ◌∷◌, ◌++◌, length,
  take-all, append_assoc, append-nil, length-append, arith, All, leb,
}
use alsa_utils.Midi.Record.{SmfTrack, buffer_size, next_buf, put_byte, add_byte, write_bufs}

-- The bytes of all buffers.
unfoldable pub joined : List (List ℕ) → List ℕ → List ℕ
joined [] last = last
joined (buf ∷ bufs) last = buf ++ joined bufs last

abbrev pub contents : SmfTrack → List ℕ
contents t = joined t.bufs t.cur_buf

-- The sizes are those of the buffers, and all in front of the last are full.
pub record WellFormed (t : SmfTrack) : Type 0 where
  pub cur_size : t.cur_buf_size ≡ length t.cur_buf
  pub in_buffer : length t.cur_buf ≤ buffer_size
  pub full : All (λ buf. length buf ≡ buffer_size) t.bufs
  pub all : t.size ≡ length (contents t)

-- A step appends bytes, and leaves a last tick and a last command.
pub record Puts (t t' : SmfTrack) (bytes : List ℕ) (tick cmd : ℕ) : Type 0 where
  pub added : contents t' ≡ contents t ++ bytes
  pub kept : WellFormed t → WellFormed t'
  pub ticked : t'.last_tick ≡ tick
  pub commanded : t'.last_command ≡ cmd

pub Puts-trans :
    (t t' t'' : SmfTrack) (bs bs' : List ℕ) (tick cmd tick' cmd' : ℕ)
    → Puts t t' bs tick cmd
    → Puts t' t'' bs' tick' cmd'
    → Puts t t'' (bs ++ bs') tick' cmd'
Puts-trans t t' t'' bs bs' tick cmd tick' cmd' p q = record {
  added = q.added ∙ ap (λ xs. xs ++ bs') p.added ∙ append_assoc (contents t) bs bs';
  kept = λ w. q.kept (p.kept w);
  ticked = q.ticked;
  commanded = q.commanded;
}

joined-append :
    (bufs : List (List ℕ)) (last more : List ℕ)
    → joined bufs (last ++ more) ≡ joined bufs last ++ more
unfolding joined
joined-append [] last more = refl
joined-append (buf ∷ bufs) last more =
    ap (λ xs. buf ++ xs) (joined-append bufs last more)
    ∙ sym (append_assoc buf (joined bufs last) more)

joined-next :
    (bufs : List (List ℕ)) (buf : List ℕ) → joined (bufs ++ (buf ∷ [])) [] ≡ joined bufs buf
unfolding joined
joined-next [] buf = append-nil buf
joined-next (b ∷ bufs) buf = ap (λ xs. b ++ xs) (joined-next bufs buf)

All-next :
    (bufs : List (List ℕ)) (buf : List ℕ)
    → All (λ b. length b ≡ buffer_size) bufs
    → length buf ≡ buffer_size
    → All (λ b. length b ≡ buffer_size) (bufs ++ (buf ∷ []))
All-next [] buf a h = (h, tt)
All-next (b ∷ bufs) buf (p, a) h = (p, All-next bufs buf a h)

Puts-put :
    (t : SmfTrack) (byte : ℕ)
    → (WellFormed t → t.cur_buf_size < buffer_size)
    → Puts t (put_byte t byte) (byte ∷ []) t.last_tick t.last_command
Puts-put t byte room = record {
  added = joined-append t.bufs t.cur_buf (byte ∷ []);
  kept = λ w. record {
    cur_size = omega (arith, w.cur_size, length-append t.cur_buf (byte ∷ []));
    in_buffer = omega (arith, w.cur_size, room w, length-append t.cur_buf (byte ∷ []));
    full = w.full;
    all =
        rw (joined-append t.bufs t.cur_buf (byte ∷ []))
          (omega (arith, w.all, length-append (contents t) (byte ∷ [])));
  };
  ticked = refl;
  commanded = refl;
}

Puts-next :
    (t : SmfTrack)
    → buffer_size ≤ t.cur_buf_size
    → Puts t (next_buf t) [] t.last_tick t.last_command
Puts-next t h = record {
  added = joined-next t.bufs t.cur_buf ∙ sym (append-nil (contents t));
  kept = λ w. record {
    cur_size = refl;
    in_buffer = omega arith;
    full = All-next t.bufs t.cur_buf w.full (omega (arith, w.cur_size, w.in_buffer));
    all = w.all ∙ ap length (sym (joined-next t.bufs t.cur_buf));
  };
  ticked = refl;
  commanded = refl;
}

pub Puts-byte :
    (t : SmfTrack) (byte : ℕ)
    → Puts t (add_byte t byte) (byte % 256 ∷ []) t.last_tick t.last_command
unfolding add_byte
Puts-byte t byte = elim (Bool-cases (leb buffer_size t.cur_buf_size)) [
  | inl e ↦ rw e (
      Puts-trans t (next_buf t) (put_byte (next_buf t) (byte % 256)) [] (byte % 256 ∷ [])
        t.last_tick t.last_command t.last_tick t.last_command (Puts-next t (ground arith))
        (Puts-put (next_buf t) (byte % 256) (λ w. omega arith)))
  | inr e ↦ rw e (Puts-put t (byte % 256) (λ w. ground arith))
]

bufs_lem :
    (t : SmfTrack) (bufs : List (List ℕ))
    → t.cur_buf_size ≡ length t.cur_buf
    → All (λ buf. length buf ≡ buffer_size) bufs
    → write_bufs bufs t ≡ joined bufs t.cur_buf
unfolding write_bufs joined
bufs_lem t [] e a = take-all t.cur_buf_size t.cur_buf (omega arith)
bufs_lem t (buf ∷ bufs) e (h, a) =
    ap₂ (λ xs ys. xs ++ ys) (take-all buffer_size buf (omega arith)) (bufs_lem t bufs e a)

-- The buffers that are written are all bytes of the track.
pub write_bufs_lem : (t : SmfTrack) → WellFormed t → write_bufs t.bufs t ≡ contents t
write_bufs_lem t w = bufs_lem t t.bufs w.cur_size w.full

-- To a track whose buffers are full but for the last, add_byte adds one byte at the end of what is
-- written of it, and the track is again like this.
pub add_byte_lem :
    (t : SmfTrack) (byte : ℕ)
    → WellFormed t
    → (write_bufs (add_byte t byte).bufs (add_byte t byte)
        ≡ write_bufs t.bufs t ++ (byte % 256 ∷ []))
      × WellFormed (add_byte t byte)
add_byte_lem t byte w =
    let p = Puts-byte t byte in
    (
      write_bufs_lem (add_byte t byte) (p.kept w)
          ∙ p.added
          ∙ ap (λ xs. xs ++ (byte % 256 ∷ [])) (sym (write_bufs_lem t w)),
      p.kept w,
    )
