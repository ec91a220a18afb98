-- ===== src/Container/Transfer/Frames.antt =====
-- `container_context_process_frames` within the limit of the container.
use alsa_utils.Common.{
  ℕ, ◌+◌, ◌-◌, ◌*◌, ◌/◌, ◌%◌, ◌≤◌, ◌<◌, ◌≡◌, ◌∙◌, ap, true, false, ◌||◌, List, ◌++◌, length, take,
  drop, ltb, ◌==◌, leb, arith, lt→ltb, length-take,
}
use native.Mathlib.Nat.{mul-div_cancel, zero-add}
use alsa_utils.Common.Words.{u32, u64}
use alsa_utils.Axfer.Pcm.{Pcm}
use alsa_utils.Axfer.Os.{Os}
use alsa_utils.Axfer.Os.Laws.{ReadLaws, WriteLaws, splice}
use alsa_utils.Axfer.Context.{Context, parser, builder, ok, bind_result}
use alsa_utils.Container.Io.{container_recursive_read, container_recursive_write}
use alsa_utils.Container.Io.Read.{container_recursive_read_lem, at_eof}
use alsa_utils.Container.Io.Write.{container_recursive_write_lem}
use alsa_utils.Container.Transfer.{
  process_bytes, takes_magic, limited, count_bytes, container_context_process_frames,
}

-- A context after `t` more bytes.
abbrev pub counted : Context → ℕ → Context
counted c t = record c {
  handled_byte_count = u64 (c.handled_byte_count + t);
  eof = u64 (c.handled_byte_count + t) == c.max_size || c.eof;
}

pub limited-within :
    (c : Context) (t : ℕ)
    → c.handled_byte_count + t ≤ c.max_size
    → c.max_size < 18446744073709551616
    → limited c t ≡ t
unfolding limited
limited-within c t h m = ground arith

pub takes_magic-builder : (c : Context) → c.kind ≡ builder → takes_magic c ≡ false
unfolding takes_magic
takes_magic-builder c h = ground arith

pub takes_magic-handled : (c : Context) → c.magic_handled ≡ true → takes_magic c ≡ false
unfolding takes_magic
takes_magic-handled c h = ground arith

module _ ⦃os : Os⦄ (pcm : Pcm) (fuel : ℕ) where
  pub count_bytes_lem :
      (t size : ℕ) (buf : List ℕ) (c : Context) (w : os.World)
      → 0 < size
      → count_bytes pcm fuel t size buf (c, w) ≡ (ok (buf, t / size), (counted c t, w))
  unfolding count_bytes
  count_bytes_lem t size buf c w h = rw (lt→ltb 0 size h)

  -- A call that has no magic to hand out is the transfer and the counting.
  pub process_frames_plain :
      (buf : List ℕ) (n t k size : ℕ) (c : Context) (w : os.World)
      → c.eof ≡ false
      → takes_magic c ≡ false
      → u32 (c.bytes_per_sample * c.samples_per_frame) ≡ size
      → u32 (n * size) ≡ t
      → t < 4294967296
      → limited c t ≡ k
      → container_context_process_frames pcm fuel buf n (c, w)
        ≡ bind_result (process_bytes pcm fuel c.kind 0 k buf (c, w)) (count_bytes pcm fuel t size)
  unfolding container_context_process_frames
  process_frames_plain buf n t k size c w he hm hs ht hu hl =
      simp (he, hm, hs, ht) (rw (sub_zero, hl))
    where
      sub_zero : (t + 4294967296 - 0) % 4294967296 ≡ t
      sub_zero = omega arith

  pub write_bytes :
      (t : ℕ) (buf : List ℕ) (c : Context) (w : os.World)
      → t ≤ length buf
      → process_bytes pcm fuel builder 0 t buf (c, w)
        ≡ bind_result (container_recursive_write fuel (take t buf) (c, w)) (λ _ s. (ok buf, s))
  unfolding process_bytes
  write_bytes t buf c w h = rw le_true
    where
      le_true : leb (0 + t) (length buf) ≡ true
      le_true = ground arith

  read_bytes :
      (t : ℕ) (buf : List ℕ) (c : Context) (w : os.World)
      → t ≤ length buf
      → process_bytes pcm fuel parser 0 t buf (c, w)
        ≡ bind_result
            (container_recursive_read fuel t (c, w))
            (λ bs s. (ok (bs ++ drop (0 + length bs) buf), s))
  unfolding process_bytes
  read_bytes t buf c w h = rw le_true
    where
      le_true : leb (0 + t) (length buf) ≡ true
      le_true = ground arith

module _ ⦃os : Os⦄ (pcm : Pcm) (fuel : ℕ) (file : WriteLaws) where
  open file use {contents, offset, patience}

  -- Within the limit, a builder that is neither interrupted nor at its end writes the frames of the
  -- buffer, all of them and nothing else, at the offset of the file. It counts them, and is at its end
  -- exactly when the limit is reached. A frame has a byte at least, the bytes of the frames fit 32
  -- bits, the buffer holds them, and there is enough fuel.
  pub builder_process_frames :
      (buf : List ℕ) (n size : ℕ) (c : Context) (w : os.World)
      → c.kind ≡ builder
      → c.eof ≡ false
      → c.interrupted ≡ false
      → c.bytes_per_sample * c.samples_per_frame ≡ size
      → 0 < size
      → size < 4294967296
      → n * size < 4294967296
      → n * size ≤ length buf
      → c.handled_byte_count + n * size ≤ c.max_size
      → c.max_size < 18446744073709551616
      → n * size + patience w < fuel
      → (w' : os.World) × (container_context_process_frames pcm fuel buf n (c, w)
          ≡ (ok (buf, n), (counted c (n * size), w')))
        × (contents w' ≡ splice (contents w) (offset w) (take (n * size) buf))
        × (offset w' ≡ offset w + n * size)
  builder_process_frames buf n size c w hk he hi hs hp hq ht hb hl hm hf =
      let all =
        container_recursive_write_lem file fuel (take (n * size) buf) c w hi
          (omega (arith, length-take (n * size) buf)) in
      (
        all.after,
        process_frames_plain pcm fuel buf n (n * size) (n * size) size c w he
              (takes_magic-builder c hk) (omega arith) (omega arith) ht
              (limited-within c (n * size) hl hm)
            ∙ ap
                (λ k.
                  bind_result (process_bytes pcm fuel k 0 (n * size) buf (c, w))
                    (count_bytes pcm fuel (n * size) size))
                hk
            ∙ rw (write_bytes pcm fuel (n * size) buf c w hb, all.result)
                (count_bytes_lem pcm fuel (n * size) size buf c all.after hp
                  ∙ ap (λ k. (ok (buf, k), (counted c (n * size), all.after)))
                      (mul-div_cancel n hp)),
        all.written,
        omega (arith, all.moved, length-take (n * size) buf),
      )

module _ ⦃os : Os⦄ (pcm : Pcm) (fuel : ℕ) (file : ReadLaws) where
  open file use {pending, patience}

  -- Within the limit, a parser that has no magic to hand out and is not interrupted stores the next
  -- bytes of the file at the front of the buffer: all that were asked for, or all that are left. It
  -- counts the whole request either way; it is at its end if the file was short, or at the limit. It
  -- was not at its end before, a frame has a byte at least, the bytes of the request fit 32 bits and the
  -- buffer, and there is enough fuel.
  pub parser_process_frames :
      (buf : List ℕ) (n size : ℕ) (c : Context) (w : os.World)
      → c.kind ≡ parser
      → takes_magic c ≡ false
      → c.eof ≡ false
      → c.interrupted ≡ false
      → c.bytes_per_sample * c.samples_per_frame ≡ size
      → 0 < size
      → size < 4294967296
      → n * size < 4294967296
      → n * size ≤ length buf
      → c.handled_byte_count + n * size ≤ c.max_size
      → c.max_size < 18446744073709551616
      → n * size + patience w < fuel
      → let got = take (n * size) (pending w) in
        (w' : os.World) × (container_context_process_frames pcm fuel buf n (c, w) ≡ (
          ok (got ++ drop (length got) buf, n),
          (counted (at_eof c (ltb (length (pending w)) (n * size))) (n * size), w'),
        ))
        × (pending w' ≡ drop (n * size) (pending w))
  parser_process_frames buf n size c w hk ht he hi hs hp hq hu hb hl hm hf =
      let all = container_recursive_read_lem file fuel (n * size) c w hi (omega arith) in
      let got = take (n * size) (pending w) in
      let c' = at_eof c (ltb (length (pending w)) (n * size)) in
      (
        all.after,
        process_frames_plain pcm fuel buf n (n * size) (n * size) size c w he ht (omega arith)
              (omega arith) hu (limited-within c (n * size) hl hm)
            ∙ ap
                (λ k.
                  bind_result (process_bytes pcm fuel k 0 (n * size) buf (c, w))
                    (count_bytes pcm fuel (n * size) size))
                hk
            ∙ rw (read_bytes pcm fuel (n * size) buf c w hb, all.result, zero-add)
                (count_bytes_lem pcm fuel (n * size) size (got ++ drop (length got) buf) c'
                    all.after hp
                  ∙ ap
                      (λ k.
                        (ok (got ++ drop (length got) buf, k), (counted c' (n * size), all.after)))
                      (mul-div_cancel n hp)),
        all.rest,
      )
