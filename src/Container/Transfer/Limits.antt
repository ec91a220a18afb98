-- ===== src/Container/Transfer/Limits.antt =====
-- Where the limit of a container does not fit the transfer.
use alsa_utils.Common.{
  ℕ, ◌+◌, ◌-◌, ◌*◌, ◌≤◌, ◌<◌, ◌≡◌, ◌∙◌, ap, false, List, length, take, arith, length-take, leb,
  if◌then◌else◌,
}
use native.Mathlib.Nat.{mul-div_cancel}
use alsa_utils.Axfer.Pcm.{Pcm}
use alsa_utils.Axfer.Os.{Os}
use alsa_utils.Axfer.Os.Laws.{WriteLaws, splice}
use alsa_utils.Axfer.Context.{Context, builder, ok, bind_result}
use alsa_utils.Container.Io.Write.{container_recursive_write_lem}
use alsa_utils.Container.Transfer.{
  process_bytes, limited, count_bytes, container_context_process_frames,
}
use alsa_utils.Container.Transfer.Frames.{
  counted, process_frames_plain, takes_magic-builder, count_bytes_lem, write_bytes,
}

-- How many bytes of a request that passes the limit are written: where the request alone is more
-- than the limit, the difference in the code's test wraps around, and nothing is cut.
abbrev pub written_past : Context → ℕ → ℕ
written_past c t = if leb t c.max_size then c.max_size - c.handled_byte_count else t

limited-past :
    (c : Context) (t : ℕ)
    → c.handled_byte_count ≤ c.max_size
    → c.max_size < c.handled_byte_count + t
    → t < 4294967296
    → c.max_size < 18446744073709551616
    → limited c t ≡ written_past c t
unfolding limited
limited-past c t h₁ h₂ h₃ h₄ = ground arith

written_past-bound :
    (c : Context) (t : ℕ) → c.max_size < c.handled_byte_count + t → written_past c t ≤ t
written_past-bound c t h = ground arith

module _ ⦃os : Os⦄ (pcm : Pcm) (fuel : ℕ) (file : WriteLaws) where
  open file use {contents, offset, patience}

  -- A builder that is neither interrupted nor at its end is called with frames of at least a byte
  -- each, which its buffer holds. What it handled is within the limit, and the frames pass it; their
  -- bytes fit 32 bits, and with what was handled 64. With enough fuel, only what still fits is written
  -- if the frames alone are no more bytes than the limit, and all of them, past the limit, if they
  -- are more. The call reports all frames in both cases, counts past the limit, and does not come to
  -- the end.
  pub builder_passes_limit :
      (buf : List ℕ) (n size : ℕ) (c : Context) (w : os.World)
      → c.kind ≡ builder
      → c.eof ≡ false
      → c.interrupted ≡ false
      → c.bytes_per_sample * c.samples_per_frame ≡ size
      → 0 < size
      → size < 4294967296
      → n * size < 4294967296
      → n * size ≤ length buf
      → c.handled_byte_count ≤ c.max_size
      → c.max_size < c.handled_byte_count + n * size
      → c.handled_byte_count + n * size < 18446744073709551616
      → n * size + patience w < fuel
      → let room = written_past c (n * size) in
        (c' : Context) × (w' : os.World) × (container_context_process_frames pcm fuel buf n (c, w)
          ≡ (ok (buf, n), (c', w')))
        × (contents w' ≡ splice (contents w) (offset w) (take room buf))
        × (c.max_size < c'.handled_byte_count)
        × (c'.eof ≡ false)
  builder_passes_limit buf n size c w hk he hi hs hp hq ht hb h₁ h₂ h₄ hf =
      let room = written_past c (n * size) in
      let le = written_past-bound c (n * size) h₂ in
      let all =
        container_recursive_write_lem file fuel (take room buf) c w hi
          (omega (arith, length-take room buf)) in
      (
        counted c (n * size),
        all.after,
        process_frames_plain pcm fuel buf n (n * size) room size c w he (takes_magic-builder c hk)
              (omega arith) (omega arith) ht (limited-past c (n * size) h₁ h₂ ht (omega arith))
            ∙ ap
                (λ k.
                  bind_result (process_bytes pcm fuel k 0 room buf (c, w))
                    (count_bytes pcm fuel (n * size) size))
                hk
            ∙ rw (write_bytes pcm fuel room buf c w (omega arith), all.result)
                (count_bytes_lem pcm fuel (n * size) size buf c all.after hp
                  ∙ ap (λ k. (ok (buf, k), (counted c (n * size), all.after)))
                      (mul-div_cancel n hp)),
        all.written,
        omega arith,
        ground arith,
      )
