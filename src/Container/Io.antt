-- ===== src/Container/Io.antt =====
-- axfer/container.c: reads and writes that go on until all bytes are transferred, and seeking.
-- The loops end only when the kernel makes progress, so they take fuel, the number of rounds.
pub mod Read
pub mod Write
use alsa_utils.Common.{
  ℕ, zero, suc, ◌-◌, Bool, true, false, not, ◌&&◌, List, [], ◌∷◌, ◌++◌, length, drop, ltb, ◌==◌,
  if◌then◌else◌,
}
use alsa_utils.Axfer.Os.{
  Os, eintr, eio, is_eagain, ReadResult, got, failed, CallResult, value, error,
}
use alsa_utils.Axfer.Context.{Context, Res, ok, err, stuck, State, M}

-- The handler that may run during a call sets the flag.
abbrev pub signalled : Context → Bool → Context
signalled c true = record c { interrupted = true }
signalled c false = c

module _ ⦃os : Os⦄ where
  -- What one round of the loop does with the result of read(2). `dst` holds what was stored so far.
  pub read_round :
      (List ℕ → M (List ℕ)) → List ℕ → Context → ReadResult × Bool × os.World → Res (List ℕ) × State
  read_round more dst c (got [], sig, w) = (ok dst, (record (signalled c sig) { eof = true }, w))
  read_round more dst c (got (b ∷ bs), sig, w) = more (dst ++ (b ∷ bs)) (signalled c sig, w)
  read_round more dst c (failed e, sig, w) = elim ((signalled c sig).interrupted) [
    | true ↦ (err eintr, (signalled c sig, w))
    | false ↦ elim (is_eagain e) [
      | true ↦ more dst (signalled c sig, w)
      | false ↦ (err e, (signalled c sig, w))
    ]
  ]

  pub read_loop : ℕ → ℕ → List ℕ → M (List ℕ)
  read_loop zero byte_count dst s = (stuck, s)
  read_loop (suc fuel) byte_count dst (c, w) =
      elim (ltb (length dst) byte_count && not c.interrupted) [
        | false ↦ (ok dst, (c, w))
        | true ↦ read_round (read_loop fuel byte_count) dst c (os.read w (byte_count - length dst))
      ]

  -- The bytes that were stored: fewer than `byte_count` at the end of the file, which sets `eof`,
  -- and after an interrupt, which does not.
  unfoldable pub container_recursive_read : ℕ → ℕ → M (List ℕ)
  unfolding read_loop read_round
  container_recursive_read fuel byte_count = read_loop fuel byte_count []

  -- The same for write(2); `src` holds what is not yet written.
  pub write_round :
      (List ℕ → M (Unit {0}))
      → List ℕ
      → Context
      → CallResult × Bool × os.World
      → Res (Unit {0}) × State
  write_round more src c (value n, sig, w) = more (drop n src) (signalled c sig, w)
  write_round more src c (error e, sig, w) = elim ((signalled c sig).interrupted) [
    | true ↦ (err eintr, (signalled c sig, w))
    | false ↦ elim (is_eagain e) [
      | true ↦ more src (signalled c sig, w)
      | false ↦ (err e, (signalled c sig, w))
    ]
  ]

  pub write_loop : ℕ → List ℕ → M (Unit {0})
  write_loop zero src s = (stuck, s)
  write_loop (suc fuel) src (c, w) = elim (ltb 0 (length src) && not c.interrupted) [
    | false ↦ (ok tt, (c, w))
    | true ↦ write_round (write_loop fuel) src c (os.write w src)
  ]

  -- `buf[0..byte_count)` is the list.
  pub container_recursive_write : ℕ → List ℕ → M (Unit {0})
  unfolding write_loop write_round
  container_recursive_write fuel buf = write_loop fuel buf

  pub seek_result : ℕ → Context → CallResult × os.World → Res (Unit {0}) × State
  seek_result offset c (error e, w) = (err e, (c, w))
  seek_result offset c (value pos, w) = (if pos == offset then ok tt else err eio, (c, w))

  pub container_seek_offset : ℕ → M (Unit {0})
  unfolding seek_result
  container_seek_offset offset (c, w) = seek_result offset c (os.lseek_set w offset)
