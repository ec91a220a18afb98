-- ===== src/Axfer/Os.antt =====
-- The system calls that axfer/container*.c makes on the one descriptor of a container.
-- They are an argument of the model; `World` is whatever the kernel knows of that descriptor.
pub mod Laws
use alsa_utils.Common.{ℕ, Bool, true, false, List}

-- The values of `errno` that the sources name, and every other one by its number.
pub data Errno : Type 0 where
  eintr eio eagain enomem einval : Errno
  other : ℕ → Errno

abbrev pub is_eagain : Errno → Bool
is_eagain eagain = true
is_eagain e = false

-- read(2): the bytes that were stored, or -1 with `errno`.
pub data ReadResult : Type 0 where
  got : List ℕ → ReadResult
  failed : Errno → ReadResult

-- write(2), lseek(2), fstat(2): a number, or -1 with `errno`.
pub data CallResult : Type 0 where
  value : ℕ → CallResult
  error : Errno → CallResult

-- The flag beside the result of `read` and `write` says whether a signal handler of the program,
-- which sets `cntr->interrupted`, ran during the call.
pub record Os : Type 1 where
  pub World : Type 0
  pub read : World → ℕ → ReadResult × Bool × World
  pub write : World → List ℕ → CallResult × Bool × World
  pub lseek_set : World → ℕ → CallResult × World
  pub getfl : World → CallResult
  pub setfl_nonblock : World → ℕ → CallResult × World
  pub fsync : World → World
  pub isatty : World → Bool
  pub fstat_size : World → CallResult
  pub malloc_fails : World → ℕ → Bool
