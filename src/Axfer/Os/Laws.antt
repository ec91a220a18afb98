-- ===== src/Axfer/Os/Laws.antt =====
-- What the code relies on of the kernel, as hypotheses: a descriptor of a regular file that no
-- signal interrupts. `EAGAIN` may be answered, though not for ever, and a transfer may be short.
use alsa_utils.Common.{ℕ, suc, ◌+◌, ◌≤◌, ◌<◌, ◌≡◌, List, [], ◌∷◌, ◌++◌, length, take, false}
use alsa_utils.Axfer.Os.{Os, ReadResult, got, failed, CallResult, value, error, eagain}
use mathlib.Core.Bool.{Bool}
pub use alsa_utils.Common.{splice}

module _ ⦃os : Os⦄ where
  module _ (pending : os.World → List ℕ) (patience : os.World → ℕ) where
    -- One call of `read` for `n` bytes.
    pub data ReadStep (w : os.World) (n : ℕ) (r : ReadResult × Bool × os.World) : Type 0 where
      arrived :
          (b : ℕ) (bs : List ℕ) (w' : os.World)
          → r ≡ (got (b ∷ bs), false, w')
          → pending w ≡ (b ∷ bs) ++ pending w'
          → suc (length bs) ≤ n
          → patience w' ≤ patience w
          → ReadStep w n r
      at_end :
          (w' : os.World)
          → r ≡ (got [], false, w')
          → pending w ≡ []
          → pending w' ≡ []
          → patience w' ≤ patience w
          → ReadStep w n r
      again :
          (w' : os.World)
          → r ≡ (failed eagain, false, w')
          → pending w' ≡ pending w
          → patience w' < patience w
          → ReadStep w n r

    -- One call of `write` for `bs`, which is not empty.
    pub data WriteStep (offset : os.World → ℕ) (w : os.World) (bs : List ℕ)
        (r : CallResult × Bool × os.World) : Type 0 where
      stored :
          (k : ℕ) (w' : os.World)
          → r ≡ (value k, false, w')
          → 0 < k
          → k ≤ length bs
          → pending w' ≡ splice (pending w) (offset w) (take k bs)
          → offset w' ≡ offset w + k
          → patience w' ≤ patience w
          → WriteStep offset w bs r
      again :
          (w' : os.World)
          → r ≡ (error eagain, false, w')
          → pending w' ≡ pending w
          → offset w' ≡ offset w
          → patience w' < patience w
          → WriteStep offset w bs r

  -- `pending` is what the file still holds from the current offset on.
  pub record ReadLaws : Type 0 where
    pub pending : os.World → List ℕ
    pub patience : os.World → ℕ
    pub read_lem : (w : os.World) (n : ℕ) → 0 < n → ReadStep pending patience w n (os.read w n)

  pub record WriteLaws : Type 0 where
    pub contents : os.World → List ℕ
    pub offset : os.World → ℕ
    pub patience : os.World → ℕ
    pub write_lem :
        (w : os.World) (bs : List ℕ)
        → 0 < length bs
        → WriteStep contents patience offset w bs (os.write w bs)
    pub offset_lem : (w : os.World) → offset w ≤ length (contents w)
    pub lseek_lem :
        (w : os.World) (n : ℕ)
        → n ≤ length (contents w)
        → (w' : os.World) × (os.lseek_set w n ≡ (value n, w'))
          × (contents w' ≡ contents w)
          × (offset w' ≡ n)
          × (patience w' ≤ patience w)
