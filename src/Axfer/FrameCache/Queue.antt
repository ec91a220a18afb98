-- ===== src/Axfer/FrameCache/Queue.antt =====
-- The cache is a queue: what is consumed is taken from its front.
use alsa_utils.Common.{
  ℕ, zero, suc, ◌+◌, ◌-◌, ◌*◌, ◌≤◌, ◌<◌, ◌≡◌, refl, ◌∙◌, ap, ap₂, true, some, List, [], ◌∷◌, ◌++◌,
  map, All, length, take, drop, leb, arith, length-append, length-take, length-drop,
  take-append_add, append-nil,
}
use alsa_utils.Common.Words.{u32, sub_u32}
use alsa_utils.Axfer.FrameCache.{Buffer, FrameCache, move_all, unit_size, frame_cache_reduce}

-- The first bytes of a buffer.
abbrev pub held : ℕ → Buffer → List ℕ
held size b = take size (b.0)

-- What each buffer holds of the frames that remain.
abbrev pub cached : FrameCache → List (List ℕ)
cached c = map (held (unit_size c * c.remained_count)) c.bufs

abbrev pub HasRoom : ℕ → Buffer → Type 0
HasRoom room b = length (b.0) ≡ room

abbrev pub PointsTo : ℕ → Buffer → Type 0
PointsTo size b = b.1 ≡ size

-- Each buffer has room for all frames, and no more remain than it has room for.
pub record IsCache (c : FrameCache) : Type 0 where
  pub counted : c.remained_count ≤ c.frames_per_cache
  pub few : c.frames_per_cache < 4294967296
  pub fits : unit_size c * c.frames_per_cache < 4294967296
  pub buffers : All (HasRoom (unit_size c * c.frames_per_cache)) c.bufs

take-take-drop :
    (offset size filled : ℕ) (xs : List ℕ)
    → offset + size ≡ filled
    → filled ≤ length xs
    → take size (drop offset xs) ≡ drop offset (take filled xs)
take-take-drop zero size filled xs e h = ap (λ n. take n xs) (omega arith)
take-take-drop (suc offset) size filled [] e h = absurd (omega arith)
take-take-drop (suc offset) size zero (x ∷ xs) e h = absurd (omega arith)
take-take-drop (suc offset) size (suc filled) (x ∷ xs) e h =
    take-take-drop offset size filled xs (omega arith) (omega arith)

module _ (room offset size : ℕ) (fits : offset + size ≤ room) where
  abbrev pub moved : List ℕ → List ℕ
  moved buf = take size (drop offset buf) ++ drop size buf

  pub length-moved : (buf : List ℕ) → length buf ≡ room → length (moved buf) ≡ room
  length-moved buf h = omega (
    arith,
    length-append (take size (drop offset buf)) (drop size buf),
    length-take size (drop offset buf),
    length-drop offset buf,
    length-drop size buf,
  )

  pub take-moved :
      (buf : List ℕ)
      → length buf ≡ room
      → take size (moved buf) ≡ drop offset (take (offset + size) buf)
  take-moved buf h =
      take-append_add (take size (drop offset buf)) (drop size buf) size 0
        (omega (arith, length-take size (drop offset buf), length-drop offset buf))
      ∙ append-nil (take size (drop offset buf))
      ∙ take-take-drop offset size (offset + size) buf refl (omega arith)

  move_all_lem :
      (bufs : List Buffer)
      → All (HasRoom room) bufs
      → (bufs' : List Buffer) × (move_all offset size bufs ≡ some bufs')
        × All (HasRoom room) bufs'
        × All (PointsTo size) bufs'
        × (map (held size) bufs' ≡ map (drop offset) (map (held (offset + size)) bufs))
  unfolding move_all
  move_all_lem [] h = ([], refl, tt, tt, refl)
  move_all_lem ((buf, ptr) ∷ bufs) (l, h) =
      let (bufs', e, ok', at, m) = move_all_lem bufs h in
      (
        (moved buf, size) ∷ bufs',
        rw (in_bounds, e),
        (length-moved buf l, ok'),
        (refl, at),
        ap₂ (λ x xs. x ∷ xs) (take-moved buf l) m,
      )
    where
      in_bounds : leb (offset + size) (length buf) ≡ true
      in_bounds = ground arith

pub mul_le : (u a b : ℕ) → a ≤ b → u * a ≤ u * b
mul_le u a b h = omega (arith, ap (λ t. u * t) split)
  where
    split : b ≡ a + (b - a)
    split = omega arith

pub split_size : (u r n : ℕ) → n ≤ r → u * n + u * (r - n) ≡ u * r
split_size u r n h = omega (arith, ap (λ t. u * t) split)
  where
    split : r ≡ n + (r - n)
    split = omega arith

pub u32_below : (x y : ℕ) → x ≤ y → y < 4294967296 → u32 x ≡ x
u32_below x y h l = omega arith

-- For a cache whose buffers have room for all its frames, and no more frames than remain, wherever
-- its pointers are: the move stays inside the buffers, takes the bytes of the consumed frames from
-- the front of what each buffer holds, counts the rest, sets each pointer behind what is left, and
-- leaves a cache of this kind.
pub frame_cache_reduce_lem :
    (c : FrameCache) (n : ℕ)
    → IsCache c
    → n ≤ c.remained_count
    → (c' : FrameCache) × (frame_cache_reduce c n ≡ some c')
      × IsCache c'
      × (cached c' ≡ map (drop (unit_size c * n)) (cached c))
      × (c'.remained_count ≡ c.remained_count - n)
      × All (PointsTo (unit_size c * (c.remained_count - n))) c'.bufs
unfolding frame_cache_reduce
frame_cache_reduce_lem c n ok h =
    let u = unit_size c in
    let k = c.remained_count - n in
    let bound = mul_le u c.remained_count c.frames_per_cache ok.counted in
    let total = split_size u c.remained_count n h in
    let (bufs', e, all', at, m) =
      move_all_lem (u * c.frames_per_cache) (u * n) (u * k) (omega arith) c.bufs ok.buffers in
    (
      record c { remained_count = k; bufs = bufs' },
      rw (
        remaining,
        u32_below (u * n) (u * c.frames_per_cache) (omega arith) ok.fits,
        u32_below (u * k) (u * c.frames_per_cache) (omega arith) ok.fits,
        e,
      ),
      record { counted = omega arith; few = ok.few; fits = ok.fits; buffers = all' },
      m ∙ ap (λ size. map (drop (u * n)) (map (held size) c.bufs)) total,
      refl,
      at,
    )
  where
    remaining : sub_u32 c.remained_count n ≡ c.remained_count - n
    remaining = omega (arith, ok.counted, ok.few)
