-- ===== src/Container/Voc/Parse/Blocks.antt =====
-- How the parser of VOC files walks over the blocks of a file.
use alsa_utils.Common.{
  ℕ, zero, suc, ◌+◌, ◌-◌, ◌<◌, ◌≤◌, ◌≡◌, ◌≢◌, refl, ◌∙◌, true, false, some, List, [], ◌∷◌, ◌++◌,
  length, take, drop, replicate, leb, arith, lt→ltb, ◌==◌, take-all, drop-all, length-take,
  length-drop, take-append-drop, sym, length-replicate, append-nil,
}
use native.Mathlib.Decide.{dec_lt}
use alsa_utils.Common.Words.{byte_at}
use alsa_utils.Axfer.Os.{Os}
use alsa_utils.Axfer.Os.Laws.{ReadLaws}
use alsa_utils.Axfer.Context.{Context, ok, err, abort, stuck, fault, Res, State, M, bind_result}
use alsa_utils.Container.Io.{container_recursive_read}
use alsa_utils.Container.Io.Read.{container_recursive_read_lem, read_block}
use alsa_utils.Container.Voc.{parse_block_data_size}
use alsa_utils.Container.Voc.Parse.{
  no_block, block_size, allocate_for_block_cache, cache_typed_block, check_block_type,
  cache_data_block, handle_block, detect_round, detect_next, detect_loop,
}

-- A block of none of the types that hold a format or frames.
abbrev IsOther : List ℕ → Type 0
IsOther header =
    (byte_at header 0 ≢ 1)
    × (byte_at header 0 ≢ 2)
    × (byte_at header 0 ≢ 8)
    × (byte_at header 0 ≢ 9)

block_size-other :
    (header : List ℕ) → IsOther header → block_size header ≡ parse_block_data_size header 1
unfolding block_size
block_size-other header h = ground arith

module _ ⦃os : Os⦄ where
  bind_result-fault :
      {A B : Type 0} (r : Res A × State) (f : A → M B) → r.0 ≡ fault → (bind_result r f).0 ≡ fault
  bind_result-fault (ok a, s) f h = cc
  bind_result-fault (err e, s) f h = cc
  bind_result-fault (abort, s) f h = cc
  bind_result-fault (fault, s) f h = refl
  bind_result-fault (stuck, s) f h = cc

module _ ⦃os : Os⦄ (fuel : ℕ) where
  -- The header is copied to memory that is smaller than it.
  allocate_too_small :
      (header : List ℕ) (c : Context) (w : os.World)
      → IsOther header
      → parse_block_data_size header 1 < 4
      → os.malloc_fails w (parse_block_data_size header 1) ≡ false
      → (allocate_for_block_cache fuel header (c, w)).0 ≡ fault
  unfolding allocate_for_block_cache
  allocate_too_small header c w ho h hm = rw (block_size-other header ho, hm) (rw ge)
    where
      ge : leb 4 (parse_block_data_size header 1) ≡ false
      ge = ground arith

module _ ⦃os : Os⦄ (fuel : ℕ) (file : ReadLaws) where
  open file use {pending, patience}

  -- Of a block of such a type with four bytes of data or more, which the file holds, all but the last
  -- four are read, without an interrupt and with memory and enough fuel: the parser goes on four
  -- bytes before the next block.
  pub skipped_block_misaligned :
      (header front back : List ℕ) (c : Context) (w : os.World)
      → byte_at header 0 ≢ 1
      → byte_at header 0 ≢ 2
      → byte_at header 0 ≢ 8
      → byte_at header 0 ≢ 9
      → 4 ≤ parse_block_data_size header 1
      → length front + 4 ≡ parse_block_data_size header 1
      → pending w ≡ front ++ back
      → c.interrupted ≡ false
      → c.eof ≡ false
      → os.malloc_fails w (parse_block_data_size header 1) ≡ false
      → parse_block_data_size header 1 + patience w < fuel
      → (w' : os.World) × (allocate_for_block_cache fuel header (c, w)
          ≡ (ok (record { header = header; block = some (header ++ front) }), (c, w')))
        × (pending w' ≡ back)
  unfolding allocate_for_block_cache
  skipped_block_misaligned header front back c w h₁ h₂ h₃ h₄ h hl hp hi he hm hf =
      let blk =
        read_block file fuel (parse_block_data_size header 1 - 4) front back c w hi hp (omega arith)
          (omega arith) in
      (
        blk.after,
        rw (block_size-other header (h₁, h₂, h₃, h₄), hm)
            (rw (ge, blk.result) (simp he (rw (zeros, append-nil)))),
        blk.left,
      )
    where
      ge : leb 4 (parse_block_data_size header 1) ≡ true
      ge = ground arith

      zeros : drop {A = ℕ} (length front) (replicate (parse_block_data_size header 1 - 4) 0) ≡ []
      zeros =
          drop-all (length front) _
            (omega (arith, length-replicate {A = ℕ} (parse_block_data_size header 1 - 4) 0))

  abbrev ended : Context → Context
  ended c = record c { eof = true }

  -- At the end of the file a round leaves the header of an extended block, and goes back.
  detect_round_at_end :
      (t : List ℕ) (c : Context) (w : os.World)
      → pending w ≡ []
      → c.interrupted ≡ false
      → 1 + patience w < fuel
      → (w' : os.World) × (detect_round fuel (8 ∷ t) (c, w) ≡ (ok (8 ∷ t, true), (ended c, w')))
        × (pending w' ≡ [])
        × (patience w' ≤ patience w)
  unfolding detect_round cache_data_block handle_block
  detect_round_at_end t c w hp hi hf =
      let all = container_recursive_read_lem file fuel 1 c w hi hf in
      (all.after, rw (all.result, hp), all.rest ∙ rw hp, all.calmer)

  detect_loop_at_end :
      (rounds : ℕ) (t : List ℕ) (c : Context) (w : os.World)
      → pending w ≡ []
      → c.interrupted ≡ false
      → 1 + patience w < fuel
      → (detect_loop fuel rounds (8 ∷ t) (c, w)).0 ≡ stuck
  unfolding detect_loop detect_next
  detect_loop_at_end zero t c w hp hi hf = refl
  detect_loop_at_end (suc rounds) t c w hp hi hf =
      let (w', e, p, q) = detect_round_at_end t c w hp hi hf in
      rw e (detect_loop_at_end rounds t (ended c) w' p hi (omega arith))

  -- What a read that is short leaves.
  read_short :
      (n : ℕ) (c : Context) (w : os.World)
      → length (pending w) < n
      → c.interrupted ≡ false
      → n + patience w < fuel
      → (w' : os.World) × (container_recursive_read fuel n (c, w) ≡ (ok (pending w), (ended c, w')))
        × (pending w' ≡ [])
        × (patience w' ≤ patience w)
  read_short n c w h hi hf =
      let all = container_recursive_read_lem file fuel n c w hi hf in
      (
        all.after,
        all.result ∙ rw (lt→ltb (length (pending w)) n h, take-all n (pending w) (omega arith)),
        all.rest ∙ drop-all n (pending w) (omega arith),
        all.calmer,
      )

  -- The body of an extended block is short.
  allocate_short :
      (u : List ℕ) (c : Context) (w : os.World)
      → length (pending w) < 4
      → c.interrupted ≡ false
      → os.malloc_fails w 8 ≡ false
      → 4 + patience w < fuel
      → (w' : os.World) × (allocate_for_block_cache fuel (8 ∷ u) (c, w)
          ≡ (ok (no_block (8 ∷ u)), (ended c, w')))
        × (pending w' ≡ [])
        × (patience w' ≤ patience w)
  unfolding allocate_for_block_cache block_size
  allocate_short u c w h hi hm hf =
      let (w', e, p, q) = read_short 4 c w h hi hf in (w', rw (hm, e), p, q)

  -- The size, or the body, of an extended block is short.
  typed_block_short :
      (t : List ℕ) (c : Context) (w : os.World)
      → length (pending w) < 7
      → c.interrupted ≡ false
      → c.eof ≡ false
      → ((v : os.World) → os.malloc_fails v 8 ≡ false)
      → 4 + patience w < fuel
      → (t' : List ℕ) × (w' : os.World) × (cache_typed_block fuel (8 ∷ t) (c, w)
          ≡ (ok (no_block (8 ∷ t')), (ended c, w')))
        × (pending w' ≡ [])
        × (patience w' ≤ patience w)
  unfolding cache_typed_block
  typed_block_short t c w h hi he hm hf = elim (dec_lt (length (pending w)) 3) [
    | yes l ↦
        let (w', e, p, q) = read_short 3 c w l hi (omega arith) in
        (pending w ++ drop (1 + length (pending w)) (8 ∷ t), w', rw e, p, q)
    | no l ↦
        let size = take 3 (pending w) in
        let u = size ++ drop (1 + length size) (8 ∷ t) in
        let blk =
          read_block file fuel 3 size (drop 3 (pending w)) c w hi
            (sym (take-append-drop 3 (pending w))) (omega (arith, length-take 3 (pending w)))
            (omega arith) in
        let (w', e, p, q) =
          allocate_short u c blk.after (rw blk.left (omega (arith, length-drop 3 (pending w)))) hi
            (hm blk.after) (omega (arith, blk.calmer)) in
        (u, w', rw blk.result (simp he e), p, omega (arith, blk.calmer))
  ]

  -- A file that ends inside an extended block keeps the parser going back to the start of its loop:
  -- no number of rounds is enough. There is no interrupt, the end of the file was not met before,
  -- malloc gives the eight bytes, and there is fuel for each read.
  pub detect_loop_truncated :
      (rounds : ℕ) (header rest : List ℕ) (c : Context) (w : os.World)
      → pending w ≡ 8 ∷ rest
      → length rest < 7
      → c.interrupted ≡ false
      → c.eof ≡ false
      → ((v : os.World) → os.malloc_fails v 8 ≡ false)
      → 4 + patience w < fuel
      → (detect_loop fuel rounds header (c, w)).0 ≡ stuck
  unfolding detect_loop detect_next detect_round cache_data_block check_block_type handle_block
  detect_loop_truncated zero header rest c w hp hl hi he hm hf = refl
  detect_loop_truncated (suc rounds) header rest c w hp hl hi he hm hf =
      let blk = read_block file fuel 1 (8 ∷ []) rest c w hi hp refl (omega arith) in
      let (t, w', e, p, q) =
        typed_block_short (drop 1 header) c blk.after (rw blk.left hl) hi he hm
          (omega (arith, blk.calmer)) in
      rw blk.result
        (simp (he, e) (detect_loop_at_end rounds t (ended c) w' p hi (omega (arith, blk.calmer))))

  -- The size of a block behind its type is read, and the block gets too little memory.
  typed_block_too_small :
      (type s0 s1 s2 : ℕ) (t rest : List ℕ) (c : Context) (w : os.World)
      → pending w ≡ s0 ∷ s1 ∷ s2 ∷ rest
      → 3 ≤ type
      → type ≤ 7
      → parse_block_data_size (s0 ∷ s1 ∷ s2 ∷ []) 0 < 4
      → c.interrupted ≡ false
      → c.eof ≡ false
      → ((v : os.World) (n : ℕ) → n < 4 → os.malloc_fails v n ≡ false)
      → 3 + patience w < fuel
      → (cache_typed_block fuel (type ∷ t) (c, w)).0 ≡ fault
  unfolding cache_typed_block
  typed_block_too_small type s0 s1 s2 t rest c w hp ht hu hs hi he hm hf =
      let blk = read_block file fuel 3 (s0 ∷ s1 ∷ s2 ∷ []) rest c w hi hp refl hf in
      rw blk.result (
        simp he (
          allocate_too_small fuel (type ∷ s0 ∷ s1 ∷ s2 ∷ drop 3 t) c blk.after
            (λ e. omega arith, λ e. omega arith, λ e. omega arith, λ e. omega arith) hs
            (hm blk.after _ hs)))

  -- The search for the format of a file whose next block is of one of the types from 3 (silence) to
  -- 7 (the end of a repetition), with a size below four bytes in its header, copies the header past
  -- the end of the memory for the block. There is no interrupt, the end of the file was not met,
  -- malloc gives the few bytes, and there is fuel for the reads and for a round.
  pub detect_loop_small_block :
      (rounds type s0 s1 s2 : ℕ) (header rest : List ℕ) (c : Context) (w : os.World)
      → pending w ≡ type ∷ s0 ∷ s1 ∷ s2 ∷ rest
      → 3 ≤ type
      → type ≤ 7
      → parse_block_data_size (s0 ∷ s1 ∷ s2 ∷ []) 0 < 4
      → c.interrupted ≡ false
      → c.eof ≡ false
      → ((v : os.World) (n : ℕ) → n < 4 → os.malloc_fails v n ≡ false)
      → 3 + patience w < fuel
      → (detect_loop fuel (suc rounds) header (c, w)).0 ≡ fault
  unfolding detect_loop detect_next detect_round cache_data_block check_block_type handle_block
  detect_loop_small_block rounds type s0 s1 s2 header rest c w hp ht hu hs hi he hm hf =
      let blk =
        read_block file fuel 1 (type ∷ []) (s0 ∷ s1 ∷ s2 ∷ rest) c w hi hp refl (omega arith) in
      rw blk.result (
        simp (he, le, nt)
          (bind_result-fault _ _ (
            bind_result-fault _ _ (
              typed_block_too_small type s0 s1 s2 (drop 1 header) rest c blk.after blk.left ht hu hs
                hi he hm (omega (arith, blk.calmer))))))
    where
      le : leb type 9 ≡ true
      le = ground arith

      nt : (type == 0) ≡ false
      nt = ground arith
