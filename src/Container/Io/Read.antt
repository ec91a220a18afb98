-- ===== src/Container/Io/Read.antt =====
-- `container_recursive_read` on a file: it ends, and hands over what the file holds next.
use alsa_utils.Common.{
  ℕ, zero, suc, ◌+◌, ◌-◌, ◌≤◌, ◌<◌, ◌≡◌, refl, Bool, true, false, List, [], ◌∷◌, ◌++◌, length, take,
  drop, ltb, arith, length-append, take-append_le, drop-append_le, take-append_add, drop-append_add,
  append-nil, append_assoc, le→ltb, lt→ltb, take-all, drop-all, sym, ◌∙◌,
}
use alsa_utils.Axfer.Os.{Os, ReadResult, failed, eagain}
use alsa_utils.Axfer.Os.Laws.{ReadLaws, ReadStep, arrived, at_end, again}
use alsa_utils.Axfer.Context.{Context, Res, ok, State}
use alsa_utils.Container.Io.{read_loop, read_round, container_recursive_read}

-- The flag after a read that was short of bytes, or not.
abbrev pub at_eof : Context → Bool → Context
at_eof c true = record c { eof = true }
at_eof c false = c

-- The rounds of the loop as equations.
module _ ⦃os : Os⦄ (n : ℕ) (dst : List ℕ) (c : Context) (w : os.World) where
  read_loop_stops :
      (fuel : ℕ) → n ≤ length dst → read_loop (suc fuel) n dst (c, w) ≡ (ok dst, (c, w))
  unfolding read_loop
  read_loop_stops fuel h = rw (le→ltb (length dst) n h, read_loop)

  read_loop_goes_on :
      (fuel k : ℕ)
      → c.interrupted ≡ false
      → n ≡ length dst + suc k
      → read_loop (suc fuel) n dst (c, w) ≡ read_round (read_loop fuel n) dst c (os.read w (suc k))
  unfolding read_loop
  read_loop_goes_on fuel k hi hn =
      rw (lt→ltb (length dst) n (omega arith), read_loop, ← sub_lem) (simp (hi, read_loop))
    where
      sub_lem : n - length dst ≡ suc k
      sub_lem = omega arith

  read_round_again :
      (more : List ℕ → State → Res (List ℕ) × State)
      → c.interrupted ≡ false
      → read_round more dst c (failed eagain, false, w) ≡ more dst (c, w)
  unfolding read_round
  read_round_again more hi = simp (hi, read_round)

ltb-sub : (a b k : ℕ) → b ≤ k → ltb a (k - b) ≡ ltb (b + a) k
ltb-sub a b k h = ground arith

module _ ⦃os : Os⦄ (file : ReadLaws) where
  open file use {pending, patience, read_lem}

  -- How the loop ends that has stored `dst` and wants `k` bytes more.
  pub record ReadAll (k : ℕ) (dst : List ℕ) (c : Context) (w : os.World)
      (out : Res (List ℕ) × State) : Type 0 where
    pub after : os.World
    pub result :
        out ≡ (ok (dst ++ take k (pending w)), (at_eof c (ltb (length (pending w)) k), after))
    pub rest : pending after ≡ drop k (pending w)
    pub calmer : patience after ≤ patience w

  -- Nothing is wanted any more.
  ReadAll-done : (dst : List ℕ) (c : Context) (w : os.World) → ReadAll 0 dst c w (ok dst, (c, w))
  ReadAll-done dst c w = record {
    after = w;
    result = rw (append-nil, le→ltb (length (pending w)) 0 (omega arith));
    rest = refl;
    calmer = omega arith;
  }

  -- The file ends before the bytes that are wanted.
  ReadAll-end :
      (k : ℕ) (dst : List ℕ) (c : Context) (w w' : os.World)
      → 0 < k
      → pending w ≡ []
      → pending w' ≡ []
      → patience w' ≤ patience w
      → ReadAll k dst c w (ok dst, (at_eof c true, w'))
  ReadAll-end k dst c w w' hk p p' q = record {
    after = w';
    result = rw (p, take-all {A = ℕ} k [] (omega arith), append-nil, lt→ltb 0 k hk);
    rest = rw (p, p', drop-all {A = ℕ} k [] (omega arith));
    calmer = q;
  }

  -- Bytes arrive, and the rest of the loop ends well.
  ReadAll-more :
      (k : ℕ) (dst new : List ℕ) (c : Context) (w w' : os.World) {out : Res (List ℕ) × State}
      → pending w ≡ new ++ pending w'
      → length new ≤ k
      → patience w' ≤ patience w
      → ReadAll (k - length new) (dst ++ new) c w' out
      → ReadAll k dst c w out
  ReadAll-more k dst new c w w' p l q all = record {
    after = all.after;
    result =
        all.result
        ∙ rw (
          p,
          take-append_le new (pending w') k l,
          append_assoc,
          length-append,
          ltb-sub _ (length new) k l,
        );
    rest = all.rest ∙ rw (p, drop-append_le new (pending w') k l);
    calmer = omega (arith, all.calmer);
  }

  module _ (fuel n k : ℕ) (dst : List ℕ) (c : Context) (w : os.World)
      (hi : c.interrupted ≡ false) where
    -- One round, given what the rest of the loop does.
    ReadAll-round :
        (r : ReadResult × Bool × os.World)
        → 0 < k
        → ReadStep pending patience w k r
        → ((j : ℕ) (dst' : List ℕ) (w' : os.World)
            → length dst' + j ≡ length dst + k
            → j + patience w' < k + patience w
            → ReadAll j dst' c w' (read_loop fuel n dst' (c, w')))
        → ReadAll k dst c w (read_round (read_loop fuel n) dst c r)
    unfolding read_round
    ReadAll-round r hk (arrived b bs w' e p l q) ih = rw e (
        ReadAll-more k dst (b ∷ bs) c w w' p l q (
          ih (k - suc (length bs)) (dst ++ (b ∷ bs)) w' (omega (arith, length-append dst (b ∷ bs)))
            (omega arith)))
    ReadAll-round r hk (at_end w' e p p' q) ih = rw e (ReadAll-end k dst c w w' hk p p' q)
    ReadAll-round r hk (again w' e p q) ih =
        rw (e, read_round_again n dst c w' (read_loop fuel n) hi)
          (ReadAll-more k dst [] c w w' (sym p) (omega arith) (omega arith)
            (rw append-nil (ih (k - 0) dst w' (omega arith) (omega arith))))

  ReadAll-loop :
      (fuel n k : ℕ) (dst : List ℕ) (c : Context) (w : os.World)
      → c.interrupted ≡ false
      → n ≡ length dst + k
      → k + patience w < fuel
      → ReadAll k dst c w (read_loop fuel n dst (c, w))
  ReadAll-loop zero n k dst c w hi hn hf = absurd (omega arith)
  ReadAll-loop (suc fuel) n zero dst c w hi hn hf =
      rw (read_loop_stops n dst c w fuel (omega arith)) (ReadAll-done dst c w)
  ReadAll-loop (suc fuel) n (suc k) dst c w hi hn hf =
      rw (read_loop_goes_on n dst c w fuel k hi hn) (
        ReadAll-round fuel n (suc k) dst c w hi _ (omega arith) (read_lem w (suc k) (omega arith))
          (λ j dst' w' e l. ReadAll-loop fuel n j dst' c w' hi (omega arith) (omega arith)))

  -- With fuel for the bytes and for every `EAGAIN`, and no interrupt, the read ends well: it hands
  -- over the next `n` bytes, or all that are left, and sets `eof` exactly when these are fewer.
  pub container_recursive_read_lem :
      (fuel n : ℕ) (c : Context) (w : os.World)
      → c.interrupted ≡ false
      → n + patience w < fuel
      → ReadAll n [] c w (container_recursive_read fuel n (c, w))
  unfolding container_recursive_read
  container_recursive_read_lem fuel n c w hi hf = ReadAll-loop fuel n n [] c w hi (omega arith) hf

  -- The read of a block that the file holds.
  pub record ReadBlock (block rest : List ℕ) (c : Context) (w : os.World)
      (out : Res (List ℕ) × State) : Type 0 where
    pub after : os.World
    pub result : out ≡ (ok block, (c, after))
    pub left : pending after ≡ rest
    pub calmer : patience after ≤ patience w

  pub read_block :
      (fuel n : ℕ) (block rest : List ℕ) (c : Context) (w : os.World)
      → c.interrupted ≡ false
      → pending w ≡ block ++ rest
      → length block ≡ n
      → n + patience w < fuel
      → ReadBlock block rest c w (container_recursive_read fuel n (c, w))
  read_block fuel n block rest c w hi p l hf = record {
    after = all.after;
    result =
        all.result
        ∙ rw (p, whole)
            (rw (le→ltb (length (block ++ rest)) n (omega (arith, length-append block rest))));
    left = all.rest ∙ rw (p, drop-append_add block rest n 0 (omega arith));
    calmer = all.calmer;
  }
    where
      all : ReadAll n [] c w (container_recursive_read fuel n (c, w))
      all = container_recursive_read_lem fuel n c w hi hf

      whole : take n (block ++ rest) ≡ block
      whole = take-append_add block rest n 0 (omega arith) ∙ append-nil block
