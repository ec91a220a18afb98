-- ===== src/Container/Tests/Machine.antt =====
-- A kernel to run the code on: one regular file that cannot be refused. A call moves at most three
-- bytes, and the first calls answer `EAGAIN`.
use alsa_utils.Common.{
  ℕ, zero, suc, ◌+◌, ◌-◌, ◌<◌, ◌≡◌, refl, sym, ap, Bool, true, false, List, [], ◌∷◌, ◌++◌, length,
  take, drop, min, arith, length-append, length-take, take-append_add, drop-append_add,
  take-append-drop, append-nil, append_assoc,
}
use alsa_utils.Axfer.Pcm.{
  Format, s8, u8, s16_le, s16_be, s32_le, s32_be, float_le, float_be, mu_law, a_law, CInt, pos,
  negsuc, Pcm,
}
use alsa_utils.Axfer.Os.{Os, ReadResult, got, failed, CallResult, value, error, eagain}
use alsa_utils.Axfer.Os.Laws.{
  ReadLaws, WriteLaws, ReadStep, arrived, at_end, WriteStep, stored, splice,
}

-- How often `EAGAIN` is answered yet, what stands before the offset, and what stands behind it.
pub record File : Type 0 where
  pub busy : ℕ
  pub front : List ℕ
  pub back : List ℕ

abbrev pub file : ℕ → List ℕ → List ℕ → File
file n front back = record { busy = n; front = front; back = back }

abbrev read_idle : List ℕ → List ℕ → ℕ → ReadResult × Bool × File
read_idle front [] n = (got [], false, file 0 front [])
read_idle front (x ∷ xs) n =
    let k = min n 3 - 1 in
    (got (x ∷ take k xs), false, file 0 (front ++ (x ∷ take k xs)) (drop k xs))

abbrev read_file : ℕ → List ℕ → List ℕ → ℕ → ReadResult × Bool × File
read_file zero front back n = read_idle front back n
read_file (suc m) front back n = (failed eagain, false, file m front back)

abbrev write_file : ℕ → List ℕ → List ℕ → List ℕ → CallResult × Bool × File
write_file zero front back bs =
    let k = min (length bs) 3 in (value k, false, file 0 (front ++ take k bs) (drop k back))
write_file (suc m) front back bs = (error eagain, false, file m front back)

instance abbrev pub file_os : Os
file_os = record {
  World = File;
  read = λ w n. read_file w.busy w.front w.back n;
  write = λ w bs. write_file w.busy w.front w.back bs;
  lseek_set =
      λ w n. (value n, file w.busy (take n (w.front ++ w.back)) (drop n (w.front ++ w.back)));
  getfl = λ w. value 0;
  setfl_nonblock = λ w flags. (value 0, w);
  fsync = λ w. w;
  isatty = λ w. false;
  fstat_size = λ w. value (length (w.front ++ w.back));
  malloc_fails = λ w n. false;
}

read_idle_lem :
    (front back : List ℕ) (n : ℕ)
    → 0 < n
    → ReadStep (λ w. w.back) (λ w. w.busy) (file 0 front back) n (read_idle front back n)
read_idle_lem front [] n h = at_end (file 0 front []) refl refl refl (omega arith)
read_idle_lem front (x ∷ xs) n h =
    let k = min n 3 - 1 in
    arrived x (take k xs) (file 0 (front ++ (x ∷ take k xs)) (drop k xs)) refl
      (ap (λ t. x ∷ t) (sym (take-append-drop k xs))) (omega (arith, length-take k xs))
      (omega arith)

pub read_file_lem :
    (m : ℕ) (front back : List ℕ) (n : ℕ)
    → 0 < n
    → ReadStep (λ w. w.back) (λ w. w.busy) (file m front back) n (read_file m front back n)
read_file_lem zero front back n h = read_idle_lem front back n h
read_file_lem (suc m) front back n h = ReadStep.again (file m front back) refl refl (omega arith)

abbrev pub file_reads : ReadLaws
file_reads = record {
  pending = λ w. w.back;
  patience = λ w. w.busy;
  read_lem = λ w n h. read_file_lem w.busy w.front w.back n h;
}

splice-zipper :
    (front back new : List ℕ) (k : ℕ)
    → length new ≡ k
    → (front ++ new) ++ drop k back ≡ splice (front ++ back) (length front) new
splice-zipper front back new k h = rw (
  take-append_add front back (length front) 0 (omega arith),
  append-nil,
  drop-append_add front back (length front + length new) k (omega arith),
  append_assoc,
)

pub write_file_lem :
    (m : ℕ) (front back bs : List ℕ)
    → 0 < length bs
    → WriteStep
        (λ w. w.front ++ w.back)
        (λ w. w.busy)
        (λ w. length w.front)
        (file m front back)
        bs
        (write_file m front back bs)
write_file_lem zero front back bs h =
    let k = min (length bs) 3 in
    stored k (file 0 (front ++ take k bs) (drop k back)) refl (omega arith) (omega arith)
      (splice-zipper front back (take k bs) k (omega (arith, length-take k bs)))
      (omega (arith, length-append front (take k bs), length-take k bs)) (omega arith)
write_file_lem (suc m) front back bs h =
    WriteStep.again (file m front back) refl refl refl (omega arith)

abbrev pub file_writes : WriteLaws
file_writes = record {
  contents = λ w. w.front ++ w.back;
  offset = λ w. length w.front;
  patience = λ w. w.busy;
  write_lem = λ w bs h. write_file_lem w.busy w.front w.back bs h;
  offset_lem = λ w. omega (arith, length-append w.front w.back);
  lseek_lem = λ w n h. (
    file w.busy (take n (w.front ++ w.back)) (drop n (w.front ++ w.back)),
    refl,
    take-append-drop n (w.front ++ w.back),
    omega (arith, length-take n (w.front ++ w.back)),
    omega arith,
  );
}

-- The answers of alsa-lib for the formats that the tests use.
abbrev width_of : Format → CInt
width_of s8 = pos 8
width_of u8 = pos 8
width_of s16_le = pos 16
width_of s16_be = pos 16
width_of s32_le = pos 32
width_of s32_be = pos 32
width_of float_le = pos 32
width_of float_be = pos 32
width_of mu_law = pos 8
width_of a_law = pos 8
width_of f = negsuc 21

abbrev order_of : Format → CInt
order_of s16_le = pos 0
order_of s16_be = pos 1
order_of s32_le = pos 0
order_of s32_be = pos 1
order_of float_le = pos 0
order_of float_be = pos 1
order_of f = negsuc 21

abbrev pub test_pcm : Pcm
test_pcm = record {
  width = width_of;
  physical_width = width_of;
  big_endian = order_of;
  in_range = λ f. true;
}
