-- ===== src/Loop/Tests.antt =====
-- The theorems on alsaloop at concrete inputs, on PCMs that can be run.
use alsa_utils.Common.{
  ℕ, zero, suc, ◌<◌, ◌≡◌, refl, sym, ap, Bool, true, false, Option, none, some, List, [], ◌∷◌, ◌++◌,
  length, take, drop, length-take, arith, ltb, if◌then◌else◌,
}
use alsa_utils.Loop.State.{
  Side, play, capt, Sframes, frames, error, ReadFrames, got, Device, Handle, Loopback, epipe,
}
use alsa_utils.Loop.Io.{
  at_once, take_in, put_out, readit_round, readit_loop, read_avail, read_started, readit,
  count_stop, written, writeit_round, writeit_loop, write_started, writeit,
}
use alsa_utils.Loop.Pass.{buf_add, buf_remove, after_write, after_read, transfer}
use alsa_utils.Loop.Ring.{Ring}
use alsa_utils.Loop.Laws.{DeviceLaws, Inv, Same, Read, Wrote}
use alsa_utils.Loop.Keeps.{transfer_lem}

-- PCMs with the frames to come, those that were read and written, and an underrun to be found.
data Pcms : Type 0 where
  pcms : List ℕ → List ℕ → List ℕ → Bool → Pcms

abbrev given_up : Pcms → List ℕ
given_up (pcms input taken played underrun) = taken

abbrev heard : Pcms → List ℕ
heard (pcms input taken played underrun) = played

abbrev ready : Side → Pcms → ℕ
ready play p = 5
ready capt (pcms input taken played underrun) = if ltb (length input) 6 then length input else 6

abbrev read : Pcms → ℕ → ReadFrames × Pcms
read (pcms input taken played underrun) n =
    (got (take n input), pcms (drop n input) (taken ++ take n input) played underrun)

abbrev write : Pcms → List ℕ → Sframes × Pcms
write (pcms input taken played true) xs = (error epipe, pcms input taken played true)
write (pcms input taken played false) xs =
    (frames (length (take 3 xs)), pcms input taken (played ++ take 3 xs) false)

abbrev restart : Pcms → Pcms
restart (pcms input taken played underrun) = pcms input taken played false

abbrev machine : Device
machine = record {
  World = Pcms;
  avail_update = λ side p. (frames (ready side p), p);
  readi = read;
  writei = write;
  prepare = λ side p. (none, restart p);
  resume = λ side p. (none, p);
  is_draining = λ p. false;
  set_avail_min = λ n p. (frames n, p);
  sw_params = λ p. (none, p);
}

take-take-length : (n : ℕ) (xs : List ℕ) → take (length (take n xs)) xs ≡ take n xs
take-take-length zero xs = refl
take-take-length (suc n) [] = refl
take-take-length (suc n) (x ∷ xs) = ap (λ t. x ∷ t) (take-take-length n xs)

abbrev machine_laws : DeviceLaws ⦃device = machine⦄
machine_laws = record {
  taken = given_up;
  played = heard;
  avail_update_lem = avails;
  readi_lem = reads;
  writei_lem = writes;
  prepare_lem = λ side p. restarts p;
  set_avail_min_lem = λ n p. (refl, refl);
  sw_params_lem = λ p. (refl, refl);
}
  where
    avails :
        (side : Side) (p : Pcms)
        → (ready side p < 9223372036854775808) × Same ⦃device = machine⦄ given_up heard p p
    avails play p = (omega arith, (refl, refl))
    avails capt (pcms input taken played underrun) = (ground arith, (refl, refl))

    reads : (p : Pcms) (n : ℕ) → Read ⦃device = machine⦄ given_up heard p n (read p n)
    reads (pcms input taken played underrun) n = (omega (arith, length-take n input), refl, refl)

    writes : (p : Pcms) (xs : List ℕ) → Wrote ⦃device = machine⦄ given_up heard p xs (write p xs)
    writes (pcms input taken played true) xs = (refl, (refl, refl))
    writes (pcms input taken played false) xs =
        (omega (arith, length-take 3 xs), refl, ap (λ t. played ++ t) (sym (take-take-length 3 xs)))

    restarts : (p : Pcms) → Same ⦃device = machine⦄ given_up heard p (restart p)
    restarts (pcms input taken played underrun) = (refl, refl)

abbrev at_three : Handle
at_three = record {
  buf_pos = 3;
  buf_count = 0;
  buf_size = 4;
  buf_over = 0;
  max = 0;
  counter = 0;
  stall = 0;
  avail_min = 2;
  period_size = 2;
  buffer_size = 4;
  xrun_pending = false;
}

-- Four frames of room, seven frames to come.
abbrev four_frames : Loopback
four_frames = record {
  capt = at_three;
  play = at_three;
  capt_buf = 0 ∷ 0 ∷ 0 ∷ 0 ∷ [];
  play_buf = [];
  shared = true;
  reinit = false;
  stop_pending = false;
  stop_count = 0;
}

abbrev seven_frames : Pcms
seven_frames = pcms (1 ∷ 2 ∷ 3 ∷ 4 ∷ 5 ∷ 6 ∷ 7 ∷ []) [] [] false

abbrev empty_ring : Ring 4 [] 0 0 3 0 3 0 (0 ∷ 0 ∷ 0 ∷ 0 ∷ []) [] []
empty_ring = record {
  positive = omega arith;
  bounded = omega arith;
  whole = refl;
  inside = omega arith;
  counts = refl;
  room = omega arith;
  part = omega arith;
  behind = refl;
  order = refl;
}

abbrev heard_after : Option (Loopback × Pcms) → List ℕ
heard_after none = []
heard_after (some (l, p)) = heard p

all_heard :
    heard_after
      (transfer ⦃device = machine⦄ (λ n. false) (λ l. l) 6 10 false (four_frames, seven_frames))
    ≡ 1 ∷ 2 ∷ 3 ∷ 4 ∷ 5 ∷ 6 ∷ 7 ∷ []
unfolding transfer after_read after_write readit writeit read_started read_avail readit_loop
    readit_round write_started writeit_loop writeit_round written count_stop put_out take_in buf_add
    buf_remove at_once
all_heard = refl

transfer_lem_example :
    (t : Loopback × Pcms) × (transfer ⦃device = machine⦄
        (λ n. false)
        (λ l. l)
        6
        10
        false
        (four_frames, seven_frames)
      ≡ some t)
    × Inv ⦃device = machine⦄ machine_laws 4 [] 0 0 t
transfer_lem_example =
    transfer_lem ⦃device = machine⦄ machine_laws 4 [] (λ n. false) (λ l. l) 5 10 false
      (four_frames, seven_frames) (omega arith) (refl, refl, refl, empty_ring)
