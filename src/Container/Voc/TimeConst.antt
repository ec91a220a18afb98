-- ===== src/Container/Voc/TimeConst.antt =====
-- Time constants of VOC files: which rates survive being stored.
use alsa_utils.Common.{
  ℕ, ◌≤◌, ◌<◌, ◌≡◌, refl, Bool, true, false, none, some, List, [], ◌∷◌, ltb, ◌==◌, ◌&&◌, ◌||◌, ap,
  ==_iff, arith,
}
use native.Mathlib.Decide.{ℕ_discrete}
use alsa_utils.Container.Voc.{
  Checked, TimeConst, v110_time_consts, ex_v110_time_consts, code_of_rate, rate_of_code,
  build_time_constant, parse_time_constant,
}

-- A rate that the table of v1.10 has is stored in 8 bits, and is read back.
pub parse-build_plain :
    (rate k : ℕ)
    → code_of_rate rate v110_time_consts ≡ some k
    → (build_time_constant rate 1 false ≡ some (some k))
      × (k < 256)
      × (parse_time_constant k 1 false ≡ some (some rate))
unfolding build_time_constant parse_time_constant code_of_rate rate_of_code
parse-build_plain rate k h = ground arith

-- The checks of a rate, of the code that it is stored as, and of the rate that is read back.
reads_as : Checked → ℕ → Bool
reads_as none rate = false
reads_as (some none) rate = false
reads_as (some (some r)) rate = r == rate

stores_as : Checked → ℕ → Bool
stores_as none rate = false
stores_as (some none) rate = false
stores_as (some (some code)) rate =
    ltb code 65536 && reads_as (parse_time_constant code 2 true) rate

survives : ℕ → Bool
survives rate = stores_as (build_time_constant rate 2 true) rate

all_survive : List TimeConst → Bool
all_survive [] = true
all_survive ((r, k) ∷ t) = (ltb 192000 r || survives r) && all_survive t

all_survive-rates : all_survive ex_v110_time_consts ≡ true
unfolding all_survive survives stores_as reads_as build_time_constant parse_time_constant
    code_of_rate rate_of_code
all_survive-rates = refl

survives_in :
    (t : List TimeConst) (rate k : ℕ)
    → all_survive t ≡ true
    → code_of_rate rate t ≡ some k
    → rate ≤ 192000
    → survives rate ≡ true
unfolding all_survive code_of_rate
survives_in [] rate k a h r = cc
survives_in ((s, j) ∷ t) rate k a h r = elim (ℕ_discrete s rate) [
  | yes e ↦ rw (← e) (ground arith)
  | no n ↦ ground (arith, survives_in t rate k)
]

reads_as_lem : (b : Checked) (rate : ℕ) → reads_as b rate ≡ true → b ≡ some (some rate)
unfolding reads_as
reads_as_lem none rate h = cc
reads_as_lem (some none) rate h = cc
reads_as_lem (some (some r)) rate h = ap (λ x. some (some x)) ((==_iff r rate).0 h)

stores_as_lem :
    (b : Checked) (rate : ℕ)
    → stores_as b rate ≡ true
    → (code : ℕ) × (b ≡ some (some code))
      × (code < 65536)
      × (parse_time_constant code 2 true ≡ some (some rate))
unfolding stores_as
stores_as_lem none rate h = cc
stores_as_lem (some none) rate h = cc
stores_as_lem (some (some code)) rate h =
    (code, refl, ground arith, reads_as_lem (parse_time_constant code 2 true) rate (ground arith))

-- A rate up to 192000 that the extended table has is stored in 16 bits for stereo, and the same rate
-- is read back.
pub parse-build_extended :
    (rate k : ℕ)
    → code_of_rate rate ex_v110_time_consts ≡ some k
    → rate ≤ 192000
    → (code : ℕ) × (build_time_constant rate 2 true ≡ some (some code))
      × (code < 65536)
      × (parse_time_constant code 2 true ≡ some (some rate))
unfolding survives
parse-build_extended rate k h r =
    stores_as_lem (build_time_constant rate 2 true) rate
      (survives_in ex_v110_time_consts rate k all_survive-rates h r)
