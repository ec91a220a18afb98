-- ===== src/Container/Voc/Build/Sizes.antt =====
-- The data blocks of VOC files: which versions hold which rates, and where the size is written.
use alsa_utils.Common.{ℕ, ◌≤◌, ◌<◌, ◌≡◌, refl, Bool, true, false, Option, none, some, arith}
use alsa_utils.Container.Voc.{
  voc_version_1_10, v110_time_consts, ex_v110_time_consts, code_of_rate, build_time_constant,
  parse_time_constant,
}
use alsa_utils.Container.Voc.TimeConst.{parse-build_plain, parse-build_extended}
use alsa_utils.Container.Voc.Build.{decide_version, has_rate}

has_rate_lem :
    (rate : ℕ) (o : Option ℕ)
    → elim o [ none ↦ false | some k ↦ true ] ≡ true
    → (k : ℕ) × (o ≡ some k)
has_rate_lem rate none h = cc
has_rate_lem rate (some k) h = (k, refl)

decide_extended :
    (v n rate : ℕ)
    → decide_version v n rate ≡ (voc_version_1_10, true)
    → (n ≡ 2) × (has_rate rate ex_v110_time_consts ≡ true)
unfolding decide_version
decide_extended v n rate h = ground arith

decide_plain :
    (v n rate : ℕ)
    → 0 < n
    → decide_version v n rate ≡ (voc_version_1_10, false)
    → (n ≡ 1) × (has_rate rate v110_time_consts ≡ true)
unfolding decide_version
decide_plain v n rate hn h = ground arith

-- Wherever the builder decides for version 1.10, with a rate up to 192000, the time constant exists,
-- and the parser reads the rate back from it.
pub version_1_10_keeps_rate :
    (v n rate : ℕ) (extended : Bool)
    → 0 < n
    → rate ≤ 192000
    → decide_version v n rate ≡ (voc_version_1_10, extended)
    → (code : ℕ) × (build_time_constant rate n extended ≡ some (some code))
      × (parse_time_constant code n extended ≡ some (some rate))
version_1_10_keeps_rate v n rate true hn hr h =
    let (two, has) = decide_extended v n rate h in
    let (k, e) = has_rate_lem rate (code_of_rate rate ex_v110_time_consts) has in
    let (code, b, l, p) = parse-build_extended rate k e hr in (code, rw two b, rw two p)
version_1_10_keeps_rate v n rate false hn hr h =
    let (one, has) = decide_plain v n rate hn h in
    let (k, e) = has_rate_lem rate (code_of_rate rate v110_time_consts) has in
    let (b, l, p) = parse-build_plain rate k e in (k, rw one b, rw one p)
