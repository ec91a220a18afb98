-- ===== src/Container/Session/Detect.antt =====
-- Which format a path stands for.
use alsa_utils.Common.{
  ℕ, suc, ◌-◌, ◌≤◌, ◌≡◌, ◌≢◌, refl, ◌∙◌, ap, false, List, [], ◌∷◌, ◌++◌, length, drop, arith,
  append_assoc, length-append, drop-append_add, bytes_eq,
}
use alsa_utils.Axfer.Context.{ContainerFormat, riff_wave, au, voc, raw}
use alsa_utils.Container.Session.{
  has_suffix, container_suffix_from_format, container_format_from_path,
}

-- The last `n` bytes are those of the last part, if this is long enough.
drop-last :
    (front back : List ℕ) (n : ℕ)
    → n ≤ length back
    → drop (length (front ++ back) - n) (front ++ back) ≡ drop (length back - n) back
drop-last front back n h =
    drop-append_add front back (length (front ++ back) - n) (length back - n)
      (omega (arith, length-append front back))

has_suffix-last :
    (before stem back suffix : List ℕ)
    → length suffix ≤ length back
    → has_suffix before (stem ++ back) suffix
      ≡ bytes_eq (drop (length back - length suffix) back) suffix
has_suffix-last before stem back suffix h =
    rw (← append_assoc before stem back) (rw (drop-last (before ++ stem) back (length suffix) h))

abbrev au_suffix : List ℕ
au_suffix = container_suffix_from_format au

abbrev wave_suffix : List ℕ
wave_suffix = container_suffix_from_format riff_wave

au-not-wave :
    (front : List ℕ)
    → bytes_eq (drop (length (front ++ au_suffix) - 4) (front ++ au_suffix)) wave_suffix ≡ false
au-not-wave [] = refl
au-not-wave (x ∷ []) = ground arith
au-not-wave (x ∷ y ∷ front) =
    ap (λ n. bytes_eq (drop n (x ∷ y ∷ (front ++ au_suffix))) wave_suffix) longer
    ∙ au-not-wave (y ∷ front)
  where
    longer : length (x ∷ y ∷ (front ++ au_suffix)) - 4 ≡ suc (length (y ∷ (front ++ au_suffix)) - 4)
    longer = omega (arith, length-append front au_suffix)

abbrev voc_suffix : List ℕ
voc_suffix = container_suffix_from_format voc

has_wave_suffix-au :
    (before stem : List ℕ) → has_suffix before (stem ++ au_suffix) wave_suffix ≡ false
has_wave_suffix-au before stem =
    rw (← append_assoc before stem au_suffix) (au-not-wave (before ++ stem))

-- A path that ends in the suffix of a format has this format, whatever stands in the memory in
-- front of it.
pub container_format_from_path-suffix :
    (before stem : List ℕ) (f : ContainerFormat)
    → f ≢ raw
    → container_format_from_path before (stem ++ container_suffix_from_format f) ≡ f
unfolding container_format_from_path
container_format_from_path-suffix before stem riff_wave h =
    rw (has_suffix-last before stem wave_suffix wave_suffix (omega arith))
container_format_from_path-suffix before stem au h =
    rw (
      has_wave_suffix-au before stem,
      has_suffix-last before stem au_suffix au_suffix (omega arith),
    )
container_format_from_path-suffix before stem voc h = rw (
  has_suffix-last before stem voc_suffix wave_suffix (omega arith),
  has_suffix-last before stem voc_suffix au_suffix (omega arith),
  has_suffix-last before stem voc_suffix voc_suffix (omega arith),
)
container_format_from_path-suffix before stem raw h = absurd (h refl)
