-- ===== src/Axfer/Formats.antt =====
-- Sample formats are told apart by their numbers.
use alsa_utils.Common.{
  ℕ, zero, suc, ◌+◌, ◌≡◌, refl, sym, ◌∙◌, ap, true, List, [], ◌∷◌, ==_iff, arith,
}
use alsa_utils.Axfer.Pcm.{
  Format, unknown, s8, u8, s16_le, s16_be, s24_le, s24_be, s32_le, s32_be, float_le, float_be,
  float64_le, float64_be, mu_law, a_law, s24_3le, s24_3be, s20_3le, s20_3be, s18_3le, s18_3be,
  other, index, format_eq,
}

-- The format behind a list, or by its number from there on.
named : List Format → ℕ → Format
named [] n = other n
named (f ∷ fs) zero = f
named (f ∷ fs) (suc n) = named fs n

abbrev of_index : ℕ → Format
of_index = named (
    unknown ∷ s8 ∷ u8 ∷ s16_le ∷ s16_be ∷ s24_le ∷ s24_be ∷ s32_le ∷ s32_be ∷ float_le ∷ float_be
    ∷ float64_le ∷ float64_be ∷ mu_law ∷ a_law ∷ s24_3le ∷ s24_3be ∷ s20_3le ∷ s20_3be ∷ s18_3le
    ∷ s18_3be ∷ [])

of_index-index : (f : Format) → of_index (index f) ≡ f
unfolding named
of_index-index (other n) = ap of_index shift
  where
    shift :
        21 + n
        ≡ suc (
            suc (
              suc (
                suc (
                  suc (
                    suc (
                      suc (
                        suc (
                          suc (
                            suc (
                              suc (
                                suc
                                  (suc (suc (suc (suc (suc (suc (suc (suc (suc n))))))))))))))))))))
    shift = omega arith
of_index-index _ = refl

pub format_eq_lem : (f g : Format) → format_eq f g ≡ true → f ≡ g
format_eq_lem f g h =
    sym (of_index-index f) ∙ ap of_index ((==_iff (index f) (index g)).0 h) ∙ of_index-index g
