-- ===== src/Nmea/Used.antt =====
-- The satellites used in a fix, from their mask.
use device_samsung_msm8660_c.Common.{
  ℕ, zero, suc, ◌+◌, ◌-◌, ◌/◌, ◌%◌, ◌^◌, ◌<◌, List, [], ◌∷◌, ◌≡◌, refl, sym, ap, ◌∙◌, arith,
}
use device_samsung_msm8660_c.Nmea.Position.{used_svs}

-- A number doubled some times.
abbrev pub shift : ℕ → ℕ → ℕ
shift zero m = m
shift (suc i) m = shift i (m + m)

-- The mask of satellites: number one is the lowest bit.
abbrev pub mask_of : List ℕ → ℕ
mask_of [] = 0
mask_of (v ∷ svs) = shift (v - 1) 1 + mask_of svs

shift-add : (i a b : ℕ) → shift i (a + b) ≡ shift i a + shift i b
shift-add zero a b = refl
shift-add (suc i) a b = grind (arith, shift-add i (a + a) (b + b), shift-add i (a + b) (a + b))

shift-zero : (i : ℕ) → shift i 0 ≡ 0
shift-zero zero = refl
shift-zero (suc i) = shift-zero i

halves : (mask : ℕ) → mask ≡ mask % 2 + (mask / 2 + mask / 2)
halves mask = omega arith

mask_of-used_svs-from :
    (n i mask : ℕ) → mask < shift n 1 → mask_of (used_svs n (suc i) mask) ≡ shift i mask
unfolding used_svs
mask_of-used_svs-from zero i mask small = sym (ap (shift i) (omega (arith, small)) ∙ shift-zero i)
mask_of-used_svs-from (suc n) i mask small =
    let rest = mask_of-used_svs-from n (suc i) (mask / 2) (omega (arith, shift-add n 1 1, small)) in
    ground (arith, rest, shift-add i (mask % 2) (mask / 2 + mask / 2), ap (shift i) (halves mask))

-- The list of satellites that `loc_eng_nmea_generate_pos` makes from a mask of 32 bits has a satellite
-- for each bit that is set and for no other: the bits of the list make up the mask.
pub mask_of-used_svs : (mask : ℕ) → mask < 2 ^ 32 → mask_of (used_svs 32 1 mask) ≡ mask
mask_of-used_svs mask small = mask_of-used_svs-from 32 0 mask small
