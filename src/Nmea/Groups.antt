-- ===== src/Nmea/Groups.antt =====
-- Satellites in view: four in each sentence.
use device_samsung_msm8660_c.Common.{
  ℕ, ◌+◌, ◌≤◌, false, List, [], ◌∷◌, ◌++◌, length, ◌≡◌, refl, ap, arith, All, is_nil,
}
use device_samsung_msm8660_c.Agps.Types.{Text}
use device_samsung_msm8660_c.Nmea.Types.{Floats, Extended, Sv, NmeaState}
use device_samsung_msm8660_c.Nmea.Print.{print_all, and_send}
use device_samsung_msm8660_c.Nmea.Satellites.{
  sentence_count, sv_texts, sv_fields, gsv_head, gsv_loop, after_gsv, generate_sv,
}

module _ {ℓ} {A : Type ℓ} where
  -- A list cut into groups of four, the last of which may be smaller.
  unfoldable pub groups : List A → List (List A)
  groups [] = []
  groups (a ∷ []) = (a ∷ []) ∷ []
  groups (a ∷ b ∷ []) = (a ∷ b ∷ []) ∷ []
  groups (a ∷ b ∷ c ∷ []) = (a ∷ b ∷ c ∷ []) ∷ []
  groups (a ∷ b ∷ c ∷ d ∷ xs) = (a ∷ b ∷ c ∷ d ∷ []) ∷ groups xs

  abbrev pub joined : List (List A) → List A
  joined [] = []
  joined (g ∷ gs) = g ++ joined gs

  joined-groups : (xs : List A) → joined (groups xs) ≡ xs
  unfolding groups
  joined-groups [] = refl
  joined-groups (a ∷ []) = refl
  joined-groups (a ∷ b ∷ []) = refl
  joined-groups (a ∷ b ∷ c ∷ []) = refl
  joined-groups (a ∷ b ∷ c ∷ d ∷ xs) = ap (λ r. a ∷ b ∷ c ∷ d ∷ r) (joined-groups xs)

  groups-All : (xs : List A) → All (λ g. length g ≤ 4) (groups xs)
  unfolding groups
  groups-All [] = tt
  groups-All (a ∷ []) = (omega arith, tt)
  groups-All (a ∷ b ∷ []) = (omega arith, tt)
  groups-All (a ∷ b ∷ c ∷ []) = (omega arith, tt)
  groups-All (a ∷ b ∷ c ∷ d ∷ xs) = (omega arith, groups-All xs)

  length-groups : (xs : List A) → length (groups xs) ≡ sentence_count (length xs)
  unfolding groups sentence_count
  length-groups [] = refl
  length-groups (a ∷ []) = refl
  length-groups (a ∷ b ∷ []) = refl
  length-groups (a ∷ b ∷ c ∷ []) = refl
  length-groups (a ∷ b ∷ c ∷ d ∷ xs) = ground (arith, length-groups xs)

module _ (fl : Floats) where
  abbrev pub texts_of : List (Sv fl) → List Text
  texts_of [] = []
  texts_of (v ∷ svs) = sv_texts fl v ++ texts_of svs

  -- One sentence for each group, numbered, each with the number of sentences and of satellites.
  unfoldable pub send_groups :
      (number count total : ℕ)
      → List (List (Sv fl))
      → (NmeaState fl → NmeaState fl)
      → NmeaState fl
      → NmeaState fl
  send_groups number count total [] go_on s = go_on s
  send_groups number count total (g ∷ gs) go_on s =
      and_send (print_all [] (gsv_head fl count number total ∷ texts_of g))
        (send_groups (number + 1) count total gs go_on) s

  loop-groups :
      (svs : List (Sv fl)) (number count total : ℕ) (go_on : NmeaState fl → NmeaState fl)
      (s : NmeaState fl)
      → gsv_loop fl (length (groups svs)) number count total svs go_on s
        ≡ send_groups number count total (groups svs) go_on s
  unfolding gsv_loop groups send_groups sv_fields
  loop-groups [] number count total go_on s = refl
  loop-groups (a ∷ []) number count total go_on s = refl
  loop-groups (a ∷ b ∷ []) number count total go_on s = refl
  loop-groups (a ∷ b ∷ c ∷ []) number count total go_on s = refl
  loop-groups (a ∷ b ∷ c ∷ d ∷ svs) number count total go_on s =
      ap
        (λ k.
          and_send (print_all [] (gsv_head fl count number total ∷ texts_of (a ∷ b ∷ c ∷ d ∷ []))) k
            s)
        (λ i. λ t. loop-groups svs (number + 1) count total go_on t i)

  -- Where satellites are in view, `loc_eng_nmea_generate_sv` sends one numbered sentence for each group
  -- of four and goes on behind them, up to the first that does not fit; the groups give each satellite
  -- once and in order, none is larger than four, and their number is the one that is printed.
  pub generate_sv-groups :
      (svs : List (Sv fl)) (mask : ℕ) (x : Extended fl) (s : NmeaState fl)
      → is_nil svs ≡ false
      → (generate_sv fl svs mask x s
          ≡ send_groups 1 (length (groups svs)) (length svs) (groups svs) (after_gsv fl mask x) s)
        × (joined (groups svs) ≡ svs)
        × All (λ g. length g ≤ 4) (groups svs)
  unfolding generate_sv
  generate_sv-groups svs mask x s some_svs = (
    grind (
      arith,
      some_svs,
      length-groups svs,
      loop-groups svs 1 (length (groups svs)) (length svs) (after_gsv fl mask x) s,
    ),
    joined-groups svs,
    groups-All svs,
  )
