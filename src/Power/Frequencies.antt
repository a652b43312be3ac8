-- ===== src/Power/Frequencies.antt =====
-- The two frequencies that the writes of a profile leave in their files, by the profile tables.
use device_samsung_msm8660_c.Common.{
  ℕ, Bool, true, false, Option, none, some, List, [], ◌∷◌, ◌++◌, codes, take, if◌then◌else◌,
  is_some, ◌≡◌, ◌≢◌, refl, sym, ap, ◌∙◌, arith, Bool-cases, Option-cases, inl, inr,
}
use device_samsung_msm8660_c.Agps.Types.{Text}
use device_samsung_msm8660_c.Power.Profiles.{
  Profile, ondemand_profiles, interactive_profiles, alt_profiles,
}
use device_samsung_msm8660_c.Power.{
  SysfsFile, scaling_max, scaling_min, SysfsValue, as_int, PowerState, PowerIo, settings, taken,
  apply_profile, starts_with, without_line_end,
}

-- The last value written to a file.
abbrev pub last_of :
    (SysfsFile → Bool) → List (SysfsFile × SysfsValue) → Option SysfsValue → Option SysfsValue
last_of is_it [] before = before
last_of is_it ((f, v) ∷ ws) before = last_of is_it ws (if is_it f then some v else before)

abbrev pub is_max : SysfsFile → Bool
is_max scaling_max = true
is_max _ = false

abbrev pub is_min : SysfsFile → Bool
is_min scaling_min = true
is_min _ = false

pub last_of-append :
    (t : SysfsFile → Bool) (ws vs : List (SysfsFile × SysfsValue)) (o : Option SysfsValue)
    → last_of t (ws ++ vs) o ≡ last_of t vs (last_of t ws o)
last_of-append t [] vs o = refl
last_of-append t ((f, v) ∷ ws) vs o = last_of-append t ws vs (if t f then some v else o)

not_looked_for : (looked ok : Bool) → (looked ≡ true → ok ≡ true) → ok ≡ false → looked ≡ false
not_looked_for true ok can failed = ground (arith, can refl)
not_looked_for false ok can failed = refl

-- Where the files that are looked for take writes, failures elsewhere change nothing.
pub last_of-taken :
    (t ok : SysfsFile → Bool) (ws : List (SysfsFile × SysfsValue)) (o : Option SysfsValue)
    → ((f : SysfsFile) → t f ≡ true → ok f ≡ true)
    → last_of t (taken ok ws) o ≡ last_of t ws o
unfolding taken
last_of-taken t ok [] o can = refl
last_of-taken t ok ((f, v) ∷ ws) o can = elim (Bool-cases (ok f)) [
  | inl done ↦ rw (done) (last_of-taken t ok ws (if t f then some v else o) can)
  | inr failed ↦
      rw (failed, not_looked_for (t f) (ok f) (can f) failed) (last_of-taken t ok ws o can)
]

pub max-takes :
    (ok : SysfsFile → Bool)
    → ok scaling_max ≡ true
    → (f : SysfsFile) → is_max f ≡ true
    → ok f ≡ true
max-takes ok can scaling_max e = can
max-takes ok can _ e = ground arith

pub min-takes :
    (ok : SysfsFile → Bool)
    → ok scaling_min ≡ true
    → (f : SysfsFile) → is_min f ≡ true
    → ok f ≡ true
min-takes ok can scaling_min e = can
min-takes ok can _ e = ground arith

-- The highest and the lowest frequency of a profile in the table for a governor.
abbrev pub max_for : Profile → (governor : Text) → ℕ
max_for p g =
    if starts_with g (codes "ondemand")
    then (ondemand_profiles p).scaling_max_freq
    else if starts_with g (codes "interactive")
    then (interactive_profiles p).scaling_max_freq
    else (alt_profiles p).scaling_max_freq

abbrev pub min_for : Profile → (governor : Text) → ℕ
min_for p g =
    if starts_with g (codes "ondemand")
    then (ondemand_profiles p).scaling_min_freq
    else if starts_with g (codes "interactive")
    then (interactive_profiles p).scaling_min_freq
    else (alt_profiles p).scaling_min_freq

settings-max :
    (p : Profile) (g : Text) (o : Option SysfsValue)
    → last_of is_max (settings p g) o ≡ some (as_int (max_for p g))
unfolding settings
settings-max p g o = elim (Bool-cases (starts_with g (codes "ondemand"))) [
  | inl first ↦ rw (first) refl
  | inr other ↦ elim (Bool-cases (starts_with g (codes "interactive"))) [
    | inl second ↦ rw (other, second) refl
    | inr third ↦ rw (other, third) refl
  ]
]

settings-min :
    (p : Profile) (g : Text) (o : Option SysfsValue)
    → last_of is_min (settings p g) o ≡ some (as_int (min_for p g))
unfolding settings
settings-min p g o = elim (Bool-cases (starts_with g (codes "ondemand"))) [
  | inl first ↦ rw (first) refl
  | inr other ↦ elim (Bool-cases (starts_with g (codes "interactive"))) [
    | inl second ↦ rw (other, second) refl
    | inr third ↦ rw (other, third) refl
  ]
]

-- The frequencies in the files are those that the table has for a profile and the governor read last.
pub record Frequencies (p : Profile) (s : PowerState) : Type 0 where
  pub max_of : last_of is_max s.writes none ≡ some (as_int (max_for p s.governor))
  pub min_of : last_of is_min s.writes none ≡ some (as_int (min_for p s.governor))

no_read : is_some {A = Text} none ≢ true
no_read = ground arith

-- The writes of other files leave the frequencies as they are.
pub more-Frequencies :
    (p : Profile) (s : PowerState) (ws : List (SysfsFile × SysfsValue))
    → ((o : Option SysfsValue) → last_of is_max ws o ≡ o)
    → ((o : Option SysfsValue) → last_of is_min ws o ≡ o)
    → Frequencies p s
    → Frequencies p (record s { writes = s.writes ++ ws })
more-Frequencies p s ws no_max no_min h = record {
  max_of =
      last_of-append is_max s.writes ws none ∙ no_max (last_of is_max s.writes none) ∙ h.max_of;
  min_of =
      last_of-append is_min s.writes ws none ∙ no_min (last_of is_min s.writes none) ∙ h.min_of;
}

-- In a call the governor can be read and the files of the two frequencies take a write.
pub record CanApply (io : PowerIo) : Type 0 where
  pub reads : is_some io.governor_read ≡ true
  pub takes_max : io.takes scaling_max ≡ true
  pub takes_min : io.takes scaling_min ≡ true

read-Frequencies :
    (io : PowerIo) (g : Text) (p : Profile) (s : PowerState)
    → CanApply io
    → Frequencies p (record s {
      current_power_profile = some p;
      governor = g;
      writes = s.writes ++ taken io.takes (settings p g);
    })
read-Frequencies io g p s can =
    let ws = taken io.takes (settings p g) in
    record {
      max_of =
          last_of-append is_max s.writes ws none
          ∙ last_of-taken is_max io.takes (settings p g) (last_of is_max s.writes none)
              (max-takes io.takes can.takes_max)
          ∙ settings-max p g (last_of is_max s.writes none);
      min_of =
          last_of-append is_min s.writes ws none
          ∙ last_of-taken is_min io.takes (settings p g) (last_of is_min s.writes none)
              (min-takes io.takes can.takes_min)
          ∙ settings-min p g (last_of is_min s.writes none);
    }

pub apply-Frequencies :
    (io : PowerIo) (p : Profile) (s : PowerState)
    → CanApply io
    → Frequencies p (record (apply_profile io p s) { current_power_profile = some p })
unfolding apply_profile
apply-Frequencies io p s can = elim (Option-cases io.governor_read) [
  | inl none_ ↦ absurd (no_read (ap is_some (sym none_) ∙ can.reads))
  | inr (raw, given) ↦ rw (given) (read-Frequencies io (without_line_end (take 19 raw)) p s can)
]
