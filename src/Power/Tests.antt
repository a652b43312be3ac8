-- ===== src/Power/Tests.antt =====
-- A profile that is set, a hint and a switch of the screen; and a governor that cannot be read.
use device_samsung_msm8660_c.Common.{Bool, true, false, none, some, List, [], ◌∷◌, codes, ◌≡◌, refl}
use device_samsung_msm8660_c.Power.Profiles.{bias_power}
use device_samsung_msm8660_c.Power.{
  SysfsFile, scaling_max, scaling_min, PowerIo, start_state, PowerCall, set_interactive, hint,
  set_profile, interaction, power_calls, set_power_profile,
}
use device_samsung_msm8660_c.Power.Frequencies.{CanApply}
use device_samsung_msm8660_c.Power.Applied.{Applied, power_calls-Applied, unread-lost}

-- The two frequencies are written, nothing else is.
abbrev takes_frequencies : SysfsFile → Bool
takes_frequencies scaling_max = true
takes_frequencies scaling_min = true
takes_frequencies _ = false

abbrev readable : PowerIo
readable = record {
  governor_read = some (codes "interactive");
  takes = takes_frequencies;
  boost_opens = true;
  boost_written = true;
  junk = [];
}

readable-CanApply : CanApply readable
readable-CanApply = record { reads = refl; takes_max = refl; takes_min = refl }

abbrev unreadable : PowerIo
unreadable = record readable { governor_read = none }

abbrev day : List (PowerIo × PowerCall)
day =
    (readable, hint (set_profile 3))
    ∷ (readable, hint interaction)
    ∷ (readable, set_interactive)
    ∷ (readable, hint (set_profile 9))
    ∷ []

power_calls-Applied_example :
    Applied (power_calls day start_state).current_power_profile (power_calls day start_state)
power_calls-Applied_example =
    power_calls-Applied day
      (readable-CanApply, (readable-CanApply, (readable-CanApply, (readable-CanApply, tt))))

unread-lost_example :
    ((set_power_profile unreadable 3 start_state).writes ≡ [])
    × ((set_power_profile unreadable 3 start_state).current_power_profile ≡ some bias_power)
    × (set_power_profile readable 3 (set_power_profile unreadable 3 start_state)
        ≡ set_power_profile unreadable 3 start_state)
unfolding start_state
unread-lost_example = unread-lost unreadable readable 3 bias_power start_state refl refl refl
