-- ===== src/Power/Applied.antt =====
-- The settings in the files against the profile that is current.
use device_samsung_msm8660_c.Common.{
  ℕ, false, Option, none, some, List, [], ◌∷◌, codes, ◌≡◌, subst, refl, sym, ap, ◌∙◌, arith,
  Bool-cases, inl, inr,
}
use device_samsung_msm8660_c.Power.Profiles.{Profile, interactive_profiles}
use device_samsung_msm8660_c.Power.{
  SysfsFile, boostpulse, interactive_file, as_str, as_bytes, SysfsValue, as_int, PowerState,
  PowerIo, start_state, taken, profile_of, is_current, apply_profile, choose_profile,
  interactive_of, boost_of, set_power_profile, power_set_interactive, pulse, interaction, low_power,
  other_hint, set_profile, power_hint, PowerCall, set_interactive, hint, power_call, power_calls,
}
use device_samsung_msm8660_c.Power.Frequencies.{
  last_of-append, last_of-taken, is_max, is_min, max-takes, min-takes, Frequencies,
  more-Frequencies, CanApply, apply-Frequencies,
}

abbrev pub Applied : Option Profile → PowerState → Type 0
Applied none s = Unit
Applied (some p) s = Frequencies p s

choose-Applied :
    (io : PowerIo) (o : Option Profile) (s : PowerState)
    → CanApply io
    → Applied s.current_power_profile s
    → Applied (choose_profile io o s).current_power_profile (choose_profile io o s)
unfolding choose_profile
choose-Applied io none s can h = h
choose-Applied io (some p) s can h = elim (Bool-cases (is_current p s.current_power_profile)) [
  | inl same ↦ rw (same) h
  | inr new ↦ rw (new) (apply-Frequencies io p s can)
]

interactive-Applied :
    (io : PowerIo) (o : Option Profile) (s : PowerState)
    → CanApply io
    → Applied o s
    → Applied o (interactive_of io o s)
interactive-Applied io none s can h = tt
interactive-Applied io (some p) s can h =
    let i = interactive_profiles p in
    let ws : List (SysfsFile × SysfsValue) =
      (interactive_file (codes "hispeed_freq"), as_int i.hispeed_freq)
      ∷ (interactive_file (codes "go_hispeed_load"), as_int i.go_hispeed_load)
      ∷ (interactive_file (codes "target_loads"), as_str i.target_loads)
      ∷ [] in
    more-Frequencies p s (taken io.takes ws)
      (λ o. last_of-taken is_max io.takes ws o (max-takes io.takes can.takes_max))
      (λ o. last_of-taken is_min io.takes ws o (min-takes io.takes can.takes_min)) h

interactive-current :
    (io : PowerIo) (o : Option Profile) (s : PowerState)
    → (interactive_of io o s).current_power_profile ≡ s.current_power_profile
interactive-current io none s = refl
interactive-current io (some p) s = refl

pulse-Applied :
    (io : PowerIo) (o : Option Profile) (s : PowerState) → Applied o s → Applied o (pulse io s)
unfolding pulse
pulse-Applied io none s h = tt
pulse-Applied io (some p) s h =
    let ws : List (SysfsFile × SysfsValue) = (boostpulse, as_bytes (49 ∷ 0 ∷ io.junk)) ∷ [] in
    ground (
      arith,
      h.max_of,
      h.min_of,
      last_of-append is_max s.writes ws none,
      last_of-append is_min s.writes ws none,
    )

pulse-current :
    (io : PowerIo) (s : PowerState) → (pulse io s).current_power_profile ≡ s.current_power_profile
unfolding pulse
pulse-current io s = ground arith

boost-Applied :
    (io : PowerIo) (o : Option Profile) (s : PowerState) → Applied o s → Applied o (boost_of io o s)
boost-Applied io none s h = tt
boost-Applied io (some p) s h = ground (arith, h.max_of, h.min_of, pulse-Applied io (some p) s h)

boost-current :
    (io : PowerIo) (o : Option Profile) (s : PowerState)
    → (boost_of io o s).current_power_profile ≡ s.current_power_profile
boost-current io none s = refl
boost-current io (some p) s = ground (arith, pulse-current io s)

call-Applied :
    (io : PowerIo) (c : PowerCall) (s : PowerState)
    → CanApply io
    → Applied s.current_power_profile s
    → Applied (power_call io c s).current_power_profile (power_call io c s)
unfolding power_call power_hint power_set_interactive set_power_profile
call-Applied io set_interactive s can h =
    subst (λ o. Applied o (interactive_of io s.current_power_profile s))
      (sym (interactive-current io s.current_power_profile s))
      (interactive-Applied io s.current_power_profile s can h)
call-Applied io (hint interaction) s can h =
    subst (λ o. Applied o (boost_of io s.current_power_profile s))
      (sym (boost-current io s.current_power_profile s))
      (boost-Applied io s.current_power_profile s h)
call-Applied io (hint (set_profile n)) s can h = choose-Applied io (profile_of n) s can h
call-Applied io (hint low_power) s can h = h
call-Applied io (hint other_hint) s can h = h

-- It is so in every call.
abbrev pub AllCan : List (PowerIo × PowerCall) → Type 0
AllCan [] = Unit
AllCan ((io, c) ∷ cs) = CanApply io × AllCan cs

calls-Applied :
    (cs : List (PowerIo × PowerCall)) (s : PowerState)
    → AllCan cs
    → Applied s.current_power_profile s
    → Applied (power_calls cs s).current_power_profile (power_calls cs s)
unfolding power_calls
calls-Applied [] s can h = h
calls-Applied ((io, c) ∷ cs) s can h =
    calls-Applied cs (power_call io c s) can.1 (call-Applied io c s can.0 h)

-- Whatever the framework calls from the start on, where each time the governor can be read and the
-- files of the two frequencies take a write: while a profile is current, the last values written as
-- the highest and the lowest frequency are those that the profile tables have for it, by the governor
-- read last. Other calls do not disturb them, nor do writes of other files that fail.
pub power_calls-Applied :
    (cs : List (PowerIo × PowerCall))
    → AllCan cs
    → Applied (power_calls cs start_state).current_power_profile (power_calls cs start_state)
unfolding start_state
power_calls-Applied cs can = calls-Applied cs start_state can tt

chosen-unread :
    (io : PowerIo) (p : Profile) (s : PowerState)
    → is_current p s.current_power_profile ≡ false
    → io.governor_read ≡ none
    → choose_profile io (some p) s ≡ record s { current_power_profile = some p }
unfolding choose_profile apply_profile
chosen-unread io p s new unread = rw (new, unread) refl

chosen-again :
    (io : PowerIo) (p : Profile) (s : PowerState)
    → choose_profile io (some p) (record s { current_power_profile = some p })
      ≡ record s { current_power_profile = some p }
unfolding choose_profile
chosen-again io p s = ground arith

-- Where the governor cannot be read, a profile that is set becomes current without a write, and
-- setting it again does nothing, even if the governor can be read by then.
pub unread-lost :
    (io io' : PowerIo) (n : ℕ) (p : Profile) (s : PowerState)
    → profile_of n ≡ some p
    → is_current p s.current_power_profile ≡ false
    → io.governor_read ≡ none
    → ((set_power_profile io n s).writes ≡ s.writes)
      × ((set_power_profile io n s).current_power_profile ≡ some p)
      × (set_power_profile io' n (set_power_profile io n s) ≡ set_power_profile io n s)
unfolding set_power_profile
unread-lost io io' n p s valid new unread =
    let once = ap (λ o. choose_profile io o s) valid ∙ chosen-unread io p s new unread in
    (
      ap (λ t. t.writes) once,
      ap (λ t. t.current_power_profile) once,
      ap (choose_profile io' (profile_of n)) once
          ∙ ap (λ o. choose_profile io' o (record s { current_power_profile = some p })) valid
          ∙ chosen-again io' p s
          ∙ sym once,
    )
