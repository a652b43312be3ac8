-- ===== src/Lights/Tests.antt =====
-- The lights' theorems at a few calls.
use device_samsung_msm8660_c.Common.{true, false, none, List, [], ◌∷◌}
use device_samsung_msm8660_c.Lights.{
  Lights, LightState, Io, unloaded, buttons, backlight_setter, buttons_setter, notifications_setter,
}
use device_samsung_msm8660_c.Lights.Writes.{Call, opening, setting, run, AllInRange, run-AllInRange}

abbrev orange : LightState
orange = record { color = 4294944512; flash_on_ms = 500; flash_off_ms = 2000 }

abbrev off : Lights
off = record {
  blink_support = false;
  blink_rate_support = false;
  enable_touchlight = unloaded;
  writes = [];
}

abbrev works : Io
works = record { outcome = λ file. none; print_pair = λ on_ms off_ms. 49 ∷ 32 ∷ 50 ∷ [] }

abbrev uses : List Call
uses =
    opening buttons true true true
    ∷ setting backlight_setter 0 works none orange
    ∷ setting buttons_setter 0 works none orange
    ∷ setting notifications_setter 0 works none orange
    ∷ []

abbrev later_uses : List Call
later_uses =
    opening buttons false true true
    ∷ setting buttons_setter 0 works none orange
    ∷ setting notifications_setter 0 works none orange
    ∷ []

run-AllInRange_example : AllInRange (run uses off)
run-AllInRange_example = run-AllInRange uses off tt
