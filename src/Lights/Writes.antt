-- ===== src/Lights/Writes.antt =====
-- What any calls write to the files.
use device_samsung_msm8660_c.Common.{
  length, leb, length-take, ℕ, ◌≡◌, ◌≢◌, refl, ◌∙◌, Bool, true, false, ◌||◌, Option, none, some,
  List, [], ◌∷◌, ◌==◌, arith, ltb, All, any, keep_if,
}
use device_samsung_msm8660_c.Lights.{
  File, lcd_file, buttons_file, notification_blink_file, notification_blink_rate_file, Payload,
  number, text, unset, disabled, Lights, LightState, Io, init_globals, write_file, load_settings,
  set_light_backlight, set_light_buttons, set_light_notifications, set_light_none, LightId, other,
  Setter, open_lights, set_light, backlight_setter, keyboard_setter, buttons_setter, battery_setter,
  notifications_setter,
}
use device_samsung_msm8660_c.Lights.Brightness.{rgb_to_brightness-byte}

-- A call on the module or on a device, with what it finds.
pub data Call : Type 0 where
  opening : LightId → (first blink_access rate_access : Bool) → Call
  setting : Setter → (garbage : ℕ) → Io → Option (Option ℕ) → LightState → Call

unfoldable pub step : Call → Lights → Lights
step (opening id first blink_access rate_access) l =
    (open_lights id first blink_access rate_access l).1
step (setting s garbage io settings state) l = (set_light s garbage io settings state l).1

unfoldable pub run : List Call → Lights → Lights
run [] l = l
run (c ∷ cs) l = run cs (step c l)

-- The numbers that a file takes.
abbrev pub in_range : File × Payload → Bool
in_range (lcd_file, number n) = ltb n 256
in_range (buttons_file, number n) = n == 1 || n == 2
in_range (notification_blink_file, number n) = n == 0 || n == 1
in_range (notification_blink_rate_file, text cs) = leb (length cs) 9
in_range _ = false

abbrev pub AllInRange : Lights → Type 0
AllInRange l = All (λ w. in_range w ≡ true) l.writes

set_light-AllInRange :
    (s : Setter) (garbage : ℕ) (io : Io) (settings : Option (Option ℕ)) (state : LightState)
    (l : Lights)
    → AllInRange l
    → AllInRange (set_light s garbage io settings state l).1
unfolding set_light set_light_backlight set_light_buttons set_light_notifications set_light_none
    write_file load_settings
set_light-AllInRange backlight_setter garbage io none state l h =
    ground (arith, h, rgb_to_brightness-byte state.color)
set_light-AllInRange backlight_setter garbage io (some none) state l h =
    ground (arith, h, rgb_to_brightness-byte state.color)
set_light-AllInRange backlight_setter garbage io (some (some c)) state l h =
    ground (arith, h, rgb_to_brightness-byte state.color)
set_light-AllInRange keyboard_setter garbage io settings state l h = h
set_light-AllInRange buttons_setter garbage io settings state l h = ground (arith, h)
set_light-AllInRange battery_setter garbage io settings state l h = h
set_light-AllInRange notifications_setter garbage io settings state l h =
    ground (arith, h, length-take 9 (io.print_pair state.flash_on_ms state.flash_off_ms))

step-AllInRange : (c : Call) (l : Lights) → AllInRange l → AllInRange (step c l)
unfolding step open_lights init_globals
step-AllInRange (opening id first b r) l h = ground (arith, h)
step-AllInRange (setting s garbage io settings state) l h =
    set_light-AllInRange s garbage io settings state l h

-- Whatever is opened and set, if all was in range before, the backlight is given a byte, the buttons 1 or 2, the blink control 0
-- or 1, and the blink interval at most nine characters.
pub run-AllInRange : (cs : List Call) (l : Lights) → AllInRange l → AllInRange (run cs l)
unfolding run
run-AllInRange [] l h = h
run-AllInRange (c ∷ cs) l h = run-AllInRange cs (step c l) (step-AllInRange c l h)

abbrev pub is_backlight : Call → Bool
is_backlight (setting backlight_setter g io settings state) = true
is_backlight _ = false

abbrev pub is_buttons : File × Payload → Bool
is_buttons (buttons_file, p) = true
is_buttons _ = false

-- Whether the buttons are off, and what has been written to them.
pub record IsDark (l₀ l : Lights) : Type 0 where
  pub off : l.enable_touchlight ≡ disabled
  pub no_write : keep_if is_buttons l.writes ≡ keep_if is_buttons l₀.writes

step-IsDark :
    (c : Call) (l₀ l : Lights) → is_backlight c ≡ false → IsDark l₀ l → IsDark l₀ (step c l)
unfolding step open_lights init_globals set_light set_light_buttons set_light_notifications
    set_light_none write_file
step-IsDark (opening id first b r) l₀ l e h = ground (arith, h.off, h.no_write)
step-IsDark (setting backlight_setter garbage io settings state) l₀ l e h = ground arith
step-IsDark (setting keyboard_setter garbage io settings state) l₀ l e h = h
step-IsDark (setting buttons_setter garbage io settings state) l₀ l e h =
    ground (arith, h.off, h.no_write)
step-IsDark (setting battery_setter garbage io settings state) l₀ l e h = h
step-IsDark (setting notifications_setter garbage io settings state) l₀ l e h =
    ground (arith, h.off, h.no_write)

run-IsDark :
    (cs : List Call) (l₀ l : Lights)
    → any is_backlight cs ≡ false
    → IsDark l₀ l
    → IsDark l₀ (run cs l)
unfolding run
run-IsDark [] l₀ l e h = h
run-IsDark (c ∷ cs) l₀ l e h =
    run-IsDark cs l₀ (step c l) (ground arith) (step-IsDark c l₀ l (ground arith) h)

-- After a backlight call that finds a file that begins with the digit 1, no calls write to the
-- buttons' file until the next backlight call.
pub disabled-IsDark :
    (garbage : ℕ) (io : Io) (state : LightState) (cs : List Call) (l : Lights)
    → any is_backlight cs ≡ false
    → IsDark l (run (setting backlight_setter garbage io (some (some 49)) state ∷ cs) l)
unfolding run step set_light set_light_backlight load_settings write_file
disabled-IsDark garbage io state cs l e =
    run-IsDark cs l (step (setting backlight_setter garbage io (some (some 49)) state) l) e
      (ground arith)

abbrev pub is_first : Call → Bool
is_first (opening id first b r) = first
is_first _ = false

step-blink_support :
    (c : Call) (l : Lights) → is_first c ≡ false → (step c l).blink_support ≡ l.blink_support
unfolding step open_lights init_globals set_light set_light_backlight set_light_buttons
    set_light_notifications set_light_none write_file load_settings
step-blink_support (opening id first b r) l e = ground (arith, e)
step-blink_support (setting backlight_setter garbage io none state) l e = ground arith
step-blink_support (setting backlight_setter garbage io (some none) state) l e = ground arith
step-blink_support (setting backlight_setter garbage io (some (some c)) state) l e = ground arith
step-blink_support (setting keyboard_setter garbage io settings state) l e = refl
step-blink_support (setting buttons_setter garbage io settings state) l e = ground arith
step-blink_support (setting battery_setter garbage io settings state) l e = refl
step-blink_support (setting notifications_setter garbage io settings state) l e = ground arith

run-blink_support :
    (cs : List Call) (l : Lights)
    → any is_first cs ≡ false
    → (run cs l).blink_support ≡ l.blink_support
unfolding run
run-blink_support [] l e = refl
run-blink_support (c ∷ cs) l e =
    run-blink_support cs (step c l) (ground arith) ∙ step-blink_support c l (ground arith)

unset-unsupported :
    (garbage : ℕ) (io : Io) (settings : Option (Option ℕ)) (state : LightState) (l : Lights)
    → l.blink_support ≡ false
    → set_light notifications_setter garbage io settings state l ≡ (unset garbage, l)
unfolding set_light set_light_notifications
unset-unsupported garbage io settings state l e = ground (arith, e)

opened-unsupported :
    (id : LightId) (r : Bool) (l : Lights)
    → id ≢ other
    → (step (opening id true false r) l).blink_support ≡ false
unfolding step open_lights init_globals
opened-unsupported id r l known = ground (arith, known)

-- Once the first device was opened and the blink control was not found, after any calls setting the
-- notification light writes nothing and returns the value of a variable that was never set.
pub notifications-unset :
    (id : LightId) (r : Bool) (cs : List Call) (l : Lights)
    → id ≢ other
    → any is_first cs ≡ false
    → (garbage : ℕ) (io : Io) (settings : Option (Option ℕ)) (state : LightState)
    → let l' = run (opening id true false r ∷ cs) l in
      set_light notifications_setter garbage io settings state l' ≡ (unset garbage, l')
unfolding run
notifications-unset id r cs l known e garbage io settings state =
    let opened = step (opening id true false r) l in
    unset-unsupported garbage io settings state (run cs opened)
      (run-blink_support cs opened e ∙ opened-unsupported id r l known)
