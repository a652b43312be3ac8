-- ===== src/Lights.antt =====
-- The lights of liblights/lights.c. Files are written by `write_int` and `write_str`; how a write to
-- a file ends is an input, as are what `access` and `fopen` find. Each setter holds `g_lock` for its
-- writes, and is one step.
mod Brightness
mod Writes
mod Tests
use device_samsung_msm8660_c.Common.{
  ℕ, ◌+◌, ◌*◌, ◌/◌, ◌%◌, ◌^◌, Bool, true, false, Option, none, some, List, [], ◌∷◌, ◌==◌,
  if◌then◌else◌, take,
}

pub data File : Type 0 where
  lcd_file buttons_file notification_blink_file notification_blink_rate_file : File

-- What is written: a number, or characters.
pub data Payload : Type 0 where
  number : ℕ → Payload
  text : List ℕ → Payload

-- A function's `int` result: 0, a negated error number, or whatever an unset variable holds.
pub data Result : Type 0 where
  done : Result
  minus_errno : ℕ → Result
  unset : ℕ → Result

-- `g_enable_touchlight`: -1 before `load_settings`, then 0 or 1.
pub data Touchlight : Type 0 where
  unloaded disabled enabled : Touchlight

-- The globals, and the writes so far, the latest first.
pub record Lights : Type 0 where
  pub blink_support : Bool
  pub blink_rate_support : Bool
  pub enable_touchlight : Touchlight
  pub writes : List (File × Payload)

-- `light_state_t`
pub record LightState : Type 0 where
  pub color : ℕ
  pub flash_on_ms : ℕ
  pub flash_off_ms : ℕ

-- How writes end: none where all is written, else the `errno` of `open` or `write`. What `snprintf`
-- makes of "%d %d", before it is cut to the buffer.
pub record Io : Type 0 where
  pub outcome : File → Option ℕ
  pub print_pair : ℕ → ℕ → List ℕ

abbrev pub ended : Option ℕ → Result
ended none = done
ended (some errno) = minus_errno errno

unfoldable pub init_globals : (blink_access rate_access : Bool) → Lights → Lights
init_globals blink_access rate_access l = record l {
  blink_support = blink_access;
  blink_rate_support = rate_access;
}

-- `write_int` and `write_str`: a write that fails changes nothing.
unfoldable pub write_file : Io → File → Payload → Lights → Result × Lights
write_file io file p l = elim (io.outcome file) [
  | none ↦ (ended none, record l { writes = (file, p) ∷ l.writes })
  | some errno ↦ (ended (some errno), l)
]

-- `load_settings`: none where `/data/.disable_touchlight` does not open, else its first character,
-- if it has one; 49 is the digit 1.
unfoldable pub load_settings : Option (Option ℕ) → Lights → Lights
load_settings none l = record l { enable_touchlight = enabled }
load_settings (some none) l = record l { enable_touchlight = enabled }
load_settings (some (some c)) l = record l {
  enable_touchlight = if c == 49 then disabled else enabled;
}

-- `color & 0x00ffffff`, and the three bytes of it.
abbrev pub rgb : ℕ → ℕ
rgb color = color % 2 ^ 24

unfoldable pub rgb_to_brightness : ℕ → ℕ
rgb_to_brightness color =
    let c = rgb color in
    (77 * (c / 2 ^ 16 % 2 ^ 8) + 150 * (c / 2 ^ 8 % 2 ^ 8) + 29 * (c % 2 ^ 8)) / 2 ^ 8

unfoldable pub set_light_backlight : Io → Option (Option ℕ) → LightState → Lights → Result × Lights
set_light_backlight io settings s l =
    write_file io lcd_file (number (rgb_to_brightness s.color)) (load_settings settings l)

unfoldable pub set_light_buttons : Io → LightState → Lights → Result × Lights
set_light_buttons io s l =
    let touch_led_control = if rgb s.color == 0 then 2 else 1 in
    let write = write_file io buttons_file (number touch_led_control) l in
    elim l.enable_touchlight [ disabled ↦ (done, l) | unloaded ↦ write | enabled ↦ write ]

-- `garbage` is what `res` holds before it is assigned to. The buffer for the interval has ten bytes, of
-- which `snprintf` uses the last for the end of the string.
unfoldable pub set_light_notifications : (garbage : ℕ) → Io → LightState → Lights → Result × Lights
set_light_notifications garbage io s l =
    let bln_led_control = if rgb s.color == 0 then 0 else 1 in
    let rate = text (take 9 (io.print_pair s.flash_on_ms s.flash_off_ms)) in
    let l' =
      if l.blink_rate_support then (write_file io notification_blink_rate_file rate l).1 else l in
    if l.blink_support
    then write_file io notification_blink_file (number bln_led_control) l'
    else (unset garbage, l)

-- `set_light_battery` and `set_light_keyboard`
unfoldable pub set_light_none : Lights → Result × Lights
set_light_none l = (done, l)

-- The devices: the names of `LIGHT_ID_*` that `open_lights` compares with, and any other.
pub data LightId : Type 0 where
  backlight keyboard buttons battery notifications other : LightId

pub data Setter : Type 0 where
  backlight_setter keyboard_setter buttons_setter battery_setter notifications_setter : Setter

-- `open_lights`: the device's `set_light`, or -EINVAL. `first` says whether `pthread_once` runs
-- `init_globals` now.
unfoldable pub open_lights :
    LightId → (first blink_access rate_access : Bool) → Lights → Option Setter × Lights
open_lights id first blink_access rate_access l =
    let l' = if first then init_globals blink_access rate_access l else l in
    elim id [
      | backlight ↦ (some backlight_setter, l')
      | keyboard ↦ (some keyboard_setter, l')
      | buttons ↦ (some buttons_setter, l')
      | battery ↦ (some battery_setter, l')
      | notifications ↦ (some notifications_setter, l')
      | other ↦ (none, l)
    ]

-- The call `dev->set_light(dev, state)`.
unfoldable pub set_light :
    Setter → (garbage : ℕ) → Io → Option (Option ℕ) → LightState → Lights → Result × Lights
set_light backlight_setter garbage io settings s l = set_light_backlight io settings s l
set_light keyboard_setter garbage io settings s l = set_light_none l
set_light buttons_setter garbage io settings s l = set_light_buttons io s l
set_light battery_setter garbage io settings s l = set_light_none l
set_light notifications_setter garbage io settings s l = set_light_notifications garbage io s l
