-- ===== src/Nmea/Tests.antt =====
-- The theorems on sentences at six satellites and a position, with numbers printed as one digit.
use device_samsung_msm8660_c.Common.{
  codes, ℕ, ◌+◌, ◌%◌, ◌≤◌, true, false, some, List, [], ◌∷◌, length, ◌==◌, not, ◌≡◌, refl, arith,
  All,
}
use device_samsung_msm8660_c.Agps.Types.{Text}
use device_samsung_msm8660_c.Nmea.Types.{Floats, Location, Extended, Sv, NmeaState}
use device_samsung_msm8660_c.Nmea.Print.{put_checksum}
use device_samsung_msm8660_c.Nmea.Position.{used_svs}
use device_samsung_msm8660_c.Nmea.Satellites.{generate_sv, after_gsv}
use device_samsung_msm8660_c.Nmea.Received.{received, received-put_checksum}
use device_samsung_msm8660_c.Nmea.Plain.{PrintsPlain, IsValid}
use device_samsung_msm8660_c.Nmea.Groups.{groups, joined, send_groups, generate_sv-groups}
use device_samsung_msm8660_c.Nmea.Used.{mask_of, mask_of-used_svs}
use device_samsung_msm8660_c.Nmea.Reported.{
  NmeaReport, position, satellites, generate_all, generate_all-AllValid,
}

abbrev whole_numbers : Floats
whole_numbers = record {
  F = ℕ;
  zero_float = 0;
  positive = λ x. not (x == 0);
  negative = λ x. false;
  opposite = λ x. x;
  minus = λ x y. x;
  knots = λ x. x + x;
  km_per_hour = λ x. x;
  minutes = λ x. x;
  degrees = λ x. x % 256;
  plain_decimal = λ n. (48 + n % 10) ∷ [];
  padded = λ w n. 48 ∷ (48 + n % 10) ∷ [];
  rounded = λ w n. (48 + n % 10) ∷ [];
  fixed = λ n. (48 + n % 10) ∷ 46 ∷ 48 ∷ [];
  minutes_text = λ n. (48 + n % 10) ∷ 46 ∷ 48 ∷ [];
}

whole_numbers-PrintsPlain : PrintsPlain whole_numbers
whole_numbers-PrintsPlain = record {
  plain_decimal_plain = λ n. ground arith;
  padded_plain = λ w n. ground arith;
  rounded_plain = λ w n. ground arith;
  fixed_plain = λ n. ground arith;
  minutes_text_plain = λ n. ground arith;
}

abbrev place : Location whole_numbers
place = record {
  utc = record { year = 13; month = 5; day = 20; hours = 12; minutes_past = 30; seconds = 59 };
  has_lat_long = true;
  latitude = 48;
  longitude = 11;
  has_altitude = true;
  altitude = 520;
  has_speed = false;
  speed = 0;
  has_bearing = true;
  bearing = 90;
}

abbrev more : Extended whole_numbers
more = record {
  has_dop = true;
  pdop_now = 2;
  hdop_now = 1;
  vdop_now = 1;
  has_altitude_mean_sea_level = true;
  altitude_mean_sea_level = 480;
  has_mag_dev = false;
  magnetic_deviation = 0;
}

abbrev satellite : ℕ → Sv whole_numbers
satellite n = record { prn = n; elevation = 40; azimuth = 120; snr = n % 2 }

abbrev six : List (Sv whole_numbers)
six = satellite 1 ∷ satellite 2 ∷ satellite 3 ∷ satellite 7 ∷ satellite 8 ∷ satellite 9 ∷ []

abbrev start : NmeaState whole_numbers
start = record { sv_used_mask = 0; pdop = 0; hdop = 0; vdop = 0; sent = []; overrun = false }

abbrev two_reports : List (NmeaReport whole_numbers)
two_reports = satellites six 7 more ∷ position true place more ∷ []

generate_all-AllValid_example : All IsValid (generate_all whole_numbers two_reports start).sent
generate_all-AllValid_example =
    generate_all-AllValid whole_numbers whole_numbers-PrintsPlain two_reports start refl

generate_sv-groups_example :
    (generate_sv whole_numbers six 7 more start
      ≡ send_groups whole_numbers 1
          (length (groups six))
          6
          (groups six)
          (after_gsv whole_numbers 7 more)
          start)
    × (joined (groups six) ≡ six)
    × All (λ g. length g ≤ 4) (groups six)
generate_sv-groups_example = generate_sv-groups whole_numbers six 7 more start refl

received-put_checksum_example :
    (line : Text) × (n : ℕ) × (put_checksum (codes "$GPVTG,,T,,M,,N,,K,N") ≡ some (line, n))
    × (received line ≡ some (codes "GPVTG,,T,,M,,N,,K,N"))
    × (n + 1 ≡ length line)
received-put_checksum_example =
    received-put_checksum (codes "GPVTG,,T,,M,,N,,K,N") refl (omega arith)

mask_of-used_svs_example : mask_of (used_svs 32 1 133) ≡ 133
mask_of-used_svs_example = mask_of-used_svs 133 (omega arith)
