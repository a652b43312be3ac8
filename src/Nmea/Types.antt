-- ===== src/Nmea/Types.antt =====
-- What the sentences are made of, and the numbers of the C library.
use device_samsung_msm8660_c.Common.{ℕ, Bool, List}
use device_samsung_msm8660_c.Agps.Types.{Text}

-- Floating-point numbers: the comparisons and operations that the file makes, and what `snprintf`
-- prints. `padded n` is "%0nd" of a natural number, `rounded n` that of `(int)(0.5 + x)`, `fixed` is
-- "%.1f", `minutes_text` is "%09.6lf" and `degrees` is `(uint8_t)floor`.
pub record Floats : Type 1 where
  pub F : Type 0
  pub zero_float : F
  pub positive : F → Bool
  pub negative : F → Bool
  pub opposite : F → F
  pub minus : F → F → F
  pub knots : F → F
  pub km_per_hour : F → F
  pub minutes : F → F
  pub degrees : F → ℕ
  pub plain_decimal : ℕ → Text
  pub padded : (width : ℕ) → ℕ → Text
  pub rounded : (width : ℕ) → F → Text
  pub fixed : F → Text
  pub minutes_text : F → Text

-- What `gmtime` makes of a time, as far as it is printed.
pub record Utc : Type 0 where
  pub year : ℕ
  pub month : ℕ
  pub day : ℕ
  pub hours : ℕ
  pub minutes_past : ℕ
  pub seconds : ℕ

module _ (fl : Floats) where
  -- `GpsLocation`; the `has` fields are bits of its flags.
  pub record Location : Type 0 where
    pub utc : Utc
    pub has_lat_long : Bool
    pub latitude : fl.F
    pub longitude : fl.F
    pub has_altitude : Bool
    pub altitude : fl.F
    pub has_speed : Bool
    pub speed : fl.F
    pub has_bearing : Bool
    pub bearing : fl.F

  -- `GpsLocationExtended`
  pub record Extended : Type 0 where
    pub has_dop : Bool
    pub pdop_now : fl.F
    pub hdop_now : fl.F
    pub vdop_now : fl.F
    pub has_altitude_mean_sea_level : Bool
    pub altitude_mean_sea_level : fl.F
    pub has_mag_dev : Bool
    pub magnetic_deviation : fl.F

  -- `GpsSvInfo`
  pub record Sv : Type 0 where
    pub prn : ℕ
    pub elevation : fl.F
    pub azimuth : fl.F
    pub snr : fl.F

  -- The caches of `loc_eng_data` for sentences, what `nmea_cb` was called with (text and length), the
  -- first call first, and whether a checksum was written behind the end of `sentence`: nothing is known
  -- after that.
  pub record NmeaState : Type 0 where
    pub sv_used_mask : ℕ
    pub pdop : fl.F
    pub hdop : fl.F
    pub vdop : fl.F
    pub sent : List (Text × ℕ)
    pub overrun : Bool
