-- ===== src/Nmea/Position.antt =====
-- `loc_eng_nmea_generate_pos`: four sentences on a position.
use device_samsung_msm8660_c.Common.{
  codes, ℕ, zero, suc, ◌+◌, ◌/◌, ◌%◌, Bool, ◌&&◌, Option, List, [], ◌∷◌, ◌++◌, length, ltb, ◌==◌,
  if◌then◌else◌,
}
use device_samsung_msm8660_c.Agps.Types.{Text}
use device_samsung_msm8660_c.Nmea.Types.{Floats, Utc, Location, Extended, NmeaState}
use device_samsung_msm8660_c.Nmea.Print.{print_all, print_last, and_send}

-- The loop over the bits of `sv_used_mask`, a number of 32 bits; `n` bounds the satellites.
unfoldable pub used_svs : (n i mask : ℕ) → List ℕ
used_svs zero i mask = []
used_svs (suc n) i mask =
    let rest = used_svs n (i + 1) (mask / 2) in if mask % 2 == 1 then i ∷ rest else rest

-- '1' is no fix, '2' a fix in two dimensions and '3' one in three.
abbrev pub fix_type : ℕ → ℕ
fix_type n = if n == 0 then 49 else if ltb n 4 then 50 else 51

module _ (fl : Floats) where
  -- The fields for satellites of `$GPGSA`.
  unfoldable pub gsa_fields : ℕ → List ℕ → List Text
  gsa_fields zero svs = []
  gsa_fields (suc n) [] = codes "," ∷ gsa_fields n []
  gsa_fields (suc n) (v ∷ svs) = (fl.padded 2 v ++ codes ",") ∷ gsa_fields n svs

  abbrev pub cached_dop : NmeaState fl → Bool
  cached_dop s = fl.positive s.pdop && (fl.positive s.hdop && fl.positive s.vdop)

  abbrev pub three : fl.F → fl.F → fl.F → Text
  three p h v = fl.fixed p ++ codes "," ++ fl.fixed h ++ codes "," ++ fl.fixed v

  abbrev pub dops : Extended fl → NmeaState fl → Text
  dops x s =
      if x.has_dop
      then three x.pdop_now x.hdop_now x.vdop_now
      else if cached_dop s
      then three s.pdop s.hdop s.vdop
      else codes ",,"

  unfoldable pub gsa : Extended fl → NmeaState fl → Option Text
  unfolding print_all gsa_fields used_svs
  gsa x s =
      let svs = used_svs 32 1 s.sv_used_mask in
      print_last
        (print_all []
          ((codes "$GPGSA,A," ++ fix_type (length svs) ∷ codes ",") ∷ gsa_fields 12 svs))
        (dops x s)

  -- The track by magnetic north is computed into a variable of the inner block, so that `bearing` is
  -- printed for it.
  abbrev pub track : Location fl → Text
  track l =
      if l.has_bearing
      then codes "$GPVTG," ++ fl.fixed l.bearing ++ codes ",T," ++ fl.fixed l.bearing ++ codes ",M,"
      else codes "$GPVTG,,T,,M,"

  abbrev pub speeds : Location fl → Text
  speeds l =
      if l.has_speed
      then fl.fixed (fl.knots l.speed)
        ++ codes ",N,"
        ++ fl.fixed (fl.km_per_hour l.speed)
        ++ codes ",K,"
      else codes ",N,,K,"

  -- No fix, autonomous or differential.
  abbrev pub mode : (standalone : Bool) → Location fl → Text
  mode standalone l =
      if l.has_lat_long then if standalone then codes "A" else codes "D" else codes "N"

  unfoldable pub vtg : (standalone : Bool) → Location fl → Option Text
  unfolding print_all
  vtg standalone l = print_last (print_all [] (track l ∷ speeds l ∷ [])) (mode standalone l)

  abbrev pub time_of_day : Utc → Text
  time_of_day t = fl.padded 2 t.hours ++ fl.padded 2 t.minutes_past ++ fl.padded 2 t.seconds

  abbrev pub lat_long : Location fl → Text
  lat_long l =
      let north = fl.positive l.latitude in
      let lat = if north then l.latitude else fl.opposite l.latitude in
      let west = fl.negative l.longitude in
      let lon = if west then fl.opposite l.longitude else l.longitude in
      if l.has_lat_long
      then fl.padded 2 (fl.degrees lat)
        ++ fl.minutes_text (fl.minutes lat)
        ++ (if north then codes ",N," else codes ",S,")
        ++ fl.padded 3 (fl.degrees lon)
        ++ fl.minutes_text (fl.minutes lon)
        ++ (if west then codes ",W," else codes ",E,")
      else codes ",,,,"

  abbrev pub fixed_or_none : Bool → fl.F → Text
  fixed_or_none has x = if has then fl.fixed x ++ codes "," else codes ","

  abbrev pub variation : Extended fl → Text
  variation x =
      let west = fl.negative x.magnetic_deviation in
      let size = if west then fl.opposite x.magnetic_deviation else x.magnetic_deviation in
      if x.has_mag_dev
      then fl.fixed size ++ (if west then codes ",W," else codes ",E,")
      else codes ",,"

  abbrev pub date : Utc → Text
  date t = fl.padded 2 t.day ++ fl.padded 2 t.month ++ fl.padded 2 t.year ++ codes ","

  unfoldable pub rmc : (standalone : Bool) → Location fl → Extended fl → Option Text
  unfolding print_all
  rmc standalone l x =
      print_last
        (print_all [] (
          (codes "$GPRMC," ++ time_of_day l.utc ++ codes ",A,")
          ∷ lat_long l
          ∷ fixed_or_none l.has_speed (fl.knots l.speed)
          ∷ fixed_or_none l.has_bearing l.bearing
          ∷ date l.utc
          ∷ variation x
          ∷ []))
        (mode standalone l)

  -- No fix, a GPS fix or a differential one.
  abbrev pub quality : (standalone : Bool) → Location fl → Text
  quality standalone l =
      if l.has_lat_long then if standalone then codes "1," else codes "2," else codes "0,"

  abbrev pub hdop_field : Extended fl → NmeaState fl → Text
  hdop_field x s =
      if x.has_dop
      then fl.fixed x.hdop_now ++ codes ","
      else if cached_dop s
      then fl.fixed s.hdop ++ codes ","
      else codes ","

  abbrev pub mean_sea_level : Extended fl → Text
  mean_sea_level x =
      if x.has_altitude_mean_sea_level
      then fl.fixed x.altitude_mean_sea_level ++ codes ",M,"
      else codes ",,"

  abbrev pub geoid : Location fl → Extended fl → Text
  geoid l x =
      if l.has_altitude && x.has_altitude_mean_sea_level
      then fl.fixed (fl.minus l.altitude x.altitude_mean_sea_level) ++ codes ",M,,"
      else codes ",,,"

  unfoldable pub gga :
      (standalone : Bool) → Location fl → Extended fl → (used : ℕ) → NmeaState fl → Option Text
  unfolding print_all
  gga standalone l x used s =
      print_last
        (print_all [] (
          (codes "$GPGGA," ++ time_of_day l.utc ++ codes ",")
          ∷ lat_long l
          ∷ (quality standalone l ++ fl.padded 2 used ++ codes "," ++ hdop_field x s)
          ∷ mean_sea_level x
          ∷ []))
        (geoid l x)

  unfoldable pub clear_dops : NmeaState fl → NmeaState fl
  clear_dops s = record s { pdop = fl.zero_float; hdop = fl.zero_float; vdop = fl.zero_float }

  -- `loc_eng_nmea_generate_pos`; `standalone` says whether that is the position mode.
  unfoldable pub generate_pos :
      (standalone : Bool) → Location fl → Extended fl → NmeaState fl → NmeaState fl
  unfolding clear_dops
  generate_pos standalone l x s =
      let used = length (used_svs 32 1 s.sv_used_mask) in
      and_send (gsa x s)
        (and_send (vtg standalone l)
          (and_send (rmc standalone l x) (and_send (gga standalone l x used s) clear_dops)))
        (record s { sv_used_mask = 0 })
