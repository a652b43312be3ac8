-- ===== src/Nmea/Sent.antt =====
-- All sentences that are sent.
use device_samsung_msm8660_c.Common.{
  codes, ℕ, zero, suc, Bool, true, false, if◌then◌else◌, Option, none, some, List, [], ◌∷◌, ◌++◌,
  length, ◌≡◌, refl, arith, All,
}
use device_samsung_msm8660_c.Agps.Types.{Text}
use device_samsung_msm8660_c.Nmea.Types.{Floats, Utc, Location, Extended, NmeaState}
use device_samsung_msm8660_c.Nmea.Print.{print_all, put_checksum, hand_on, send, and_send}
use device_samsung_msm8660_c.Nmea.Received.{plain}
use device_samsung_msm8660_c.Nmea.Plain.{
  PrintsPlain, plain-append, plain-if, opened, Opened, AllPlain, first-Opened, print_last-Opened,
  IsValid, PutValid, put_checksum-PutValid,
}
use device_samsung_msm8660_c.Nmea.Position.{
  used_svs, gsa_fields, gsa, vtg, rmc, gga, dops, track, speeds, mode, lat_long, time_of_day,
  fixed_or_none, date, variation, quality, hdop_field, mean_sea_level, geoid, clear_dops,
  generate_pos, fix_type,
}

All-snoc :
    (ps : List (Text × ℕ)) (q : Text × ℕ) → All IsValid ps → IsValid q → All IsValid (ps ++ q ∷ [])
All-snoc [] q h hq = (hq, tt)
All-snoc (r ∷ ps) q h hq = (h.0, All-snoc ps q h.1 hq)

module _ (fl : Floats) (p : PrintsPlain fl) where
  lat_long-plain : (l : Location fl) → plain (lat_long fl l) ≡ true
  lat_long-plain l = search (plain-append, plain-if, p.padded_plain, p.minutes_text_plain) depth 12

  track-plain : (l : Location fl) → plain (track fl l) ≡ true
  track-plain l = search (plain-append, plain-if, p.fixed_plain)

  speeds-plain : (l : Location fl) → plain (speeds fl l) ≡ true
  speeds-plain l = search (plain-append, plain-if, p.fixed_plain)

  mode-plain : (b : Bool) (l : Location fl) → plain (mode fl b l) ≡ true
  mode-plain b l = search (plain-if)

  variation-plain : (x : Extended fl) → plain (variation fl x) ≡ true
  variation-plain x = search (plain-append, plain-if, p.fixed_plain)

  dops-plain : (x : Extended fl) (s : NmeaState fl) → plain (dops fl x s) ≡ true
  dops-plain x s = search (plain-append, plain-if, p.fixed_plain) depth 8

  time_of_day-plain :
      (t : Utc) (rest : Text) → plain rest ≡ true → plain (time_of_day fl t ++ rest) ≡ true
  time_of_day-plain t rest pr =
      plain-append (time_of_day fl t) rest (search (plain-append, p.padded_plain)) pr

  track-opened : (l : Location fl) → opened (track fl l) ≡ true
  track-opened l = ground (arith, track-plain l)

  fixed_or_none-plain : (has : Bool) (y : fl.F) → plain (fixed_or_none fl has y) ≡ true
  fixed_or_none-plain has y = search (plain-append, plain-if, p.fixed_plain)

  date-plain : (t : Utc) → plain (date fl t) ≡ true
  date-plain t = search (plain-append, p.padded_plain)

  quality-plain : (b : Bool) (l : Location fl) → plain (quality fl b l) ≡ true
  quality-plain b l = search (plain-if)

  hdop_field-plain : (x : Extended fl) (s : NmeaState fl) → plain (hdop_field fl x s) ≡ true
  hdop_field-plain x s = search (plain-append, plain-if, p.fixed_plain)

  third-plain :
      (b : Bool) (l : Location fl) (x : Extended fl) (n : ℕ) (s : NmeaState fl)
      → plain (quality fl b l ++ fl.padded 2 n ++ codes "," ++ hdop_field fl x s) ≡ true
  third-plain b l x n s = search (plain-append, quality-plain, hdop_field-plain, p.padded_plain)

  mean_sea_level-plain : (x : Extended fl) → plain (mean_sea_level fl x) ≡ true
  mean_sea_level-plain x = search (plain-append, plain-if, p.fixed_plain)

  geoid-plain : (l : Location fl) (x : Extended fl) → plain (geoid fl l x) ≡ true
  geoid-plain l x = search (plain-append, plain-if, p.fixed_plain)

  gsa_fields-AllPlain : (n : ℕ) (svs : List ℕ) → AllPlain (gsa_fields fl n svs)
  unfolding gsa_fields
  gsa_fields-AllPlain zero svs = tt
  gsa_fields-AllPlain (suc n) [] = (refl, gsa_fields-AllPlain n [])
  gsa_fields-AllPlain (suc n) (v ∷ svs) = (
    plain-append (fl.padded 2 v) (codes ",") (p.padded_plain 2 v) refl,
    gsa_fields-AllPlain n svs,
  )

  fix_type-plain : (n : ℕ) → plain (fix_type n ∷ codes ",") ≡ true
  fix_type-plain n = ground arith

  gsa-Opened : (x : Extended fl) (s : NmeaState fl) → Opened (gsa fl x s)
  unfolding gsa
  gsa-Opened x s =
      let svs = used_svs 32 1 s.sv_used_mask in
      print_last-Opened
        (print_all []
          ((codes "$GPGSA,A," ++ fix_type (length svs) ∷ codes ",") ∷ gsa_fields fl 12 svs))
        (dops fl x s)
        (first-Opened (codes "$GPGSA,A," ++ fix_type (length svs) ∷ codes ",")
          (gsa_fields fl 12 svs) (fix_type-plain (length svs)) (gsa_fields-AllPlain 12 svs))
        (dops-plain x s)

  vtg-Opened : (b : Bool) (l : Location fl) → Opened (vtg fl b l)
  unfolding vtg
  vtg-Opened b l =
      print_last-Opened (print_all [] (track fl l ∷ speeds fl l ∷ [])) (mode fl b l)
        (first-Opened (track fl l) (speeds fl l ∷ []) (track-opened l) (speeds-plain l, tt))
        (mode-plain b l)

  rmc-Opened : (b : Bool) (l : Location fl) (x : Extended fl) → Opened (rmc fl b l x)
  unfolding rmc
  rmc-Opened b l x =
      let fields =
        lat_long fl l
        ∷ fixed_or_none fl l.has_speed (fl.knots l.speed)
        ∷ fixed_or_none fl l.has_bearing l.bearing
        ∷ date fl l.utc
        ∷ variation fl x
        ∷ [] in
      let first = codes "$GPRMC," ++ time_of_day fl l.utc ++ codes ",A," in
      print_last-Opened (print_all [] (first ∷ fields)) (mode fl b l)
        (first-Opened first fields (time_of_day-plain l.utc (codes ",A,") refl) (
          lat_long-plain l,
          (
            fixed_or_none-plain l.has_speed (fl.knots l.speed),
            (
              fixed_or_none-plain l.has_bearing l.bearing,
              (date-plain l.utc, (variation-plain x, tt)),
            ),
          ),
        ))
        (mode-plain b l)

  gga-Opened :
      (b : Bool) (l : Location fl) (x : Extended fl) (n : ℕ) (s : NmeaState fl)
      → Opened (gga fl b l x n s)
  unfolding gga
  gga-Opened b l x n s =
      let third = quality fl b l ++ fl.padded 2 n ++ codes "," ++ hdop_field fl x s in
      let fields = lat_long fl l ∷ third ∷ mean_sea_level fl x ∷ [] in
      let first = codes "$GPGGA," ++ time_of_day fl l.utc ++ codes "," in
      print_last-Opened (print_all [] (first ∷ fields)) (geoid fl l x)
        (first-Opened first fields (time_of_day-plain l.utc (codes ",") refl)
          (lat_long-plain l, (third-plain b l x n s, (mean_sea_level-plain x, tt))))
        (geoid-plain l x)

  -- Every sentence sent so far is one that a receiver takes.
  abbrev pub AllValid : NmeaState fl → Type 0
  AllValid s = All IsValid s.sent

  hand_on-AllValid :
      (o : Option (Text × ℕ)) (s : NmeaState fl) → PutValid o → AllValid s → AllValid (hand_on o s)
  hand_on-AllValid none s v h = h
  hand_on-AllValid (some q) s v h = All-snoc s.sent q h v

  either-AllValid :
      (b : Bool) (s t : NmeaState fl) → AllValid s → AllValid t → AllValid (if b then s else t)
  either-AllValid true s t h k = h
  either-AllValid false s t h k = k

  pub send-AllValid :
      (t : Text) (s : NmeaState fl) → opened t ≡ true → AllValid s → AllValid (send t s)
  unfolding send
  send-AllValid t s ot h =
      either-AllValid s.overrun s (hand_on (put_checksum t) s) h
        (hand_on-AllValid (put_checksum t) s (put_checksum-PutValid t ot) h)

  pub and_send-AllValid :
      (o : Option Text) (go_on : NmeaState fl → NmeaState fl) (s : NmeaState fl)
      → Opened o
      → ((s' : NmeaState fl) → AllValid s' → AllValid (go_on s'))
      → AllValid s
      → AllValid (and_send o go_on s)
  and_send-AllValid none go_on s oo on h = h
  and_send-AllValid (some t) go_on s oo on h = on (send t s) (send-AllValid t s oo h)

  pub generate_pos-AllValid :
      (b : Bool) (l : Location fl) (x : Extended fl) (s : NmeaState fl)
      → AllValid s
      → AllValid (generate_pos fl b l x s)
  unfolding generate_pos clear_dops
  generate_pos-AllValid b l x s h =
      let used = length (used_svs 32 1 s.sv_used_mask) in
      let last = and_send (gga fl b l x used s) (clear_dops fl) in
      let third = and_send (rmc fl b l x) last in
      and_send-AllValid (gsa fl x s) (and_send (vtg fl b l) third) (record s { sv_used_mask = 0 })
        (gsa-Opened x s)
        (λ s1. λ h1.
          and_send-AllValid (vtg fl b l) third s1 (vtg-Opened b l)
            (λ s2. λ h2.
              and_send-AllValid (rmc fl b l x) last s2 (rmc-Opened b l x)
                (λ s3. λ h3.
                  and_send-AllValid (gga fl b l x used s) (clear_dops fl) s3
                    (gga-Opened b l x used s) (λ s4. λ h4. h4) h3)
                h2)
            h1)
        h
