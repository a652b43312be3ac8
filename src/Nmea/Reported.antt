-- ===== src/Nmea/Reported.antt =====
-- Any reports of positions and satellites, one after the other.
use device_samsung_msm8660_c.Common.{
  codes, ℕ, zero, suc, ◌+◌, Bool, true, List, [], ◌∷◌, ◌++◌, length, ◌≡◌, refl, subst, sym, arith,
  All, Bool-cases, inl, inr,
}
use device_samsung_msm8660_c.Agps.Types.{Text}
use device_samsung_msm8660_c.Nmea.Types.{Floats, Location, Extended, Sv, NmeaState}
use device_samsung_msm8660_c.Nmea.Print.{print_all, send}
use device_samsung_msm8660_c.Nmea.Received.{plain}
use device_samsung_msm8660_c.Nmea.Plain.{PrintsPlain, plain-append, AllPlain, first-Opened, IsValid}
use device_samsung_msm8660_c.Nmea.Sent.{
  AllValid, send-AllValid, and_send-AllValid, generate_pos-AllValid,
}
use device_samsung_msm8660_c.Nmea.Position.{generate_pos}
use device_samsung_msm8660_c.Nmea.Satellites.{
  sv_texts, sv_fields, gsv_head, gsv_loop, after_gsv, blank_sentences, generate_sv, sentence_count,
}

module _ (fl : Floats) where
  -- A report of a position, with whether the position mode is standalone, or of satellites in view.
  pub data NmeaReport : Type 0 where
    position : (standalone : Bool) → Location fl → Extended fl → NmeaReport
    satellites : List (Sv fl) → (used_mask : ℕ) → Extended fl → NmeaReport

  abbrev pub generate : NmeaReport → NmeaState fl → NmeaState fl
  generate (position b l x) s = generate_pos fl b l x s
  generate (satellites svs mask x) s = generate_sv fl svs mask x s

  abbrev pub generate_all : List NmeaReport → NmeaState fl → NmeaState fl
  generate_all [] s = s
  generate_all (r ∷ rs) s = generate_all rs (generate r s)

module _ (fl : Floats) (p : PrintsPlain fl) where
  place-plain :
      (v : Sv fl)
      → plain (
          codes ","
          ++ fl.padded 2 v.prn
          ++ codes ","
          ++ fl.rounded 2 v.elevation
          ++ codes ","
          ++ fl.rounded 3 v.azimuth
          ++ codes ",")
        ≡ true
  place-plain v = search (plain-append, p.padded_plain, p.rounded_plain) depth 12

  sv_texts-AllPlain :
      (v : Sv fl) (rest : List Text) → AllPlain rest → AllPlain (sv_texts fl v ++ rest)
  sv_texts-AllPlain v rest h = elim (Bool-cases (fl.positive v.snr)) [
    | inl heard ↦ ground (arith, heard, place-plain v, p.rounded_plain 2 v.snr)
    | inr unheard ↦ ground (arith, unheard, place-plain v)
  ]

  sv_fields-AllPlain : (n : ℕ) (svs : List (Sv fl)) → AllPlain (sv_fields fl n svs).0
  unfolding sv_fields
  sv_fields-AllPlain zero svs = tt
  sv_fields-AllPlain (suc n) [] = tt
  sv_fields-AllPlain (suc n) (v ∷ svs) =
      sv_texts-AllPlain v (sv_fields fl n svs).0 (sv_fields-AllPlain n svs)

  head-plain :
      (count number total : ℕ)
      → plain (
          fl.plain_decimal count
          ++ codes ","
          ++ fl.plain_decimal number
          ++ codes ","
          ++ fl.padded 2 total)
        ≡ true
  head-plain count number total =
      search (plain-append, p.plain_decimal_plain, p.padded_plain) depth 8

  gsv_loop-AllValid :
      (left number count total : ℕ) (svs : List (Sv fl)) (go_on : NmeaState fl → NmeaState fl)
      (s : NmeaState fl)
      → ((s' : NmeaState fl) → AllValid fl p s' → AllValid fl p (go_on s'))
      → AllValid fl p s
      → AllValid fl p (gsv_loop fl left number count total svs go_on s)
  unfolding gsv_loop
  gsv_loop-AllValid zero number count total svs go_on s on h = on s h
  gsv_loop-AllValid (suc left) number count total svs go_on s on h =
      let texts = (sv_fields fl 4 svs).0 in
      let rest = (sv_fields fl 4 svs).1 in
      let head = gsv_head fl count number total in
      and_send-AllValid fl p (print_all [] (head ∷ texts))
        (gsv_loop fl left (number + 1) count total rest go_on) s
        (first-Opened head texts (head-plain count number total) (sv_fields-AllPlain 4 svs))
        (λ s'. λ h'. gsv_loop-AllValid left (number + 1) count total rest go_on s' on h') h

  blank-AllValid : (s : NmeaState fl) → AllValid fl p s → AllValid fl p (blank_sentences fl s)
  unfolding blank_sentences
  blank-AllValid s h =
      let gsa = codes "$GPGSA,A,1,,,,,,,,,,,,,,," in
      let vtg = codes "$GPVTG,,T,,M,,N,,K,N" in
      let rmc = codes "$GPRMC,,V,,,,,,,,,,N" in
      let gga = codes "$GPGGA,,,,,,0,,,,,,,," in
      let one = send gsa s in
      let two = send vtg one in
      let three = send rmc two in
      send-AllValid fl p gga three refl (
        send-AllValid fl p rmc two refl
          (send-AllValid fl p vtg one refl (send-AllValid fl p gsa s refl h)))

  after_gsv-AllValid :
      (mask : ℕ) (x : Extended fl) (s : NmeaState fl)
      → AllValid fl p s
      → AllValid fl p (after_gsv fl mask x s)
  unfolding after_gsv
  after_gsv-AllValid mask x s h = ground (arith, blank-AllValid s h)

  generate_sv-AllValid :
      (svs : List (Sv fl)) (mask : ℕ) (x : Extended fl) (s : NmeaState fl)
      → AllValid fl p s
      → AllValid fl p (generate_sv fl svs mask x s)
  unfolding generate_sv
  generate_sv-AllValid [] mask x s h =
      let blank = codes "$GPGSV,1,1,0," in
      after_gsv-AllValid mask x (send blank s) (send-AllValid fl p blank s refl h)
  generate_sv-AllValid (v ∷ svs) mask x s h =
      let count = sentence_count (length (v ∷ svs)) in
      gsv_loop-AllValid count 1 count (length (v ∷ svs)) (v ∷ svs) (after_gsv fl mask x) s
        (after_gsv-AllValid mask x) h

  generate_all-from-AllValid :
      (rs : List (NmeaReport fl)) (s : NmeaState fl)
      → AllValid fl p s
      → AllValid fl p (generate_all fl rs s)
  generate_all-from-AllValid [] s h = h
  generate_all-from-AllValid (position b l x ∷ rs) s h =
      generate_all-from-AllValid rs (generate_pos fl b l x s) (generate_pos-AllValid fl p b l x s h)
  generate_all-from-AllValid (satellites svs mask x ∷ rs) s h =
      generate_all-from-AllValid rs (generate_sv fl svs mask x s)
        (generate_sv-AllValid svs mask x s h)

-- Whatever positions and satellites are reported, and where numbers are printed without an end of
-- string and without `*`: if nothing was sent before, every sentence that is sent, up to a checksum
-- that is written behind the end of the buffer, fits into the buffer and is taken by a receiver, which
-- finds an even number of 1s at each place of a byte among the characters and the checksum; and the
-- length handed on with each is one less than its own.
pub generate_all-AllValid :
    (fl : Floats) (p : PrintsPlain fl) (rs : List (NmeaReport fl)) (s : NmeaState fl)
    → s.sent ≡ []
    → All IsValid (generate_all fl rs s).sent
generate_all-AllValid fl p rs s none_yet =
    generate_all-from-AllValid fl p rs s (subst (λ ps. All IsValid ps) (sym none_yet) tt)
