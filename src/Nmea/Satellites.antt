-- ===== src/Nmea/Satellites.antt =====
-- `loc_eng_nmea_generate_sv`: sentences on the satellites in view, four in each.
use device_samsung_msm8660_c.Common.{
  codes, ℕ, zero, suc, ◌+◌, ◌/◌, ◌%◌, List, [], ◌∷◌, ◌++◌, length, ◌==◌, if◌then◌else◌, is_nil,
}
use device_samsung_msm8660_c.Agps.Types.{Text}
use device_samsung_msm8660_c.Nmea.Types.{Floats, Extended, Sv, NmeaState}
use device_samsung_msm8660_c.Nmea.Print.{print_all, send, and_send}

-- `svCount / 4`, rounded up.
unfoldable pub sentence_count : ℕ → ℕ
sentence_count n = if n % 4 == 0 then n / 4 else n / 4 + 1

module _ (fl : Floats) where
  -- What is printed for one satellite.
  abbrev pub sv_texts : Sv fl → List Text
  sv_texts v =
      let place =
        codes ","
        ++ fl.padded 2 v.prn
        ++ codes ","
        ++ fl.rounded 2 v.elevation
        ++ codes ","
        ++ fl.rounded 3 v.azimuth
        ++ codes "," in
      if fl.positive v.snr then place ∷ fl.rounded 2 v.snr ∷ [] else place ∷ []

  -- The inner loop: what it prints for `n` satellites at most, and the satellites left.
  unfoldable pub sv_fields : ℕ → List (Sv fl) → List Text × List (Sv fl)
  sv_fields zero svs = ([], svs)
  sv_fields (suc n) [] = ([], [])
  sv_fields (suc n) (v ∷ svs) = let (texts, left) = sv_fields n svs in (sv_texts v ++ texts, left)

  abbrev pub gsv_head : (count number total : ℕ) → Text
  gsv_head count number total =
      codes "$GPGSV,"
      ++ fl.plain_decimal count
      ++ codes ","
      ++ fl.plain_decimal number
      ++ codes ","
      ++ fl.padded 2 total

  -- The outer loop, with `left` sentences to come, and what the function does behind it.
  unfoldable pub gsv_loop :
      (left number count total : ℕ)
      → List (Sv fl)
      → (NmeaState fl → NmeaState fl)
      → NmeaState fl
      → NmeaState fl
  unfolding print_all sv_fields
  gsv_loop zero number count total svs go_on s = go_on s
  gsv_loop (suc left) number count total svs go_on s =
      let (texts, rest) = sv_fields 4 svs in
      and_send (print_all [] (gsv_head count number total ∷ texts))
        (gsv_loop left (number + 1) count total rest go_on) s

  -- With no satellite used there is no position report, and blank sentences are sent.
  unfoldable pub blank_sentences : NmeaState fl → NmeaState fl
  unfolding send
  blank_sentences s =
      let gsa = send (codes "$GPGSA,A,1,,,,,,,,,,,,,,,") s in
      let vtg = send (codes "$GPVTG,,T,,M,,N,,K,N") gsa in
      let rmc = send (codes "$GPRMC,,V,,,,,,,,,,N") vtg in send (codes "$GPGGA,,,,,,0,,,,,,,,") rmc

  abbrev pub cache_dop : Extended fl → NmeaState fl → NmeaState fl
  cache_dop x s =
      if x.has_dop
      then record s { pdop = x.pdop_now; hdop = x.hdop_now; vdop = x.vdop_now }
      else record s { pdop = fl.zero_float; hdop = fl.zero_float; vdop = fl.zero_float }

  -- The part behind the sentences on satellites in view.
  unfoldable pub after_gsv : (used_mask : ℕ) → Extended fl → NmeaState fl → NmeaState fl
  unfolding blank_sentences
  after_gsv used_mask x s =
      if used_mask == 0
      then blank_sentences s
      else cache_dop x (record s { sv_used_mask = used_mask })

  -- `loc_eng_nmea_generate_sv` on the first `num_svs` entries of `sv_list`.
  unfoldable pub generate_sv :
      List (Sv fl) → (used_mask : ℕ) → Extended fl → NmeaState fl → NmeaState fl
  unfolding send gsv_loop
  generate_sv svs used_mask x s =
      let count = sentence_count (length svs) in
      if is_nil svs
      then after_gsv used_mask x (send (codes "$GPGSV,1,1,0,") s)
      else gsv_loop count 1 count (length svs) svs (after_gsv used_mask x) s
