-- ===== src/Nmea/Print.antt =====
-- Printing into `sentence`, the checksum, and sending: the pattern of checked `snprintf` calls,
-- `loc_eng_nmea_put_checksum` and `loc_eng_nmea_send`.
use Prim.Native.Nat.{bit_xor}
use device_samsung_msm8660_c.Common.{
  ℕ, ◌+◌, ◌-◌, ◌/◌, ◌%◌, ◌^◌, true, Option, none, some, List, [], ◌∷◌, ◌++◌, length, take, ltb,
  if◌then◌else◌,
}
use device_samsung_msm8660_c.Agps.Types.{Text}
use device_samsung_msm8660_c.Nmea.Types.{Floats, NmeaState}

-- `NMEA_SENTENCE_MAX_LENGTH`
abbrev pub max_length : ℕ
max_length = 200

-- `snprintf` at `pMarker` and the check of its result; `lengthRemaining` is what the text leaves.
unfoldable pub print : Text → Text → Option Text
print t s = if ltb (length s) (max_length - length t) then some (t ++ s) else none

-- A series of checked calls.
unfoldable pub print_all : Text → List Text → Option Text
print_all t [] = some t
print_all t (s ∷ ss) = elim (print t s) [ none ↦ none | some t' ↦ print_all t' ss ]

-- The last call for a sentence, whose result is not checked.
abbrev pub print_last : Option Text → Text → Option Text
print_last none s = none
print_last (some t) s = some (t ++ take (max_length - length t - 1) s)

abbrev pub hex_digit : ℕ → ℕ
hex_digit n = if ltb n 10 then 48 + n else 55 + n

-- The loop of `loc_eng_nmea_put_checksum`.
unfoldable pub checksum : ℕ → Text → ℕ
checksum sum [] = sum
checksum sum (c ∷ t) = checksum (bit_xor sum c % 2 ^ 8) t

-- `loc_eng_nmea_put_checksum`, with the text that it leaves and its result. It is not called with an
-- empty text. `snprintf` may use the size of the whole buffer, and the checksum takes six bytes with
-- the end of the string: none where it is written behind the buffer's end.
unfoldable pub put_checksum : Text → Option (Text × ℕ)
unfolding checksum
put_checksum [] = some ([], 0)
put_checksum (c ∷ t) =
    let sum = checksum 0 t in
    if ltb max_length (length t + 7)
    then none
    else some
        (c ∷ t ++ 42 ∷ hex_digit (sum / 16) ∷ hex_digit (sum % 16) ∷ 13 ∷ 10 ∷ [], length t + 5)

module _ {fl : Floats} where
  -- A sentence is handed on, if its checksum had room.
  abbrev pub hand_on : Option (Text × ℕ) → NmeaState fl → NmeaState fl
  hand_on none s = record s { overrun = true }
  hand_on (some p) s = record s { sent = s.sent ++ p ∷ [] }

  -- The checksum is put and the sentence sent. After an overrun nothing is known, and nothing happens
  -- here.
  unfoldable pub send : Text → NmeaState fl → NmeaState fl
  unfolding put_checksum
  send t s = if s.overrun then s else hand_on (put_checksum t) s

  -- The sentence is sent and the function goes on, or it returns where a call's check failed.
  abbrev pub and_send : Option Text → (NmeaState fl → NmeaState fl) → NmeaState fl → NmeaState fl
  and_send none go_on s = s
  and_send (some t) go_on s = go_on (send t s)
