-- ===== src/Nmea/Received.antt =====
-- Sentences as a receiver reads them: the checksum, and the length that goes with the text.
use Prim.Native.Nat.{bit_xor}
use device_samsung_msm8660_c.Common.{
  ℕ, ◌+◌, ◌-◌, ◌*◌, ◌/◌, ◌%◌, ◌^◌, ◌<◌, ◌≤◌, Bool, true, ◌&&◌, ◌||◌, not, Option, none, some, [],
  ◌∷◌, ◌++◌, length, ltb, ◌==◌, if◌then◌else◌, ◌≡◌, refl, ap, arith, length-append,
}
use device_samsung_msm8660_c.Agps.Types.{Text}
use device_samsung_msm8660_c.Nmea.Parity.{agrees, agrees-checksum}
use device_samsung_msm8660_c.Nmea.Print.{checksum, put_checksum, hex_digit}

-- Characters that may stand between `$` and `*`.
abbrev pub is_plain : ℕ → Bool
is_plain c = not (c == 0) && not (c == 42)

abbrev pub plain : Text → Bool
plain [] = true
plain (c ∷ t) = is_plain c && plain t

-- The text before the first `*`, and that behind it.
unfoldable pub split_star : Text → Option (Text × Text)
split_star [] = none
split_star (c ∷ t) =
    let rest = split_star t in
    if c == 42 then some ([], t) else elim rest [ none ↦ none | some (a, b) ↦ some (c ∷ a, b) ]

abbrev pub unhex : ℕ → ℕ
unhex c = if ltb c 65 then c - 48 else c - 55

abbrev pub is_hex : ℕ → Bool
is_hex c = ltb 47 c && ltb c 58 || ltb 64 c && ltb c 71

-- The body of a line whose checksum makes the number of 1s even at every place of a byte.
abbrev pub checked_body : Option (Text × Text) → Option Text
checked_body (some (body, h ∷ l ∷ r ∷ n ∷ [])) =
    if (is_hex h && is_hex l) && ((r == 13 && n == 10) && agrees 8 body (unhex h * 16 + unhex l))
    then some body
    else none
checked_body _ = none

-- What a receiver takes from a line: `$`, the body, `*`, two hexadecimal digits and the line's end.
unfoldable pub received : Text → Option Text
received [] = none
received (c ∷ t) = if c == 36 then checked_body (split_star t) else none

split_star-plain :
    (body rest : Text) → plain body ≡ true → split_star (body ++ 42 ∷ rest) ≡ some (body, rest)
unfolding split_star
split_star-plain [] rest clean = refl
split_star-plain (c ∷ body) rest clean = ground (arith, split_star-plain body rest)

checksum_bounded : (sum : ℕ) (t : Text) → sum < 256 → checksum sum t < 256
unfolding checksum
checksum_bounded sum [] small = small
checksum_bounded sum (c ∷ t) small = checksum_bounded (bit_xor sum c % 2 ^ 8) t (omega arith)

unhex-hex_digit : (n : ℕ) → n < 16 → unhex (hex_digit n) ≡ n
unhex-hex_digit n small = ground arith

hex_digit-is_hex : (n : ℕ) → n < 16 → is_hex (hex_digit n) ≡ true
hex_digit-is_hex n small = ground arith

digits-unhex :
    (sum : ℕ) → sum < 256 → unhex (hex_digit (sum / 16)) * 16 + unhex (hex_digit (sum % 16)) ≡ sum
digits-unhex sum small = ground arith

-- The line of a body, and the length that goes with it.
abbrev pub line_of : Text → Text
line_of body =
    let sum = checksum 0 body in
    36 ∷ body ++ 42 ∷ hex_digit (sum / 16) ∷ hex_digit (sum % 16) ∷ 13 ∷ 10 ∷ []

pub put_checksum-line :
    (body : Text)
    → length body ≤ 193
    → put_checksum (36 ∷ body) ≡ some (line_of body, length body + 5)
unfolding put_checksum
put_checksum-line body room = ground arith

pub put_checksum-over : (body : Text) → 193 < length body → put_checksum (36 ∷ body) ≡ none
unfolding put_checksum
put_checksum-over body over = ground arith

pub length-line_of : (body : Text) → length (line_of body) ≡ length body + 6
length-line_of body =
    let sum = checksum 0 body in
    let rest = 42 ∷ hex_digit (sum / 16) ∷ hex_digit (sum % 16) ∷ 13 ∷ 10 ∷ [] in
    omega (arith, length-append body rest)

pub received-line : (body : Text) → plain body ≡ true → received (line_of body) ≡ some body
unfolding received
received-line body clean =
    let sum = checksum 0 body in
    let rest = hex_digit (sum / 16) ∷ hex_digit (sum % 16) ∷ 13 ∷ 10 ∷ [] in
    let small = checksum_bounded 0 body (omega arith) in
    rw (split_star-plain body rest clean) (
      ground (
        arith,
        hex_digit-is_hex (sum / 16) (omega (arith, small)),
        hex_digit-is_hex (sum % 16) (omega arith),
        digits-unhex sum small,
        ap (agrees 8 body) (digits-unhex sum small),
        agrees-checksum 8 body (omega arith),
      ))

-- Where the text behind `$` has no end of string and no `*`, and has at most 193 characters, so that
-- the checksum has room: `loc_eng_nmea_put_checksum` leaves a sentence from which a receiver takes the
-- whole text, finding at each place of a byte an even number of 1s among the characters and the
-- checksum. The length that it returns, which is handed on to the framework, is one less than that of
-- the sentence: it does not count the `$`.
pub received-put_checksum :
    (body : Text)
    → plain body ≡ true
    → length body ≤ 193
    → (line : Text) × (n : ℕ) × (put_checksum (36 ∷ body) ≡ some (line, n))
      × (received line ≡ some body)
      × (n + 1 ≡ length line)
received-put_checksum body clean room = (
  line_of body,
  length body + 5,
  put_checksum-line body room,
  received-line body clean,
  omega (arith, length-line_of body),
)
