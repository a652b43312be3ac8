-- ===== src/Nmea/Parity.antt =====
-- The running checksum of `loc_eng_nmea_put_checksum`, one binary place at a time.
use Prim.Native.Nat.{bit_xor, differ, digits, bit_xor-bitwise}
use device_samsung_msm8660_c.Common.{
  ℕ, zero, suc, ◌+◌, ◌*◌, ◌/◌, ◌%◌, ◌^◌, ◌≤◌, ◌<◌, Bool, true, ◌&&◌, ◌==◌, [], ◌∷◌, ◌≡◌, refl,
  arith,
}
use device_samsung_msm8660_c.Agps.Types.{Text}
use device_samsung_msm8660_c.Nmea.Print.{checksum}

-- The binary digit of a number at a place.
unfoldable pub digit : (place number : ℕ) → ℕ
digit zero number = number % 2
digit (suc place) number = digit place (number / 2)

digit_small : (place number : ℕ) → digit place number < 2
unfolding digit
digit_small zero number = omega arith
digit_small (suc place) number = digit_small place (number / 2)

digit_of_zero : (place : ℕ) → digit place 0 ≡ 0
unfolding digit
digit_of_zero zero = refl
digit_of_zero (suc place) = digit_of_zero place

differ_parity : (x y : ℕ) → x < 2 → y < 2 → differ x y ≡ (x + y) % 2
differ_parity zero y px py = omega arith
differ_parity (suc zero) zero px py = refl
differ_parity (suc zero) (suc zero) px py = refl
differ_parity (suc zero) (suc (suc y)) px py = absurd (omega arith)
differ_parity (suc (suc x)) y px py = absurd (omega arith)

xor_from : ℕ → ℕ → ℕ → ℕ
xor_from count x y = digits (λ rest. rest) differ count x y

-- A number and a last digit below it.
lower_digit : (high x y : ℕ) → (high * 2 + differ (x % 2) (y % 2)) % 2 ≡ (x % 2 + y % 2) % 2
lower_digit high x y = omega (arith, differ_parity (x % 2) (y % 2) (omega arith) (omega arith))

upper_digits : (high x y : ℕ) → (high * 2 + differ (x % 2) (y % 2)) / 2 ≡ high
upper_digits high x y = omega (arith, differ_parity (x % 2) (y % 2) (omega arith) (omega arith))

nothing_left : (place y : ℕ) → digit place y ≡ (digit place 0 + digit place y) % 2
nothing_left place y = omega (arith, digit_of_zero place, digit_small place y)

digit-xor_from :
    (place count x y : ℕ)
    → x ≤ count
    → digit place (xor_from count x y) ≡ (digit place x + digit place y) % 2
unfolding xor_from digit
digit-xor_from place zero zero y enough = nothing_left place y
digit-xor_from place zero (suc x) y enough = absurd (omega arith)
digit-xor_from place (suc count) zero y enough = nothing_left place y
digit-xor_from zero (suc count) (suc x) y enough =
    lower_digit (xor_from count (suc x / 2) (y / 2)) (suc x) y
digit-xor_from (suc place) (suc count) (suc x) y enough =
    rw (upper_digits (xor_from count (suc x / 2) (y / 2)) (suc x) y)
      (digit-xor_from place count (suc x / 2) (y / 2) (omega arith))

-- Exclusive or has 1 at a place where one of the two numbers has it.
digit-bit_xor : (place x y : ℕ) → digit place (bit_xor x y) ≡ (digit place x + digit place y) % 2
unfolding xor_from
digit-bit_xor place x y = simp bit_xor-bitwise (digit-xor_from place x x y (omega arith))

digit_byte : (i n : ℕ) → i < 8 → digit i (n % 256) ≡ digit i n
unfolding digit
digit_byte zero n small = omega arith
digit_byte (suc zero) n small = omega arith
digit_byte (suc (suc zero)) n small = omega arith
digit_byte (suc (suc (suc zero))) n small = omega arith
digit_byte (suc (suc (suc (suc zero)))) n small = omega arith
digit_byte (suc (suc (suc (suc (suc zero))))) n small = omega arith
digit_byte (suc (suc (suc (suc (suc (suc zero)))))) n small = omega arith
digit_byte (suc (suc (suc (suc (suc (suc (suc zero))))))) n small = omega arith
digit_byte (suc (suc (suc (suc (suc (suc (suc (suc i)))))))) n small = absurd (omega arith)

-- How many characters have a 1 at a place.
unfoldable pub ones : (place : ℕ) → Text → ℕ
ones i [] = 0
ones i (c ∷ t) = digit i c + ones i t

-- At each place of a byte the checksum has 1 where an odd number of characters have it.
pub checksum-ones :
    (i sum : ℕ) (t : Text) → i < 8 → digit i (checksum sum t) ≡ (digit i sum + ones i t) % 2
unfolding checksum ones
checksum-ones i sum [] small = omega (arith, digit_small i sum)
checksum-ones i sum (c ∷ t) small = omega (
  arith,
  checksum-ones i (bit_xor sum c % 2 ^ 8) t small,
  digit_byte i (bit_xor sum c) small,
  digit-bit_xor i sum c,
)

-- Whether at each place below `places` the characters and a checksum together have an even number of
-- 1s: what a receiver of NMEA sentences checks, for a byte.
unfoldable pub agrees : (places : ℕ) → Text → (sum : ℕ) → Bool
unfolding ones digit
agrees zero t sum = true
agrees (suc i) t sum = let rest = agrees i t sum in (ones i t + digit i sum) % 2 == 0 && rest

pub agrees-checksum : (places : ℕ) (t : Text) → places ≤ 8 → agrees places t (checksum 0 t) ≡ true
unfolding agrees
agrees-checksum zero t small = refl
agrees-checksum (suc i) t small =
    ground (arith, agrees-checksum i t (omega arith), checksum-ones i 0 t small, digit_of_zero i)
