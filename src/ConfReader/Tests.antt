-- ===== src/ConfReader/Tests.antt =====
-- The reader's theorems at a string with blanks at its ends, and at a file of four lines.
use device_samsung_msm8660_c.Common.{
  ℕ, zero, suc, ◌+◌, ◌/◌, ◌%◌, true, false, List, [], ◌∷◌, ◌++◌, length, codes, refl, arith,
}
use device_samsung_msm8660_c.Agps.Types.{Text}
use device_samsung_msm8660_c.ConfReader.Trim.{Memory, trim_space}
use device_samsung_msm8660_c.ConfReader.Trim.Loop.{Holds}
use device_samsung_msm8660_c.ConfReader.Trim.Trimmed.{Leaves, trimmed, trim_space-Leaves}
use device_samsung_msm8660_c.ConfReader.Entry.{
  Numbers, text_param, number_param, Entry, untouched, OwnVariables,
}

abbrev byte_at : List ℕ → ℕ → ℕ
byte_at [] n = 0
byte_at (c ∷ t) zero = c
byte_at (c ∷ t) (suc n) = byte_at t n

abbrev memory : Memory
memory = byte_at (codes " on ")

memory-Holds : Holds memory 0 (codes " on ")
memory-Holds = (
  refl,
  (λ e. omega (arith, e)),
  (
    refl,
    (λ e. omega (arith, e)),
    (refl, (λ e. omega (arith, e)), (refl, (λ e. omega (arith, e)), refl)),
  ),
)

trim_space-Leaves_example : Leaves (trim_space 5 0 memory) 0 (trimmed (codes " on "))
trim_space-Leaves_example = trim_space-Leaves 5 0 memory (codes " on ") (omega arith) memory-Holds

-- Numbers are told by the length of their text.
abbrev lengths : Numbers
lengths = record {
  Int = ℕ;
  Double = ℕ;
  zero_double = 0;
  atoi = λ t. length t;
  strtol_hex = λ t. length t + 100;
  atof = λ t. length t;
}

abbrev table : List (Entry lengths)
table =
    record {
      param_name = codes "SUPL_VER";
      has_ptr = true;
      has_set = false;
      param_type = number_param;
      stored = untouched;
      param_set = 0;
    }
    ∷ record {
      param_name = codes "NTP_SERVER";
      has_ptr = true;
      has_set = true;
      param_type = text_param;
      stored = untouched;
      param_set = 0;
    }
    ∷ []

abbrev file : Text
file =
    codes "SUPL_VER = 0x10000"
    ++ 10 ∷ codes "# none"
    ++ 10 ∷ codes "NTP_SERVER=pool=x"
    ++ 10 ∷ codes "TIMESTAMP=1"
    ++ 10 ∷ []

-- Little-endian variables of one byte, `TIMESTAMP` behind `DEBUG_LEVEL`: an int for the first covers
-- the second.
abbrev side_by_side : OwnVariables lengths
side_by_side = record {
  Own = ℕ × ℕ;
  put_defaults = λ own. (3, 0);
  put_debug_level = λ n own. (n % 256, n / 256 % 256);
  put_timestamp = λ n own. (own.0, n % 256);
}
