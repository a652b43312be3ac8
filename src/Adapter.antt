-- ===== src/Adapter.antt =====
-- The base class of the modem's adapter: gps/libloc_api_50001/LocApiAdapter.cpp.
pub mod Address
pub mod Senders
mod Tests
use device_samsung_msm8660_c.Common.{
  ℕ, zero, suc, ◌+◌, ◌-◌, ◌*◌, ◌/◌, ◌%◌, Bool, ◌&&◌, List, [], ◌∷◌, ◌++◌, length, ltb, ◌==◌,
  if◌then◌else◌,
}
use device_samsung_msm8660_c.Agps.Types.{Text}

-- A digit of `snprintf` with "%02X".
abbrev pub upper_hex : ℕ → ℕ
upper_hex n = if ltb n 10 then 48 + n else 55 + n

-- The loop of `hexcode` from byte `i` on, with what it writes and returns. A `char` is not signed on
-- the device.
unfoldable pub hexcode_from : (string_size i : ℕ) → Text → Text × ℕ
hexcode_from string_size i [] = ([], i)
hexcode_from string_size i (ch ∷ t) =
    let (text, n) = hexcode_from string_size (i + 1) t in
    if ltb string_size (i * 2 + 3)
    then ([], i)
    else (upper_hex (ch / 16) ∷ upper_hex (ch % 16) ∷ text, n)

unfoldable pub hexcode : (string_size : ℕ) → Text → Text × ℕ
unfolding hexcode_from
hexcode string_size bytes = hexcode_from string_size 0 bytes

-- A digit is written if it is one and there is room; `string_size - 1` stops at 0 here, where the test
-- fails in the source too.
unfoldable pub put_digit : (string_size : ℕ) → ℕ → Text → Text
put_digit string_size d out =
    if ltb d 10 && ltb (length out) (string_size - 1) then out ++ (d + 48) ∷ [] else out

-- The loop of `decodeAddress`: the low half of a byte comes first.
unfoldable pub decode_bytes : (string_size : ℕ) → Text → Text → Text
unfolding put_digit
decode_bytes string_size [] out = out
decode_bytes string_size (ch ∷ t) out =
    decode_bytes string_size t
      (put_digit string_size (ch / 16) (put_digit string_size (ch % 16) out))

-- `decodeAddress` where both pointers are set: the text it leaves, whose length it returns. 145 is the
-- prefix 0x91. At least one byte is there.
unfoldable pub decode_address : (string_size : ℕ) → Text → Text
unfolding decode_bytes
decode_address string_size [] = []
decode_address string_size (prefix ∷ t) =
    if prefix == 145 then decode_bytes string_size t [] else []
