-- ===== src/Adapter/Tests.antt =====
-- An address of five digits, in a buffer with room for four.
use device_samsung_msm8660_c.Common.{ℕ, List, [], ◌∷◌, take, ◌≡◌, arith}
use device_samsung_msm8660_c.Adapter.{decode_address}
use device_samsung_msm8660_c.Adapter.Address.{pack, characters, decode_address-pack}

abbrev number : List ℕ
number = 4 ∷ 9 ∷ 8 ∷ 9 ∷ 1 ∷ []

decode_address-pack_example : decode_address 5 (145 ∷ pack number) ≡ take 4 (characters number)
decode_address-pack_example =
    decode_address-pack 5 number
      (omega arith, (omega arith, (omega arith, (omega arith, (omega arith, tt)))))
