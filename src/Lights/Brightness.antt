-- ===== src/Lights/Brightness.antt =====
-- The brightness of a colour.
use device_samsung_msm8660_c.Common.{ℕ, ◌+◌, ◌*◌, ◌/◌, ◌^◌, ◌≤◌, ◌<◌, ◌≡◌, arith}
use device_samsung_msm8660_c.Lights.{rgb_to_brightness}

-- A colour's three channels.
abbrev pub color_of : (red green blue : ℕ) → ℕ
color_of red green blue = red * 2 ^ 16 + green * 2 ^ 8 + blue

weighted :
    (r g b : ℕ)
    → r < 2 ^ 8
    → g < 2 ^ 8
    → b < 2 ^ 8
    → rgb_to_brightness (color_of r g b) ≡ (77 * r + 150 * g + 29 * b) / 2 ^ 8
unfolding rgb_to_brightness
weighted r g b lr lg lb = omega (arith, lr, lg, lb)

-- The brightness of any colour word fits in a byte.
pub rgb_to_brightness-byte : (color : ℕ) → rgb_to_brightness color < 2 ^ 8
unfolding rgb_to_brightness
rgb_to_brightness-byte color = omega arith

-- The brightness of a grey is the grey.
pub rgb_to_brightness-grey : (g : ℕ) → g < 2 ^ 8 → rgb_to_brightness (color_of g g g) ≡ g
rgb_to_brightness-grey g lt = omega (arith, weighted g g g lt lt lt, lt)

-- A colour none of whose channels is brighter than another's is not brighter.
pub rgb_to_brightness_mono :
    (r r' g g' b b' : ℕ)
    → r ≤ r'
    → g ≤ g'
    → b ≤ b'
    → r' < 2 ^ 8
    → g' < 2 ^ 8
    → b' < 2 ^ 8
    → rgb_to_brightness (color_of r g b) ≤ rgb_to_brightness (color_of r' g' b')
rgb_to_brightness_mono r r' g g' b b' ler leg leb_ lr lg lb = omega (
  arith,
  weighted r g b (omega (arith, ler, lr)) (omega (arith, leg, lg)) (omega (arith, leb_, lb)),
  weighted r' g' b' lr lg lb,
  ler,
  leg,
  leb_,
)
