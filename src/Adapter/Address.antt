-- ===== src/Adapter/Address.antt =====
-- Addresses: digits packed two in a byte, and read back.
use device_samsung_msm8660_c.Common.{
  ℕ, zero, suc, ◌+◌, ◌-◌, ◌*◌, ◌/◌, ◌%◌, ◌<◌, ◌≤◌, List, [], ◌∷◌, ◌++◌, length, take, ltb, ◌≡◌,
  refl, sym, ap, ◌∙◌, arith, All, length-append, Bool-cases, inl, inr,
}
use device_samsung_msm8660_c.Agps.Types.{Text}
use device_samsung_msm8660_c.Adapter.{put_digit, decode_bytes, decode_address}

-- Digits as a UMTS address has them: two in a byte, the first in the low half, and 15 for filling.
unfoldable pub pack : List ℕ → Text
pack [] = []
pack (a ∷ []) = (a + 16 * 15) ∷ []
pack (a ∷ b ∷ ds) = (a + 16 * b) ∷ pack ds

abbrev pub characters : List ℕ → Text
characters [] = []
characters (d ∷ ds) = (d + 48) ∷ characters ds

abbrev pub Digits : List ℕ → Type 0
Digits ds = All (λ d. d < 10) ds

put_all : ℕ → List ℕ → Text → Text
put_all size [] out = out
put_all size (d ∷ ds) out = put_all size ds (put_digit size d out)

low : (a b : ℕ) → a < 10 → b < 16 → (a + 16 * b) % 16 ≡ a
low a b sa sb = omega (arith, sa, sb)

high : (a b : ℕ) → a < 10 → b < 16 → (a + 16 * b) / 16 ≡ b
high a b sa sb = omega (arith, sa, sb)

put-filler : (size : ℕ) (out : Text) → put_digit size 15 out ≡ out
unfolding put_digit
put-filler size out = ground arith

decode_bytes-put_all :
    (size : ℕ) (ds : List ℕ) (out : Text)
    → Digits ds
    → decode_bytes size (pack ds) out ≡ put_all size ds out
unfolding decode_bytes pack put_all
decode_bytes-put_all size [] out h = refl
decode_bytes-put_all size (a ∷ []) out h = grind (
  arith,
  low a 15 h.0 (omega arith),
  high a 15 h.0 (omega arith),
  put-filler size (put_digit size a out),
)
decode_bytes-put_all size (a ∷ b ∷ ds) out h = grind (
  arith,
  low a b h.0 (omega (arith, h.1.0)),
  high a b h.0 (omega (arith, h.1.0)),
  decode_bytes-put_all size ds (put_digit size b (put_digit size a out)) h.1.1,
)

append_nil : (t : Text) → t ++ [] ≡ t
append_nil [] = refl
append_nil (c ∷ t) = ap (λ u. c ∷ u) (append_nil t)

append_one : (t : Text) (c : ℕ) (v : Text) → (t ++ c ∷ []) ++ v ≡ t ++ c ∷ v
append_one [] c v = refl
append_one (d ∷ t) c v = ap (λ w. d ∷ w) (append_one t c v)

take-nil : (n : ℕ) → take {A = ℕ} n [] ≡ []
take-nil zero = refl
take-nil (suc n) = refl

put-room :
    (size d : ℕ) (out : Text)
    → d < 10
    → length out < size - 1
    → put_digit size d out ≡ out ++ (d + 48) ∷ []
unfolding put_digit
put-room size d out small room = ground (arith, small, room)

put-full : (size d : ℕ) (out : Text) → size - 1 ≤ length out → put_digit size d out ≡ out
unfolding put_digit
put-full size d out full = ground (arith, full)

take-room : (n m : ℕ) (c : ℕ) (t : Text) → n ≡ suc m → take n (c ∷ t) ≡ c ∷ take m t
take-room n m c t same = ap (λ k. take k (c ∷ t)) same

take-full : (n : ℕ) (t : Text) → n ≡ 0 → take n t ≡ []
take-full n t same = ap (λ k. take k t) same

-- Digits are put until the room is spent.
put_all-take :
    (size : ℕ) (ds : List ℕ) (out : Text)
    → Digits ds
    → put_all size ds out ≡ out ++ take (size - 1 - length out) (characters ds)
unfolding put_all
put_all-take size [] out h =
    sym (ap (λ t. out ++ t) (take-nil (size - 1 - length out)) ∙ append_nil out)
put_all-take size (d ∷ ds) out h = elim (Bool-cases (ltb (length out) (size - 1))) [
  | inl room ↦
      let longer = out ++ (d + 48) ∷ [] in
      let inside : length out < size - 1 = ground (arith, room) in
      ap (put_all size ds) (put-room size d out h.0 inside)
      ∙ put_all-take size ds longer h.1
      ∙ append_one out (d + 48) (take (size - 1 - length longer) (characters ds))
      ∙ ap (λ t. out ++ t)
          (sym (
            take-room (size - 1 - length out) (size - 1 - length longer) (d + 48) (characters ds)
              (omega (arith, inside, length-append out ((d + 48) ∷ [])))))
  | inr full ↦
      let spent : size - 1 ≤ length out = ground (arith, full) in
      ap (put_all size ds) (put-full size d out spent)
      ∙ put_all-take size ds out h.1
      ∙ ap (λ t. out ++ t)
          (take-full (size - 1 - length out) (characters ds) (omega (arith, spent))
            ∙ sym (take-full (size - 1 - length out) (characters (d ∷ ds)) (omega (arith, spent))))
]

-- `decodeAddress` gives the digits of a packed address back as characters, the first of them where the
-- buffer has no room for all and the end of the string.
pub decode_address-pack :
    (string_size : ℕ) (ds : List ℕ)
    → Digits ds
    → decode_address string_size (145 ∷ pack ds) ≡ take (string_size - 1) (characters ds)
unfolding decode_address
decode_address-pack string_size ds h =
    decode_bytes-put_all string_size ds [] h
    ∙ put_all-take string_size ds [] h
    ∙ ap (λ n. take n (characters ds)) (omega arith)
