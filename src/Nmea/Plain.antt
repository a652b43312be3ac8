-- ===== src/Nmea/Plain.antt =====
-- Texts without the characters that end a sentence.
use device_samsung_msm8660_c.Common.{
  ℕ, zero, suc, ◌+◌, ◌-◌, ◌<◌, ◌≤◌, ltb, Bool-cases, inl, inr, Bool, true, false, ◌&&◌, Option,
  none, some, List, [], ◌∷◌, ◌++◌, length, take, ◌==◌, if◌then◌else◌, ◌≡◌, ◌≢◌, subst, sym, refl,
  ap, arith, All, is_some,
}
use device_samsung_msm8660_c.Agps.Types.{Text}
use device_samsung_msm8660_c.Nmea.Types.{Floats}
use device_samsung_msm8660_c.Nmea.Print.{print, print_all, print_last, put_checksum, max_length}
use device_samsung_msm8660_c.Nmea.Received.{
  plain, received, line_of, length-line_of, put_checksum-line, put_checksum-over, received-line,
}

-- What is documented of `snprintf`: a number is printed without an end of string and without `*`.
pub record PrintsPlain (fl : Floats) : Type 0 where
  pub plain_decimal_plain : (n : ℕ) → plain (fl.plain_decimal n) ≡ true
  pub padded_plain : (w n : ℕ) → plain (fl.padded w n) ≡ true
  pub rounded_plain : (w : ℕ) (x : fl.F) → plain (fl.rounded w x) ≡ true
  pub fixed_plain : (x : fl.F) → plain (fl.fixed x) ≡ true
  pub minutes_text_plain : (x : fl.F) → plain (fl.minutes_text x) ≡ true

pub plain-append : (a b : Text) → plain a ≡ true → plain b ≡ true → plain (a ++ b) ≡ true
plain-append [] b pa pb = pb
plain-append (c ∷ a) b pa pb = ground (arith, plain-append a b)

pub plain-if :
    (t : Bool) (a b : Text) → plain a ≡ true → plain b ≡ true → plain (if t then a else b) ≡ true
plain-if t a b pa pb = ground (arith, pa, pb)

plain-take : (n : ℕ) (a : Text) → plain a ≡ true → plain (take n a) ≡ true
plain-take zero a pa = refl
plain-take (suc n) [] pa = refl
plain-take (suc n) (c ∷ a) pa = ground (arith, plain-take n a)

-- A text that begins with `$` and is plain behind it.
abbrev pub opened : Text → Bool
opened [] = false
opened (c ∷ t) = c == 36 && plain t

opened-append : (t s : Text) → opened t ≡ true → plain s ≡ true → opened (t ++ s) ≡ true
opened-append [] s ot ps = ground arith
opened-append (c ∷ t) s ot ps = ground (arith, plain-append t s)

not-opened : opened [] ≢ true
not-opened = ground arith

abbrev pub Opened : Option Text → Type 0
Opened none = Unit
Opened (some t) = opened t ≡ true

abbrev pub AllPlain : List Text → Type 0
AllPlain ss = All (λ s. plain s ≡ true) ss

pub print_all-Opened :
    (t : Text) (ss : List Text) → opened t ≡ true → AllPlain ss → Opened (print_all t ss)
unfolding print_all print
print_all-Opened t [] ot ps = ot
print_all-Opened t (s ∷ ss) ot ps =
    ground (arith, ps.0, print_all-Opened (t ++ s) ss (opened-append t s ot ps.0) ps.1)

pub first-Opened :
    (s : Text) (ss : List Text) → opened s ≡ true → AllPlain ss → Opened (print_all [] (s ∷ ss))
unfolding print_all print
first-Opened s ss os ps = ground (arith, print_all-Opened s ss os ps)

pub print_last-Opened :
    (o : Option Text) (s : Text) → Opened o → plain s ≡ true → Opened (print_last o s)
print_last-Opened none s h ps = tt
print_last-Opened (some t) s h ps =
    opened-append t (take (max_length - length t - 1) s) h
      (plain-take (max_length - length t - 1) s ps)

-- A sentence that a receiver takes and that fits into the buffer, with the length that is handed on.
pub record IsValid (p : Text × ℕ) : Type 0 where
  pub is_received : is_some (received p.0) ≡ true
  pub one_less : p.1 + 1 ≡ length p.0
  pub fits : length p.0 < max_length

-- What is put, if anything, is valid.
abbrev pub PutValid : Option (Text × ℕ) → Type 0
PutValid none = Unit
PutValid (some p) = IsValid p

line-IsValid : (t : Text) → plain t ≡ true → length t ≤ 193 → IsValid (line_of t, length t + 5)
line-IsValid t pt room = record {
  is_received = ap is_some (received-line t pt);
  one_less = omega (arith, length-line_of t);
  fits = omega (arith, length-line_of t);
}

dollar-PutValid : (t : Text) → plain t ≡ true → PutValid (put_checksum (36 ∷ t))
dollar-PutValid t pt = elim (Bool-cases (ltb 193 (length t))) [
  | inl over ↦ subst PutValid (sym (put_checksum-over t (ground (arith, over)))) tt
  | inr room ↦
      subst PutValid (sym (put_checksum-line t (ground (arith, room))))
        (line-IsValid t pt (ground (arith, room)))
]

pub put_checksum-PutValid : (t : Text) → opened t ≡ true → PutValid (put_checksum t)
put_checksum-PutValid [] ot = absurd (not-opened ot)
put_checksum-PutValid (c ∷ t) ot =
    subst (λ d. PutValid (put_checksum (d ∷ t))) (ground (arith, ot))
      (dollar-PutValid t (ground (arith, ot)))
